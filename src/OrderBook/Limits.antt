-- ===== src/OrderBook/Limits.antt =====
-- No order trades at a worse price than its limit.
use llcpp_exchange.Prelude.{
  ℕ, ◌-◌, ◌≡◌, refl, inl, inr, Bool, true, false, ◌||◌, some, List, [], ◌∷◌, ◌++◌, arith, ltb, leb,
  ◌==◌, if◌then◌else◌, All, Bool-cases,
}
use llcpp_exchange.Types.{Side, is_buy}
use llcpp_exchange.Protocol.{MeClientRequest, MarketUpdateType}
use llcpp_exchange.OrderBook.State.{MeOrder, MeOrdersAtPrice, Chain, MeOrderBook, chain}
use llcpp_exchange.OrderBook.Spec.{fill_level, fill_chain, Filling, after_level}
use llcpp_exchange.OrderBook.Matching.{
  Event, response, update, Incoming, match_events, out_of_limit, order_update,
}
use llcpp_exchange.OrderBook.Requests.{add, incoming}
use llcpp_exchange.OrderBook.Invariant.{OrderOk, LevelOk}
use llcpp_exchange.OrderBook.RemoveOrder.{chain-ChainOk}
use llcpp_exchange.OrderBook.FillSteps.{passive_side}
use llcpp_exchange.OrderBook.Filling.{passive-IsTraded}
use llcpp_exchange.OrderBook.AddRequest.{Accepted}
use llcpp_exchange.OrderBook.Added.{add-Added, filling, remainder}

-- A trade is no worse than the limit for a buyer or a seller.
abbrev pub fair_trade : Side → ℕ → MarketUpdateType → ℕ → Bool
fair_trade s limit MarketUpdateType.trade p = if is_buy s then leb p limit else leb limit p
fair_trade s limit _ p = true

abbrev pub fair : Side → ℕ → Event → Bool
fair s limit (response r) = true
fair s limit (update u) = fair_trade s limit u.type u.price

abbrev pub AllFair : Side → ℕ → List Event → Type 0
AllFair s limit sent = All (λ e. fair s limit e ≡ true) sent

AllFair-append :
    (s : Side) (p : ℕ) (xs ys : List Event)
    → AllFair s p xs
    → AllFair s p ys
    → AllFair s p (xs ++ ys)
AllFair-append s p [] ys h k = k
AllFair-append s p (x ∷ xs) ys h k = (h.0, AllFair-append s p xs ys h.1 k)

match_events-AllFair :
    (i : Incoming) (o : MeOrder) (fill leaves : ℕ)
    → out_of_limit i.side i.price o.price ≡ false
    → AllFair i.side i.price (match_events i o fill leaves)
unfolding match_events
match_events-AllFair i o fill leaves limit = ground arith

fill_level-AllFair :
    (i : Incoming) (s : Side) (n p leaves : ℕ) (os : List MeOrder)
    → out_of_limit i.side i.price p ≡ false
    → All (OrderOk s p n) os
    → AllFair i.side i.price (fill_level i leaves os).2
unfolding fill_level
fill_level-AllFair i s n p leaves [] limit v = tt
fill_level-AllFair i s n p leaves (o ∷ os) limit v =
    let here : out_of_limit i.side i.price o.price ≡ false = rw v.0.1 limit in
    elim (Bool-cases (leaves == 0)) [
      | inl stop ↦ rw stop tt
      | inr on ↦ rw on elim (Bool-cases (ltb leaves o.qty)) [
        | inl less ↦ rw less (match_events-AllFair i o leaves 0 here)
        | inr enough ↦ rw enough (
            AllFair-append i.side i.price _ _ (match_events-AllFair i o o.qty (leaves - o.qty) here)
              (fill_level-AllFair i s n p (leaves - o.qty) os limit v.1))
      ]
    ]

after_level-AllFair :
    (s : Side) (p : ℕ) (l : MeOrdersAtPrice) (ls : Chain) (r : List MeOrder × ℕ × List Event)
    (rest : Filling)
    → AllFair s p r.2
    → AllFair s p rest.2
    → AllFair s p (after_level l ls r rest).2
after_level-AllFair s p l ls ([], leaves, sent) (ls', leaves', more) h k =
    AllFair-append s p sent more h k
after_level-AllFair s p l ls (o ∷ os, leaves, sent) rest h k = h

fill_chain-AllFair :
    (i : Incoming) (s : Side) (n leaves : ℕ) (ls : Chain)
    → All (LevelOk s n) ls
    → AllFair i.side i.price (fill_chain i leaves ls).2
unfolding fill_chain
fill_chain-AllFair i s n leaves [] v = tt
fill_chain-AllFair i s n leaves (l ∷ ls) v =
    elim (Bool-cases (leaves == 0 || out_of_limit i.side i.price l.price)) [
      | inl stop ↦ rw stop tt
      | inr on ↦ rw on (
          after_level-AllFair i.side i.price l ls (fill_level i leaves l.orders) _
            (fill_level-AllFair i s n l.price leaves l.orders (ground arith) v.0.orders)
            (fill_chain-AllFair i s n (fill_level i leaves l.orders).1 ls v.1))
    ]

-- On a sound book with unused ids and a free order block, `add` returns for every request on a
-- traded side that passes its checks, and announces no trade at a price above the limit of a buyer or
-- below that of a seller.
pub add-AllFair :
    (r : MeClientRequest) (b : MeOrderBook)
    → Accepted r b
    → (b' : MeOrderBook) × (sent : List Event) × (add r b ≡ some (b', sent))
      × AllFair r.side r.price sent
add-AllFair r b a =
    let (b', sent, e, added) = add-Added r b a in
    let side = passive_side r.side in
    let levels = (chain-ChainOk a.inv.links side (passive-IsTraded r.side)).1 in
    let fills =
      fill_chain-AllFair (incoming r b.next_market_order_id) side _ r.qty (chain side b) levels in
    let last : AllFair r.side r.price (
        if ltb 0 (filling r b).1
        then order_update MarketUpdateType.add r.ticker_id (remainder r b) (filling r b).1 ∷ []
        else []) =
      ground arith in
    (b', sent, e, rw added.messages (refl, AllFair-append r.side r.price _ _ fills last))

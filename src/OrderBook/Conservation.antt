-- ===== src/OrderBook/Conservation.antt =====
-- No quantity is made or lost by matching: what an incoming order takes is what the other side
-- loses and what the trades report.
use llcpp_exchange.Prelude.{
  ℕ, ◌+◌, ◌-◌, ◌≡◌, refl, ap, inl, inr, ◌||◌, some, List, [], ◌∷◌, arith, ltb, ◌==◌, if◌then◌else◌,
  sum_by, sum_by-append, Bool-cases,
}
use llcpp_exchange.Protocol.{MeClientRequest, MarketUpdateType}
use llcpp_exchange.OrderBook.State.{MeOrder, MeOrdersAtPrice, Chain, MeOrderBook, chain}
use llcpp_exchange.OrderBook.Spec.{fill_level, fill_chain, Filling, after_level, total}
use llcpp_exchange.OrderBook.Matching.{
  Event, response, update, Incoming, match_events, out_of_limit, order_update,
}
use llcpp_exchange.OrderBook.Requests.{add, incoming}
use llcpp_exchange.OrderBook.Insertion.{total-insert}
use llcpp_exchange.OrderBook.FillSteps.{passive_side}
use llcpp_exchange.OrderBook.AddRequest.{Accepted}
use llcpp_exchange.OrderBook.Added.{add-Added, filling, remainder}

-- The quantity of a trade that a message announces to the market.
abbrev pub trade_qty : MarketUpdateType → ℕ → ℕ
trade_qty MarketUpdateType.trade q = q
trade_qty _ q = 0

abbrev pub traded : Event → ℕ
traded (response r) = 0
traded (update u) = trade_qty u.type u.qty

abbrev pub open_qty : Chain → ℕ
open_qty ls = total (λ o. o.qty) ls

match_events-traded :
    (i : Incoming) (o : MeOrder) (fill leaves : ℕ)
    → sum_by traded (match_events i o fill leaves) ≡ fill
unfolding match_events
match_events-traded i o fill leaves = ground arith

fill_level-traded :
    (i : Incoming) (leaves : ℕ) (os : List MeOrder)
    → (sum_by (λ o. o.qty) (fill_level i leaves os).0 + sum_by traded (fill_level i leaves os).2
        ≡ sum_by (λ o. o.qty) os)
      × ((fill_level i leaves os).1 + sum_by traded (fill_level i leaves os).2 ≡ leaves)
unfolding fill_level
fill_level-traded i leaves [] = (refl, omega arith)
fill_level-traded i leaves (o ∷ os) = ground (
  arith,
  fill_level-traded i (leaves - o.qty) os,
  match_events-traded i o leaves 0,
  match_events-traded i o o.qty (leaves - o.qty),
  sum_by-append traded (match_events i o o.qty (leaves - o.qty))
      (fill_level i (leaves - o.qty) os).2,
)

after_level-traded :
    (l : MeOrdersAtPrice) (ls : Chain) (r : List MeOrder × ℕ × List Event) (rest : Filling)
    (q n : ℕ)
    → (sum_by (λ o. o.qty) r.0 + sum_by traded r.2 ≡ q)
    → (r.1 + sum_by traded r.2 ≡ n)
    → (open_qty rest.0 + sum_by traded rest.2 ≡ open_qty ls)
    → (rest.1 + sum_by traded rest.2 ≡ r.1)
    → (open_qty (after_level l ls r rest).0 + sum_by traded (after_level l ls r rest).2
        ≡ q + open_qty ls)
      × ((after_level l ls r rest).1 + sum_by traded (after_level l ls r rest).2 ≡ n)
after_level-traded l ls ([], leaves, sent) (ls', leaves', more) q n a b c d =
    (omega (arith, sum_by-append traded sent more), omega (arith, sum_by-append traded sent more))
after_level-traded l ls (o ∷ os, leaves, sent) rest q n a b c d = (omega arith, b)

fill_chain-traded :
    (i : Incoming) (leaves : ℕ) (ls : Chain)
    → (open_qty (fill_chain i leaves ls).0 + sum_by traded (fill_chain i leaves ls).2 ≡ open_qty ls)
      × ((fill_chain i leaves ls).1 + sum_by traded (fill_chain i leaves ls).2 ≡ leaves)
unfolding fill_chain
fill_chain-traded i leaves [] = (refl, omega arith)
fill_chain-traded i leaves (l ∷ ls) =
    elim (Bool-cases (leaves == 0 || out_of_limit i.side i.price l.price)) [
      | inl stop ↦ rw stop (omega arith, omega arith)
      | inr on ↦
          let (still, left) = fill_level-traded i leaves l.orders in
          let (rest, more) = fill_chain-traded i (fill_level i leaves l.orders).1 ls in
          rw on
            (after_level-traded l ls (fill_level i leaves l.orders) _ _ leaves still left rest more)
    ]

-- On a sound book with unused ids and a free order block, `add` returns for every request on a
-- traded side that passes its checks; the trades that it announces are what the opposite side loses,
-- and with what its own side gains they make up the quantity of the request.
pub add-conserves :
    (r : MeClientRequest) (b : MeOrderBook)
    → Accepted r b
    → (b' : MeOrderBook) × (sent : List Event) × (add r b ≡ some (b', sent))
      × (open_qty (chain (passive_side r.side) b') + sum_by traded sent
          ≡ open_qty (chain (passive_side r.side) b))
      × (open_qty (chain r.side b') + sum_by traded sent ≡ open_qty (chain r.side b) + r.qty)
add-conserves r b a =
    let (b', sent, e, added) = add-Added r b a in
    let (still, left) =
      fill_chain-traded (incoming r b.next_market_order_id) r.qty (chain (passive_side r.side) b) in
    let announced : sum_by traded sent ≡ sum_by traded (filling r b).2 = ground (
      arith,
      ap (sum_by traded) added.messages,
      sum_by-append traded (filling r b).2 (
          if ltb 0 (filling r b).1
          then order_update MarketUpdateType.add r.ticker_id (remainder r b) (filling r b).1 ∷ []
          else []),
    ) in
    (
      b',
      sent,
      e,
      rw (announced, added.opposite) still,
      ground (
        arith,
        announced,
        left,
        ap open_qty added.own,
        total-insert (λ o. o.qty) (remainder r b) (chain r.side b),
      ),
    )

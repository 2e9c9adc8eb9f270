-- ===== src/MarketOrderBook/Loop.antt =====
-- A client's book follows the matching loop.
use llcpp_exchange.Prelude.{
  ℕ, zero, suc, ◌≤◌, ◌<◌, ◌≡◌, refl, sym, ap, subst, ◌∙◌, false, List, [], ◌∷◌, arith, ◌==◌, All,
  Bool-cases, inl, inr,
}
use llcpp_exchange.Types.{me_max_order_ids}
use llcpp_exchange.OrderBook.State.{MeOrder, MeOrdersAtPrice, Chain, MeOrderBook, chain}
use llcpp_exchange.OrderBook.Invariant.{LevelOk, Links}
use llcpp_exchange.OrderBook.Matching.{
  Event, Incoming, match_order, out_of_limit, match_loop, check_for_match, and_then,
}
use llcpp_exchange.OrderBook.RemoveOrder.{chain-ChainOk}
use llcpp_exchange.OrderBook.MatchStep.{PoolOk}
use llcpp_exchange.OrderBook.MatchLoop.{loop_stop, loop_go, loop_done}
use llcpp_exchange.OrderBook.FillSteps.{passive_side}
use llcpp_exchange.OrderBook.Filling.{
  passive-IsTraded, opposite-chain, head-IsTraded, head-IsLive, head-Shrinks,
}
use llcpp_exchange.MarketOrderBook.Book.{MarketOrderBook}
use llcpp_exchange.MarketOrderBook.Mirror.{Mirrors}
use llcpp_exchange.MarketOrderBook.Steps.{apply_events, apply_events-append, Follows}
use llcpp_exchange.MarketOrderBook.Follow.{match_order-Follows}

nothing_sent : (b : MeOrderBook) (k : MarketOrderBook) → Mirrors b k → Follows b (apply_events [] k)
unfolding apply_events
nothing_sent b k h = (k, refl, h)

abbrev Loops : ℕ → Type 0
Loops rounds =
    (i : Incoming) (b : MeOrderBook) (leaves : ℕ) (k : MarketOrderBook)
    → Links b
    → PoolOk b
    → b.next_market_order_id ≤ me_max_order_ids
    → Mirrors b k
    → Follows (match_loop rounds i leaves b).0 (apply_events (match_loop rounds i leaves b).2 k)

module _ (rounds : ℕ) (ih : Loops rounds) (i : Incoming) (b : MeOrderBook) (leaves : ℕ)
    (k : MarketOrderBook) (v : Links b) (w : PoolOk b)
    (bound : b.next_market_order_id ≤ me_max_order_ids) (h : Mirrors b k) where
  round-order :
      (l : MeOrdersAtPrice) (o : MeOrder) (os : List MeOrder) (ls : Chain)
      → chain (passive_side i.side) b ≡ record l { orders = o ∷ os } ∷ ls
      → (let r =
            and_then
              (match_order i o leaves b).2
              (match_loop rounds i (match_order i o leaves b).1 (match_order i o leaves b).0) in
          Follows r.0 (apply_events r.2 k))
  round-order l o os ls e =
      let ok =
        subst (λ c. All (LevelOk (passive_side i.side) b.next_market_order_id) c) e
          (chain-ChainOk v (passive_side i.side) (passive-IsTraded i.side)).1 in
      let young = ok.0.orders.0.2 in
      let small : o.market_order_id < me_max_order_ids = omega arith in
      let step = head-Shrinks i v w leaves l o os ls e in
      let c = (match_order i o leaves b).0 in
      let n = (match_order i o leaves b).1 in
      let sent = (match_order i o leaves b).2 in
      let (k', e', h') =
        match_order-Follows v o (head-IsTraded i v w leaves l o os ls e)
          (head-IsLive i v w leaves l o os ls e) small k h i leaves in
      let next = step.next_id in
      let (k'', e'', h'') = ih i c n k' step.links step.pool (omega arith) h' in
      (k'', apply_events-append sent (match_loop rounds i n c).2 k k' e' ∙ e'', h'')

  round-level :
      (l : MeOrdersAtPrice) (ls : Chain) (os : List MeOrder)
      → l.orders ≡ os
      → chain (passive_side i.side) b ≡ l ∷ ls
      → (leaves == 0) ≡ false
      → out_of_limit i.side i.price l.price ≡ false
      → Follows
          (match_loop (suc rounds) i leaves b).0
          (apply_events (match_loop (suc rounds) i leaves b).2 k)
  round-level l ls [] none_there e more limit =
      let ok =
        subst (λ c. All (LevelOk (passive_side i.side) b.next_market_order_id) c) e
          (chain-ChainOk v (passive_side i.side) (passive-IsTraded i.side)).1 in
      absurd (ok.0.occupied none_there)
  round-level l ls (o ∷ os) there e more limit =
      let e' : chain (passive_side i.side) b ≡ record l { orders = o ∷ os } ∷ ls =
        e ∙ ap (λ (ps : List MeOrder). record l { orders = ps } ∷ ls) there in
      subst (λ (r : MeOrderBook × ℕ × List Event). Follows r.0 (apply_events r.2 k))
        (sym (loop_go i rounds leaves b o more (rw (opposite-chain i.side b, e', limit))))
        (round-order l o os ls e')

  stopped :
      match_loop (suc rounds) i leaves b ≡ (b, leaves, [])
      → Follows
          (match_loop (suc rounds) i leaves b).0
          (apply_events (match_loop (suc rounds) i leaves b).2 k)
  stopped e =
      subst (λ (r : MeOrderBook × ℕ × List Event). Follows r.0 (apply_events r.2 k)) (sym e)
        (nothing_sent b k h)

  round :
      (c : Chain)
      → chain (passive_side i.side) b ≡ c
      → Follows
          (match_loop (suc rounds) i leaves b).0
          (apply_events (match_loop (suc rounds) i leaves b).2 k)
  round [] e = stopped (loop_stop i rounds leaves b (rw (opposite-chain i.side b, e)))
  round (l ∷ ls) e = elim (Bool-cases (out_of_limit i.side i.price l.price)) [
    | inl limit ↦ stopped (loop_stop i rounds leaves b (rw (opposite-chain i.side b, e, limit)))
    | inr limit ↦ elim (Bool-cases (leaves == 0)) [
      | inr more ↦ round-level l ls l.orders refl e more limit
      | inl done ↦
          let zero_left : leaves ≡ 0 = ground arith in
          stopped (
            ap (λ n. match_loop (suc rounds) i n b) zero_left
            ∙ (loop_done i rounds b ∙ ap (λ n. (b, n, [])) (sym zero_left)))
    ]
  ]

match_loop-Follows : (rounds : ℕ) → Loops rounds
unfolding match_loop
match_loop-Follows zero i b leaves k v w bound h = nothing_sent b k h
match_loop-Follows (suc rounds) i b leaves k v w bound h =
    round rounds (match_loop-Follows rounds) i b leaves k v w bound h
      (chain (passive_side i.side) b) refl

pub check_for_match-Follows :
    (i : Incoming) (b : MeOrderBook) (qty : ℕ) (k : MarketOrderBook)
    → Links b
    → PoolOk b
    → b.next_market_order_id ≤ me_max_order_ids
    → Mirrors b k
    → Follows (check_for_match i qty b).0 (apply_events (check_for_match i qty b).2 k)
unfolding check_for_match
check_for_match-Follows i b qty k v w bound h = match_loop-Follows qty i b qty k v w bound h

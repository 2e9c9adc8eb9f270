-- ===== src/OrderBook/MatchLoop.antt =====
-- `checkForMatch` stops by itself within as many rounds as there are units to fill, and does what
-- `fill_chain` of the specification does.
use llcpp_exchange.Prelude.{
  ℕ, zero, suc, ◌-◌, ◌≤◌, ◌<◌, ◌≡◌, refl, sym, ◌∙◌, ap, subst, inl, inr, false, none, some, List,
  [], ◌∷◌, arith, min, ◌==◌, All, Bool-cases,
}
use llcpp_exchange.OrderBook.State.{MeOrder, MeOrdersAtPrice, Chain, MeOrderBook, chain}
use llcpp_exchange.OrderBook.Invariant.{LevelOk, Links, Positive}
use llcpp_exchange.OrderBook.Matching.{
  Incoming, match_order, next_passive, opposite, out_of_limit, match_loop, check_for_match,
  and_then,
}
use llcpp_exchange.OrderBook.RemoveOrder.{chain-ChainOk}
use llcpp_exchange.OrderBook.MatchStep.{remaining, PoolOk}
use llcpp_exchange.OrderBook.Filling.{
  passive-IsTraded, opposite-chain, Filled, head-Filled, head-Shrinks, head-chain, stop-Filled,
  fill_empty, fill_limit,
}
use llcpp_exchange.OrderBook.FillSteps.{passive_side, head-Positive, fill_none}

pub loop_stop :
    (i : Incoming) (rounds leaves : ℕ) (b : MeOrderBook)
    → next_passive i.side i.price (opposite i.side b) ≡ none
    → match_loop (suc rounds) i leaves b ≡ (b, leaves, [])
unfolding match_loop
loop_stop i rounds leaves b e = ground arith

pub loop_go :
    (i : Incoming) (rounds leaves : ℕ) (b : MeOrderBook) (o : MeOrder)
    → (leaves == 0) ≡ false
    → next_passive i.side i.price (opposite i.side b) ≡ some o
    → match_loop (suc rounds) i leaves b
      ≡ and_then
          (match_order i o leaves b).2
          (match_loop rounds i (match_order i o leaves b).1 (match_order i o leaves b).0)
unfolding match_loop
loop_go i rounds leaves b o more e = ground arith

pub loop_done :
    (i : Incoming) (rounds : ℕ) (b : MeOrderBook) → match_loop (suc rounds) i 0 b ≡ (b, 0, [])
unfolding match_loop
loop_done i rounds b = refl

-- The rule of one round: how the loop goes on is given for every book.
abbrev Loops : ℕ → Type 0
Loops rounds =
    (i : Incoming) (b : MeOrderBook) (leaves : ℕ)
    → Links b
    → PoolOk b
    → Positive (chain (passive_side i.side) b)
    → leaves ≤ rounds
    → Filled i b leaves (match_loop rounds i leaves b)

module _ (rounds : ℕ) (ih : Loops rounds) (i : Incoming) (b : MeOrderBook) (leaves : ℕ)
    (v : Links b) (w : PoolOk b) (pos : Positive (chain (passive_side i.side) b))
    (enough : leaves ≤ suc rounds) where
  round-order :
      (l : MeOrdersAtPrice) (o : MeOrder) (os : List MeOrder) (ls : Chain)
      → chain (passive_side i.side) b ≡ record l { orders = o ∷ os } ∷ ls
      → 0 < leaves
      → out_of_limit i.side i.price l.price ≡ false
      → Filled i b leaves (
          and_then
            (match_order i o leaves b).2
            (match_loop rounds i (match_order i o leaves b).1 (match_order i o leaves b).0))
  unfolding match_order
  round-order l o os ls e positive limit =
      let step = head-Shrinks i v w leaves l o os ls e in
      let orders = subst Positive e pos in
      let left = head-Positive (remaining o leaves) l o os ls orders in
      let taken : 0 < o.qty = orders.0.0 in
      head-Filled i v w leaves l o os ls e limit positive _ (
        ih i (match_order i o leaves b).0 (leaves - min leaves o.qty) step.links step.pool
          (subst Positive (sym (head-chain i v w leaves l o os ls e)) left) (omega arith))

  round-level :
      (l : MeOrdersAtPrice) (ls : Chain) (os : List MeOrder)
      → l.orders ≡ os
      → chain (passive_side i.side) b ≡ l ∷ ls
      → (leaves == 0) ≡ false
      → out_of_limit i.side i.price l.price ≡ false
      → Filled i b leaves (match_loop (suc rounds) i leaves b)
  round-level l ls [] none_there e more limit =
      let ok =
        subst (λ c. All (LevelOk (passive_side i.side) b.next_market_order_id) c) e
          (chain-ChainOk v (passive_side i.side) (passive-IsTraded i.side)).1 in
      absurd (ok.0.occupied none_there)
  round-level l ls (o ∷ os) there e more limit =
      let e' : chain (passive_side i.side) b ≡ record l { orders = o ∷ os } ∷ ls =
        e ∙ ap (λ (ps : List MeOrder). record l { orders = ps } ∷ ls) there in
      subst (Filled i b leaves)
        (sym (loop_go i rounds leaves b o more (rw (opposite-chain i.side b, e', limit))))
        (round-order l o os ls e' (ground arith) limit)

  round :
      (c : Chain)
      → chain (passive_side i.side) b ≡ c
      → Filled i b leaves (match_loop (suc rounds) i leaves b)
  round [] e =
      subst (Filled i b leaves)
        (sym (loop_stop i rounds leaves b (rw (opposite-chain i.side b, e))))
        (stop-Filled i v w leaves pos (rw e (fill_empty i leaves)))
  round (l ∷ ls) e = elim (Bool-cases (out_of_limit i.side i.price l.price)) [
    | inl limit ↦
        subst (Filled i b leaves)
          (sym (loop_stop i rounds leaves b (rw (opposite-chain i.side b, e, limit))))
          (stop-Filled i v w leaves pos (rw e (fill_limit i leaves l ls limit)))
    | inr limit ↦ elim (Bool-cases (leaves == 0)) [
      | inr more ↦ round-level l ls l.orders refl e more limit
      | inl done ↦
          let zero_left : leaves ≡ 0 = ground arith in
          rw (zero_left, loop_done i rounds b)
            (stop-Filled i v w 0 pos (fill_none i (chain (passive_side i.side) b)))
    ]
  ]

match_loop-Filled : (rounds : ℕ) → Loops rounds
unfolding match_loop
match_loop-Filled zero i b leaves v w pos enough =
    let zero_left : leaves ≡ 0 = omega arith in
    rw zero_left (stop-Filled i v w 0 pos (fill_none i (chain (passive_side i.side) b)))
match_loop-Filled (suc rounds) i b leaves v w pos enough =
    round rounds (match_loop-Filled rounds) i b leaves v w pos enough
      (chain (passive_side i.side) b) refl

-- On a book whose parts and pool agree, with no empty order on the opposite side, matching comes to
-- an end within as many rounds as the quantity has units: it leaves, reports and sends what filling
-- the opposite side by price-time priority does, and the book's parts agree again.
pub check_for_match-Filled :
    (i : Incoming) (b : MeOrderBook) (qty : ℕ)
    → Links b
    → PoolOk b
    → Positive (chain (passive_side i.side) b)
    → Filled i b qty (check_for_match i qty b)
unfolding check_for_match
check_for_match-Filled i b qty v w pos = match_loop-Filled qty i b qty v w pos (omega arith)

-- ===== src/OrderBook/FillSteps.antt =====
-- How filling goes on from one order to the next, and from one level to the next.
use mathlib.Core.List.{append-nil, append_assoc}
use llcpp_exchange.Prelude.{
  ℕ, zero, suc, ◌-◌, ◌≤◌, ◌<◌, ◌≡◌, refl, inl, inr, true, false, List, [], ◌∷◌, ◌++◌, arith, min,
  ltb, ◌==◌, if◌then◌else◌, All, Bool-cases, ==_refl,
}
use llcpp_exchange.Types.{Side, is_buy}
use llcpp_exchange.OrderBook.State.{MeOrder, MeOrdersAtPrice, Chain}
use llcpp_exchange.OrderBook.Spec.{
  prepend, drop_order, fill_level, fill_chain, Filling, after_level,
}
use llcpp_exchange.OrderBook.Invariant.{Positive}
use llcpp_exchange.OrderBook.Matching.{Event, Incoming, set_qty, match_events, out_of_limit}
use llcpp_exchange.OrderBook.QtyWrite.{with_qty}
use llcpp_exchange.OrderBook.MatchStep.{remaining}

-- The side that an incoming order is matched against.
abbrev pub passive_side : Side → Side
passive_side s = if is_buy s then Side.sell else Side.buy

abbrev pub and_sent : List Event → Filling → Filling
and_sent sent (ls, leaves, more) = (ls, leaves, sent ++ more)

pub fill_none : (i : Incoming) (ls : Chain) → fill_chain i 0 ls ≡ (ls, 0, [])
unfolding fill_chain
fill_none i [] = refl
fill_none i (l ∷ ls) = refl

fill_partly :
    (i : Incoming) (leaves : ℕ) (l : MeOrdersAtPrice) (o : MeOrder) (os : List MeOrder) (ls : Chain)
    → out_of_limit i.side i.price l.price ≡ false
    → 0 < leaves
    → leaves < o.qty
    → fill_chain i leaves (record l { orders = o ∷ os } ∷ ls)
      ≡ (record l { orders = with_qty (o.qty - leaves) o ∷ os } ∷ ls, 0, match_events i o leaves 0)
unfolding fill_chain
fill_partly i leaves l o os ls limit pos less = ground arith

fill_level-cons :
    (i : Incoming) (leaves : ℕ) (o : MeOrder) (os : List MeOrder)
    → 0 < leaves
    → o.qty ≤ leaves
    → fill_level i leaves (o ∷ os) ≡ (
      (fill_level i (leaves - o.qty) os).0,
      (fill_level i (leaves - o.qty) os).1,
      match_events i o o.qty (leaves - o.qty) ++ (fill_level i (leaves - o.qty) os).2,
    )
unfolding fill_level
fill_level-cons i leaves o os pos enough = ground arith

after_level-append :
    (l : MeOrdersAtPrice) (ls : Chain) (sent : List Event) (r : List MeOrder × ℕ × List Event)
    (rest : Filling)
    → after_level l ls (r.0, r.1, sent ++ r.2) rest ≡ and_sent sent (after_level l ls r rest)
after_level-append l ls sent ([], leaves, more) (ls', leaves', most) =
    rw (append_assoc sent more most)
after_level-append l ls sent (o ∷ os, leaves, more) rest = refl

fill_chain-cons :
    (i : Incoming) (leaves : ℕ) (l : MeOrdersAtPrice) (ls : Chain)
    → out_of_limit i.side i.price l.price ≡ false
    → 0 < leaves
    → fill_chain i leaves (l ∷ ls)
      ≡ after_level l ls
          (fill_level i leaves l.orders)
          (fill_chain i (fill_level i leaves l.orders).1 ls)
unfolding fill_chain
fill_chain-cons i leaves l ls limit pos = ground arith

fill_prepend :
    (i : Incoming) (leaves : ℕ) (l : MeOrdersAtPrice) (os : List MeOrder) (ls : Chain)
    → out_of_limit i.side i.price l.price ≡ false
    → fill_chain i leaves (prepend os l ls)
      ≡ after_level l ls (fill_level i leaves os) (fill_chain i (fill_level i leaves os).1 ls)
unfolding prepend fill_level
fill_prepend i leaves l [] ls limit = refl
fill_prepend i zero l (p ∷ os) ls limit = fill_none i (record l { orders = p ∷ os } ∷ ls)
fill_prepend i (suc leaves) l (p ∷ os) ls limit =
    fill_chain-cons i (suc leaves) (record l { orders = p ∷ os }) ls limit (omega arith)

fill_wholly :
    (i : Incoming) (leaves : ℕ) (l : MeOrdersAtPrice) (o : MeOrder) (os : List MeOrder) (ls : Chain)
    → out_of_limit i.side i.price l.price ≡ false
    → 0 < leaves
    → o.qty ≤ leaves
    → fill_chain i leaves (record l { orders = o ∷ os } ∷ ls)
      ≡ and_sent
          (match_events i o o.qty (leaves - o.qty))
          (fill_chain i (leaves - o.qty) (prepend os l ls))
fill_wholly i leaves l o os ls limit pos enough =
    rw
      (
        fill_chain-cons i leaves (record l { orders = o ∷ os }) ls limit pos,
        fill_level-cons i leaves o os pos enough,
        fill_prepend i (leaves - o.qty) l os ls limit,
      )
      (after_level-append l ls (match_events i o o.qty (leaves - o.qty))
        (fill_level i (leaves - o.qty) os) (fill_chain i (fill_level i (leaves - o.qty) os).1 ls))

-- What one match leaves of a side whose best order is `o`.
abbrev pub after_head : ℕ → MeOrdersAtPrice → MeOrder → List MeOrder → Chain → Chain
after_head q l o os ls =
    if q == 0 then prepend os l ls else record l { orders = with_qty q o ∷ os } ∷ ls

pub fill_round :
    (i : Incoming) (leaves : ℕ) (l : MeOrdersAtPrice) (o : MeOrder) (os : List MeOrder) (ls : Chain)
    → out_of_limit i.side i.price l.price ≡ false
    → 0 < leaves
    → fill_chain i leaves (record l { orders = o ∷ os } ∷ ls)
      ≡ and_sent
          (match_events i o (min leaves o.qty) (leaves - min leaves o.qty))
          (fill_chain i (leaves - min leaves o.qty) (after_head (remaining o leaves) l o os ls))
fill_round i leaves l o os ls limit pos = elim (Bool-cases (ltb leaves o.qty)) [
  | inl less ↦
      let all_of_it : min leaves o.qty ≡ leaves = ground arith in
      let left : ((o.qty - leaves) == 0) ≡ false = ground arith in
      let none_left : leaves - leaves ≡ 0 = omega arith in
      rw (
        fill_partly i leaves l o os ls limit pos (ground arith),
        all_of_it,
        left,
        none_left,
        fill_none i (record l { orders = with_qty (o.qty - leaves) o ∷ os } ∷ ls),
        append-nil (match_events i o leaves 0),
      )
  | inr enough ↦
      let its_qty : min leaves o.qty ≡ o.qty = ground arith in
      let gone : ((o.qty - o.qty) == 0) ≡ true = ground arith in
      rw (fill_wholly i leaves l o os ls limit pos (ground arith), its_qty, gone)
]

-- The code's relinking, at the best order.
pub head-drop :
    (q : ℕ) (l : MeOrdersAtPrice) (o : MeOrder) (os : List MeOrder) (ls : Chain)
    → (if q == 0
        then drop_order o.market_order_id
            (set_qty o.market_order_id q (record l { orders = o ∷ os } ∷ ls))
        else set_qty o.market_order_id q (record l { orders = o ∷ os } ∷ ls))
      ≡ after_head q l o os ls
unfolding drop_order set_qty prepend
head-drop q l o [] ls = ground (arith, ==_refl o.market_order_id)
head-drop q l o (p ∷ os) ls = ground (arith, ==_refl o.market_order_id)

prepend-Positive :
    (l : MeOrdersAtPrice) (os : List MeOrder) (ls : Chain)
    → All (λ o. 0 < o.qty) os
    → Positive ls
    → Positive (prepend os l ls)
unfolding prepend
prepend-Positive l [] ls h k = k
prepend-Positive l (o ∷ os) ls h k = (h, k)

pub head-Positive :
    (q : ℕ) (l : MeOrdersAtPrice) (o : MeOrder) (os : List MeOrder) (ls : Chain)
    → Positive (record l { orders = o ∷ os } ∷ ls)
    → Positive (after_head q l o os ls)
head-Positive q l o os ls h = elim (Bool-cases (q == 0)) [
  | inl gone ↦ rw gone (prepend-Positive l os ls h.0.1 h.1)
  | inr kept ↦ rw kept ((ground arith, h.0.1), h.1)
]

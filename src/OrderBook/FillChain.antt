-- ===== src/OrderBook/FillChain.antt =====
-- What filling does to a side: its prices stay among those that it had, and what is left of the
-- quantity finds no order within the limit.
use llcpp_exchange.Prelude.{
  ℕ, ◌-◌, ◌≤◌, ◌<◌, ◌≡◌, refl, inl, inr, true, ◌||◌, List, [], ◌∷◌, arith, ◌==◌, All, sum_by,
  Bool-cases,
}
use llcpp_exchange.Types.{Side}
use llcpp_exchange.OrderBook.State.{MeOrder, MeOrdersAtPrice, Chain}
use llcpp_exchange.OrderBook.Spec.{
  prepend, drop_order, insert_order, fill_level, fill_chain, Filling, after_level,
}
use llcpp_exchange.OrderBook.Chains.{has_id, erase_id, new_level, should_advance}
use llcpp_exchange.OrderBook.Invariant.{Better, Sorted, at_price}
use llcpp_exchange.OrderBook.Matching.{Event, Incoming, out_of_limit}
use llcpp_exchange.OrderBook.Insertion.{Better-trans_All}
use llcpp_exchange.OrderBook.FillSteps.{passive_side}

module _ (P : ℕ → Type 0) where
  abbrev Prices : Chain → Type 0
  Prices ls = All (λ l. P l.price) ls

  after_level-Prices :
      (l : MeOrdersAtPrice) (ls : Chain) (r : List MeOrder × ℕ × List Event) (rest : Filling)
      → Prices (l ∷ ls)
      → Prices rest.0
      → Prices (after_level l ls r rest).0
  after_level-Prices l ls ([], leaves, sent) rest a h = h
  after_level-Prices l ls (o ∷ os, leaves, sent) rest a h = a

  pub fill-Prices :
      (i : Incoming) (leaves : ℕ) (ls : Chain) → Prices ls → Prices (fill_chain i leaves ls).0
  unfolding fill_chain
  fill-Prices i leaves [] a = tt
  fill-Prices i leaves (l ∷ ls) a =
      elim (Bool-cases (leaves == 0 || out_of_limit i.side i.price l.price)) [
        | inl stop ↦ rw stop a
        | inr on ↦ rw on (
            after_level-Prices l ls (fill_level i leaves l.orders) _ a
              (fill-Prices i (fill_level i leaves l.orders).1 ls a.1))
      ]

  prepend-Prices :
      (os : List MeOrder) (l : MeOrdersAtPrice) (ls : Chain)
      → Prices (l ∷ ls)
      → Prices (prepend os l ls)
  unfolding prepend
  prepend-Prices [] l ls a = a.1
  prepend-Prices (o ∷ os) l ls a = a

  pub drop-Prices : (m : ℕ) (ls : Chain) → Prices ls → Prices (drop_order m ls)
  unfolding drop_order
  drop-Prices m [] a = tt
  drop-Prices m (l ∷ ls) a = elim (Bool-cases (has_id m l.orders)) [
    | inl here ↦ rw here (prepend-Prices (erase_id m l.orders) l ls a)
    | inr later ↦ rw later (a.0, drop-Prices m ls a.1)
  ]

  pub insert-Prices :
      (o : MeOrder) (ls : Chain) → P o.price → Prices ls → Prices (insert_order o ls)
  unfolding insert_order
  insert-Prices o [] h a = (h, tt)
  insert-Prices o (l ∷ ls) h a = elim (Bool-cases (l.price == o.price)) [
    | inl same ↦ rw same a
    | inr other ↦ elim (Bool-cases (should_advance (new_level o) l)) [
      | inl on ↦ rw (other, on) (a.0, insert-Prices o ls h a.1)
      | inr stop ↦ rw (other, stop) (h, a)
    ]
  ]

-- No level, or the best one is out of the limit.
abbrev pub Exhausted : Incoming → Chain → Type 0
Exhausted i [] = Unit
Exhausted i (l ∷ ls) = out_of_limit i.side i.price l.price ≡ true

fill_level-le :
    (i : Incoming) (leaves : ℕ) (os : List MeOrder) → (fill_level i leaves os).1 ≤ leaves
unfolding fill_level
fill_level-le i leaves [] = omega arith
fill_level-le i leaves (o ∷ os) = ground (arith, fill_level-le i (leaves - o.qty) os)

fill_level-left :
    (i : Incoming) (leaves : ℕ) (os : List MeOrder)
    → 0 < leaves
    → 0 < (fill_level i leaves os).1
    → (fill_level i leaves os).0 ≡ []
unfolding fill_level
fill_level-left i leaves [] k h = refl
fill_level-left i leaves (o ∷ os) k h =
    ground (arith, fill_level-left i (leaves - o.qty) os, fill_level-le i (leaves - o.qty) os)

after_level-Exhausted :
    (i : Incoming) (l : MeOrdersAtPrice) (ls : Chain) (r : List MeOrder × ℕ × List Event)
    (rest : Filling)
    → (0 < r.1 → r.0 ≡ [])
    → (0 < rest.1 → Exhausted i rest.0)
    → 0 < (after_level l ls r rest).1
    → Exhausted i (after_level l ls r rest).0
after_level-Exhausted i l ls ([], leaves, sent) rest none_left stop h = stop h
after_level-Exhausted i l ls (o ∷ os, leaves, sent) rest none_left stop h = cc (none_left h)

-- A quantity is left only when the limit or the end of the side is reached.
pub fill-Exhausted :
    (i : Incoming) (leaves : ℕ) (ls : Chain)
    → 0 < (fill_chain i leaves ls).1
    → Exhausted i (fill_chain i leaves ls).0
unfolding fill_chain
fill-Exhausted i leaves [] h = tt
fill-Exhausted i leaves (l ∷ ls) h = elim (Bool-cases (leaves == 0)) [
  | inl done ↦ absurd (let left : 0 < leaves = rw done at h in ground arith)
  | inr more ↦ elim (Bool-cases (out_of_limit i.side i.price l.price)) [
    | inl limit ↦ rw (more, limit) limit
    | inr on ↦
        rw (more, on)
          (after_level-Exhausted i l ls (fill_level i leaves l.orders)
            (fill_chain i (fill_level i leaves l.orders).1 ls)
            (fill_level-left i leaves l.orders (ground arith))
            (fill-Exhausted i (fill_level i leaves l.orders).1 ls) (rw (more, on) at h))
  ]
]

limit-Better : (s : Side) (p q : ℕ) → out_of_limit s p q ≡ true → Better (passive_side s) p q
limit-Better Side.buy p q h = ground arith
limit-Better Side.sell p q h = ground arith
limit-Better Side.invalid p q h = ground arith
limit-Better Side.max p q h = ground arith

-- Beyond the limit price of the incoming order there is the whole of an exhausted side.
pub Exhausted-Better :
    (i : Incoming) (ls : Chain)
    → Sorted (passive_side i.side) ls
    → Exhausted i ls
    → All (λ k. Better (passive_side i.side) i.price k.price) ls
Exhausted-Better i [] v h = tt
Exhausted-Better i (l ∷ ls) v h =
    let first = limit-Better i.side i.price l.price h in
    (first, Better-trans_All (passive_side i.side) i.price l.price ls first v.0)

pub at_price-zero :
    (s : Side) (p : ℕ) (ls : Chain) → All (λ k. Better s p k.price) ls → sum_by (at_price p) ls ≡ 0
at_price-zero s p [] a = refl
at_price-zero s p (l ∷ ls) a = ground (arith, at_price-zero s p ls)

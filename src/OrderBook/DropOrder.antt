-- ===== src/OrderBook/DropOrder.antt =====
-- What taking an order out of a side leaves: a sorted side, with its prices and quantities.
use llcpp_exchange.Prelude.{
  ℕ, ◌+◌, ◌<◌, ◌≡◌, refl, sym, ◌∙◌, ap, inl, inr, true, false, some, List, [], ◌∷◌, arith, ◌==◌,
  All, sum_by, Bool-cases, Option-cases,
}
use llcpp_exchange.Types.{Side}
use llcpp_exchange.OrderBook.State.{MeOrder, MeOrdersAtPrice, Chain, find_in_level, find_order}
use llcpp_exchange.OrderBook.Chains.{has_id, erase_id, ring_of, is_alone}
use llcpp_exchange.OrderBook.Spec.{prepend, drop_order}
use llcpp_exchange.OrderBook.Invariant.{
  Better, OrderOk, LevelOk, Sorted, ChainOk, at_price, Positive,
}
use llcpp_exchange.OrderBook.Removal.{
  has-find, has-find_none, find-OrderOk, erase-OrderOk, erase-alone, erase-crowd,
}

prepend-Sorted :
    (s : Side) (os : List MeOrder) (l : MeOrdersAtPrice) (ls : Chain)
    → Sorted s (l ∷ ls)
    → Sorted s (prepend os l ls)
unfolding prepend
prepend-Sorted s [] l ls v = v.1
prepend-Sorted s (o ∷ os) l ls v = v

prepend-Better :
    (s : Side) (p : ℕ) (os : List MeOrder) (l : MeOrdersAtPrice) (ls : Chain)
    → All (λ k. Better s p k.price) (l ∷ ls)
    → All (λ k. Better s p k.price) (prepend os l ls)
unfolding prepend
prepend-Better s p [] l ls v = v.1
prepend-Better s p (o ∷ os) l ls v = v

prepend-LevelOk :
    (s : Side) (n : ℕ) (os : List MeOrder) (l : MeOrdersAtPrice) (ls : Chain)
    → All (LevelOk s n) (l ∷ ls)
    → All (OrderOk s l.price n) os
    → All (LevelOk s n) (prepend os l ls)
unfolding prepend
prepend-LevelOk s n [] l ls v a = v.1
prepend-LevelOk s n (o ∷ os) l ls v a =
    (record { side = v.0.side; occupied = λ e. cc; orders = a }, v.1)

pub drop-Better :
    (s : Side) (p m : ℕ) (ls : Chain)
    → All (λ k. Better s p k.price) ls
    → All (λ k. Better s p k.price) (drop_order m ls)
unfolding drop_order
drop-Better s p m [] v = tt
drop-Better s p m (l ∷ ls) v = elim (Bool-cases (has_id m l.orders)) [
  | inl here ↦ rw here (prepend-Better s p (erase_id m l.orders) l ls v)
  | inr later ↦ rw later (v.0, drop-Better s p m ls v.1)
]

drop-Sorted : (s : Side) (m : ℕ) (ls : Chain) → Sorted s ls → Sorted s (drop_order m ls)
unfolding drop_order
drop-Sorted s m [] v = tt
drop-Sorted s m (l ∷ ls) v = elim (Bool-cases (has_id m l.orders)) [
  | inl here ↦ rw here (prepend-Sorted s (erase_id m l.orders) l ls v)
  | inr later ↦ rw later (drop-Better s l.price m ls v.0, drop-Sorted s m ls v.1)
]

drop-LevelOk :
    (s : Side) (n m : ℕ) (ls : Chain) → All (LevelOk s n) ls → All (LevelOk s n) (drop_order m ls)
unfolding drop_order
drop-LevelOk s n m [] v = tt
drop-LevelOk s n m (l ∷ ls) v = elim (Bool-cases (has_id m l.orders)) [
  | inl here ↦ rw here (
      prepend-LevelOk s n (erase_id m l.orders) l ls v
        (erase-OrderOk s l.price n m l.orders v.0.orders))
  | inr later ↦ rw later (v.0, drop-LevelOk s n m ls v.1)
]

pub drop-ChainOk :
    (s : Side) (n m : ℕ) (ls : Chain) → ChainOk s n ls → ChainOk s n (drop_order m ls)
drop-ChainOk s n m ls v = (drop-Sorted s m ls v.0, drop-LevelOk s n m ls v.1)

-- A measure of the levels by their prices.
pub prices-drop :
    (g : ℕ → ℕ) (s : Side) (n m : ℕ) (ls : Chain)
    → All (LevelOk s n) ls
    → is_alone (ring_of m ls) ≡ false
    → sum_by (λ l. g l.price) (drop_order m ls) ≡ sum_by (λ l. g l.price) ls
unfolding drop_order ring_of
prices-drop g s n m [] v a = refl
prices-drop g s n m (l ∷ ls) v a = elim (Bool-cases (has_id m l.orders)) [
  | inl here ↦ rw (here, erase-crowd m l.orders l ls (rw (here, ring_of) at a) v.0.occupied)
  | inr later ↦
      rw later (ap (λ t. g l.price + t) (prices-drop g s n m ls v.1 (rw (later, ring_of) at a)))
]

pub prices-drop_alone :
    (g : ℕ → ℕ) (s : Side) (n m : ℕ) (ls : Chain) (o : MeOrder)
    → All (LevelOk s n) ls
    → find_order m ls ≡ some o
    → is_alone (ring_of m ls) ≡ true
    → sum_by (λ l. g l.price) (drop_order m ls) + g o.price ≡ sum_by (λ l. g l.price) ls
unfolding drop_order ring_of prepend
prices-drop_alone g s n m [] o v e a = cc
prices-drop_alone g s n m (l ∷ ls) o v e a = elim (Option-cases (find_in_level m l.orders)) [
  | inl missing ↦
      let later = has-find_none m l.orders missing in
      rw later (
        omega
          (arith, prices-drop_alone g s n m ls o v.1 (rw missing at e) (rw (later, ring_of) at a)))
  | inr (x, found) ↦
      let here = has-find m l.orders x found in
      let same : x ≡ o = ground (arith, e) in
      let price = (find-OrderOk s l.price n m l.orders x found v.0.orders).1 in
      rw (here, erase-alone m l.orders here (rw (here, ring_of) at a))
        (omega (arith, ap g (ap (λ (y : MeOrder). y.price) (sym same) ∙ price)))
]

-- The level of an order has the order's price.
pub find_price :
    (s : Side) (n m : ℕ) (ls : Chain) (o : MeOrder)
    → All (LevelOk s n) ls
    → find_order m ls ≡ some o
    → 0 < sum_by (at_price o.price) ls
find_price s n m [] o v e = cc
find_price s n m (l ∷ ls) o v e = elim (Option-cases (find_in_level m l.orders)) [
  | inl missing ↦ ground (arith, find_price s n m ls o v.1)
  | inr (x, found) ↦ ground (arith, find-OrderOk s l.price n m l.orders o)
]

sum-erase_Positive :
    (m : ℕ) (os : List MeOrder) → All (λ o. 0 < o.qty) os → All (λ o. 0 < o.qty) (erase_id m os)
sum-erase_Positive m [] a = tt
sum-erase_Positive m (x ∷ os) a = elim (Bool-cases (x.market_order_id == m)) [
  | inl hit ↦ rw hit a.1
  | inr miss ↦ rw miss (a.0, sum-erase_Positive m os a.1)
]

prepend-drop_Positive :
    (os : List MeOrder) (l : MeOrdersAtPrice) (ls : Chain)
    → All (λ o. 0 < o.qty) os
    → Positive ls
    → Positive (prepend os l ls)
unfolding prepend
prepend-drop_Positive [] l ls h a = a
prepend-drop_Positive (o ∷ os) l ls h a = (h, a)

pub drop-Positive : (m : ℕ) (ls : Chain) → Positive ls → Positive (drop_order m ls)
unfolding drop_order
drop-Positive m [] a = tt
drop-Positive m (l ∷ ls) a = elim (Bool-cases (has_id m l.orders)) [
  | inl here ↦
      rw here
        (prepend-drop_Positive (erase_id m l.orders) l ls (sum-erase_Positive m l.orders a.0) a.1)
  | inr later ↦ rw later (a.0, drop-Positive m ls a.1)
]

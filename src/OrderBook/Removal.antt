-- ===== src/OrderBook/Removal.antt =====
-- `removeOrder` on one side: the code takes the level out of the ring when the order is alone in
-- it, and the order out of the level otherwise.
use llcpp_exchange.Prelude.{
  ℕ, ◌+◌, ◌≡◌, ◌≢◌, refl, sym, ◌∙◌, ap, subst, inl, inr, true, false, none, some, List, [], ◌∷◌,
  arith, ◌==◌, All, sum_by, Bool-cases, Option-cases,
}
use llcpp_exchange.Types.{Side}
use llcpp_exchange.OrderBook.State.{MeOrder, MeOrdersAtPrice, Chain, find_in_level, find_order}
use llcpp_exchange.OrderBook.Chains.{has_id, erase_id, ring_of, is_alone, erase_level, unlink_order}
use llcpp_exchange.OrderBook.Spec.{prepend, drop_order, total}
use llcpp_exchange.OrderBook.Invariant.{Better, OrderOk, LevelOk, ChainOk}

pub has-find :
    (m : ℕ) (os : List MeOrder) (o : MeOrder) → find_in_level m os ≡ some o → has_id m os ≡ true
has-find m [] o e = cc
has-find m (x ∷ os) o e = ground (arith, has-find m os o)

pub has-find_none : (m : ℕ) (os : List MeOrder) → find_in_level m os ≡ none → has_id m os ≡ false
has-find_none m [] e = refl
has-find_none m (x ∷ os) e = ground (arith, has-find_none m os)

sum-erase :
    (f : MeOrder → ℕ) (m : ℕ) (os : List MeOrder) (o : MeOrder)
    → find_in_level m os ≡ some o
    → sum_by f (erase_id m os) + f o ≡ sum_by f os
sum-erase f m [] o e = cc
sum-erase f m (x ∷ os) o e = ground (arith, sum-erase f m os o)

pub find-OrderOk :
    (s : Side) (p n m : ℕ) (os : List MeOrder) (o : MeOrder)
    → find_in_level m os ≡ some o
    → All (OrderOk s p n) os
    → OrderOk s p n o
find-OrderOk s p n m [] o e a = cc
find-OrderOk s p n m (x ∷ os) o e a = ground (arith, find-OrderOk s p n m os o)

pub erase-OrderOk :
    (s : Side) (p n m : ℕ) (os : List MeOrder)
    → All (OrderOk s p n) os
    → All (OrderOk s p n) (erase_id m os)
erase-OrderOk s p n m [] a = tt
erase-OrderOk s p n m (x ∷ os) a = elim (Bool-cases (x.market_order_id == m)) [
  | inl hit ↦ rw hit a.1
  | inr miss ↦ rw miss (a.0, erase-OrderOk s p n m os a.1)
]

sum-prepend :
    (f : MeOrder → ℕ) (os : List MeOrder) (l : MeOrdersAtPrice) (ls : Chain)
    → total f (prepend os l ls) ≡ sum_by f os + total f ls
unfolding prepend
sum-prepend f [] l ls = omega arith
sum-prepend f (o ∷ os) l ls = refl

pub total-drop :
    (f : MeOrder → ℕ) (m : ℕ) (ls : Chain) (o : MeOrder)
    → find_order m ls ≡ some o
    → total f (drop_order m ls) + f o ≡ total f ls
unfolding drop_order
total-drop f m [] o e = cc
total-drop f m (l ∷ ls) o e = elim (Option-cases (find_in_level m l.orders)) [
  | inl missing ↦ rw (has-find_none m l.orders missing) (ground (arith, total-drop f m ls o))
  | inr (x, found) ↦
      rw (has-find m l.orders x found)
        (ground (arith, sum-erase f m l.orders x found, sum-prepend f (erase_id m l.orders) l ls))
]

pub erase-alone :
    (m : ℕ) (os : List MeOrder) → has_id m os ≡ true → is_alone os ≡ true → erase_id m os ≡ []
erase-alone m [] h a = refl
erase-alone m (o ∷ []) h a = ground arith
erase-alone m (o ∷ p ∷ os) h a = cc

pub erase-crowd :
    (m : ℕ) (os : List MeOrder) (l : MeOrdersAtPrice) (ls : Chain)
    → is_alone os ≡ false
    → os ≢ []
    → prepend (erase_id m os) l ls ≡ record l { orders = erase_id m os } ∷ ls
unfolding prepend
erase-crowd m [] l ls a h = absurd (h refl)
erase-crowd m (o ∷ []) l ls a h = cc
erase-crowd m (o ∷ p ∷ os) l ls a h = elim (Bool-cases (o.market_order_id == m)) [
  | inl hit ↦ rw hit
  | inr miss ↦ rw miss
]

-- The order shares its level.
pub unlink-drop :
    (s : Side) (n m : ℕ) (ls : Chain)
    → All (LevelOk s n) ls
    → is_alone (ring_of m ls) ≡ false
    → unlink_order m ls ≡ drop_order m ls
unfolding unlink_order drop_order ring_of
unlink-drop s n m [] v a = refl
unlink-drop s n m (l ∷ ls) v a = elim (Bool-cases (has_id m l.orders)) [
  | inl here ↦ rw here (sym (erase-crowd m l.orders l ls (rw (here, ring_of) at a) v.0.occupied))
  | inr later ↦ rw later (ap (◌∷◌ l) (unlink-drop s n m ls v.1 (rw (later, ring_of) at a)))
]

find_worse :
    (s : Side) (n p m : ℕ) (ls : Chain) (o : MeOrder)
    → find_order m ls ≡ some o
    → All (LevelOk s n) ls
    → All (λ k. Better s p k.price) ls
    → Better s p o.price
find_worse s n p m [] o e v w = cc
find_worse s n p m (l ∷ ls) o e v w = elim (Option-cases (find_in_level m l.orders)) [
  | inl missing ↦ find_worse s n p m ls o (rw missing at e) v.1 w.1
  | inr (x, found) ↦
      let same : x ≡ o = ground (arith, e) in
      let price = (find-OrderOk s l.price n m l.orders x found v.0.orders).1 in
      subst (λ (y : MeOrder). Better s p y.price) same (subst (Better s p) (sym price) w.0)
]

Better-ne : (s : Side) (p q : ℕ) → Better s p q → (p == q) ≡ false
Better-ne s p q h = ground arith

erase_level-here :
    (s : Side) (n m : ℕ) (l : MeOrdersAtPrice) (ls : Chain) (o : MeOrder)
    → LevelOk s n l
    → find_in_level m l.orders ≡ some o
    → erase_level o.price (l ∷ ls) ≡ ls
unfolding erase_level
erase_level-here s n m l ls o v found =
    rw (find-OrderOk s l.price n m l.orders o found v.orders).1 (ground arith)

erase_level-later :
    (p : ℕ) (l : MeOrdersAtPrice) (ls : Chain)
    → (l.price == p) ≡ false
    → erase_level p (l ∷ ls) ≡ l ∷ erase_level p ls
unfolding erase_level
erase_level-later p l ls e = rw e

-- The order is alone in its level.
pub erase-drop :
    (s : Side) (n m : ℕ) (ls : Chain) (o : MeOrder)
    → ChainOk s n ls
    → find_order m ls ≡ some o
    → is_alone (ring_of m ls) ≡ true
    → erase_level o.price ls ≡ drop_order m ls
unfolding drop_order ring_of prepend
erase-drop s n m [] o v e a = cc
erase-drop s n m (l ∷ ls) o v e a = elim (Option-cases (find_in_level m l.orders)) [
  | inl missing ↦
      let later = has-find_none m l.orders missing in
      let e' : find_order m ls ≡ some o = rw missing at e in
      let differs = Better-ne s l.price o.price (find_worse s n l.price m ls o e' v.1.1 v.0.0) in
      rw later (
        erase_level-later o.price l ls differs
        ∙ ap (◌∷◌ l) (erase-drop s n m ls o (v.0.1, v.1.1) e' (rw (later, ring_of) at a)))
  | inr (x, found) ↦
      let here = has-find m l.orders x found in
      let same : x ≡ o = ground (arith, e) in
      rw (here, erase-alone m l.orders here (rw (here, ring_of) at a))
        (erase_level-here s n m l ls o v.1.0 (found ∙ ap some same))
]

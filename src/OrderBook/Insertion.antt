-- ===== src/OrderBook/Insertion.antt =====
-- `addOrder` on one side: behind the orders of its price, or in a new level at the place that its
-- price has in the chain.
use llcpp_exchange.Prelude.{
  ℕ, ◌+◌, ◌<◌, ◌≡◌, ◌≢◌, refl, sym, ap, subst, inl, inr, true, false, ◌&&◌, ◌||◌, none, some, List,
  [], ◌∷◌, ◌++◌, arith, ◌==◌, All, sum_by, sum_by-append, Bool-cases, eq_of_==, ne_of_==, ltb,
}
use llcpp_exchange.Types.{Side, is_buy, is_sell, IsTraded}
use llcpp_exchange.OrderBook.State.{MeOrder, MeOrdersAtPrice, Chain, find_level}
use llcpp_exchange.OrderBook.Chains.{should_advance, insert_level, append_order, new_level}
use llcpp_exchange.OrderBook.Spec.{insert_order, total}
use llcpp_exchange.OrderBook.Invariant.{Better, OrderOk, LevelOk, Sorted, ChainOk, Positive}

-- No level has the price.
pub insert_level-insert :
    (o : MeOrder) (ls : Chain)
    → find_level o.price ls ≡ none
    → insert_level (new_level o) ls ≡ insert_order o ls
unfolding insert_level insert_order
insert_level-insert o [] e = refl
insert_level-insert o (l ∷ ls) e = elim (Bool-cases (l.price == o.price)) [
  | inl same ↦ ground arith
  | inr other ↦ rw (insert_level-insert o ls (rw other at e), other)
]

Better-of_find :
    (s : Side) (p q : ℕ) (ls : Chain) (k : MeOrdersAtPrice)
    → find_level q ls ≡ some k
    → All (λ l. Better s p l.price) ls
    → Better s p q
Better-of_find s p q [] k e a = cc
Better-of_find s p q (l ∷ ls) k e a = elim (Bool-cases (l.price == q)) [
  | inl same ↦ subst (Better s p) (eq_of_== l.price q same) a.0
  | inr other ↦ Better-of_find s p q ls k (rw other at e) a.1
]

advance_of_Better :
    (s : Side) (p q : ℕ)
    → IsTraded s
    → Better s p q
    → ((is_sell s && ltb p q) || (is_buy s && ltb q p)) ≡ true
advance_of_Better Side.buy p q t h = ground arith
advance_of_Better Side.sell p q t h = ground arith
advance_of_Better Side.invalid p q t h = elim t [ ]
advance_of_Better Side.max p q t h = elim t [ ]

Better-of_advance :
    (s : Side) (p q : ℕ)
    → IsTraded s
    → p ≢ q
    → ((is_sell s && ltb p q) || (is_buy s && ltb q p)) ≡ false
    → Better s q p
Better-of_advance Side.buy p q t n h = ground arith
Better-of_advance Side.sell p q t n h = ground arith
Better-of_advance Side.invalid p q t n h = elim t [ ]
Better-of_advance Side.max p q t n h = elim t [ ]

Better-of_advance_true :
    (s : Side) (p q : ℕ) → ((is_sell s && ltb p q) || (is_buy s && ltb q p)) ≡ true → Better s p q
Better-of_advance_true Side.buy p q h = ground arith
Better-of_advance_true Side.sell p q h = ground arith
Better-of_advance_true Side.invalid p q h = cc
Better-of_advance_true Side.max p q h = cc

Better-trans : (s : Side) (p q r : ℕ) → Better s p q → Better s q r → Better s p r
Better-trans s p q r h k = ground arith

pub Better-trans_All :
    (s : Side) (p q : ℕ) (ls : Chain)
    → Better s p q
    → All (λ l. Better s q l.price) ls
    → All (λ l. Better s p l.price) ls
Better-trans_All s p q [] h a = tt
Better-trans_All s p q (l ∷ ls) h a =
    (Better-trans s p q l.price h a.0, Better-trans_All s p q ls h a.1)

-- A level has the price.
pub append_order-insert :
    (o : MeOrder) (ls : Chain) (k : MeOrdersAtPrice)
    → IsTraded o.side
    → Sorted o.side ls
    → find_level o.price ls ≡ some k
    → append_order o.price o ls ≡ insert_order o ls
unfolding append_order insert_order
append_order-insert o [] k t v e = cc
append_order-insert o (l ∷ ls) k t v e = elim (Bool-cases (l.price == o.price)) [
  | inl same ↦ rw same
  | inr other ↦
      let later : find_level o.price ls ≡ some k = rw other at e in
      let worse = Better-of_find o.side l.price o.price ls k later v.0 in
      rw (other, advance_of_Better o.side l.price o.price t worse)
        (ap (◌∷◌ l) (append_order-insert o ls k t v.1 later))
]

-- A measure of the orders grows by that of the new one.
pub total-insert :
    (f : MeOrder → ℕ) (o : MeOrder) (ls : Chain) → total f (insert_order o ls) ≡ total f ls + f o
unfolding insert_order
total-insert f o [] = omega arith
total-insert f o (l ∷ ls) = ground (arith, total-insert f o ls, sum_by-append f l.orders (o ∷ []))

pub prices-insert :
    (g : ℕ → ℕ) (o : MeOrder) (ls : Chain)
    → find_level o.price ls ≡ none
    → sum_by (λ l. g l.price) (insert_order o ls) ≡ sum_by (λ l. g l.price) ls + g o.price
unfolding insert_order
prices-insert g o [] e = omega arith
prices-insert g o (l ∷ ls) e = elim (Bool-cases (l.price == o.price)) [
  | inl same ↦ ground arith
  | inr other ↦ rw other (ground (arith, prices-insert g o ls (rw other at e)))
]

pub prices-insert_old :
    (g : ℕ → ℕ) (o : MeOrder) (ls : Chain) (k : MeOrdersAtPrice)
    → IsTraded o.side
    → Sorted o.side ls
    → find_level o.price ls ≡ some k
    → sum_by (λ l. g l.price) (insert_order o ls) ≡ sum_by (λ l. g l.price) ls
unfolding insert_order
prices-insert_old g o [] k t v e = cc
prices-insert_old g o (l ∷ ls) k t v e = elim (Bool-cases (l.price == o.price)) [
  | inl same ↦ rw same
  | inr other ↦
      let later : find_level o.price ls ≡ some k = rw other at e in
      let worse = Better-of_find o.side l.price o.price ls k later v.0 in
      rw (other, advance_of_Better o.side l.price o.price t worse)
        (ap (λ t. g l.price + t) (prices-insert_old g o ls k t v.1 later))
]

insert-Better :
    (s : Side) (p : ℕ) (o : MeOrder) (ls : Chain)
    → Better s p o.price
    → All (λ l. Better s p l.price) ls
    → All (λ l. Better s p l.price) (insert_order o ls)
unfolding insert_order
insert-Better s p o [] h a = (h, tt)
insert-Better s p o (l ∷ ls) h a = elim (Bool-cases (l.price == o.price)) [
  | inl same ↦ rw same a
  | inr other ↦ elim (Bool-cases (should_advance (new_level o) l)) [
    | inl on ↦ rw (other, on) (a.0, insert-Better s p o ls h a.1)
    | inr stop ↦ rw (other, stop) (h, a)
  ]
]

pub insert-Sorted :
    (o : MeOrder) (ls : Chain)
    → IsTraded o.side
    → Sorted o.side ls
    → Sorted o.side (insert_order o ls)
unfolding insert_order
insert-Sorted o [] t v = (tt, tt)
insert-Sorted o (l ∷ ls) t v = elim (Bool-cases (l.price == o.price)) [
  | inl same ↦ rw same v
  | inr other ↦ elim (Bool-cases (should_advance (new_level o) l)) [
    | inl on ↦
        rw (other, on)
          (
            insert-Better o.side l.price o ls (Better-of_advance_true o.side l.price o.price on)
                v.0,
            insert-Sorted o ls t v.1,
          )
    | inr stop ↦
        let first =
          Better-of_advance o.side l.price o.price t (ne_of_== l.price o.price other) stop in
        rw (other, stop) ((first, Better-trans_All o.side o.price l.price ls first v.0), v)
  ]
]

append-All :
    (s : Side) (p n : ℕ) (os : List MeOrder) (o : MeOrder)
    → All (OrderOk s p n) os
    → OrderOk s p n o
    → All (OrderOk s p n) (os ++ (o ∷ []))
append-All s p n [] o a h = (h, tt)
append-All s p n (x ∷ os) o a h = (a.0, append-All s p n os o a.1 h)

append-ne : (os : List MeOrder) (o : MeOrder) → os ++ (o ∷ []) ≢ []
append-ne [] o e = cc
append-ne (x ∷ os) o e = cc

new_level-LevelOk : (n : ℕ) (o : MeOrder) → o.market_order_id < n → LevelOk o.side n (new_level o)
new_level-LevelOk n o h = record { side = refl; occupied = λ e. cc; orders = ((refl, refl, h), tt) }

joined-LevelOk :
    (n : ℕ) (o : MeOrder) (l : MeOrdersAtPrice)
    → o.market_order_id < n
    → l.price ≡ o.price
    → LevelOk o.side n l
    → LevelOk o.side n (record l { orders = l.orders ++ (o ∷ []) })
joined-LevelOk n o l h e v = record {
  side = v.side;
  occupied = append-ne l.orders o;
  orders = append-All o.side l.price n l.orders o v.orders (refl, sym e, h);
}

insert-LevelOk :
    (n : ℕ) (o : MeOrder) (ls : Chain)
    → o.market_order_id < n
    → All (LevelOk o.side n) ls
    → All (LevelOk o.side n) (insert_order o ls)
unfolding insert_order
insert-LevelOk n o [] h a = (new_level-LevelOk n o h, tt)
insert-LevelOk n o (l ∷ ls) h a = elim (Bool-cases (l.price == o.price)) [
  | inl same ↦ rw same (joined-LevelOk n o l h (eq_of_== l.price o.price same) a.0, a.1)
  | inr other ↦ elim (Bool-cases (should_advance (new_level o) l)) [
    | inl on ↦ rw (other, on) (a.0, insert-LevelOk n o ls h a.1)
    | inr stop ↦ rw (other, stop) (new_level-LevelOk n o h, a)
  ]
]

pub insert-ChainOk :
    (n : ℕ) (o : MeOrder) (ls : Chain)
    → IsTraded o.side
    → o.market_order_id < n
    → ChainOk o.side n ls
    → ChainOk o.side n (insert_order o ls)
insert-ChainOk n o ls t h v = (insert-Sorted o ls t v.0, insert-LevelOk n o ls h v.1)

append-Positive :
    (os : List MeOrder) (o : MeOrder)
    → All (λ x. 0 < x.qty) os
    → 0 < o.qty
    → All (λ x. 0 < x.qty) (os ++ (o ∷ []))
append-Positive [] o a h = (h, tt)
append-Positive (x ∷ os) o a h = (a.0, append-Positive os o a.1 h)

pub insert-Positive :
    (o : MeOrder) (ls : Chain) → 0 < o.qty → Positive ls → Positive (insert_order o ls)
unfolding insert_order
insert-Positive o [] h a = ((h, tt), tt)
insert-Positive o (l ∷ ls) h a = elim (Bool-cases (l.price == o.price)) [
  | inl same ↦ rw same (append-Positive l.orders o a.0 h, a.1)
  | inr other ↦ elim (Bool-cases (should_advance (new_level o) l)) [
    | inl on ↦ rw (other, on) (a.0, insert-Positive o ls h a.1)
    | inr stop ↦ rw (other, stop) ((h, tt), a)
  ]
]

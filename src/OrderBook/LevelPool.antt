-- ===== src/OrderBook/LevelPool.antt =====
-- There are as many levels in the pool as slots, so a free slot means a free level: the pool of
-- levels never runs out.
use llcpp_exchange.Prelude.{
  ℕ, zero, suc, ◌+◌, ◌≤◌, ◌<◌, ◌≡◌, refl, ◌∙◌, inl, inr, none, some, [], ◌∷◌, arith, ltb, ◌==◌, All,
  sum_by, Option-cases,
}
use llcpp_exchange.Types.{me_max_price_levels}
use llcpp_exchange.OrderBook.State.{MeOrdersAtPrice, Chain, MeOrderBook, price_to_index}
use llcpp_exchange.OrderBook.Invariant.{at_price, indicator, both, Links}
use llcpp_exchange.OrderBook.RemoveOrder.{holds-eq}

unfoldable pub sum_below : ℕ → (ℕ → ℕ) → ℕ
sum_below zero f = 0
sum_below (suc n) f = f n + sum_below n f

pub sum_below-add :
    (n : ℕ) (f g : ℕ → ℕ) → sum_below n (λ i. f i + g i) ≡ sum_below n f + sum_below n g
unfolding sum_below
sum_below-add zero f g = refl
sum_below-add (suc n) f g = omega (arith, sum_below-add n f g)

pub sum_below-le : (n : ℕ) (f g : ℕ → ℕ) → ((i : ℕ) → f i ≤ g i) → sum_below n f ≤ sum_below n g
unfolding sum_below
sum_below-le zero f g h = omega arith
sum_below-le (suc n) f g h = omega (arith, sum_below-le n f g h, h n)

pub sum_below-one : (n : ℕ) → sum_below n (λ i. 1) ≡ n
unfolding sum_below
sum_below-one zero = refl
sum_below-one (suc n) = omega (arith, sum_below-one n)

pub sum_below-zero : (n : ℕ) → sum_below n (λ i. 0) ≡ 0
unfolding sum_below
sum_below-zero zero = refl
sum_below-zero (suc n) = omega (arith, sum_below-zero n)

pub sum_below-indicator : (n x : ℕ) → sum_below n (λ i. indicator (x == i)) ≡ indicator (ltb x n)
unfolding sum_below
sum_below-indicator zero x = ground arith
sum_below-indicator (suc n) x = ground (arith, sum_below-indicator n x)

-- The levels whose price maps to the slot.
abbrev pub at_index : ℕ → MeOrdersAtPrice → ℕ
at_index i l = indicator (price_to_index l.price == i)

pub levels_by_index :
    (ls : Chain) → sum_below me_max_price_levels (λ i. sum_by (at_index i) ls) ≡ sum_by (λ l. 1) ls
levels_by_index [] = sum_below-zero me_max_price_levels
levels_by_index (l ∷ ls) = omega (
  arith,
  sum_below-add me_max_price_levels (λ i. at_index i l) (λ i. sum_by (at_index i) ls),
  one_index,
  levels_by_index ls,
)
  where
    one_index : sum_below me_max_price_levels (λ i. at_index i l) ≡ 1
    one_index = sum_below-indicator me_max_price_levels (price_to_index l.price) ∙ ground arith

-- Every level of `ls` sits in the slot of its price.
abbrev Seated : MeOrderBook → Chain → Type 0
Seated b ls = All (λ l. b.price_orders_at_price (price_to_index l.price) ≡ some l.price) ls

counted-weaken :
    (k : MeOrdersAtPrice) (rest ls : Chain)
    → All (λ l. 0 < sum_by (at_price l.price) rest) ls
    → All (λ l. 0 < sum_by (at_price l.price) (k ∷ rest)) ls
counted-weaken k rest [] a = tt
counted-weaken k rest (l ∷ ls) a = (omega arith, counted-weaken k rest ls a.1)

counted : (ls : Chain) → All (λ l. 0 < sum_by (at_price l.price) ls) ls
counted [] = tt
counted (l ∷ ls) = (ground arith, counted-weaken l ls ls (counted ls))

module _ {b : MeOrderBook} (v : Links b) where
  seat :
      (whole : Chain)
      → ((p : ℕ) → sum_by (at_price p) whole ≤ both (sum_by (at_price p)) b)
      → (ls : Chain) → All (λ l. 0 < sum_by (at_price l.price) whole) ls
      → Seated b ls
  seat whole part [] a = tt
  seat whole part (l ∷ ls) a =
      (holds-eq _ l.price (ground (arith, v.slots l.price, part l.price)), seat whole part ls a.1)

  pub index_count-none :
      (i : ℕ)
      → b.price_orders_at_price i ≡ none
      → (ls : Chain) → Seated b ls
      → sum_by (at_index i) ls ≡ 0
  index_count-none i e [] a = refl
  index_count-none i e (l ∷ ls) a = ground (arith, index_count-none i e ls)

  pub index_count-some :
      (i q : ℕ)
      → b.price_orders_at_price i ≡ some q
      → (ls : Chain) → Seated b ls
      → sum_by (at_index i) ls ≤ sum_by (at_price q) ls
  index_count-some i q e [] a = omega arith
  index_count-some i q e (l ∷ ls) a = ground (arith, index_count-some i q e ls)

  pub bids-Seated : Seated b b.bids_by_price
  bids-Seated = seat b.bids_by_price (λ p. omega arith) b.bids_by_price (counted b.bids_by_price)

  pub asks-Seated : Seated b b.asks_by_price
  asks-Seated = seat b.asks_by_price (λ p. omega arith) b.asks_by_price (counted b.asks_by_price)

  -- At most one level to a slot, and none to the free slot `j`.
  index_count :
      (j : ℕ)
      → b.price_orders_at_price j ≡ none
      → (i : ℕ) → both (sum_by (at_index i)) b + indicator (j == i) ≤ 1
  index_count j free i = elim (Option-cases (b.price_orders_at_price i)) [
    | inl e ↦ ground (
      arith,
      index_count-none i e b.bids_by_price bids-Seated,
      index_count-none i e b.asks_by_price asks-Seated,
    )
    | inr (q, e) ↦ ground (
      arith,
      index_count-some i q e b.bids_by_price bids-Seated,
      index_count-some i q e b.asks_by_price asks-Seated,
      v.slots q,
    )
  ]

  pub spare_level :
      (j : ℕ)
      → j < me_max_price_levels
      → b.price_orders_at_price j ≡ none
      → 0 < b.orders_at_price_free
  spare_level j h free = omega (
    arith,
    v.level_pool,
    levels_by_index b.bids_by_price,
    levels_by_index b.asks_by_price,
    sum_below-add me_max_price_levels (λ i. sum_by (at_index i) b.bids_by_price)
        (λ i. sum_by (at_index i) b.asks_by_price),
    sum_below-add me_max_price_levels (λ i. both (sum_by (at_index i)) b) (λ i. indicator (j == i)),
    sum_below-le me_max_price_levels (λ i. both (sum_by (at_index i)) b + indicator (j == i))
        (λ i. 1) (index_count j free),
    sum_below-one me_max_price_levels,
    reached,
  )
    where
      reached : sum_below me_max_price_levels (λ i. indicator (j == i)) ≡ 1
      reached = sum_below-indicator me_max_price_levels j ∙ ground arith

-- ===== src/OrderBook/Resting.antt =====
-- From the end of matching to the order in the book: the place for the rest of the order is free.
use llcpp_exchange.Prelude.{
  ℕ, ◌+◌, ◌%◌, ◌^◌, ◌≤◌, ◌<◌, ◌≡◌, ◌⊎◌, refl, sym, ◌∙◌, ap, subst, inl, inr, false, not, none, some,
  List, [], ◌∷◌, arith, ◌==◌, All, sum_by, Option-cases, ==_refl,
}
use llcpp_exchange.Types.{Side, IsTraded}
use llcpp_exchange.OrderBook.State.{
  MeOrder, MeOrdersAtPrice, Chain, MeOrderBook, find_level, chain, price_to_index,
  get_orders_at_price,
}
use llcpp_exchange.OrderBook.Chains.{last_priority}
use llcpp_exchange.OrderBook.Spec.{fill_chain, total}
use llcpp_exchange.OrderBook.Invariant.{
  Better, OrderOk, LevelOk, at_price, with_id, both, Links, Uncrossed,
}
use llcpp_exchange.OrderBook.Matching.{Event, Incoming, Outcome}
use llcpp_exchange.OrderBook.Requests.{other_price}
use llcpp_exchange.OrderBook.RemoveOrder.{chain-ChainOk, either_level}
use llcpp_exchange.OrderBook.Filling.{passive-IsTraded, Filled}
use llcpp_exchange.OrderBook.FillSteps.{passive_side}
use llcpp_exchange.OrderBook.FillChain.{
  Exhausted, fill-Exhausted, Exhausted-Better, at_price-zero, fill-Prices,
}

-- The priority that an order behind the others of its price gets.
abbrev pub next_priority : ℕ → Chain → ℕ
next_priority p ls = elim (find_level p ls) [
  | none ↦ 1
  | some l ↦ (last_priority l.orders + 1) % 2 ^ 64
]

-- A slot that passes the collision check is free or holds the price itself.
pub slot_cases :
    (b : MeOrderBook) (p : ℕ)
    → Links b
    → other_price p (get_orders_at_price p b) ≡ false
    → (b.price_orders_at_price (price_to_index p) ≡ none)
      ⊎ (b.price_orders_at_price (price_to_index p) ≡ some p)
unfolding get_orders_at_price
slot_cases b p v h = elim (Option-cases (b.price_orders_at_price (price_to_index p))) [
  | inl e ↦ inl e
  | inr (q, e) ↦
      let index = v.keys (price_to_index p) q e in
      let count : 0 < both (sum_by (at_price q)) b = ground (arith, v.slots q) in
      let (l, found, price) = either_level q b.bids_by_price b.asks_by_price count in
      let passed : not (l.price == p) ≡ false = rw (e, get_orders_at_price, found) at h in
      let same : q ≡ p = ground arith in inr (e ∙ ap some same)
]

ids-zero :
    (s : Side) (p n m : ℕ) (os : List MeOrder)
    → n ≤ m
    → All (OrderOk s p n) os
    → sum_by (with_id m) os ≡ 0
ids-zero s p n m [] h a = refl
ids-zero s p n m (o ∷ os) h a = ground (arith, ids-zero s p n m os h)

pub chain_ids-zero :
    (s : Side) (n m : ℕ) (ls : Chain) → n ≤ m → All (LevelOk s n) ls → total (with_id m) ls ≡ 0
chain_ids-zero s n m [] h a = refl
chain_ids-zero s n m (l ∷ ls) h a =
    omega (arith, ids-zero s l.price n m l.orders h a.0.orders, chain_ids-zero s n m ls h a.1)

orders-weaken :
    (s : Side) (p n n' : ℕ) (os : List MeOrder)
    → n ≤ n'
    → All (OrderOk s p n) os
    → All (OrderOk s p n') os
orders-weaken s p n n' [] h a = tt
orders-weaken s p n n' (o ∷ os) h a = ((a.0.0, a.0.1, omega arith), orders-weaken s p n n' os h a.1)

levels-weaken :
    (s : Side) (n n' : ℕ) (ls : Chain) → n ≤ n' → All (LevelOk s n) ls → All (LevelOk s n') ls
levels-weaken s n n' [] h a = tt
levels-weaken s n n' (l ∷ ls) h a = (
  record {
    side = a.0.side;
    occupied = a.0.occupied;
    orders = orders-weaken s l.price n n' l.orders h a.0.orders;
  },
  levels-weaken s n n' ls h a.1,
)

abbrev pub with_next : ℕ → MeOrderBook → MeOrderBook
with_next n b = record b { next_market_order_id = n }

pub with_next-Links :
    (b : MeOrderBook) (n : ℕ) → b.next_market_order_id ≤ n → Links b → Links (with_next n b)
with_next-Links b n h v = record {
  bids = (v.bids.0, levels-weaken Side.buy b.next_market_order_id n b.bids_by_price h v.bids.1);
  asks = (v.asks.0, levels-weaken Side.sell b.next_market_order_id n b.asks_by_price h v.asks.1);
  slots = v.slots;
  keys = v.keys;
  pointers = v.pointers;
  unique = v.unique;
  level_pool = v.level_pool;
}

-- The id of the next order is nobody's.
pub next_id-unused :
    (b : MeOrderBook) → Links b → both (total (with_id b.next_market_order_id)) b ≡ 0
next_id-unused b v = omega (
  arith,
  chain_ids-zero Side.buy _ b.next_market_order_id b.bids_by_price (omega arith) v.bids.1,
  chain_ids-zero Side.sell _ b.next_market_order_id b.asks_by_price (omega arith) v.asks.1,
)

module _ (i : Incoming) (b : MeOrderBook) (leaves : ℕ) (r : Outcome) (f : Filled i b leaves r)
    (v : Links b) (left : 0 < r.1) where
  rest_Exhausted : Exhausted i (chain (passive_side i.side) r.0)
  rest_Exhausted =
      subst (λ (c : Chain × ℕ × List Event). Exhausted i c.0) f.result
        (fill-Exhausted i leaves (chain (passive_side i.side) b)
          (subst (λ (c : Chain × ℕ × List Event). 0 < c.1) (sym f.result) left))

  -- What is left of the opposite side is beyond the price of the order.
  pub rest_beyond :
      All (λ k. Better (passive_side i.side) i.price k.price) (chain (passive_side i.side) r.0)
  rest_beyond =
      Exhausted-Better i (chain (passive_side i.side) r.0)
        (chain-ChainOk f.shrinks.links (passive_side i.side) (passive-IsTraded i.side)).0
        rest_Exhausted

  pub own_count :
      IsTraded i.side
      → r.0.price_orders_at_price (price_to_index i.price) ≡ some i.price
      → 0 < sum_by (at_price i.price) (chain i.side r.0)
  own_count t e = ground (
    arith,
    f.shrinks.links.slots i.price,
    at_price-zero (passive_side i.side) i.price (chain (passive_side i.side) r.0) rest_beyond,
    ==_refl i.price,
  )

-- The same, said of the side of an incoming order and of the side opposite to it.
abbrev pub Apart : Side → Chain → Chain → Type 0
Apart s own opp = All (λ l. All (λ k. Better (passive_side s) l.price k.price) opp) own

swap-nil : (s : Side) (ls : Chain) → All (λ k. Unit {0}) ls
swap-nil s [] = tt
swap-nil s (l ∷ ls) = (tt, swap-nil s ls)

module _ (R : ℕ → ℕ → Type 0) where
  All-cons :
      (k : MeOrdersAtPrice) (ks ls : Chain)
      → All (λ l. R k.price l.price) ls
      → All (λ l. All (λ j. R j.price l.price) ks) ls
      → All (λ l. All (λ j. R j.price l.price) (k ∷ ks)) ls
  All-cons k ks [] h a = tt
  All-cons k ks (l ∷ ls) h a = ((h.0, a.0), All-cons k ks ls h.1 a.1)

  pub All-swap :
      (ks ls : Chain)
      → All (λ k. All (λ l. R k.price l.price) ls) ks
      → All (λ l. All (λ k. R k.price l.price) ks) ls
  All-swap [] ls a = swap-nil Side.buy ls
  All-swap (k ∷ ks) ls a = All-cons k ks ls a.0 (All-swap ks ls a.1)

pub Apart-Uncrossed :
    (s : Side) (b : MeOrderBook)
    → IsTraded s
    → Apart s (chain s b) (chain (passive_side s) b)
    → Uncrossed b.bids_by_price b.asks_by_price
Apart-Uncrossed Side.buy b t a = a
Apart-Uncrossed Side.sell b t a = All-swap (λ p q. q < p) b.asks_by_price b.bids_by_price a
Apart-Uncrossed Side.invalid b t a = elim t [ ]
Apart-Uncrossed Side.max b t a = elim t [ ]

pub Uncrossed-Apart :
    (s : Side) (b : MeOrderBook)
    → IsTraded s
    → Uncrossed b.bids_by_price b.asks_by_price
    → Apart s (chain s b) (chain (passive_side s) b)
Uncrossed-Apart Side.buy b t a = a
Uncrossed-Apart Side.sell b t a = All-swap (λ p q. p < q) b.bids_by_price b.asks_by_price a
Uncrossed-Apart Side.invalid b t a = elim t [ ]
Uncrossed-Apart Side.max b t a = elim t [ ]

pub Apart-fill :
    (i : Incoming) (leaves : ℕ) (own opp : Chain)
    → Apart i.side own opp
    → Apart i.side own (fill_chain i leaves opp).0
Apart-fill i leaves [] opp a = tt
Apart-fill i leaves (l ∷ own) opp a = (
  fill-Prices (Better (passive_side i.side) l.price) i leaves opp a.0,
  Apart-fill i leaves own opp a.1,
)

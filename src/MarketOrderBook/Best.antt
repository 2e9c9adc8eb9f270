-- ===== src/MarketOrderBook/Best.antt =====
-- The best prices of a client's book, against all orders of the exchange's.
use llcpp_exchange.Prelude.{
  ℕ, ◌+◌, ◌%◌, ◌^◌, ◌≤◌, ◌<◌, ◌≡◌, ◌⊎◌, refl, sym, ap, subst, ◌∙◌, inl, inr, List, [], ◌∷◌, map,
  arith, ◌==◌, if◌then◌else◌, All, sum_by,
}
use llcpp_exchange.Types.{Side, is_buy, invalid_u64}
use llcpp_exchange.OrderBook.State.{MeOrder, Chain, MeOrderBook}
use llcpp_exchange.OrderBook.Spec.{total}
use llcpp_exchange.OrderBook.Invariant.{OrderOk, LevelOk, Better, ChainOk, indicator, Inv}
use llcpp_exchange.MarketOrderBook.Book.{Bbo, MarketOrderBook}
use llcpp_exchange.MarketOrderBook.Update.{add_quantities, top_price, top_qty}
use llcpp_exchange.MarketOrderBook.View.{view, view_chain}
use llcpp_exchange.MarketOrderBook.Mirror.{Mirrors}

-- On a side the price `p` is as good as `q`, or better.
abbrev pub AtLeastAsGood : Side → (p q : ℕ) → Type 0
AtLeastAsGood s p q = if is_buy s then q ≤ p else p ≤ q

abbrev pub qty_at : ℕ → MeOrder → ℕ
qty_at p o = if o.price == p then o.qty else 0

-- No order of the side is at a better price, the quantity is that of all its orders at the price, on
-- 32 bits, and there is such an order unless the side is empty.
pub record BestOf (s : Side) (price qty : ℕ) (orders : Chain) : Type 0 where
  pub best : All (λ l. All (λ o. AtLeastAsGood s price o.price) l.orders) orders
  pub all_of_it : qty ≡ total (qty_at price) orders % 2 ^ 32
  pub met :
      ((orders ≡ []) × (price ≡ invalid_u64))
      ⊎ (0 < total (λ o. indicator (o.price == price)) orders)

add_quantities-sum :
    (n : ℕ) (os : List MeOrder)
    → n < 2 ^ 32
    → add_quantities n (map view os) ≡ (n + sum_by (λ o. o.qty) os) % 2 ^ 32
add_quantities-sum n [] h = omega arith
add_quantities-sum n (o ∷ os) h =
    add_quantities-sum ((n + o.qty) % 2 ^ 32) os (omega arith) ∙ omega arith

qty_at-level :
    (s : Side) (p n : ℕ) (os : List MeOrder)
    → All (OrderOk s p n) os
    → sum_by (qty_at p) os ≡ sum_by (λ o. o.qty) os
qty_at-level s p n [] a = refl
qty_at-level s p n (o ∷ os) a = let e = a.0.1 in ground (arith, qty_at-level s p n os a.1)

good_level :
    (s : Side) (p q n : ℕ) (os : List MeOrder)
    → AtLeastAsGood s q p
    → All (OrderOk s p n) os
    → All (λ o. AtLeastAsGood s q o.price) os
good_level s p q n [] g a = tt
good_level s p q n (o ∷ os) g a =
    (subst (AtLeastAsGood s q) (sym a.0.1) g, good_level s p q n os g a.1)

none_at :
    (s : Side) (p q n : ℕ) (os : List MeOrder)
    → Better s q p
    → All (OrderOk s p n) os
    → sum_by (qty_at q) os ≡ 0
none_at s p q n [] g a = refl
none_at s p q n (o ∷ os) g a = let e = a.0.1 in ground (arith, none_at s p q n os g a.1)

-- The levels behind the best one.
behind :
    (s : Side) (q n : ℕ) (ls : Chain)
    → All (λ k. Better s q k.price) ls
    → All (LevelOk s n) ls
    → All (λ l. All (λ o. AtLeastAsGood s q o.price) l.orders) ls × (total (qty_at q) ls ≡ 0)
behind s q n [] b a = (tt, refl)
behind s q n (l ∷ ls) b a =
    let (good, zero_qty) = behind s q n ls b.1 a.1 in
    let nothing_here = none_at s l.price q n l.orders b.0 a.0.orders in
    let g : AtLeastAsGood s q l.price = worse b.0 in
    ((good_level s l.price q n l.orders g a.0.orders, good), omega arith)
  where
    worse : Better s q l.price → AtLeastAsGood s q l.price
    worse h = ground arith

counted :
    (s : Side) (p n : ℕ) (os : List MeOrder)
    → All (OrderOk s p n) os
    → ((os ≡ []) → ⊥)
    → 0 < sum_by (λ o. indicator (o.price == p)) os
counted s p n [] a h = absurd (h refl)
counted s p n (o ∷ os) a h = let e = a.0.1 in ground arith

same_price : (s : Side) (p : ℕ) → AtLeastAsGood s p p
same_price s p = ground arith

top-BestOf :
    (s : Side) (n : ℕ) (c : Chain)
    → ChainOk s n c
    → BestOf s (top_price (view_chain c)) (top_qty (view_chain c)) c
top-BestOf s n [] v = record { best = tt; all_of_it = refl; met = inl (refl, refl) }
top-BestOf s n (l ∷ ls) (sorted, v) =
    let (good, zero_qty) = behind s l.price n ls sorted.0 v.1 in
    record {
      best = (good_level s l.price l.price n l.orders (same_price s l.price) v.0.orders, good);
      all_of_it =
          add_quantities-sum 0 l.orders (omega arith)
          ∙ ap (λ x. x % 2 ^ 32)
              (let here = qty_at-level s l.price n l.orders v.0.orders in omega arith);
      met = inr (let here = counted s l.price n l.orders v.0.orders v.0.occupied in omega arith);
    }

-- The best prices are those of the book's two sides.
pub record IsBest (b : MeOrderBook) (x : Bbo) : Type 0 where
  pub bids : BestOf Side.buy x.bid_price x.bid_qty b.bids_by_price
  pub asks : BestOf Side.sell x.ask_price x.ask_qty b.asks_by_price

pub mirrored-IsBest : (b : MeOrderBook) (k : MarketOrderBook) → Inv b → Mirrors b k → IsBest b k.bbo
mirrored-IsBest b k v m =
    subst (IsBest b) (sym (ap (λ (k' : MarketOrderBook). k'.bbo) m.same)) (record {
      bids = top-BestOf Side.buy b.next_market_order_id b.bids_by_price v.links.bids;
      asks = top-BestOf Side.sell b.next_market_order_id b.asks_by_price v.links.asks;
    })

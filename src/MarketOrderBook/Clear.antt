-- ===== src/MarketOrderBook/Clear.antt =====
-- `clearBook` gives every block back to the pools.
use llcpp_exchange.Prelude.{
  ℕ, zero, suc, ◌+◌, ◌≤◌, ◌<◌, ◌≡◌, ◌⊎◌, refl, ap, ap₂, ◌∙◌, Option, none, some, [], ◌∷◌, List,
  arith, All, sum_by, Option-cases, inl, inr,
}
use llcpp_exchange.Types.{Side, me_max_order_ids, me_max_price_levels}
use llcpp_exchange.Protocol.{MarketUpdateType, MeMarketUpdate}
use llcpp_exchange.OrderBook.State.{MeOrder, Chain, MeOrderBook, price_to_index, new_book}
use llcpp_exchange.OrderBook.Spec.{total}
use llcpp_exchange.OrderBook.Invariant.{OrderOk, LevelOk, at_price, with_id, both, Links, Inv}
use llcpp_exchange.OrderBook.LevelPool.{
  sum_below, sum_below-add, sum_below-zero, sum_below-indicator, at_index, levels_by_index,
  index_count-none, index_count-some, bids-Seated, asks-Seated,
}
use llcpp_exchange.MarketOrderBook.Book.{MarketOrderBook, new_market_book}
use llcpp_exchange.MarketOrderBook.Update.{
  count_pointers, clear_book, update_bbo, market_update_case, on_market_update,
}
use llcpp_exchange.MarketOrderBook.Mirror.{mirrored, Pointers, Mirrors}

abbrev pointed : Option ℕ → ℕ
pointed none = 0
pointed (some i) = 1

count_pointers-sum :
    (n : ℕ) (f : ℕ → Option ℕ) (g : ℕ → ℕ)
    → ((i : ℕ) → i < n → pointed (f i) ≡ g i)
    → count_pointers f n ≡ sum_below n g
unfolding count_pointers sum_below
count_pointers-sum zero f g h = refl
count_pointers-sum (suc n) f g h =
    ground (arith, count_pointers-sum n f g (λ i l. h i (omega arith)), h n (omega arith))

orders_by_id :
    (n next p : ℕ) (s : Side) (os : List MeOrder)
    → next ≤ n
    → All (OrderOk s p next) os
    → sum_below n (λ m. sum_by (with_id m) os) ≡ sum_by (λ o. 1) os
orders_by_id n next p s [] l a = sum_below-zero n
orders_by_id n next p s (o ∷ os) l a = omega (
  arith,
  sum_below-add n (λ m. with_id m o) (λ m. sum_by (with_id m) os),
  one_id,
  orders_by_id n next p s os l a.1,
)
  where
    one_id : sum_below n (λ m. with_id m o) ≡ 1
    one_id = sum_below-indicator n o.market_order_id ∙ ground arith

chain_by_id :
    (n next : ℕ) (s : Side) (ls : Chain)
    → next ≤ n
    → All (LevelOk s next) ls
    → sum_below n (λ m. total (with_id m) ls) ≡ total (λ o. 1) ls
chain_by_id n next s [] l a = sum_below-zero n
chain_by_id n next s (k ∷ ls) l a = omega (
  arith,
  sum_below-add n (λ m. sum_by (with_id m) k.orders) (λ m. total (with_id m) ls),
  orders_by_id n next k.price s k.orders l a.0.orders,
  chain_by_id n next s ls l a.1,
)

module _ {b : MeOrderBook} (v : Inv b) (small : b.next_market_order_id ≤ me_max_order_ids) where
  orders_pointed :
      (f : ℕ → Option ℕ)
      → Pointers b f
      → count_pointers f me_max_order_ids ≡ both (total (λ o. 1)) b
  orders_pointed f h =
      let by_id : (i : ℕ) → i < me_max_order_ids → pointed (f i) ≡ both (total (with_id i)) b =
        λ i l. ground (arith, h i l, v.links.unique i) in
      count_pointers-sum me_max_order_ids f (λ i. both (total (with_id i)) b) by_id
      ∙ omega (
        arith,
        sum_below-add me_max_order_ids (λ m. total (with_id m) b.bids_by_price)
            (λ m. total (with_id m) b.asks_by_price),
        chain_by_id me_max_order_ids b.next_market_order_id Side.buy b.bids_by_price small
            v.links.bids.1,
        chain_by_id me_max_order_ids b.next_market_order_id Side.sell b.asks_by_price small
            v.links.asks.1,
      )

at_price-index :
    (q : ℕ) (ls : Chain) → sum_by (at_price q) ls ≤ sum_by (at_index (price_to_index q)) ls
at_price-index q [] = omega arith
at_price-index q (l ∷ ls) = ground (arith, at_price-index q ls)

module _ {b : MeOrderBook} (v : Links b) where
  slot_pointed : (i : ℕ) → pointed (b.price_orders_at_price i) ≡ both (sum_by (at_index i)) b
  slot_pointed i = elim (Option-cases (b.price_orders_at_price i)) [
    | inl e ↦ ground (
      arith,
      index_count-none v i e b.bids_by_price (bids-Seated v),
      index_count-none v i e b.asks_by_price (asks-Seated v),
    )
    | inr (q, e) ↦
        let j = v.keys i q e in
        ground (
          arith,
          e,
          j,
          index_count-some v i q e b.bids_by_price (bids-Seated v),
          index_count-some v i q e b.asks_by_price (asks-Seated v),
          at_price-index q b.bids_by_price,
          at_price-index q b.asks_by_price,
          v.slots q,
        )
  ]

  levels_pointed :
      count_pointers b.price_orders_at_price me_max_price_levels ≡ both (sum_by (λ l. 1)) b
  levels_pointed =
      count_pointers-sum me_max_price_levels b.price_orders_at_price
        (λ i. both (sum_by (at_index i)) b) (λ i l. slot_pointed i)
      ∙ omega (
        arith,
        sum_below-add me_max_price_levels (λ i. sum_by (at_index i) b.bids_by_price)
            (λ i. sum_by (at_index i) b.asks_by_price),
        levels_by_index b.bids_by_price,
        levels_by_index b.asks_by_price,
      )

clear-mirrored :
    (b : MeOrderBook) (f : ℕ → Option ℕ)
    → Inv b
    → b.next_market_order_id ≤ me_max_order_ids
    → Pointers b f
    → clear_book (mirrored b f) ≡ new_market_book
unfolding clear_book
clear-mirrored b f v small h =
    let levels : b.orders_at_price_free + count_pointers b.price_orders_at_price me_max_price_levels
        ≡ me_max_price_levels =
      omega (arith, levels_pointed v.links, v.links.level_pool) in
    let orders : b.order_free + count_pointers f me_max_order_ids ≡ me_max_order_ids =
      omega (arith, orders_pointed v small f h, v.order_pool) in
    ap₂ (λ x y. record new_market_book { orders_at_price_free = x; order_free = y }) levels orders

-- When a client's book mirrors a sound book of the exchange whose next order id is at most 2^20, an
-- update of type CLEAR or SNAPSHOT_START leaves the client with the book of the constructor, which
-- mirrors a new book of the exchange: all blocks are back in the two pools, none lost or twice.
pub clear-Follows :
    (u : MeMarketUpdate) (t : ℕ) (b : MeOrderBook) (k : MarketOrderBook)
    → (u.type ≡ MarketUpdateType.clear) ⊎ (u.type ≡ MarketUpdateType.snapshot_start)
    → Inv b
    → b.next_market_order_id ≤ me_max_order_ids
    → Mirrors b k
    → (on_market_update u k ≡ some new_market_book) × Mirrors (new_book t) new_market_book
unfolding on_market_update market_update_case update_bbo
clear-Follows u t b k y v small h =
    let e : clear_book k ≡ new_market_book =
      ap clear_book h.same ∙ clear-mirrored b h.oid v small h.pointers in
    let done : some (update_bbo (clear_book k)) ≡ some new_market_book =
      ap (λ k'. some (update_bbo k')) e in
    let wiped : on_market_update u k ≡ some new_market_book = elim y [
      | inl a ↦ ap (λ y'. market_update_case y' u k) a ∙ done
      | inr a ↦ ap (λ y'. market_update_case y' u k) a ∙ done
    ] in
    (wiped, record { oid = λ m. none; pointers = λ m l. refl; same = refl })

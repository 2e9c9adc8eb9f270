-- ===== src/OrderBook/AddOrder.antt =====
-- `addOrder` on the whole book: one side gains the order, and the maps and pools stay in step.
use llcpp_exchange.Prelude.{
  ℕ, ◌+◌, ◌-◌, ◌≤◌, ◌<◌, ◌≡◌, refl, subst, inl, inr, Bool, true, false, none, some, [], ◌∷◌, arith,
  ◌==◌, if◌then◌else◌, All, sum_by, Bool-cases, holds, put, put₂,
}
use llcpp_exchange.Types.{Side, IsTraded, me_max_price_levels}
use llcpp_exchange.OrderBook.State.{
  MeOrder, MeOrdersAtPrice, Chain, MeOrderBook, find_level, chain, update_chain, price_to_index,
  get_orders_at_price,
}
use llcpp_exchange.OrderBook.Chains.{add_orders_at_price, add_order}
use llcpp_exchange.OrderBook.Spec.{insert_order, total}
use llcpp_exchange.OrderBook.Invariant.{
  LevelOk, ChainOk, at_price, with_id, with_ids, indicator, both, Links,
}
use llcpp_exchange.OrderBook.Insertion.{
  insert_level-insert, append_order-insert, total-insert, prices-insert, prices-insert_old,
  insert-ChainOk,
}
use llcpp_exchange.OrderBook.RemoveOrder.{chain-ChainOk, chain-le-both, holds-eq, find_level-price}

-- What `addOrder` makes of the book; a new level takes the slot.
abbrev pub inserted : Bool → MeOrder → MeOrderBook → MeOrderBook
inserted fresh o b =
    let b' = update_chain o.side (insert_order o) b in
    record b' {
      cid_oid_to_order =
          put₂ b.cid_oid_to_order o.client_id o.client_order_id (some o.market_order_id);
      price_orders_at_price =
          if fresh
          then put b.price_orders_at_price (price_to_index o.price) (some o.price)
          else b.price_orders_at_price;
      orders_at_price_free = b.orders_at_price_free - indicator fresh;
    }

-- There is no level in the slot of the price, or there is the order's own.
abbrev pub Place : Bool → MeOrder → MeOrderBook → Type 0
Place true o b =
    (b.price_orders_at_price (price_to_index o.price) ≡ none) × (0 < b.orders_at_price_free)
Place false o b = (l : MeOrdersAtPrice) × (find_level o.price (chain o.side b) ≡ some l)

find_level-some :
    (p : ℕ) (ls : Chain) (l : MeOrdersAtPrice)
    → find_level p ls ≡ some l
    → 0 < sum_by (at_price p) ls
find_level-some p [] l e = cc
find_level-some p (k ∷ ls) l e = ground (arith, find_level-some p ls l)

find_level_zero : (p : ℕ) (ls : Chain) → sum_by (at_price p) ls ≡ 0 → find_level p ls ≡ none
find_level_zero p [] e = refl
find_level_zero p (k ∷ ls) e = ground (arith, find_level_zero p ls)

find_level-LevelOk :
    (s : Side) (n p : ℕ) (ls : Chain) (l : MeOrdersAtPrice)
    → All (LevelOk s n) ls
    → find_level p ls ≡ some l
    → LevelOk s n l
find_level-LevelOk s n p [] l v e = cc
find_level-LevelOk s n p (k ∷ ls) l v e = elim (Bool-cases (k.price == p)) [
  | inl same ↦ subst (LevelOk s n) (ground (arith, e)) v.0
  | inr other ↦ find_level-LevelOk s n p ls l v.1 (rw other at e)
]

module _ {b : MeOrderBook} (v : Links b) (o : MeOrder) (t : IsTraded o.side) where
  free_slot-zero :
      b.price_orders_at_price (price_to_index o.price) ≡ none
      → both (sum_by (at_price o.price)) b ≡ 0
  free_slot-zero e = ground (arith, v.slots o.price)

  pub free_slot-none :
      b.price_orders_at_price (price_to_index o.price) ≡ none
      → find_level o.price (chain o.side b) ≡ none
  free_slot-none e =
      find_level_zero o.price (chain o.side b)
        (omega (arith, free_slot-zero e, chain-le-both v o.side (sum_by (at_price o.price))))

  add-fresh : Place true o b → add_order o b ≡ some (inserted true o b)
  unfolding add_order add_orders_at_price get_orders_at_price
  add-fresh h =
      let none_there = free_slot-none h.0 in
      ground (arith, insert_level-insert o (chain o.side b) none_there)

  pub own_level :
      (l : MeOrdersAtPrice)
      → find_level o.price (chain o.side b) ≡ some l
      → get_orders_at_price o.price b ≡ some l
  unfolding get_orders_at_price
  own_level l e =
      let slot = holds-eq (b.price_orders_at_price (price_to_index o.price)) o.price (
        ground (
          arith,
          v.slots o.price,
          find_level-some o.price (chain o.side b) l e,
          chain-le-both v o.side (sum_by (at_price o.price)),
        )) in
      ground (
        arith,
        slot,
        v.slots o.price,
        find_level-some o.price b.asks_by_price l,
        find_level_zero o.price b.bids_by_price,
        e,
      )

  add-old : Place false o b → add_order o b ≡ some (inserted false o b)
  unfolding add_order
  add-old (l, e) =
      let same = append_order-insert o (chain o.side b) l t (chain-ChainOk v o.side t).0 e in
      ground (
        arith,
        own_level l e,
        find_level-price o.price (chain o.side b) l e,
        (find_level-LevelOk o.side _ o.price (chain o.side b) l (chain-ChainOk v o.side t).1
            e).side,
      )

  pub both-inserted :
      (f : MeOrder → ℕ) (fresh : Bool)
      → both (total f) (inserted fresh o b) ≡ both (total f) b + f o
  both-inserted f fresh = ground (arith, total-insert f o (chain o.side b))

  both_prices-fresh :
      (g : ℕ → ℕ)
      → Place true o b
      → both (sum_by (λ l. g l.price)) (inserted true o b)
        ≡ both (sum_by (λ l. g l.price)) b + g o.price
  both_prices-fresh g h = ground (arith, prices-insert g o (chain o.side b) (free_slot-none h.0))

  both_prices-old :
      (g : ℕ → ℕ)
      → Place false o b
      → both (sum_by (λ l. g l.price)) (inserted false o b) ≡ both (sum_by (λ l. g l.price)) b
  both_prices-old g (l, e) =
      ground (arith, prices-insert_old g o (chain o.side b) l t (chain-ChainOk v o.side t).0 e)

  bids-inserted :
      o.market_order_id < b.next_market_order_id
      → (fresh : Bool) → ChainOk Side.buy b.next_market_order_id (inserted fresh o b).bids_by_price
  bids-inserted h fresh =
      ground (arith, v.bids, insert-ChainOk b.next_market_order_id o b.bids_by_price t h)

  asks-inserted :
      o.market_order_id < b.next_market_order_id
      → (fresh : Bool) → ChainOk Side.sell b.next_market_order_id (inserted fresh o b).asks_by_price
  asks-inserted h fresh =
      ground (arith, v.asks, insert-ChainOk b.next_market_order_id o b.asks_by_price t h)

  slots-inserted :
      (fresh : Bool)
      → Place fresh o b
      → (p : ℕ)
      → both (sum_by (at_price p)) (inserted fresh o b)
        ≡ indicator (holds ((inserted fresh o b).price_orders_at_price (price_to_index p)) p)
  slots-inserted true h p =
      let grown = both_prices-fresh (λ q. indicator (q == p)) h in
      let empty_slot = h.0 in ground (arith, v.slots p)
  slots-inserted false h p =
      let kept = both_prices-old (λ q. indicator (q == p)) h in ground (arith, v.slots p)

  keys-inserted :
      (fresh : Bool) (i p : ℕ)
      → (inserted fresh o b).price_orders_at_price i ≡ some p
      → price_to_index p ≡ i
  keys-inserted fresh i p e = ground (arith, v.keys i p)

  level_pool-inserted :
      (fresh : Bool)
      → Place fresh o b
      → (inserted fresh o b).orders_at_price_free + both (sum_by (λ l. 1)) (inserted fresh o b)
        ≡ me_max_price_levels
  level_pool-inserted true h = omega (arith, v.level_pool, both_prices-fresh (λ q. 1) h, h.1)
  level_pool-inserted false h = omega (arith, v.level_pool, both_prices-old (λ q. 1) h)

  module _ (fresh : Bool) (place : Place fresh o b)
      (young : o.market_order_id < b.next_market_order_id)
      (vacant : b.cid_oid_to_order o.client_id o.client_order_id ≡ none)
      (unused : both (total (with_id o.market_order_id)) b ≡ 0) where
    pointers-inserted :
        (c k m : ℕ)
        → both (total (with_ids c k m)) (inserted fresh o b)
          ≡ indicator (holds ((inserted fresh o b).cid_oid_to_order c k) m)
    pointers-inserted c k m = ground (arith, both-inserted (with_ids c k m) fresh, v.pointers c k m)

    unique-inserted : (m : ℕ) → both (total (with_id m)) (inserted fresh o b) ≤ 1
    unique-inserted m = ground (arith, both-inserted (with_id m) fresh, v.unique m)

    pub inserted-Links : Links (inserted fresh o b)
    inserted-Links = record {
      bids = bids-inserted young fresh;
      asks = asks-inserted young fresh;
      slots = slots-inserted fresh place;
      keys = keys-inserted fresh;
      pointers = pointers-inserted;
      unique = unique-inserted;
      level_pool = level_pool-inserted fresh place;
    }

  -- On a book whose parts agree, `add_order` of an order on a traded side, whose price has a live
  -- level or a free slot and a free level block, puts the order behind those of its price in the
  -- price order of its side, sets its client's pointer, and takes the slot for a new level.
  pub add_order-inserted :
      (fresh : Bool) → Place fresh o b → add_order o b ≡ some (inserted fresh o b)
  add_order-inserted true h = add-fresh h
  add_order-inserted false h = add-old h

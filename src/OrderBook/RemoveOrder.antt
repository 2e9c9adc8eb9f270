-- ===== src/OrderBook/RemoveOrder.antt =====
-- `removeOrder` on the whole book: one side loses the order, and the maps and pools stay in step.
use llcpp_exchange.Prelude.{
  ℕ, ◌+◌, ◌≤◌, ◌<◌, ◌≡◌, refl, sym, subst, inl, inr, true, false, Option, none, some, [], ◌∷◌,
  arith, ◌==◌, if◌then◌else◌, sum_by, Bool-cases, Option-cases, holds, put, put₂,
}
use llcpp_exchange.Types.{Side, IsTraded}
use llcpp_exchange.OrderBook.State.{
  MeOrder, MeOrdersAtPrice, Chain, MeOrderBook, find_order, or_else, find_level, chain,
  update_chain, price_to_index, get_orders_at_price,
}
use llcpp_exchange.OrderBook.Chains.{is_alone, ring_of, remove_orders_at_price, remove_order}
use llcpp_exchange.OrderBook.Spec.{drop_order, total}
use llcpp_exchange.OrderBook.Invariant.{
  ChainOk, at_price, with_id, with_ids, indicator, both, Links,
}
use llcpp_exchange.OrderBook.Removal.{total-drop, unlink-drop, erase-drop}
use llcpp_exchange.OrderBook.DropOrder.{find_price, drop-ChainOk, prices-drop, prices-drop_alone}

-- What `removeOrder` makes of the book.
abbrev pub removed : MeOrder → MeOrderBook → MeOrderBook
removed o b =
    let alone = is_alone (ring_of o.market_order_id (chain o.side b)) in
    let b' = update_chain o.side (drop_order o.market_order_id) b in
    record b' {
      cid_oid_to_order = put₂ b.cid_oid_to_order o.client_id o.client_order_id none;
      price_orders_at_price =
          if alone
          then put b.price_orders_at_price (price_to_index o.price) none
          else b.price_orders_at_price;
      orders_at_price_free = b.orders_at_price_free + indicator alone;
      order_free = b.order_free + 1;
    }

pub find_level-price :
    (p : ℕ) (ls : Chain) (l : MeOrdersAtPrice) → find_level p ls ≡ some l → l.price ≡ p
find_level-price p [] l e = cc
find_level-price p (k ∷ ls) l e = ground (arith, find_level-price p ls l)

pub find_level-none : (p : ℕ) (ls : Chain) → find_level p ls ≡ none → sum_by (at_price p) ls ≡ 0
find_level-none p [] e = refl
find_level-none p (k ∷ ls) e = ground (arith, find_level-none p ls)

pub holds-eq : (o : Option ℕ) (p : ℕ) → holds o p ≡ true → o ≡ some p
holds-eq none p h = cc
holds-eq (some q) p h = ground arith

pub either_level :
    (p : ℕ) (ls ks : Chain)
    → 0 < sum_by (at_price p) ls + sum_by (at_price p) ks
    → (l : MeOrdersAtPrice) × (or_else (find_level p ls) (find_level p ks) ≡ some l) × (l.price ≡ p)
either_level p ls ks h = elim (Option-cases (find_level p ls)) [
  | inr (l, e) ↦ (l, rw e, find_level-price p ls l e)
  | inl e ↦ elim (Option-cases (find_level p ks)) [
    | inr (l, e') ↦ (l, rw e e', find_level-price p ks l e')
    | inl e' ↦ absurd (omega (arith, find_level-none p ls e, find_level-none p ks e'))
  ]
]

-- A price with a live level is found through its slot.
pub get_live_level :
    (b : MeOrderBook) (p : ℕ)
    → Links b
    → 0 < both (sum_by (at_price p)) b
    → (l : MeOrdersAtPrice) × (get_orders_at_price p b ≡ some l) × (l.price ≡ p)
unfolding get_orders_at_price
get_live_level b p v h =
    let slot : b.price_orders_at_price (price_to_index p) ≡ some p =
      holds-eq _ p (ground (arith, v.slots p)) in
    rw (slot, get_orders_at_price) (either_level p b.bids_by_price b.asks_by_price h)

-- The order is linked into the side that it says.
abbrev pub IsLive : MeOrder → MeOrderBook → Type 0
IsLive o b = find_order o.market_order_id (chain o.side b) ≡ some o

module _ {b : MeOrderBook} (v : Links b) where
  pub chain-ChainOk : (s : Side) → IsTraded s → ChainOk s b.next_market_order_id (chain s b)
  chain-ChainOk Side.buy h = v.bids
  chain-ChainOk Side.sell h = v.asks
  chain-ChainOk Side.invalid h = elim h [ ]
  chain-ChainOk Side.max h = elim h [ ]

  pub chain-le-both : (s : Side) (f : Chain → ℕ) → f (chain s b) ≤ both f b
  chain-le-both Side.buy f = omega arith
  chain-le-both _ f = omega arith

  live_level :
      (o : MeOrder)
      → IsTraded o.side
      → IsLive o b
      → (l : MeOrdersAtPrice) × (get_orders_at_price o.price b ≡ some l) × (l.price ≡ o.price)
  live_level o t live = get_live_level b o.price v (
      omega (
        arith,
        find_price o.side _ o.market_order_id (chain o.side b) o (chain-ChainOk o.side t).1 live,
        chain-le-both o.side (sum_by (at_price o.price)),
      ))

  remove-alone :
      (o : MeOrder)
      → IsTraded o.side
      → IsLive o b
      → is_alone (ring_of o.market_order_id (chain o.side b)) ≡ true
      → remove_order o b ≡ removed o b
  unfolding remove_order remove_orders_at_price
  remove-alone o t live a =
      let (l, found, price) = live_level o t live in
      let same =
        erase-drop o.side _ o.market_order_id (chain o.side b) o (chain-ChainOk o.side t) live a in
      ground arith

  remove-shared :
      (o : MeOrder)
      → IsTraded o.side
      → is_alone (ring_of o.market_order_id (chain o.side b)) ≡ false
      → remove_order o b ≡ removed o b
  unfolding remove_order
  remove-shared o t a =
      let same =
        unlink-drop o.side _ o.market_order_id (chain o.side b) (chain-ChainOk o.side t).1 a in
      ground arith

  -- On a book whose parts agree, `remove_order` of a live order on a traded side takes it alone out of
  -- its side, clears its client's pointer, gives its block back, and gives back the level and frees
  -- its slot when the order was alone at its price.
  pub remove_order-removed :
      (o : MeOrder) → IsTraded o.side → IsLive o b → remove_order o b ≡ removed o b
  remove_order-removed o t live =
      elim (Bool-cases (is_alone (ring_of o.market_order_id (chain o.side b)))) [
        | inl a ↦ remove-alone o t live a
        | inr a ↦ remove-shared o t a
      ]

  -- A measure of the orders falls by that of the removed one.
  pub both-removed :
      (f : MeOrder → ℕ) (o : MeOrder)
      → IsLive o b
      → both (total f) (removed o b) + f o ≡ both (total f) b
  both-removed f o live = ground (arith, total-drop f o.market_order_id (chain o.side b) o live)

  -- A measure of the levels falls if the removed order was the last of its level.
  both_prices-removed :
      (g : ℕ → ℕ) (o : MeOrder)
      → IsTraded o.side
      → IsLive o b
      → both (sum_by (λ l. g l.price)) (removed o b)
          + (if is_alone (ring_of o.market_order_id (chain o.side b)) then g o.price else 0)
        ≡ both (sum_by (λ l. g l.price)) b
  both_prices-removed g o t live =
      let ok = (chain-ChainOk o.side t).1 in
      elim (Bool-cases (is_alone (ring_of o.market_order_id (chain o.side b)))) [
        | inl a ↦
            ground
              (arith, prices-drop_alone g o.side _ o.market_order_id (chain o.side b) o ok live a)
        | inr a ↦ ground (arith, prices-drop g o.side _ o.market_order_id (chain o.side b) ok a)
      ]

module _ {b : MeOrderBook} (v : Links b) (o : MeOrder) (t : IsTraded o.side)
    (live : IsLive o b) where
  pub live_slot : b.price_orders_at_price (price_to_index o.price) ≡ some o.price
  live_slot = holds-eq _ o.price (
      ground (
        arith,
        v.slots o.price,
        find_price o.side _ o.market_order_id (chain o.side b) o (chain-ChainOk v o.side t).1 live,
        chain-le-both v o.side (sum_by (at_price o.price)),
      ))

  pub live_pointer : b.cid_oid_to_order o.client_id o.client_order_id ≡ some o.market_order_id
  live_pointer = holds-eq _ o.market_order_id (
      ground (
        arith,
        v.pointers o.client_id o.client_order_id o.market_order_id,
        both-removed v (with_ids o.client_id o.client_order_id o.market_order_id) o live,
      ))

  slots-removed :
      (p : ℕ)
      → both (sum_by (at_price p)) (removed o b)
        ≡ indicator (holds ((removed o b).price_orders_at_price (price_to_index p)) p)
  slots-removed p = elim (Bool-cases (is_alone (ring_of o.market_order_id (chain o.side b)))) [
    | inl a ↦
        let moved = both_prices-removed v (λ q. indicator (q == p)) o t live in
        rw a (ground (arith, v.slots p, live_slot))
    | inr a ↦
        let moved = both_prices-removed v (λ q. indicator (q == p)) o t live in
        rw a (ground (arith, v.slots p))
  ]

  keys-removed : (i p : ℕ) → (removed o b).price_orders_at_price i ≡ some p → price_to_index p ≡ i
  keys-removed i p e = ground (arith, v.keys i p)

  pointers-removed :
      (c k m : ℕ)
      → both (total (with_ids c k m)) (removed o b)
        ≡ indicator (holds ((removed o b).cid_oid_to_order c k) m)
  pointers-removed c k m =
      ground (arith, both-removed v (with_ids c k m) o live, v.pointers c k m, live_pointer)

  bids-removed : ChainOk Side.buy b.next_market_order_id (removed o b).bids_by_price
  bids-removed =
      ground (arith, v.bids, drop-ChainOk Side.buy _ o.market_order_id b.bids_by_price v.bids)

  asks-removed : ChainOk Side.sell b.next_market_order_id (removed o b).asks_by_price
  asks-removed =
      ground (arith, v.asks, drop-ChainOk Side.sell _ o.market_order_id b.asks_by_price v.asks)

  removed-Links : Links (removed o b)
  removed-Links = record {
    bids = bids-removed;
    asks = asks-removed;
    slots = slots-removed;
    keys = keys-removed;
    pointers = pointers-removed;
    unique = λ m. omega (arith, v.unique m, both-removed v (with_id m) o live);
    level_pool = omega (arith, v.level_pool, both_prices-removed v (λ q. 1) o t live);
  }

  pub remove_order-Links : Links (remove_order o b)
  remove_order-Links = subst Links (sym (remove_order-removed v o t live)) removed-Links

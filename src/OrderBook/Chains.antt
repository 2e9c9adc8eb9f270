-- ===== src/OrderBook/Chains.antt =====
-- The helpers of me_order_book.cpp that relink levels and orders.
use llcpp_exchange.Prelude.{
  ℕ, ◌+◌, ◌-◌, ◌%◌, ◌^◌, Bool, true, false, ◌&&◌, ◌||◌, Option, none, some, List, [], ◌∷◌, ◌++◌,
  ltb, ◌==◌, if◌then◌else◌, put, put₂,
}
use llcpp_exchange.Types.{Side, is_buy, is_sell}
use llcpp_exchange.OrderBook.State.{
  MeOrder, MeOrdersAtPrice, Chain, MeOrderBook, price_to_index, chain, update_chain,
  get_orders_at_price,
}

-- `first_me_order_->prev_order_` is the last order of the level.
abbrev pub last_priority : List MeOrder → ℕ
last_priority [] = 0
last_priority (o ∷ []) = o.priority
last_priority (o ∷ p ∷ os) = last_priority (p ∷ os)

unfoldable pub get_next_priority : ℕ → MeOrderBook → ℕ
get_next_priority price b = elim (get_orders_at_price price b) [
  | none ↦ 1
  | some oap ↦ (last_priority oap.orders + 1) % 2 ^ 64
]

-- The new level is less aggressive than `t`.
abbrev pub should_advance : MeOrdersAtPrice → MeOrdersAtPrice → Bool
should_advance new t =
    (is_sell new.side && ltb t.price new.price) || (is_buy new.side && ltb new.price t.price)

-- The walk to the first level that the new one beats, and the relinking there.
unfoldable pub insert_level : MeOrdersAtPrice → Chain → Chain
insert_level new [] = new ∷ []
insert_level new (t ∷ ts) = if should_advance new t then t ∷ insert_level new ts else new ∷ t ∷ ts

unfoldable pub add_orders_at_price : MeOrdersAtPrice → MeOrderBook → MeOrderBook
add_orders_at_price new b = update_chain new.side (insert_level new) (record b {
  price_orders_at_price = put b.price_orders_at_price (price_to_index new.price) (some new.price);
})

-- Unlinks the level from its ring.
unfoldable pub erase_level : ℕ → Chain → Chain
erase_level p [] = []
erase_level p (l ∷ ls) = if l.price == p then ls else l ∷ erase_level p ls

-- With no level at the price the code dereferences a null pointer.
unfoldable pub remove_orders_at_price : Side → ℕ → MeOrderBook → MeOrderBook
remove_orders_at_price side price b = elim (get_orders_at_price price b) [
  | none ↦ b
  | some oap ↦
      let b' = update_chain side (erase_level oap.price) b in
      record b' {
        price_orders_at_price = put b'.price_orders_at_price (price_to_index price) none;
        orders_at_price_free = b'.orders_at_price_free + 1;
      }
]

-- Links the order behind the last one of the level at `p`.
unfoldable pub append_order : ℕ → MeOrder → Chain → Chain
append_order p o [] = []
append_order p o (l ∷ ls) =
    if l.price == p
    then record l { orders = l.orders ++ (o ∷ []) } ∷ ls
    else l ∷ append_order p o ls

abbrev pub new_level : MeOrder → MeOrdersAtPrice
new_level o = record { side = o.side; price = o.price; orders = o ∷ [] }

-- `none` is the FATAL exit of an exhausted pool.
unfoldable pub link_order : MeOrder → MeOrderBook → Option MeOrderBook
link_order o b = elim (get_orders_at_price o.price b) [
  | none ↦
      if ltb 0 b.orders_at_price_free
      then some (
          add_orders_at_price (new_level o)
            (record b { orders_at_price_free = b.orders_at_price_free - 1 }))
      else none
  | some oap ↦ some (update_chain oap.side (append_order oap.price o) b)
]

abbrev pub set_pointer : MeOrder → Option ℕ → MeOrderBook → MeOrderBook
set_pointer o p b = record b {
  cid_oid_to_order = put₂ b.cid_oid_to_order o.client_id o.client_order_id p;
}

unfoldable pub add_order : MeOrder → MeOrderBook → Option MeOrderBook
unfolding link_order
add_order o b = elim (link_order o b) [
  | none ↦ none
  | some b' ↦ some (set_pointer o (some o.market_order_id) b')
]

abbrev pub has_id : ℕ → List MeOrder → Bool
has_id m [] = false
has_id m (o ∷ os) = o.market_order_id == m || has_id m os

abbrev pub erase_id : ℕ → List MeOrder → List MeOrder
erase_id m [] = []
erase_id m (o ∷ os) = if o.market_order_id == m then os else o ∷ erase_id m os

-- The ring that an order is linked into.
unfoldable pub ring_of : ℕ → Chain → List MeOrder
ring_of m [] = []
ring_of m (l ∷ ls) = if has_id m l.orders then l.orders else ring_of m ls

-- `prev == order`
abbrev pub is_alone : List MeOrder → Bool
is_alone (o ∷ []) = true
is_alone _ = false

unfoldable pub unlink_order : ℕ → Chain → Chain
unlink_order m [] = []
unlink_order m (l ∷ ls) =
    if has_id m l.orders
    then record l { orders = erase_id m l.orders } ∷ ls
    else l ∷ unlink_order m ls

unfoldable pub remove_order : MeOrder → MeOrderBook → MeOrderBook
remove_order o b =
    let b' =
      if is_alone (ring_of o.market_order_id (chain o.side b))
      then remove_orders_at_price o.side o.price b
      else update_chain o.side (unlink_order o.market_order_id) b in
    set_pointer o none (record b' { order_free = b'.order_free + 1 })

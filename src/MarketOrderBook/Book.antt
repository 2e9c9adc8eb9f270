-- ===== src/MarketOrderBook/Book.antt =====
-- MarketOrderBook. As in OrderBook/State a circular list is the list of its elements from the head
-- on, a pointer to an order is the order's id, and a pointer to a level is its price. This is the code
-- where the ids in the book are distinct and a level holds orders of its own side, as in a book that
-- follows the exchange's. Other updates are not modelled: after an ADD of an id that is in the book the
-- code's pointer leads to the later order, and after one at a live level of the other side the code
-- may free that level while the head of its side still points to it.
use llcpp_exchange.Prelude.{
  ℕ, ◌+◌, ◌-◌, Bool, true, false, ◌&&◌, ◌||◌, Option, none, some, List, [], ◌∷◌, ◌++◌, ltb, ◌==◌,
  if◌then◌else◌, put,
}
use llcpp_exchange.Types.{Side, is_buy, is_sell, invalid_u64, me_max_order_ids, me_max_price_levels}
use llcpp_exchange.OrderBook.State.{price_to_index, or_else}

pub record MarketOrder : Type 0 where
  pub order_id : ℕ
  pub side : Side
  pub price : ℕ
  pub qty : ℕ
  pub priority : ℕ

pub record MarketOrdersAtPrice : Type 0 where
  pub side : Side
  pub price : ℕ
  pub orders : List MarketOrder

abbrev pub MarketChain : Type 0
MarketChain = List MarketOrdersAtPrice

pub record Bbo : Type 0 where
  pub bid_price : ℕ
  pub ask_price : ℕ
  pub bid_qty : ℕ
  pub ask_qty : ℕ

abbrev pub no_bbo : Bbo
no_bbo = record { bid_price = invalid_u64; ask_price = invalid_u64; bid_qty = 0; ask_qty = 0 }

pub record MarketOrderBook : Type 0 where
  pub bids_by_price : MarketChain
  pub asks_by_price : MarketChain
  pub price_orders_at_price : ℕ → Option ℕ
  pub oid_to_order : ℕ → Option ℕ
  -- `free_count` of the two pools
  pub orders_at_price_free : ℕ
  pub order_free : ℕ
  pub bbo : Bbo

-- The constructor.
abbrev pub new_market_book : MarketOrderBook
new_market_book = record {
  bids_by_price = [];
  asks_by_price = [];
  price_orders_at_price = λ i. none;
  oid_to_order = λ m. none;
  orders_at_price_free = me_max_price_levels;
  order_free = me_max_order_ids;
  bbo = no_bbo;
}

-- `side == Side::BUY ? bids_by_price_ : asks_by_price_`
abbrev pub market_chain : Side → MarketOrderBook → MarketChain
market_chain s k = if is_buy s then k.bids_by_price else k.asks_by_price

abbrev pub update_market_chain :
    Side → (MarketChain → MarketChain) → MarketOrderBook → MarketOrderBook
update_market_chain s f k = record k {
  bids_by_price = if is_buy s then f k.bids_by_price else k.bids_by_price;
  asks_by_price = if is_buy s then k.asks_by_price else f k.asks_by_price;
}

abbrev pub find_market_level : ℕ → MarketChain → Option MarketOrdersAtPrice
find_market_level p [] = none
find_market_level p (l ∷ ls) = if l.price == p then some l else find_market_level p ls

-- `getOrdersAtPrice`
unfoldable pub market_level_at : ℕ → MarketOrderBook → Option MarketOrdersAtPrice
market_level_at price k = elim (k.price_orders_at_price (price_to_index price)) [
  | none ↦ none
  | some p ↦ or_else (find_market_level p k.bids_by_price) (find_market_level p k.asks_by_price)
]

abbrev pub find_market_order_in : ℕ → List MarketOrder → Option MarketOrder
find_market_order_in m [] = none
find_market_order_in m (o ∷ os) = if o.order_id == m then some o else find_market_order_in m os

abbrev pub find_market_order : ℕ → MarketChain → Option MarketOrder
find_market_order m [] = none
find_market_order m (l ∷ ls) = or_else (find_market_order_in m l.orders) (find_market_order m ls)

-- `oid_to_order_[m]` for an id that may be out of range, and the order it leads to.
unfoldable pub get_order : ℕ → MarketOrderBook → Option MarketOrder
get_order m k =
    if ltb m me_max_order_ids
    then elim (k.oid_to_order m) [
      | none ↦ none
      | some i ↦ or_else (find_market_order i k.bids_by_price) (find_market_order i k.asks_by_price)
    ]
    else none

abbrev pub market_should_advance : MarketOrdersAtPrice → MarketOrdersAtPrice → Bool
market_should_advance new t =
    (is_sell new.side && ltb t.price new.price) || (is_buy new.side && ltb new.price t.price)

unfoldable pub insert_market_level : MarketOrdersAtPrice → MarketChain → MarketChain
insert_market_level new [] = new ∷ []
insert_market_level new (t ∷ ts) =
    if market_should_advance new t then t ∷ insert_market_level new ts else new ∷ t ∷ ts

-- `addOrdersAtPrice`
unfoldable pub add_market_level : MarketOrdersAtPrice → MarketOrderBook → MarketOrderBook
add_market_level new k = update_market_chain new.side (insert_market_level new) (record k {
  price_orders_at_price = put k.price_orders_at_price (price_to_index new.price) (some new.price);
})

unfoldable pub erase_market_level : ℕ → MarketChain → MarketChain
erase_market_level p [] = []
erase_market_level p (l ∷ ls) = if l.price == p then ls else l ∷ erase_market_level p ls

-- `removeOrdersAtPrice`
unfoldable pub remove_market_level : Side → ℕ → MarketOrderBook → MarketOrderBook
remove_market_level side price k = elim (market_level_at price k) [
  | none ↦ k
  | some oap ↦
      let k' = update_market_chain side (erase_market_level oap.price) k in
      record k' {
        price_orders_at_price = put k'.price_orders_at_price (price_to_index price) none;
        orders_at_price_free = k'.orders_at_price_free + 1;
      }
]

unfoldable pub append_market_order : ℕ → MarketOrder → MarketChain → MarketChain
append_market_order p o [] = []
append_market_order p o (l ∷ ls) =
    if l.price == p
    then record l { orders = l.orders ++ (o ∷ []) } ∷ ls
    else l ∷ append_market_order p o ls

abbrev pub new_market_level : MarketOrder → MarketOrdersAtPrice
new_market_level o = record { side = o.side; price = o.price; orders = o ∷ [] }

-- The links of `addOrder`. `none` is the FATAL exit of an exhausted pool.
unfoldable pub link_market_order : MarketOrder → MarketOrderBook → Option MarketOrderBook
link_market_order o k = elim (market_level_at o.price k) [
  | none ↦
      if ltb 0 k.orders_at_price_free
      then some (
          add_market_level (new_market_level o)
            (record k { orders_at_price_free = k.orders_at_price_free - 1 }))
      else none
  | some oap ↦ some (update_market_chain oap.side (append_market_order oap.price o) k)
]

-- `addOrder`
unfoldable pub add_market_order : MarketOrder → MarketOrderBook → Option MarketOrderBook
add_market_order o k = elim (link_market_order o k) [
  | none ↦ none
  | some k' ↦ some (record k' { oid_to_order = put k'.oid_to_order o.order_id (some o.order_id) })
]

abbrev pub has_order : ℕ → List MarketOrder → Bool
has_order m [] = false
has_order m (o ∷ os) = o.order_id == m || has_order m os

abbrev pub erase_order : ℕ → List MarketOrder → List MarketOrder
erase_order m [] = []
erase_order m (o ∷ os) = if o.order_id == m then os else o ∷ erase_order m os

-- The ring that an order is linked into, and whether `prev == order`.
unfoldable pub market_ring_of : ℕ → MarketChain → List MarketOrder
market_ring_of m [] = []
market_ring_of m (l ∷ ls) = if has_order m l.orders then l.orders else market_ring_of m ls

abbrev pub is_only : List MarketOrder → Bool
is_only (o ∷ []) = true
is_only _ = false

unfoldable pub unlink_market_order : ℕ → MarketChain → MarketChain
unlink_market_order m [] = []
unlink_market_order m (l ∷ ls) =
    if has_order m l.orders
    then record l { orders = erase_order m l.orders } ∷ ls
    else l ∷ unlink_market_order m ls

-- `removeOrder`
unfoldable pub remove_market_order : MarketOrder → MarketOrderBook → MarketOrderBook
remove_market_order o k =
    let k' =
      if is_only (market_ring_of o.order_id (market_chain o.side k))
      then remove_market_level o.side o.price k
      else update_market_chain o.side (unlink_market_order o.order_id) k in
    record k' { oid_to_order = put k'.oid_to_order o.order_id none; order_free = k'.order_free + 1 }

abbrev pub write_qty_in : ℕ → ℕ → List MarketOrder → List MarketOrder
write_qty_in m q [] = []
write_qty_in m q (o ∷ os) =
    if o.order_id == m then record o { qty = q } ∷ os else o ∷ write_qty_in m q os

-- The write of a quantity through a pointer to an order.
unfoldable pub write_qty : ℕ → ℕ → MarketChain → MarketChain
write_qty m q [] = []
write_qty m q (l ∷ ls) =
    if has_order m l.orders
    then record l { orders = write_qty_in m q l.orders } ∷ ls
    else l ∷ write_qty m q ls

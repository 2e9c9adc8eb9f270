-- ===== src/OrderBook/State.antt =====
-- me_order.h and the members of MeOrderBook. A circular list of orders or of levels is the list of
-- its elements from the head on, in the order of the `next` pointers. A pointer to an order is its
-- market order id, and a pointer to a level is its price.
use llcpp_exchange.Prelude.{ℕ, ◌%◌, Option, none, some, List, [], ◌∷◌, ◌==◌, if◌then◌else◌}
use llcpp_exchange.Types.{Side, is_buy, me_max_order_ids, me_max_price_levels}

pub record MeOrder : Type 0 where
  pub ticker_id : ℕ
  pub client_id : ℕ
  pub client_order_id : ℕ
  pub market_order_id : ℕ
  pub side : Side
  pub price : ℕ
  pub qty : ℕ
  pub priority : ℕ

pub record MeOrdersAtPrice : Type 0 where
  pub side : Side
  pub price : ℕ
  pub orders : List MeOrder

abbrev pub Chain : Type 0
Chain = List MeOrdersAtPrice

pub record MeOrderBook : Type 0 where
  pub ticker_id : ℕ
  pub bids_by_price : Chain
  pub asks_by_price : Chain
  pub cid_oid_to_order : ℕ → ℕ → Option ℕ
  pub price_orders_at_price : ℕ → Option ℕ
  pub next_market_order_id : ℕ
  -- `free_count` of the two pools
  pub orders_at_price_free : ℕ
  pub order_free : ℕ

-- The constructor.
abbrev pub new_book : ℕ → MeOrderBook
new_book ticker_id = record {
  ticker_id = ticker_id;
  bids_by_price = [];
  asks_by_price = [];
  cid_oid_to_order = λ c o. none;
  price_orders_at_price = λ i. none;
  next_market_order_id = 1;
  orders_at_price_free = me_max_price_levels;
  order_free = me_max_order_ids;
}

abbrev pub price_to_index : ℕ → ℕ
price_to_index price = price % me_max_price_levels

-- `side == Side::BUY ? bids_by_price_ : asks_by_price_`
abbrev pub chain : Side → MeOrderBook → Chain
chain s b = if is_buy s then b.bids_by_price else b.asks_by_price

abbrev pub update_chain : Side → (Chain → Chain) → MeOrderBook → MeOrderBook
update_chain s f b = record b {
  bids_by_price = if is_buy s then f b.bids_by_price else b.bids_by_price;
  asks_by_price = if is_buy s then b.asks_by_price else f b.asks_by_price;
}

-- The level that a level pointer stands for.
abbrev pub find_level : ℕ → Chain → Option MeOrdersAtPrice
find_level price [] = none
find_level price (l ∷ ls) = if l.price == price then some l else find_level price ls

abbrev pub or_else {ℓ} : {A : Type ℓ} → Option A → Option A → Option A
or_else (some a) o = some a
or_else none o = o

unfoldable pub get_orders_at_price : ℕ → MeOrderBook → Option MeOrdersAtPrice
get_orders_at_price price b = elim (b.price_orders_at_price (price_to_index price)) [
  | none ↦ none
  | some p ↦ or_else (find_level p b.bids_by_price) (find_level p b.asks_by_price)
]

-- The order that an order pointer stands for.
abbrev pub find_in_level : ℕ → List MeOrder → Option MeOrder
find_in_level m [] = none
find_in_level m (o ∷ os) = if o.market_order_id == m then some o else find_in_level m os

abbrev pub find_order : ℕ → Chain → Option MeOrder
find_order m [] = none
find_order m (l ∷ ls) = or_else (find_in_level m l.orders) (find_order m ls)

unfoldable pub deref_order : ℕ → MeOrderBook → Option MeOrder
deref_order m b = or_else (find_order m b.bids_by_price) (find_order m b.asks_by_price)

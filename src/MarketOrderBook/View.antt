-- ===== src/MarketOrderBook/View.antt =====
-- The client's functions on what a client sees of the exchange's chains.
use llcpp_exchange.Prelude.{ℕ, ◌≡◌, refl, ap, Option, none, some, List, [], ◌∷◌, ◌++◌, map, arith}
use llcpp_exchange.OrderBook.State.{
  MeOrder, MeOrdersAtPrice, Chain, MeOrderBook, find_level, find_in_level, find_order,
}
use llcpp_exchange.OrderBook.Chains.{
  insert_level, erase_level, append_order, has_id, erase_id, ring_of, is_alone, unlink_order,
}
use llcpp_exchange.OrderBook.Matching.{set_qty_in, set_qty}
use llcpp_exchange.MarketOrderBook.Book.{
  MarketOrder, MarketOrdersAtPrice, MarketChain, Bbo, MarketOrderBook, find_market_level,
  find_market_order_in, find_market_order, insert_market_level, erase_market_level,
  append_market_order, has_order, erase_order, market_ring_of, is_only, unlink_market_order,
  write_qty_in, write_qty,
}

-- What the market updates say of an order.
abbrev pub view : MeOrder → MarketOrder
view o = record {
  order_id = o.market_order_id;
  side = o.side;
  price = o.price;
  qty = o.qty;
  priority = o.priority;
}

abbrev pub view_level : MeOrdersAtPrice → MarketOrdersAtPrice
view_level l = record { side = l.side; price = l.price; orders = map view l.orders }

abbrev pub view_chain : Chain → MarketChain
view_chain c = map view_level c

abbrev pub view_option {ℓ κ} : {A : Type ℓ} {B : Type κ} → (A → B) → Option A → Option B
view_option f none = none
view_option f (some a) = some (f a)

-- The exchange's book as a client has it, with the client's own pointers and best prices.
abbrev pub image : MeOrderBook → (ℕ → Option ℕ) → Bbo → MarketOrderBook
image b f x = record {
  bids_by_price = view_chain b.bids_by_price;
  asks_by_price = view_chain b.asks_by_price;
  price_orders_at_price = b.price_orders_at_price;
  oid_to_order = f;
  orders_at_price_free = b.orders_at_price_free;
  order_free = b.order_free;
  bbo = x;
}

pub insert_view :
    (n : MeOrdersAtPrice) (c : Chain)
    → insert_market_level (view_level n) (view_chain c) ≡ view_chain (insert_level n c)
unfolding insert_market_level insert_level
insert_view n [] = refl
insert_view n (t ∷ ts) = ground (arith, insert_view n ts)

pub erase_view :
    (p : ℕ) (c : Chain) → erase_market_level p (view_chain c) ≡ view_chain (erase_level p c)
unfolding erase_market_level erase_level
erase_view p [] = refl
erase_view p (l ∷ ls) = ground (arith, erase_view p ls)

map-snoc {ℓ κ} :
    {A : Type ℓ} {B : Type κ} (f : A → B) (xs : List A) (x : A)
    → map f (xs ++ (x ∷ [])) ≡ map f xs ++ (f x ∷ [])
map-snoc f [] x = refl
map-snoc f (y ∷ ys) x = ap (λ l. f y ∷ l) (map-snoc f ys x)

pub append_view :
    (p : ℕ) (o : MeOrder) (c : Chain)
    → append_market_order p (view o) (view_chain c) ≡ view_chain (append_order p o c)
unfolding append_market_order append_order
append_view p o [] = refl
append_view p o (l ∷ ls) = ground (arith, map-snoc view l.orders o, append_view p o ls)

has_view : (m : ℕ) (os : List MeOrder) → has_order m (map view os) ≡ has_id m os
has_view m [] = refl
has_view m (o ∷ os) = ground (arith, has_view m os)

erase_order-view :
    (m : ℕ) (os : List MeOrder) → erase_order m (map view os) ≡ map view (erase_id m os)
erase_order-view m [] = refl
erase_order-view m (o ∷ os) = ground (arith, erase_order-view m os)

write_in_view :
    (m q : ℕ) (os : List MeOrder) → write_qty_in m q (map view os) ≡ map view (set_qty_in m q os)
write_in_view m q [] = refl
write_in_view m q (o ∷ os) = ground (arith, write_in_view m q os)

pub ring_view : (m : ℕ) (c : Chain) → market_ring_of m (view_chain c) ≡ map view (ring_of m c)
unfolding market_ring_of ring_of
ring_view m [] = refl
ring_view m (l ∷ ls) = ground (arith, has_view m l.orders, ring_view m ls)

pub alone_view : (os : List MeOrder) → is_only (map view os) ≡ is_alone os
alone_view [] = refl
alone_view (o ∷ []) = refl
alone_view (o ∷ p ∷ os) = refl

pub unlink_view :
    (m : ℕ) (c : Chain) → unlink_market_order m (view_chain c) ≡ view_chain (unlink_order m c)
unfolding unlink_market_order unlink_order
unlink_view m [] = refl
unlink_view m (l ∷ ls) =
    ground (arith, has_view m l.orders, erase_order-view m l.orders, unlink_view m ls)

pub write_view : (m q : ℕ) (c : Chain) → write_qty m q (view_chain c) ≡ view_chain (set_qty m q c)
unfolding write_qty set_qty
write_view m q [] = refl
write_view m q (l ∷ ls) =
    ground (arith, has_view m l.orders, write_in_view m q l.orders, write_view m q ls)

pub find_level_view :
    (p : ℕ) (c : Chain)
    → find_market_level p (view_chain c) ≡ view_option view_level (find_level p c)
find_level_view p [] = refl
find_level_view p (l ∷ ls) = ground (arith, find_level_view p ls)

find_in_view :
    (m : ℕ) (os : List MeOrder)
    → find_market_order_in m (map view os) ≡ view_option view (find_in_level m os)
find_in_view m [] = refl
find_in_view m (o ∷ os) = ground (arith, find_in_view m os)

pub find_view :
    (m : ℕ) (c : Chain) → find_market_order m (view_chain c) ≡ view_option view (find_order m c)
find_view m [] = refl
find_view m (l ∷ ls) = ground (arith, find_in_view m l.orders, find_view m ls)

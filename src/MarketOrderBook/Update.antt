-- ===== src/MarketOrderBook/Update.antt =====
-- MarketOrderBook: the best prices, `clearBook`, and `onMarketUpdate`.
use llcpp_exchange.Prelude.{
  ℕ, zero, suc, ◌+◌, ◌-◌, ◌%◌, ◌^◌, Bool, false, not, ◌||◌, Option, none, some, List, [], ◌∷◌, ltb,
  leb, ◌==◌, if◌then◌else◌,
}
use llcpp_exchange.Types.{invalid_u64, me_max_order_ids, me_max_price_levels}
use llcpp_exchange.Protocol.{MarketUpdateType, MeMarketUpdate}
use llcpp_exchange.MarketOrderBook.Book.{
  MarketOrder, MarketOrdersAtPrice, MarketChain, MarketOrderBook, no_bbo, update_market_chain,
  market_level_at, get_order, add_market_order, remove_market_order, write_qty,
}

-- `total += it->qty_.value` around the ring, on 32 bits.
abbrev pub add_quantities : ℕ → List MarketOrder → ℕ
add_quantities n [] = n
add_quantities n (o ∷ os) = add_quantities ((n + o.qty) % 2 ^ 32) os

abbrev pub top_price : MarketChain → ℕ
top_price [] = invalid_u64
top_price (l ∷ ls) = l.price

abbrev pub top_qty : MarketChain → ℕ
top_qty [] = 0
top_qty (l ∷ ls) = add_quantities 0 l.orders

unfoldable pub update_bbo : MarketOrderBook → MarketOrderBook
update_bbo k = record k {
  bbo = record {
    bid_price = top_price k.bids_by_price;
    ask_price = top_price k.asks_by_price;
    bid_qty = top_qty k.bids_by_price;
    ask_qty = top_qty k.asks_by_price;
  };
}

-- The pointers that are not null among the first ones of an array.
unfoldable pub count_pointers : (ℕ → Option ℕ) → ℕ → ℕ
count_pointers f zero = 0
count_pointers f (suc n) = count_pointers f n + (elim (f n) [ none ↦ 0 | some i ↦ 1 ])

unfoldable pub clear_book : MarketOrderBook → MarketOrderBook
clear_book k = record {
  bids_by_price = [];
  asks_by_price = [];
  price_orders_at_price = λ i. none;
  oid_to_order = λ m. none;
  orders_at_price_free =
      k.orders_at_price_free + count_pointers k.price_orders_at_price me_max_price_levels;
  order_free = k.order_free + count_pointers k.oid_to_order me_max_order_ids;
  bbo = no_bbo;
}

abbrev pub order_of : MeMarketUpdate → MarketOrder
order_of u = record {
  order_id = u.order_id;
  side = u.side;
  price = u.price;
  qty = u.qty;
  priority = u.priority;
}

abbrev pub is_aliased : ℕ → Option MarketOrdersAtPrice → Bool
is_aliased price none = false
is_aliased price (some l) = not (l.price == price)

-- The cases of `onMarketUpdate`; `none` is the FATAL exit of an exhausted pool.
unfoldable pub on_add : MeMarketUpdate → MarketOrderBook → Option MarketOrderBook
on_add u k =
    if leb me_max_order_ids u.order_id || is_aliased u.price (market_level_at u.price k)
    then some k
    else (if ltb 0 k.order_free
        then (elim (add_market_order (order_of u) (record k { order_free = k.order_free - 1 })) [
          | none ↦ none
          | some k' ↦ some (update_bbo k')
        ])
        else none)

unfoldable pub on_modify : MeMarketUpdate → MarketOrderBook → MarketOrderBook
on_modify u k = elim (get_order u.order_id k) [
  | none ↦ k
  | some o ↦ update_market_chain o.side (write_qty o.order_id u.qty) k
]

unfoldable pub on_cancel : MeMarketUpdate → MarketOrderBook → MarketOrderBook
on_cancel u k = elim (get_order u.order_id k) [ none ↦ k | some o ↦ remove_market_order o k ]

unfoldable pub market_update_case :
    MarketUpdateType → MeMarketUpdate → MarketOrderBook → Option MarketOrderBook
market_update_case MarketUpdateType.add u k = on_add u k
market_update_case MarketUpdateType.modify u k = some (update_bbo (on_modify u k))
market_update_case MarketUpdateType.cancel u k = some (update_bbo (on_cancel u k))
market_update_case MarketUpdateType.trade u k = some (update_bbo k)
market_update_case MarketUpdateType.clear u k = some (update_bbo (clear_book k))
market_update_case MarketUpdateType.snapshot_start u k = some (update_bbo (clear_book k))
market_update_case MarketUpdateType.snapshot_end u k = some (update_bbo k)
market_update_case MarketUpdateType.invalid u k = some k

unfoldable pub on_market_update : MeMarketUpdate → MarketOrderBook → Option MarketOrderBook
on_market_update u k = market_update_case u.type u k

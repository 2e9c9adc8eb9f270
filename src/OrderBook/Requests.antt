-- ===== src/OrderBook/Requests.antt =====
-- `add` and `cancel` of me_order_book.cpp.
use llcpp_exchange.Prelude.{
  ℕ, ◌+◌, ◌-◌, ◌%◌, ◌^◌, Bool, true, false, not, ◌&&◌, Option, none, some, List, [], ◌∷◌, ◌++◌, ltb,
  ◌==◌, if◌then◌else◌,
}
use llcpp_exchange.Types.{Side, invalid_u64, me_max_num_clients, me_max_order_ids}
use llcpp_exchange.Protocol.{MeClientRequest, ClientResponseType, MarketUpdateType}
use llcpp_exchange.OrderBook.State.{
  MeOrder, MeOrdersAtPrice, MeOrderBook, get_orders_at_price, deref_order,
}
use llcpp_exchange.OrderBook.Chains.{get_next_priority, add_order, remove_order}
use llcpp_exchange.OrderBook.Matching.{
  Event, response, Incoming, Outcome, order_update, check_for_match,
}

abbrev pub is_none {ℓ} : {A : Type ℓ} → Option A → Bool
is_none none = true
is_none (some a) = false

-- The client's own ids, and the order or price that it names.
abbrev pub reply :
    ClientResponseType
    → (client_id ticker_id client_order_id market_order_id : ℕ) → Side
    → (price leaves_qty : ℕ) → Event
reply type client_id ticker_id client_order_id market_order_id side price leaves_qty =
    response (record {
      type = type;
      client_id = client_id;
      ticker_id = ticker_id;
      client_order_id = client_order_id;
      market_order_id = market_order_id;
      side = side;
      price = price;
      exec_qty = 0;
      leaves_qty = leaves_qty;
    })

abbrev pub invalid_reply : MeClientRequest → Event
invalid_reply r =
    reply ClientResponseType.invalid r.client_id r.ticker_id r.order_id invalid_u64 r.side r.price 0

-- The ids index `cid_oid_to_order_` and name no live order.
abbrev pub valid_ids : MeClientRequest → MeOrderBook → Bool
valid_ids r b =
    ltb r.client_id me_max_num_clients
    && ltb r.order_id me_max_order_ids
    && is_none (b.cid_oid_to_order r.client_id r.order_id)

abbrev pub other_price : ℕ → Option MeOrdersAtPrice → Bool
other_price price none = false
other_price price (some l) = not (l.price == price)

-- The slot of the price holds a level of another price.
abbrev pub price_collision : MeClientRequest → MeOrderBook → Bool
price_collision r b = other_price r.price (get_orders_at_price r.price b)

abbrev pub incoming : MeClientRequest → ℕ → Incoming
incoming r m = record {
  client_id = r.client_id;
  client_order_id = r.order_id;
  ticker_id = r.ticker_id;
  side = r.side;
  price = r.price;
  market_order_id = m;
}

abbrev pub resting_order : Incoming → ℕ → ℕ → MeOrder
resting_order i leaves priority = record {
  ticker_id = i.ticker_id;
  client_id = i.client_id;
  client_order_id = i.client_order_id;
  market_order_id = i.market_order_id;
  side = i.side;
  price = i.price;
  qty = leaves;
  priority = priority;
}

-- What is left after matching rests in the book. `none` is the FATAL exit of an exhausted pool.
unfoldable pub rest_order : Incoming → ℕ → MeOrderBook → Option (MeOrderBook × List Event)
rest_order i leaves b =
    if ltb 0 leaves
    then (if ltb 0 b.order_free
        then (let o = resting_order i leaves (get_next_priority i.price b) in
            elim (add_order o (record b { order_free = b.order_free - 1 })) [
              | none ↦ none
              | some b' ↦ some (b', order_update MarketUpdateType.add i.ticker_id o leaves ∷ [])
            ])
        else none)
    else some (b, [])

-- The acknowledgement has gone out before matching; what matching left rests.
unfoldable pub settle : MeClientRequest → Incoming → Outcome → Option (MeOrderBook × List Event)
settle r i out = elim (rest_order i out.1 out.0) [
  | none ↦ none
  | some (b', added) ↦ some (
    b',
    reply ClientResponseType.accepted r.client_id r.ticker_id r.order_id i.market_order_id r.side
          r.price r.qty
        ∷ (out.2 ++ added),
  )
]

-- `add` after its checks.
unfoldable pub accept : MeClientRequest → MeOrderBook → Option (MeOrderBook × List Event)
unfolding settle
accept r b =
    let m = b.next_market_order_id in
    let i = incoming r m in
    settle r i (check_for_match i r.qty (record b { next_market_order_id = (m + 1) % 2 ^ 64 }))

unfoldable pub add : MeClientRequest → MeOrderBook → Option (MeOrderBook × List Event)
add r b =
    if not (valid_ids r b)
    then some (b, invalid_reply r ∷ [])
    else (if price_collision r b then some (b, invalid_reply r ∷ []) else accept r b)

-- The order that `cancel` finds for ids that may be out of range.
unfoldable pub cancel_target : (client_id order_id : ℕ) → MeOrderBook → Option MeOrder
cancel_target client_id order_id b =
    if ltb client_id me_max_num_clients && ltb order_id me_max_order_ids
    then elim (b.cid_oid_to_order client_id order_id) [ none ↦ none | some m ↦ deref_order m b ]
    else none

unfoldable pub cancel : (client_id order_id ticker_id : ℕ) → MeOrderBook → MeOrderBook × List Event
cancel client_id order_id ticker_id b = elim (cancel_target client_id order_id b) [
  | none ↦ (
    b,
    reply ClientResponseType.cancel_rejected client_id ticker_id order_id invalid_u64 Side.invalid
          invalid_u64 0
        ∷ [],
  )
  | some o ↦ (
    remove_order o b,
    order_update MarketUpdateType.cancel ticker_id o o.qty
        ∷ reply ClientResponseType.canceled client_id ticker_id o.client_order_id o.market_order_id
            o.side o.price 0
        ∷ [],
  )
]

-- ===== src/OrderBook/Matching.antt =====
-- `match` and `checkForMatch` of me_order_book.cpp.
use llcpp_exchange.Prelude.{
  ℕ, zero, suc, ◌-◌, Bool, true, false, Option, none, some, List, [], ◌∷◌, ◌++◌, min, ltb, ◌==◌,
  if◌then◌else◌,
}
use llcpp_exchange.Types.{Side, is_buy, invalid_u64}
use llcpp_exchange.Protocol.{MeClientResponse, ClientResponseType, MeMarketUpdate, MarketUpdateType}
use llcpp_exchange.OrderBook.State.{MeOrder, Chain, MeOrderBook, update_chain}
use llcpp_exchange.OrderBook.Chains.{has_id, remove_order}

-- What the book hands to the matching engine, in order.
pub data Event : Type 0 where
  response : MeClientResponse → Event
  update : MeMarketUpdate → Event

-- The arguments of `checkForMatch` that stay the same from round to round.
pub record Incoming : Type 0 where
  pub client_id : ℕ
  pub client_order_id : ℕ
  pub ticker_id : ℕ
  pub side : Side
  pub price : ℕ
  pub market_order_id : ℕ

abbrev pub set_qty_in : ℕ → ℕ → List MeOrder → List MeOrder
set_qty_in m q [] = []
set_qty_in m q (o ∷ os) =
    if o.market_order_id == m then record o { qty = q } ∷ os else o ∷ set_qty_in m q os

-- The write of a quantity through a pointer to an order.
unfoldable pub set_qty : ℕ → ℕ → Chain → Chain
set_qty m q [] = []
set_qty m q (l ∷ ls) =
    if has_id m l.orders
    then record l { orders = set_qty_in m q l.orders } ∷ ls
    else l ∷ set_qty m q ls

-- The response to the aggressive side, and the one to the passive side.
abbrev pub fill_response : Incoming → ℕ → ℕ → ℕ → Event
fill_response i price fill leaves = response (record {
  type = ClientResponseType.filled;
  client_id = i.client_id;
  ticker_id = i.ticker_id;
  client_order_id = i.client_order_id;
  market_order_id = i.market_order_id;
  side = i.side;
  price = price;
  exec_qty = fill;
  leaves_qty = leaves;
})

abbrev pub passive_response : ℕ → MeOrder → ℕ → Event
passive_response ticker_id o fill = response (record {
  type = ClientResponseType.filled;
  client_id = o.client_id;
  ticker_id = ticker_id;
  client_order_id = o.client_order_id;
  market_order_id = o.market_order_id;
  side = o.side;
  price = o.price;
  exec_qty = fill;
  leaves_qty = o.qty;
})

abbrev pub trade_update : Incoming → ℕ → ℕ → Event
trade_update i price fill = update (record {
  type = MarketUpdateType.trade;
  ticker_id = i.ticker_id;
  side = i.side;
  price = price;
  qty = fill;
  order_id = invalid_u64;
  priority = invalid_u64;
})

-- ADD, MODIFY or CANCEL of an order, with the quantity that is announced.
abbrev pub order_update : MarketUpdateType → ℕ → MeOrder → ℕ → Event
order_update type ticker_id o qty = update (record {
  type = type;
  ticker_id = ticker_id;
  side = o.side;
  price = o.price;
  qty = qty;
  order_id = o.market_order_id;
  priority = o.priority;
})

unfoldable pub match_events : Incoming → MeOrder → ℕ → ℕ → List Event
match_events i passive fill leaves =
    let passive' : MeOrder = record passive { qty = passive.qty - fill } in
    fill_response i passive.price fill leaves
    ∷ passive_response i.ticker_id passive' fill
    ∷ trade_update i passive.price fill
    ∷ (if passive'.qty == 0
        then order_update MarketUpdateType.cancel i.ticker_id passive' passive.qty
        else order_update MarketUpdateType.modify i.ticker_id passive' passive'.qty)
    ∷ []

-- The book, `leaves_qty` and what was sent.
abbrev pub Outcome : Type 0
Outcome = MeOrderBook × ℕ × List Event

unfoldable pub match_order : Incoming → MeOrder → ℕ → MeOrderBook → Outcome
match_order i passive leaves b =
    let fill = min leaves passive.qty in
    let passive' : MeOrder = record passive { qty = passive.qty - fill } in
    let b' = update_chain passive.side (set_qty passive.market_order_id passive'.qty) b in
    (
      if passive'.qty == 0 then remove_order passive' b' else b',
      leaves - fill,
      match_events i passive fill (leaves - fill),
    )

abbrev pub head_order : List MeOrder → Option MeOrder
head_order [] = none
head_order (o ∷ os) = some o

-- `asks_by_price_` for a buyer, `bids_by_price_` for anybody else.
abbrev pub opposite : Side → MeOrderBook → Chain
opposite s b = if is_buy s then b.asks_by_price else b.bids_by_price

-- The price limit excludes the level.
abbrev pub out_of_limit : Side → ℕ → ℕ → Bool
out_of_limit s price best = if is_buy s then ltb price best else ltb best price

-- The order that the next round matches, if no `break` is taken.
abbrev pub next_passive : Side → ℕ → Chain → Option MeOrder
next_passive s price [] = none
next_passive s price (l ∷ ls) = if out_of_limit s price l.price then none else head_order l.orders

abbrev pub and_then : List Event → Outcome → Outcome
and_then sent (b, leaves, more) = (b, leaves, sent ++ more)

-- Each round takes at least one unit from `leaves`, so as many rounds as units are enough.
unfoldable pub match_loop : ℕ → Incoming → ℕ → MeOrderBook → Outcome
match_loop zero i leaves b = (b, leaves, [])
match_loop (suc rounds) i leaves b = elim (leaves == 0) [
  | true ↦ (b, leaves, [])
  | false ↦ elim (next_passive i.side i.price (opposite i.side b)) [
    | none ↦ (b, leaves, [])
    | some passive ↦
        let (b', leaves', sent) = match_order i passive leaves b in
        and_then sent (match_loop rounds i leaves' b')
  ]
]

unfoldable pub check_for_match : Incoming → ℕ → MeOrderBook → Outcome
unfolding match_loop
check_for_match i qty b = match_loop qty i qty b

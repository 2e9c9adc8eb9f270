-- ===== src/OrderManager/Manager.antt =====
-- OrderManager: the state machine of an order. The risk check is a parameter of each call.
use llcpp_exchange.Prelude.{
  ℕ, ◌+◌, ◌%◌, ◌^◌, Bool, not, ◌&&◌, ◌||◌, List, [], ◌∷◌, ◌++◌, ◌==◌, if◌then◌else◌, put₂,
}
use llcpp_exchange.Types.{Side, invalid_u64}
use llcpp_exchange.Protocol.{
  MeClientRequest, ClientRequestType, MeClientResponse, ClientResponseType,
}

pub data OmOrderState : Type 0 where
  invalid : OmOrderState
  pending_new : OmOrderState
  live : OmOrderState
  pending_cancel : OmOrderState
  dead : OmOrderState

pub record OmOrder : Type 0 where
  pub ticker_id : ℕ
  pub order_id : ℕ
  pub side : Side
  pub price : ℕ
  pub qty : ℕ
  pub order_state : OmOrderState

pub record OrderManager : Type 0 where
  pub ticker_side_order : ℕ → ℕ → OmOrder
  pub next_order_id : ℕ

-- `size_t(int8_t(side)) + 1`, where the -1 of SELL wraps around.
abbrev pub side_to_index : Side → ℕ
side_to_index Side.invalid = 1
side_to_index Side.buy = 2
side_to_index Side.sell = 0
side_to_index Side.max = 3

abbrev pub set_order : ℕ → Side → OmOrder → OrderManager → OrderManager
set_order t s o m = record m { ticker_side_order = put₂ m.ticker_side_order t (side_to_index s) o }

-- `clientId()` of the trade engine, and which orders `checkPreTradeRisk` allows at the time of the
-- call: it reads positions that only change between calls, with a fill.
module _ (client_id : ℕ) (allowed : ℕ → Side → ℕ → Bool) where
  unfoldable pub new_order :
      (ticker_id price : ℕ) → Side → (qty : ℕ) → OrderManager → OrderManager × List MeClientRequest
  new_order ticker_id price side qty m = (
    record (set_order ticker_id side
        (record {
          ticker_id = ticker_id;
          order_id = m.next_order_id;
          side = side;
          price = price;
          qty = qty;
          order_state = OmOrderState.pending_new;
        })
        m) { next_order_id = (m.next_order_id + 1) % 2 ^ 64 },
    record {
      type = ClientRequestType.new;
      client_id = client_id;
      ticker_id = ticker_id;
      order_id = m.next_order_id;
      side = side;
      price = price;
      qty = qty;
    }
        ∷ [],
  )

  -- The order of the slot of `ticker_id` and `side`.
  unfoldable pub cancel_order :
      ℕ → Side → OmOrder → OrderManager → OrderManager × List MeClientRequest
  cancel_order ticker_id side o m = (
    set_order ticker_id side (record o { order_state = OmOrderState.pending_cancel }) m,
    record {
      type = ClientRequestType.cancel;
      client_id = client_id;
      ticker_id = o.ticker_id;
      order_id = o.order_id;
      side = o.side;
      price = o.price;
      qty = o.qty;
    }
        ∷ [],
  )

  unfoldable pub place :
      (ticker_id price : ℕ) → Side → (qty : ℕ) → OrderManager → OrderManager × List MeClientRequest
  unfolding new_order
  place ticker_id price side qty m =
      if not (price == invalid_u64) && allowed ticker_id side qty
      then new_order ticker_id price side qty m
      else (m, [])

  -- The switch of `moveOrder` on the state of the order.
  unfoldable pub move_in_state :
      OmOrderState
      → OmOrder
      → (ticker_id price : ℕ) → Side
      → (qty : ℕ) → OrderManager
      → OrderManager × List MeClientRequest
  unfolding place cancel_order
  move_in_state OmOrderState.live o ticker_id price side qty m =
      if not (o.price == price) || not (o.qty == qty)
      then cancel_order ticker_id side o m
      else (m, [])
  move_in_state OmOrderState.invalid o ticker_id price side qty m = place ticker_id price side qty m
  move_in_state OmOrderState.dead o ticker_id price side qty m = place ticker_id price side qty m
  move_in_state _ o ticker_id price side qty m = (m, [])

  unfoldable pub move_order :
      (ticker_id price : ℕ) → Side → (qty : ℕ) → OrderManager → OrderManager × List MeClientRequest
  unfolding move_in_state
  move_order ticker_id price side qty m =
      let o = m.ticker_side_order ticker_id (side_to_index side) in
      move_in_state o.order_state o ticker_id price side qty m

  unfoldable pub move_orders :
      (ticker_id bid_price ask_price clip : ℕ) → OrderManager → OrderManager × List MeClientRequest
  unfolding move_order
  move_orders ticker_id bid_price ask_price clip m =
      let (m', bids) = move_order ticker_id bid_price Side.buy clip m in
      let (m'', asks) = move_order ticker_id ask_price Side.sell clip m' in (m'', bids ++ asks)

-- The order after a response of the given type, with what it says is left.
unfoldable pub updated : ClientResponseType → (leaves_qty : ℕ) → OmOrder → OmOrder
updated ClientResponseType.accepted leaves o = record o { order_state = OmOrderState.live }
updated ClientResponseType.canceled leaves o = record o { order_state = OmOrderState.dead }
updated ClientResponseType.filled leaves o = record o {
  qty = leaves;
  order_state = if leaves == 0 then OmOrderState.dead else o.order_state;
}
updated _ leaves o = o

unfoldable pub on_order_update : MeClientResponse → OrderManager → OrderManager
unfolding updated
on_order_update r m =
    set_order r.ticker_id r.side
      (updated r.type r.leaves_qty (m.ticker_side_order r.ticker_id (side_to_index r.side))) m

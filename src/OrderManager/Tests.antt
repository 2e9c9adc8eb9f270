-- ===== src/OrderManager/Tests.antt =====
-- A run of the order manager: two quotes, their acceptance, and a new price.
use llcpp_exchange.Prelude.{ℕ, ◌*◌, Bool, true, List, [], ◌∷◌, arith, length, leb}
use llcpp_exchange.Types.{Side}
use llcpp_exchange.Protocol.{MeClientResponse, ClientResponseType}
use llcpp_exchange.OrderManager.Manager.{OmOrder, OmOrderState, OrderManager}
use llcpp_exchange.OrderManager.Ids.{Input, Numbered, run_inputs, run_inputs-Numbered}

abbrev no_order : OmOrder
no_order = record {
  ticker_id = 0;
  order_id = 0;
  side = Side.invalid;
  price = 0;
  qty = 0;
  order_state = OmOrderState.invalid;
}

abbrev idle : OrderManager
idle = record { ticker_side_order = λ t s. no_order; next_order_id = 1 }

abbrev accepted : Side → ℕ → MeClientResponse
accepted side id = record {
  type = ClientResponseType.accepted;
  client_id = 7;
  ticker_id = 0;
  client_order_id = id;
  market_order_id = id;
  side = side;
  price = 100;
  exec_qty = 0;
  leaves_qty = 5;
}

abbrev allow : ℕ → Side → ℕ → Bool
allow t s q = true

-- After fills, the risk check allows no more than 4.
abbrev only_small : ℕ → Side → ℕ → Bool
only_small t s q = leb q 4

abbrev quotes : List Input
quotes =
    Input.move allow 0 99 101 5
    ∷ Input.respond (accepted Side.buy 1)
    ∷ Input.respond (accepted Side.sell 2)
    ∷ Input.move only_small 0 98 101 5
    ∷ []

run_inputs-Numbered_example :
    Numbered (2 * length quotes) 1 (run_inputs 7 quotes idle).0 (run_inputs 7 quotes idle).1
run_inputs-Numbered_example = run_inputs-Numbered 7 quotes idle (omega arith)

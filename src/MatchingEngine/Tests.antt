-- ===== src/MatchingEngine/Tests.antt =====
-- A run of the engine over two tickers, a ticker out of range, and a shutdown.
use llcpp_exchange.Prelude.{ℕ, ◌*◌, refl, List, [], ◌∷◌, arith}
use llcpp_exchange.Types.{Side}
use llcpp_exchange.Protocol.{
  MeClientRequest, ClientRequestType, ClientResponseType, MeClientResponse, MarketUpdateType,
  MeMarketUpdate,
}
use llcpp_exchange.LfQueue.Ring.{LfQueue}
use llcpp_exchange.MatchingEngine.Sending.{Outgoing}
use llcpp_exchange.MatchingEngine.Delivery.{IsNew, RunDelivered, run-Delivered}

abbrev request : ClientRequestType → Side → (client ticker id price qty : ℕ) → MeClientRequest
request type side client ticker id price qty = record {
  type = type;
  client_id = client;
  ticker_id = ticker;
  order_id = id;
  side = side;
  price = price;
  qty = qty;
}

abbrev session : List MeClientRequest
session =
    request ClientRequestType.new Side.sell 1 0 1 101 10
    ∷ request ClientRequestType.new Side.buy 2 0 1 102 4
    ∷ request ClientRequestType.new Side.buy 2 9 2 102 4
    ∷ request ClientRequestType.cancel Side.invalid 1 0 1 0 0
    ∷ request ClientRequestType.new Side.sell 1 3 1 50 5
    ∷ request ClientRequestType.shutdown Side.invalid 0 0 0 0 0
    ∷ []

abbrev no_response : MeClientResponse
no_response = record {
  type = ClientResponseType.invalid;
  client_id = 0;
  ticker_id = 0;
  client_order_id = 0;
  market_order_id = 0;
  side = Side.invalid;
  price = 0;
  exec_qty = 0;
  leaves_qty = 0;
}

abbrev no_update : MeMarketUpdate
no_update = record {
  type = MarketUpdateType.invalid;
  ticker_id = 0;
  side = Side.invalid;
  price = 0;
  qty = 0;
  order_id = 0;
  priority = 0;
}

abbrev empty_queue : {A : Type 0} → A → LfQueue A
empty_queue a = record {
  store = λ i. a;
  capacity = 256 * 1024;
  next_write_index = 0;
  cached_read_index = 0;
  next_read_index = 0;
  cached_write_index = 0;
}

empty_queue-IsNew : {A : Type 0} (a : A) → IsNew (256 * 1024) (empty_queue a)
empty_queue-IsNew a = record {
  valid = record {
    two = omega arith;
    write = omega arith;
    read = omega arith;
    cached_read = omega arith;
    cached_write = omega arith;
    producer = omega arith;
    consumer = omega arith;
  };
  empty = refl;
  size = refl;
}

abbrev queues : Outgoing
queues = record {
  outgoing_responses = empty_queue no_response;
  market_updates = empty_queue no_update;
}

run-Delivered_example : RunDelivered session queues
run-Delivered_example =
    run-Delivered session queues
      (
        (λ _. tt),
        ((λ _. tt), ((λ _. tt), ((λ e. ground arith), ((λ _. tt), ((λ e. ground arith), tt))))),
      )
      (omega arith) (omega arith) (empty_queue-IsNew no_response) (empty_queue-IsNew no_update)

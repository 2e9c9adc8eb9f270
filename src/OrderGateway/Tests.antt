-- ===== src/OrderGateway/Tests.antt =====
-- The session of client 7 over socket 1, which client 8 shares.
use llcpp_exchange.Prelude.{
  ℕ, ◌≡◌, ◌++◌, refl, none, some, List, [], ◌∷◌, arith, ◌==◌, if◌then◌else◌, inl,
}
use llcpp_exchange.Types.{Side}
use llcpp_exchange.Protocol.{
  ClientRequestType, MeClientRequest, ClientResponseType, MeClientResponse,
}
use llcpp_exchange.OrderServer.Server.{OrderServer, new_server, recv_callback, send_responses}
use llcpp_exchange.OrderGateway.Gateway.{new_gateway, send_requests, receive_responses}
use llcpp_exchange.OrderGateway.Session.{
  requests, InSync, on_socket, of_client, requests_arrive, responses_arrive,
}

abbrev request : ClientRequestType → ℕ → MeClientRequest
request y o = record {
  type = y;
  client_id = 7;
  ticker_id = 0;
  order_id = o;
  side = Side.buy;
  price = 100;
  qty = 10;
}

abbrev asked : List MeClientRequest
asked = request ClientRequestType.new 1 ∷ request ClientRequestType.cancel 1 ∷ []

requests_arrive_example :
    (s' : OrderServer) × (recv_callback 1 50 (send_requests asked (new_gateway 7)).0 new_server
      ≡ some s')
    × (requests s' ≡ requests new_server ++ asked)
    × InSync 1 (send_requests asked (new_gateway 7)).1 s'
requests_arrive_example =
    requests_arrive 1 50 asked (new_gateway 7) new_server (omega arith)
      ((refl, refl), ((refl, refl), tt)) (inl refl, refl) (omega arith)

abbrev response : ℕ → ℕ → MeClientResponse
response c o = record {
  type = ClientResponseType.accepted;
  client_id = c;
  ticker_id = 0;
  client_order_id = o;
  market_order_id = o;
  side = Side.buy;
  price = 100;
  exec_qty = 0;
  leaves_qty = 10;
}

abbrev answered : List MeClientResponse
answered = response 7 1 ∷ response 8 1 ∷ response 9 1 ∷ response 7 2 ∷ []

abbrev shared : OrderServer
shared = record new_server {
  cid_tcp_socket = λ c. if c == 7 then some 1 else (if c == 8 then some 1 else none);
}

responses_arrive_example :
    ((receive_responses (on_socket 1 (send_responses answered shared).0) (new_gateway 7)).0
      ≡ of_client 7 answered)
    × ((receive_responses
          (on_socket 1 (send_responses answered shared).0)
          (new_gateway 7)).1.next_exp_incoming_seq_num
        ≡ (send_responses answered shared).1.cid_next_outgoing_seq_num 7)
responses_arrive_example =
    responses_arrive 1 answered (new_gateway 7) shared (omega arith) refl refl

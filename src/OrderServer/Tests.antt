-- ===== src/OrderServer/Tests.antt =====
-- Two clients on two sockets, and a hijack attempt.
use llcpp_exchange.Prelude.{
  ℕ, ◌+◌, ◌≡◌, ◌≤◌, refl, none, some, List, [], ◌∷◌, arith, ◌==◌, if◌then◌else◌, length,
}
use llcpp_exchange.Types.{Side}
use llcpp_exchange.Protocol.{ClientRequestType, MeClientRequest}
use llcpp_exchange.Wire.{OmClientRequest}
use llcpp_exchange.FifoSequencer.Sequencer.{add_client_request}
use llcpp_exchange.OrderServer.Server.{
  OrderServer, new_server, recv_callback, on_request, accept_request,
}
use llcpp_exchange.OrderServer.Sessions.{Received, pending, recv_callback-Received, accepted}
use llcpp_exchange.OrderServer.Isolation.{IsIsolated, recv_callback-IsIsolated, recv_callback_runs}

abbrev request : ClientRequestType → ℕ → ℕ → MeClientRequest
request y c o = record {
  type = y;
  client_id = c;
  ticker_id = 0;
  order_id = o;
  side = Side.buy;
  price = 100;
  qty = 10;
}

abbrev frame : ClientRequestType → ℕ → ℕ → OmClientRequest
frame y c n = record { seq_num = n; me_client_request = request y c n }

-- Client 7 has written its first frame on socket 1.
abbrev registered : OrderServer
registered = record {
  cid_next_outgoing_seq_num = λ c. 1;
  cid_next_exp_seq_num = λ c. if c == 7 then 2 else 1;
  cid_tcp_socket = λ c. if c == 7 then some 1 else none;
  fifo_sequencer = new_server.fifo_sequencer;
}

-- On socket 2: client 7's next number, a SHUTDOWN, and a frame of client 8.
abbrev hijack : List OmClientRequest
hijack =
    frame ClientRequestType.cancel 7 2
    ∷ frame ClientRequestType.shutdown 8 1
    ∷ frame ClientRequestType.new 8 1
    ∷ []

abbrev hijacked : OrderServer
hijacked = accepted 50 (frame ClientRequestType.new 8 1) (record registered {
  cid_tcp_socket = λ c. if 8 == c then some 2 else registered.cid_tcp_socket c;
})

hijack_run : recv_callback 2 50 hijack registered ≡ some hijacked
unfolding recv_callback on_request accept_request add_client_request
hijack_run = refl

recv_callback-IsIsolated_example : IsIsolated 7 registered hijacked
recv_callback-IsIsolated_example =
    recv_callback-IsIsolated 2 50 7 1 hijack registered hijacked refl (omega arith) (omega arith)
      hijack_run

recv_callback-Received_example : Received 2 50 registered hijacked
recv_callback-Received_example = recv_callback-Received 2 50 hijack registered hijacked hijack_run

recv_callback_runs_example :
    (s' : OrderServer) × (recv_callback 2 50 hijack registered ≡ some s')
    × (length (pending s') ≤ length (pending registered) + length hijack)
recv_callback_runs_example = recv_callback_runs 2 50 hijack registered (omega arith)

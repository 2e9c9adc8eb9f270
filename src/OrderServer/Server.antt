-- ===== src/OrderServer/Server.antt =====
-- OrderServer. A socket is known by its address, a number; the frames of a socket's buffer are
-- parsed as in Framing.
use llcpp_exchange.Prelude.{
  ℕ, Bool, true, false, not, ◌&&◌, Option, none, some, List, [], ◌∷◌, ◌++◌, ltb, leb, ◌==◌,
  if◌then◌else◌, put, holds,
}
use llcpp_exchange.Types.{me_max_num_clients}
use llcpp_exchange.Protocol.{ClientRequestType, MeClientRequest, MeClientResponse}
use llcpp_exchange.Wire.{OmClientRequest, OmClientResponse, next_seq}
use llcpp_exchange.FifoSequencer.Sequencer.{
  FifoSequencer, RecvTimeClientRequest, new_sequencer, add_client_request, sequence_and_publish,
}

-- `cid_next_outgoing_seq_num_`, `cid_next_exp_seq_num_`, `cid_tcp_socket_`, `fifo_sequencer_`.
pub record OrderServer : Type 0 where
  pub cid_next_outgoing_seq_num : ℕ → ℕ
  pub cid_next_exp_seq_num : ℕ → ℕ
  pub cid_tcp_socket : ℕ → Option ℕ
  pub fifo_sequencer : FifoSequencer

abbrev pub new_server : OrderServer
new_server = record {
  cid_next_outgoing_seq_num = λ c. 1;
  cid_next_exp_seq_num = λ c. 1;
  cid_tcp_socket = λ c. none;
  fifo_sequencer = new_sequencer;
}

-- Only NEW and CANCEL may cross the wire.
abbrev pub crosses_wire : ClientRequestType → Bool
crosses_wire ClientRequestType.new = true
crosses_wire ClientRequestType.cancel = true
crosses_wire _ = false

-- A client that has no socket gets the one it writes from.
abbrev pub register_socket : ℕ → ℕ → OrderServer → OrderServer
register_socket socket c s = record s {
  cid_tcp_socket = elim (s.cid_tcp_socket c) [
    | none ↦ put s.cid_tcp_socket c (some socket)
    | some k ↦ s.cid_tcp_socket
  ];
}

-- The checks of the socket and of the sequence number. `none` is the sequencer's FATAL overflow.
unfoldable pub accept_request : ℕ → ℕ → OmClientRequest → OrderServer → Option OrderServer
accept_request socket rx_time m s =
    let c = m.me_client_request.client_id in
    if not (holds (s.cid_tcp_socket c) socket)
    then some s
    else (if not (m.seq_num == s.cid_next_exp_seq_num c)
        then some s
        else elim (add_client_request rx_time m.me_client_request s.fifo_sequencer) [
          | none ↦ none
          | some f ↦ some (record s {
            cid_next_exp_seq_num =
                put s.cid_next_exp_seq_num c (next_seq (s.cid_next_exp_seq_num c));
            fifo_sequencer = f;
          })
        ])

-- The body of the loop of `recvCallback`, for one frame.
unfoldable pub on_request : ℕ → ℕ → OmClientRequest → OrderServer → Option OrderServer
unfolding accept_request
on_request socket rx_time m s =
    let c = m.me_client_request.client_id in
    if not (crosses_wire m.me_client_request.type)
    then some s
    else (if leb me_max_num_clients c
        then some s
        else accept_request socket rx_time m (register_socket socket c s))

-- `recvCallback` on the whole frames of its socket's buffer.
unfoldable pub recv_callback : ℕ → ℕ → List OmClientRequest → OrderServer → Option OrderServer
unfolding on_request
recv_callback socket rx_time [] s = some s
recv_callback socket rx_time (m ∷ ms) s = elim (on_request socket rx_time m s) [
  | none ↦ none
  | some s' ↦ recv_callback socket rx_time ms s'
]

unfoldable pub recv_finished_callback :
    (sort : List RecvTimeClientRequest → List RecvTimeClientRequest)
    → OrderServer
    → List MeClientRequest × OrderServer
unfolding sequence_and_publish
recv_finished_callback sort s =
    let published = sequence_and_publish sort s.fifo_sequencer in
    (published.0, record s { fifo_sequencer = published.1 })

abbrev is_dead : ℕ → OrderServer → ℕ → Bool
is_dead socket s c = ltb c me_max_num_clients && holds (s.cid_tcp_socket c) socket

-- `disconnect_callback`, over all clients.
unfoldable pub disconnect_callback : ℕ → OrderServer → OrderServer
disconnect_callback socket s = record s {
  cid_tcp_socket = λ c. if is_dead socket s c then none else s.cid_tcp_socket c;
  cid_next_outgoing_seq_num = λ c. if is_dead socket s c then 1 else s.cid_next_outgoing_seq_num c;
  cid_next_exp_seq_num = λ c. if is_dead socket s c then 1 else s.cid_next_exp_seq_num c;
}

-- The body of the loop of `run` over the responses: the frame and the socket it is sent on.
unfoldable pub send_response :
    MeClientResponse → OrderServer → List (ℕ × OmClientResponse) × OrderServer
send_response r s =
    let c = r.client_id in
    let seq = s.cid_next_outgoing_seq_num c in
    if ltb c me_max_num_clients
    then elim (s.cid_tcp_socket c) [
      | none ↦ ([], s)
      | some socket ↦ (
        (socket, record { seq_num = seq; me_client_response = r }) ∷ [],
        record s { cid_next_outgoing_seq_num = put s.cid_next_outgoing_seq_num c (next_seq seq) },
      )
    ]
    else ([], s)

-- All pending responses, with the frames in the order they are sent.
unfoldable pub send_responses :
    List MeClientResponse → OrderServer → List (ℕ × OmClientResponse) × OrderServer
unfolding send_response
send_responses [] s = ([], s)
send_responses (r ∷ rs) s =
    let sent = send_response r s in
    let later = send_responses rs sent.1 in (sent.0 ++ later.0, later.1)

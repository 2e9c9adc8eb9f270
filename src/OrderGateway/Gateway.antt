-- ===== src/OrderGateway/Gateway.antt =====
-- OrderGateway. The queue to the strategy is the list of the responses published on it.
use llcpp_exchange.Prelude.{ℕ, not, List, [], ◌∷◌, ◌++◌, ◌==◌, if◌then◌else◌}
use llcpp_exchange.Protocol.{MeClientRequest, MeClientResponse}
use llcpp_exchange.Wire.{OmClientRequest, OmClientResponse, next_seq}

pub record OrderGateway : Type 0 where
  pub client_id : ℕ
  pub next_outgoing_seq_num : ℕ
  pub next_exp_incoming_seq_num : ℕ

abbrev pub new_gateway : ℕ → OrderGateway
new_gateway c = record { client_id = c; next_outgoing_seq_num = 1; next_exp_incoming_seq_num = 1 }

-- The frame written on the socket.
unfoldable pub send_request : MeClientRequest → OrderGateway → OmClientRequest × OrderGateway
send_request r g = (
  record { seq_num = g.next_outgoing_seq_num; me_client_request = r },
  record g { next_outgoing_seq_num = next_seq g.next_outgoing_seq_num },
)

-- The loop of `run` over the strategy's requests.
unfoldable pub send_requests :
    List MeClientRequest → OrderGateway → List OmClientRequest × OrderGateway
unfolding send_request
send_requests [] g = ([], g)
send_requests (r ∷ rs) g =
    let sent = send_request r g in
    let later = send_requests rs sent.1 in (sent.0 ∷ later.0, later.1)

unfoldable pub process_response :
    OmClientResponse → OrderGateway → List MeClientResponse × OrderGateway
process_response m g =
    if not (m.me_client_response.client_id == g.client_id)
    then ([], g)
    else (if not (m.seq_num == g.next_exp_incoming_seq_num) then ([], g) else (
      m.me_client_response ∷ [],
      record g { next_exp_incoming_seq_num = next_seq g.next_exp_incoming_seq_num },
    ))

-- `recvCallback`, and `onBytesForTest`, on the whole frames of the buffer.
unfoldable pub receive_responses :
    List OmClientResponse → OrderGateway → List MeClientResponse × OrderGateway
unfolding process_response
receive_responses [] g = ([], g)
receive_responses (m ∷ ms) g =
    let got = process_response m g in
    let later = receive_responses ms got.1 in (got.0 ++ later.0, later.1)

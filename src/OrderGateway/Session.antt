-- ===== src/OrderGateway/Session.antt =====
-- A gateway and the server on the two ends of a connection that loses and reorders nothing.
use llcpp_exchange.Prelude.{
  ℕ, ◌+◌, ◌≤◌, ◌<◌, ◌≡◌, refl, sym, ap, ◌∙◌, true, none, some, List, [], ◌∷◌, ◌++◌, map, arith,
  ◌==◌, if◌then◌else◌, All, length, length-append, ◌⊎◌,
}
use mathlib.Core.List.{append_assoc, append-nil}
use llcpp_exchange.Types.{me_max_num_clients}
use llcpp_exchange.Protocol.{MeClientRequest, MeClientResponse}
use llcpp_exchange.Wire.{OmClientRequest, OmClientResponse, next_seq}
use llcpp_exchange.FifoSequencer.Sequencer.{add_client_request, me_max_pending_requests}
use llcpp_exchange.OrderServer.Server.{
  OrderServer, crosses_wire, register_socket, accept_request, on_request, recv_callback,
  send_response, send_responses,
}
use llcpp_exchange.OrderServer.Sessions.{pending, entry, accepted}
use llcpp_exchange.OrderGateway.Gateway.{
  OrderGateway, send_request, send_requests, process_response, receive_responses,
}

abbrev pub requests : OrderServer → List MeClientRequest
requests s = map (λ e. e.request) (pending s)

-- What a strategy may ask through the gateway of the client `c`.
abbrev pub IsOwn : ℕ → MeClientRequest → Type 0
IsOwn c r = (crosses_wire r.type ≡ true) × (r.client_id ≡ c)

-- The server's end of the session that `g` has over `socket`.
abbrev pub InSync : ℕ → OrderGateway → OrderServer → Type 0
InSync socket g s =
    ((s.cid_tcp_socket g.client_id ≡ none) ⊎ (s.cid_tcp_socket g.client_id ≡ some socket))
    × (g.next_outgoing_seq_num ≡ s.cid_next_exp_seq_num g.client_id)

map-append {ℓ κ} :
    {A : Type ℓ} {B : Type κ} (f : A → B) (xs ys : List A) → map f (xs ++ ys) ≡ map f xs ++ map f ys
map-append f [] ys = refl
map-append f (x ∷ xs) ys = ap (λ l. f x ∷ l) (map-append f xs ys)

abbrev after : ℕ → ℕ → OmClientRequest → OrderServer → OrderServer
after socket t m s = accepted t m (register_socket socket m.me_client_request.client_id s)

on_request-InSync :
    (socket t : ℕ) (r : MeClientRequest) (g : OrderGateway) (s : OrderServer)
    → g.client_id < me_max_num_clients
    → IsOwn g.client_id r
    → InSync socket g s
    → length (pending s) < me_max_pending_requests
    → (on_request socket t (send_request r g).0 s ≡ some (after socket t (send_request r g).0 s))
      × InSync socket (send_request r g).1 (after socket t (send_request r g).0 s)
unfolding on_request accept_request add_client_request send_request
on_request-InSync socket t r g s b o y h = ground arith

-- A gateway in sync with the server sends requests, each a NEW or a CANCEL of its own client, and
-- the server, with room for them in the sequencer, reads the frames in one call. Then the call
-- succeeds, the pending requests are the earlier ones and then all those sent, in order, and the
-- two ends are in sync again.
pub requests_arrive :
    (socket t : ℕ) (rs : List MeClientRequest) (g : OrderGateway) (s : OrderServer)
    → g.client_id < me_max_num_clients
    → All (IsOwn g.client_id) rs
    → InSync socket g s
    → length (pending s) + length rs ≤ me_max_pending_requests
    → (s' : OrderServer) × (recv_callback socket t (send_requests rs g).0 s ≡ some s')
      × (requests s' ≡ requests s ++ rs)
      × InSync socket (send_requests rs g).1 s'
unfolding recv_callback send_requests send_request
requests_arrive socket t [] g s b o y h = (s, refl, sym (append-nil (requests s)), y)
requests_arrive socket t (r ∷ rs) g s b o y h =
    let m = (send_request r g).0 in
    let u = after socket t m s in
    let (e, y') = on_request-InSync socket t r g s b o.0 y (omega arith) in
    let e₀ = entry t m (register_socket socket r.client_id s) in
    let room : length (pending u) + length rs ≤ me_max_pending_requests =
      omega (arith, length-append (pending s) (e₀ ∷ [])) in
    let (s', e', q, y'') = requests_arrive socket t rs (send_request r g).1 u b o.1 y' room in
    (
      s',
      rw e e',
      q
          ∙ (ap (λ l. l ++ rs) (map-append (λ e. e.request) (pending s) (e₀ ∷ []))
              ∙ append_assoc (requests s) (r ∷ []) rs),
      y'',
    )

-- The frames of those sent that go out on a socket, and the responses of a client.
abbrev pub on_socket : ℕ → List (ℕ × OmClientResponse) → List OmClientResponse
on_socket k [] = []
on_socket k ((j, m) ∷ ms) = if j == k then m ∷ on_socket k ms else on_socket k ms

abbrev pub of_client : ℕ → List MeClientResponse → List MeClientResponse
of_client c [] = []
of_client c (r ∷ rs) = if r.client_id == c then r ∷ of_client c rs else of_client c rs

-- The gateway after the frames of one response of the server.
abbrev heard : MeClientResponse → OrderGateway → OrderGateway
heard r g =
    if r.client_id == g.client_id
    then record g { next_exp_incoming_seq_num = next_seq g.next_exp_incoming_seq_num }
    else g

response_step :
    (k : ℕ) (r : MeClientResponse) (g : OrderGateway) (s : OrderServer)
    (later : List (ℕ × OmClientResponse))
    → g.client_id < me_max_num_clients
    → s.cid_tcp_socket g.client_id ≡ some k
    → g.next_exp_incoming_seq_num ≡ s.cid_next_outgoing_seq_num g.client_id
    → receive_responses (on_socket k ((send_response r s).0 ++ later)) g ≡ (
      of_client g.client_id (r ∷ []) ++ (receive_responses (on_socket k later) (heard r g)).0,
      (receive_responses (on_socket k later) (heard r g)).1,
    )
unfolding send_response receive_responses process_response
response_step k r g s later b e n = ground arith

heard_next :
    (k : ℕ) (r : MeClientResponse) (g : OrderGateway) (s : OrderServer)
    → g.client_id < me_max_num_clients
    → s.cid_tcp_socket g.client_id ≡ some k
    → g.next_exp_incoming_seq_num ≡ s.cid_next_outgoing_seq_num g.client_id
    → ((heard r g).client_id ≡ g.client_id)
      × ((send_response r s).1.cid_tcp_socket ≡ s.cid_tcp_socket)
      × ((heard r g).next_exp_incoming_seq_num
          ≡ (send_response r s).1.cid_next_outgoing_seq_num g.client_id)
unfolding send_response
heard_next k r g s b e n = ground arith

-- The server drains any responses, of any clients, to a client that is registered on a socket and
-- whose gateway expects the server's next number. Then, of the frames written on that socket, also
-- those of clients that share it, the gateway publishes exactly the client's responses, in order,
-- and expects the server's next number again.
pub responses_arrive :
    (k : ℕ) (rs : List MeClientResponse) (g : OrderGateway) (s : OrderServer)
    → g.client_id < me_max_num_clients
    → s.cid_tcp_socket g.client_id ≡ some k
    → g.next_exp_incoming_seq_num ≡ s.cid_next_outgoing_seq_num g.client_id
    → ((receive_responses (on_socket k (send_responses rs s).0) g).0 ≡ of_client g.client_id rs)
      × ((receive_responses (on_socket k (send_responses rs s).0) g).1.next_exp_incoming_seq_num
          ≡ (send_responses rs s).1.cid_next_outgoing_seq_num g.client_id)
unfolding send_responses receive_responses
responses_arrive k [] g s b e n = (refl, n)
responses_arrive k (r ∷ rs) g s b e n =
    let u = (send_response r s).1 in
    let (c, d, m) = heard_next k r g s b e n in
    let step = response_step k r g s (send_responses rs u).0 b e n in
    let ih =
      responses_arrive k rs (heard r g) u (rw c b) (rw (c, d) e)
        (m ∙ ap (λ i. u.cid_next_outgoing_seq_num i) (sym c)) in
    (
      ap (λ p. p.0) step
          ∙ (ap (λ l. of_client g.client_id (r ∷ []) ++ l) (ih.0 ∙ ap (λ i. of_client i rs) c)
              ∙ ground arith),
      ap (λ p. p.1.next_exp_incoming_seq_num) step
          ∙ (ih.1 ∙ ap (λ i. (send_responses rs u).1.cid_next_outgoing_seq_num i) c),
    )

-- ===== src/OrderServer/Isolation.antt =====
-- A client's session against what other sockets send, and when a read goes through.
use llcpp_exchange.Prelude.{
  ℕ, suc, ◌+◌, ◌^◌, ◌≤◌, ◌<◌, ◌≡◌, ◌≢◌, refl, sym, ap, subst, ◌∙◌, none, some, List, [], ◌∷◌, ◌++◌,
  arith, All, length, length-append, Option-cases, inl, inr,
}
use llcpp_exchange.Wire.{OmClientRequest}
use llcpp_exchange.FifoSequencer.Sequencer.{
  RecvTimeClientRequest, add_client_request, me_max_pending_requests,
}
use llcpp_exchange.OrderServer.Server.{
  OrderServer, register_socket, accept_request, on_request, recv_callback,
}
use llcpp_exchange.OrderServer.Sessions.{
  pending, count_of, entry, on_request-cases, IsAdmitted, recv_callback-Received,
}

none-of :
    (socket t c k : ℕ) (s : OrderServer) (es : List RecvTimeClientRequest)
    → s.cid_tcp_socket c ≡ some k
    → k ≢ socket
    → All (IsAdmitted socket t s) es
    → All (λ e. e.request.client_id ≢ c) es × (count_of c es ≡ 0)
none-of socket t c k s [] h ne a = (tt, refl)
none-of socket t c k s (e ∷ es) h ne ((w, b, j, r), a) =
    let later = none-of socket t c k s es h ne a in
    let other : e.request.client_id ≢ c = λ q.
      let j' : s.cid_tcp_socket c ≡ some socket =
        subst (λ d. s.cid_tcp_socket d ≡ some socket) q j in
      ne cc in
    ((other, later.0), ground (arith, later.1))

-- A client's session is as it was, and every request added is another client's.
pub record IsIsolated (c : ℕ) (s s' : OrderServer) : Type 0 where
  pub socket : s'.cid_tcp_socket c ≡ s.cid_tcp_socket c
  pub expected : s'.cid_next_exp_seq_num c ≡ s.cid_next_exp_seq_num c
  pub outgoing : s'.cid_next_outgoing_seq_num c ≡ s.cid_next_outgoing_seq_num c
  pub added : List RecvTimeClientRequest
  pub queued : pending s' ≡ pending s ++ added
  pub others : All (λ e. e.request.client_id ≢ c) added

-- Frames that arrive on another socket than the one a client is registered on, whatever they say,
-- leave that client's registration and its two sequence numbers as they are, and every request they
-- add to the sequencer is another client's (with an expected number below 2^64, as a `size_t` is,
-- and a sequencer that does not overflow).
pub recv_callback-IsIsolated :
    (socket t c k : ℕ) (ms : List OmClientRequest) (s s' : OrderServer)
    → s.cid_tcp_socket c ≡ some k
    → k ≢ socket
    → s.cid_next_exp_seq_num c < 2 ^ 64
    → recv_callback socket t ms s ≡ some s'
    → IsIsolated c s s'
recv_callback-IsIsolated socket t c k ms s s' h ne bound e =
    let r = recv_callback-Received socket t ms s s' e in
    let h' = r.kept c k h in
    let o = none-of socket t c k s' r.added h' ne r.admitted in
    record {
      socket = h' ∙ sym h;
      expected = let n = r.numbers c bound in let z = o.1 in omega arith;
      outgoing = ap (λ (f : ℕ → ℕ). f c) r.outgoing;
      added = r.added;
      queued = r.queued;
      others = o.0;
    }

accept_request_runs :
    (socket t : ℕ) (m : OmClientRequest) (s : OrderServer)
    → length (pending s) < me_max_pending_requests
    → accept_request socket t m s ≢ none
unfolding accept_request add_client_request
accept_request_runs socket t m s h e = ground arith

on_request_runs :
    (socket t : ℕ) (m : OmClientRequest) (s : OrderServer)
    → length (pending s) < me_max_pending_requests
    → on_request socket t m s ≢ none
unfolding on_request
on_request_runs socket t m s h e =
    let u = register_socket socket m.me_client_request.client_id s in
    ground (arith, accept_request_runs socket t m u)

accept_request-length :
    (socket t : ℕ) (m : OmClientRequest) (s s' : OrderServer)
    → accept_request socket t m s ≡ some s'
    → length (pending s') ≤ suc (length (pending s))
unfolding accept_request add_client_request
accept_request-length socket t m s s' e =
    ground (arith, length-append (pending s) (entry t m s ∷ []))

on_request-length :
    (socket t : ℕ) (m : OmClientRequest) (s s' : OrderServer)
    → on_request socket t m s ≡ some s'
    → length (pending s') ≤ suc (length (pending s))
on_request-length socket t m s s' e =
    let u = register_socket socket m.me_client_request.client_id s in
    elim (on_request-cases socket t m s s' e) [
      | inl q ↦ let p = ap (λ v. length (pending v)) q in omega arith
      | inr (w, b, a) ↦ accept_request-length socket t m u s' a
    ]

-- A read of as many frames as the sequencer has room for goes through, and takes at most that room.
pub recv_callback_runs :
    (socket t : ℕ) (ms : List OmClientRequest) (s : OrderServer)
    → length (pending s) + length ms ≤ me_max_pending_requests
    → (s' : OrderServer) × (recv_callback socket t ms s ≡ some s')
      × (length (pending s') ≤ length (pending s) + length ms)
unfolding recv_callback
recv_callback_runs socket t [] s h = (s, refl, omega arith)
recv_callback_runs socket t (m ∷ ms) s h = elim (Option-cases (on_request socket t m s)) [
  | inl e ↦ absurd (on_request_runs socket t m s (omega arith) e)
  | inr (u, e) ↦
      let l = on_request-length socket t m s u e in
      let (s', e', l') = recv_callback_runs socket t ms u (omega arith) in
      (s', ground arith, omega arith)
]

-- ===== src/OrderServer/Sessions.antt =====
-- What a read of one socket does to the sessions: the requests it adds belong to clients whose
-- socket it is, and the sequence numbers count them.
use llcpp_exchange.Prelude.{
  ℕ, ◌+◌, ◌%◌, ◌^◌, ◌<◌, ◌≡◌, refl, sym, ap, subst, ◌∙◌, true, Option, none, some, List, [], ◌∷◌,
  ◌++◌, arith, ◌==◌, if◌then◌else◌, All, All-append, length, sum_by, sum_by-append, put, holds,
  Option-cases, ◌⊎◌, inl, inr, eq_of_==,
}
use llcpp_exchange.Types.{me_max_num_clients}
use llcpp_exchange.Wire.{OmClientRequest, next_seq}
use llcpp_exchange.FifoSequencer.Sequencer.{
  FifoSequencer, RecvTimeClientRequest, add_client_request,
}
use llcpp_exchange.OrderServer.Server.{
  OrderServer, crosses_wire, register_socket, accept_request, on_request, recv_callback,
}
use mathlib.Core.List.{append_assoc, append-nil}

abbrev pub pending : OrderServer → List RecvTimeClientRequest
pending s = s.fifo_sequencer.pending_client_requests

-- How many of the entries are a client's.
abbrev pub count_of : ℕ → List RecvTimeClientRequest → ℕ
count_of c es = sum_by (λ e. if e.request.client_id == c then 1 else 0) es

-- An entry of a read of `socket` at `t`, made of a frame of a client whose socket it is.
abbrev pub IsAdmitted : ℕ → ℕ → OrderServer → RecvTimeClientRequest → Type 0
IsAdmitted socket t s e =
    (crosses_wire e.request.type ≡ true)
    × (e.request.client_id < me_max_num_clients)
    × (s.cid_tcp_socket e.request.client_id ≡ some socket)
    × (e.recv_time ≡ t)

pub record Received (socket t : ℕ) (s s' : OrderServer) : Type 0 where
  pub added : List RecvTimeClientRequest
  pub queued : pending s' ≡ pending s ++ added
  pub admitted : All (IsAdmitted socket t s') added
  pub numbers :
      (c : ℕ)
      → s.cid_next_exp_seq_num c < 2 ^ 64
      → s'.cid_next_exp_seq_num c ≡ (s.cid_next_exp_seq_num c + count_of c added) % 2 ^ 64
  pub kept : (c k : ℕ) → s.cid_tcp_socket c ≡ some k → s'.cid_tcp_socket c ≡ some k
  pub outgoing : s'.cid_next_outgoing_seq_num ≡ s.cid_next_outgoing_seq_num

put_same : (f : ℕ → ℕ) (c v : ℕ) → put f c v c ≡ v
put_same f c v = ground arith

nothing :
    (socket t : ℕ) (s s' : OrderServer)
    → s'.fifo_sequencer ≡ s.fifo_sequencer
    → s'.cid_next_exp_seq_num ≡ s.cid_next_exp_seq_num
    → s'.cid_next_outgoing_seq_num ≡ s.cid_next_outgoing_seq_num
    → ((c k : ℕ) → s.cid_tcp_socket c ≡ some k → s'.cid_tcp_socket c ≡ some k)
    → Received socket t s s'
nothing socket t s s' f e o k = record {
  added = [];
  queued = ap (λ (q : FifoSequencer). q.pending_client_requests) f ∙ sym (append-nil (pending s));
  admitted = tt;
  numbers = λ c h. ap (λ (g : ℕ → ℕ). g c) e ∙ omega arith;
  kept = k;
  outgoing = o;
}

register_socket-Received :
    (socket t c : ℕ) (s : OrderServer) → Received socket t s (register_socket socket c s)
register_socket-Received socket t c s =
    nothing socket t s (register_socket socket c s) refl refl refl (λ d k e. ground arith)

holds-some : (o : Option ℕ) (k : ℕ) → holds o k ≡ true → o ≡ some k
holds-some none k e = ground arith
holds-some (some j) k e = ap some (eq_of_== j k e)

-- The entry and the state after a request that passes every check.
abbrev pub entry : ℕ → OmClientRequest → OrderServer → RecvTimeClientRequest
entry t m s = record {
  recv_time = t;
  request = m.me_client_request;
  arrival_index = length (pending s);
}

abbrev pub accepted : ℕ → OmClientRequest → OrderServer → OrderServer
accepted t m s =
    let c = m.me_client_request.client_id in
    record s {
      cid_next_exp_seq_num = put s.cid_next_exp_seq_num c (next_seq (s.cid_next_exp_seq_num c));
      fifo_sequencer = record { pending_client_requests = pending s ++ (entry t m s ∷ []) };
    }

accept_request-cases :
    (socket t : ℕ) (m : OmClientRequest) (s s' : OrderServer)
    → accept_request socket t m s ≡ some s'
    → (s ≡ s')
      ⊎ ((accepted t m s ≡ s')
          × (s.cid_tcp_socket m.me_client_request.client_id ≡ some socket)
          × (m.seq_num ≡ s.cid_next_exp_seq_num m.me_client_request.client_id))
unfolding accept_request add_client_request
accept_request-cases socket t m s s' h =
    let c = m.me_client_request.client_id in ground (arith, holds-some (s.cid_tcp_socket c) socket)

accepted-Received :
    (socket t : ℕ) (m : OmClientRequest) (s : OrderServer)
    → crosses_wire m.me_client_request.type ≡ true
    → m.me_client_request.client_id < me_max_num_clients
    → s.cid_tcp_socket m.me_client_request.client_id ≡ some socket
    → Received socket t s (accepted t m s)
accepted-Received socket t m s w b h = record {
  added = entry t m s ∷ [];
  queued = refl;
  admitted = ((w, b, h, refl), tt);
  numbers = λ c k. ground arith;
  kept = λ c k e. e;
  outgoing = refl;
}

IsAdmitted-later :
    (socket t : ℕ) (s s' : OrderServer) (es : List RecvTimeClientRequest)
    → ((c k : ℕ) → s.cid_tcp_socket c ≡ some k → s'.cid_tcp_socket c ≡ some k)
    → All (IsAdmitted socket t s) es
    → All (IsAdmitted socket t s') es
IsAdmitted-later socket t s s' [] k a = tt
IsAdmitted-later socket t s s' (e ∷ es) k ((w, b, h, r), a) =
    ((w, b, k e.request.client_id socket h, r), IsAdmitted-later socket t s s' es k a)

Received-trans :
    (socket t : ℕ) (s u v : OrderServer)
    → Received socket t s u
    → Received socket t u v
    → Received socket t s v
Received-trans socket t s u v a b = record {
  added = a.added ++ b.added;
  queued = b.queued ∙ (ap (λ q. q ++ b.added) a.queued ∙ append_assoc (pending s) a.added b.added);
  admitted =
      All-append (IsAdmitted socket t v) a.added b.added
        (IsAdmitted-later socket t u v a.added b.kept a.admitted) b.admitted;
  numbers = λ c k.
      let m = a.numbers c k in
      let n = b.numbers c (omega arith) in
      omega (
        arith,
        sum_by-append (λ (e : RecvTimeClientRequest). if e.request.client_id == c then 1 else 0)
            a.added b.added,
      );
  kept = λ c k e. b.kept c k (a.kept c k e);
  outgoing = b.outgoing ∙ a.outgoing;
}

pub on_request-cases :
    (socket t : ℕ) (m : OmClientRequest) (s s' : OrderServer)
    → on_request socket t m s ≡ some s'
    → (s ≡ s')
      ⊎ ((crosses_wire m.me_client_request.type ≡ true)
          × (m.me_client_request.client_id < me_max_num_clients)
          × (accept_request socket t m (register_socket socket m.me_client_request.client_id s)
              ≡ some s'))
unfolding on_request
on_request-cases socket t m s s' h = ground arith

unchanged : (socket t : ℕ) (s : OrderServer) → Received socket t s s
unchanged socket t s = nothing socket t s s refl refl refl (λ c k e. e)

on_request-Received :
    (socket t : ℕ) (m : OmClientRequest) (s s' : OrderServer)
    → on_request socket t m s ≡ some s'
    → Received socket t s s'
on_request-Received socket t m s s' h =
    let c = m.me_client_request.client_id in
    let u = register_socket socket c s in
    elim (on_request-cases socket t m s s' h) [
      | inl e ↦ subst (λ v. Received socket t s v) e (unchanged socket t s)
      | inr (w, b, a) ↦
          Received-trans socket t s u s' (register_socket-Received socket t c s)
            (elim (accept_request-cases socket t m u s' a) [
              | inl e ↦ subst (λ v. Received socket t u v) e (unchanged socket t u)
              | inr (e, k, n) ↦
                  subst (λ v. Received socket t u v) e (accepted-Received socket t m u w b k)
            ])
    ]

-- A read of a socket that does not overflow the sequencer adds to the pending requests, in order,
-- only NEW and CANCEL requests of clients below 256 whose registered socket is the one read. Every
-- client's expected sequence number, if it was below 2^64, advances modulo 2^64 by the number of
-- its requests that were added. No registration is lost, and no outgoing number changes.
pub recv_callback-Received :
    (socket t : ℕ) (ms : List OmClientRequest) (s s' : OrderServer)
    → recv_callback socket t ms s ≡ some s'
    → Received socket t s s'
unfolding recv_callback
recv_callback-Received socket t [] s s' h =
    let e : s ≡ s' = cc in subst (λ v. Received socket t s v) e (unchanged socket t s)
recv_callback-Received socket t (m ∷ ms) s s' h = elim (Option-cases (on_request socket t m s)) [
  | inl e ↦ absurd (ground arith)
  | inr (u, e) ↦
      Received-trans socket t s u s' (on_request-Received socket t m s u e)
        (recv_callback-Received socket t ms u s' (ground arith))
]

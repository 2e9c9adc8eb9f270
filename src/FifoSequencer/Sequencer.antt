-- ===== src/FifoSequencer/Sequencer.antt =====
-- FIFOSequencer, with `std::sort` as a parameter.
use llcpp_exchange.Prelude.{
  ℕ, Bool, ◌&&◌, ◌||◌, Option, none, some, List, [], ◌∷◌, ◌++◌, map, ltb, leb, ◌==◌, if◌then◌else◌,
  length,
}
use llcpp_exchange.Protocol.{MeClientRequest}

abbrev pub me_max_pending_requests : ℕ
me_max_pending_requests = 1024

pub record RecvTimeClientRequest : Type 0 where
  pub recv_time : ℕ
  pub request : MeClientRequest
  pub arrival_index : ℕ

-- `operator<`
abbrev pub before : RecvTimeClientRequest → RecvTimeClientRequest → Bool
before a b =
    ltb a.recv_time b.recv_time
    || (a.recv_time == b.recv_time && ltb a.arrival_index b.arrival_index)

-- The entries of the array up to `pending_size_`.
pub record FifoSequencer : Type 0 where
  pub pending_client_requests : List RecvTimeClientRequest

abbrev pub new_sequencer : FifoSequencer
new_sequencer = record { pending_client_requests = [] }

-- `none` is the FATAL overflow.
unfoldable pub add_client_request : ℕ → MeClientRequest → FifoSequencer → Option FifoSequencer
add_client_request rx_time r s =
    let pending = s.pending_client_requests in
    if leb me_max_pending_requests (length pending)
    then none
    else some (record {
      pending_client_requests =
          pending
          ++ (record { recv_time = rx_time; request = r; arrival_index = length pending } ∷ []);
    })

-- The requests in the order in which they are written to the queue.
unfoldable pub sequence_and_publish :
    (List RecvTimeClientRequest → List RecvTimeClientRequest)
    → FifoSequencer
    → List MeClientRequest × FifoSequencer
sequence_and_publish sort s = elim s.pending_client_requests [
  | [] ↦ ([], s)
  | e ∷ es ↦ (map (λ x. x.request) (sort (e ∷ es)), new_sequencer)
]

-- The requests that `recvCallback` reads in one poll cycle, with their times.
unfoldable pub receive : List (ℕ × MeClientRequest) → FifoSequencer → Option FifoSequencer
unfolding add_client_request
receive [] s = some s
receive ((t, r) ∷ more) s = elim (add_client_request t r s) [
  | none ↦ none
  | some s' ↦ receive more s'
]

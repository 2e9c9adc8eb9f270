-- ===== src/FifoSequencer/Cycle.antt =====
-- A poll cycle: whatever the sort does with equal times, the requests go out in the order of their
-- times, and those of one time in the order in which they were read.
use mathlib.Core.List.{Permᴰ}
use mathlib.Core.List.{append-nil, append_assoc}
use mathlib.Core.List.Permᴰ
use llcpp_exchange.Prelude.{
  ℕ, suc, ◌+◌, ◌≤◌, ◌<◌, ◌≡◌, refl, ◌∙◌, ap, inl, inr, false, some, List, [], ◌∷◌, ◌++◌, arith, map,
  leb, if◌then◌else◌, length, length-append, All, Bool-cases, ==_refl,
}
use llcpp_exchange.Protocol.{MeClientRequest}
use llcpp_exchange.FifoSequencer.Sequencer.{
  RecvTimeClientRequest, FifoSequencer, before, new_sequencer, me_max_pending_requests,
  add_client_request, sequence_and_publish, receive,
}
use llcpp_exchange.FifoSequencer.Ordered.{InOrder, find_index, Stored, All-perm, InOrder-unique}

-- In front of the later entries, which were all read after it.
unfoldable pub insert_by_time :
    RecvTimeClientRequest → List RecvTimeClientRequest → List RecvTimeClientRequest
insert_by_time e [] = e ∷ []
insert_by_time e (x ∷ xs) =
    if leb e.recv_time x.recv_time then e ∷ x ∷ xs else x ∷ insert_by_time e xs

-- The stable order by time.
unfoldable pub by_time : List RecvTimeClientRequest → List RecvTimeClientRequest
unfolding insert_by_time
by_time [] = []
by_time (e ∷ es) = insert_by_time e (by_time es)

-- The entries of the requests, numbered from `n` on.
abbrev pub entries : ℕ → List (ℕ × MeClientRequest) → List RecvTimeClientRequest
entries n [] = []
entries n ((t, r) ∷ more) =
    record { recv_time = t; request = r; arrival_index = n } ∷ entries (suc n) more

-- What the code relies on: `std::sort` returns the entries in an order in which none is before an
-- earlier one.
pub record Sorts (sort : List RecvTimeClientRequest → List RecvTimeClientRequest) : Type 0 where
  pub perm : (xs : List RecvTimeClientRequest) → Permᴰ xs (sort xs)
  pub ordered : (xs : List RecvTimeClientRequest) → InOrder (sort xs)

insert-perm :
    (e : RecvTimeClientRequest) (xs : List RecvTimeClientRequest)
    → Permᴰ (e ∷ xs) (insert_by_time e xs)
unfolding insert_by_time
insert-perm e [] = Permᴰ.refl (e ∷ [])
insert-perm e (x ∷ xs) = elim (Bool-cases (leb e.recv_time x.recv_time)) [
  | inl first ↦ rw first (Permᴰ.refl (e ∷ x ∷ xs))
  | inr later ↦ rw later (Permᴰ.trans (Permᴰ.swap refl refl) (Permᴰ.cons refl (insert-perm e xs)))
]

by_time-perm : (xs : List RecvTimeClientRequest) → Permᴰ xs (by_time xs)
unfolding by_time
by_time-perm [] = Permᴰ.nil
by_time-perm (e ∷ es) = Permᴰ.trans (Permᴰ.cons refl (by_time-perm es)) (insert-perm e (by_time es))

later-All :
    (e x : RecvTimeClientRequest) (xs : List RecvTimeClientRequest)
    → e.recv_time ≤ x.recv_time
    → All (λ y. e.arrival_index < y.arrival_index) xs
    → All (λ y. before y x ≡ false) xs
    → All (λ y. before y e ≡ false) xs
later-All e x [] le idx o = tt
later-All e x (y ∷ ys) le idx o = (ground (arith, idx.0, o.0), later-All e x ys le idx.1 o.1)

insert-InOrder :
    (e : RecvTimeClientRequest) (xs : List RecvTimeClientRequest)
    → All (λ y. e.arrival_index < y.arrival_index) xs
    → InOrder xs
    → InOrder (insert_by_time e xs)
unfolding insert_by_time
insert-InOrder e [] idx o = (tt, tt)
insert-InOrder e (x ∷ xs) idx o = elim (Bool-cases (leb e.recv_time x.recv_time)) [
  | inl first ↦ rw first ((ground (arith, idx.0), later-All e x xs (ground arith) idx.1 o.0), o)
  | inr later ↦ rw later (
    All-perm (λ y. before y x ≡ false) (insert-perm e xs) (ground arith, o.0),
    insert-InOrder e xs idx.1 o.1,
  )
]

entries-after :
    (n m : ℕ) (arrivals : List (ℕ × MeClientRequest))
    → m < n
    → All (λ y. m < y.arrival_index) (entries n arrivals)
entries-after n m [] h = tt
entries-after n m ((t, r) ∷ more) h = (h, entries-after (suc n) m more (omega arith))

by_time-InOrder :
    (n : ℕ) (arrivals : List (ℕ × MeClientRequest)) → InOrder (by_time (entries n arrivals))
unfolding by_time
by_time-InOrder n [] = tt
by_time-InOrder n ((t, r) ∷ more) =
    insert-InOrder _ (by_time (entries (suc n) more))
      (All-perm (λ y. n < y.arrival_index) (by_time-perm (entries (suc n) more))
        (entries-after (suc n) n more (omega arith)))
      (by_time-InOrder (suc n) more)

Stored-behind :
    (x : RecvTimeClientRequest) (whole xs : List RecvTimeClientRequest)
    → All (λ y. x.arrival_index < y.arrival_index) xs
    → Stored whole xs
    → Stored (x ∷ whole) xs
Stored-behind x whole [] idx s = tt
Stored-behind x whole (y ∷ ys) idx s =
    (ground (arith, idx.0, s.0), Stored-behind x whole ys idx.1 s.1)

entries-Stored :
    (n : ℕ) (arrivals : List (ℕ × MeClientRequest))
    → Stored (entries n arrivals) (entries n arrivals)
entries-Stored n [] = tt
entries-Stored n ((t, r) ∷ more) = (
  rw (==_refl n) refl,
  Stored-behind _ (entries (suc n) more) (entries (suc n) more)
      (entries-after (suc n) n more (omega arith)) (entries-Stored (suc n) more),
)

sort-by_time :
    (sort : List RecvTimeClientRequest → List RecvTimeClientRequest) (n : ℕ)
    (arrivals : List (ℕ × MeClientRequest))
    → Sorts sort
    → sort (entries n arrivals) ≡ by_time (entries n arrivals)
sort-by_time sort n arrivals law =
    let xs = entries n arrivals in
    let stored = entries-Stored n arrivals in
    InOrder-unique xs (sort xs) (by_time xs)
      (All-perm (λ x. find_index x.arrival_index xs ≡ some x) (law.perm xs) stored)
      (All-perm (λ x. find_index x.arrival_index xs ≡ some x) (by_time-perm xs) stored)
      (law.ordered xs) (by_time-InOrder n arrivals)
      ∣ Permᴰ.trans (Permᴰ.symm (law.perm xs)) (by_time-perm xs) ∣₁

receive-entries :
    (done : List RecvTimeClientRequest) (arrivals : List (ℕ × MeClientRequest))
    → length done + length arrivals ≤ me_max_pending_requests
    → receive arrivals (record { pending_client_requests = done })
      ≡ some (record { pending_client_requests = done ++ entries (length done) arrivals })
unfolding receive add_client_request
receive-entries done [] h = rw (append-nil done) refl
receive-entries done ((t, r) ∷ more) h =
    let e : RecvTimeClientRequest = record {
      recv_time = t;
      request = r;
      arrival_index = length done;
    } in
    let count : length (done ++ (e ∷ [])) ≡ suc (length done) =
      length-append done (e ∷ []) ∙ omega arith in
    let room : leb me_max_pending_requests (length done) ≡ false = ground arith in
    let joined : (done ++ (e ∷ [])) ++ entries (length (done ++ (e ∷ []))) more
        ≡ done ++ (e ∷ entries (suc (length done)) more) =
      append_assoc done (e ∷ []) (entries (length (done ++ (e ∷ []))) more)
      ∙ ap (λ n. done ++ (e ∷ entries n more)) count in
    rw (room, receive, add_client_request)
      (receive-entries (done ++ (e ∷ [])) more (omega (arith, count))
        ∙ ap (λ xs. some (record { pending_client_requests = xs })) joined)

-- For every sort that returns the entries ordered by `operator<`: when a poll cycle reads at most
-- 1024 requests, they are all buffered, and published by time, those of equal time in the order in
-- which they were read; the buffer is empty again.
pub cycle-by_time :
    (sort : List RecvTimeClientRequest → List RecvTimeClientRequest)
    (arrivals : List (ℕ × MeClientRequest))
    → Sorts sort
    → length arrivals ≤ me_max_pending_requests
    → (s : FifoSequencer) × (receive arrivals new_sequencer ≡ some s)
      × (sequence_and_publish sort s
          ≡ (map (λ x. x.request) (by_time (entries 0 arrivals)), new_sequencer))
unfolding sequence_and_publish by_time
cycle-by_time sort arrivals law few = (
  record { pending_client_requests = entries 0 arrivals },
  receive-entries [] arrivals (omega arith),
  publish sort arrivals law,
)
  where
    publish :
        (sort : List RecvTimeClientRequest → List RecvTimeClientRequest)
        (arrivals : List (ℕ × MeClientRequest))
        → Sorts sort
        → sequence_and_publish sort (record { pending_client_requests = entries 0 arrivals })
          ≡ (map (λ x. x.request) (by_time (entries 0 arrivals)), new_sequencer)
    publish sort [] law = refl
    publish sort ((t, r) ∷ more) law =
        ap (λ xs. (map (λ x. x.request) xs, new_sequencer))
          (sort-by_time sort 0 ((t, r) ∷ more) law)

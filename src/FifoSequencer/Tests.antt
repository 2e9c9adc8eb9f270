-- ===== src/FifoSequencer/Tests.antt =====
-- A sort as the sequencer needs it, and a poll cycle.
use mathlib.Core.List.{Permᴰ}
use mathlib.Core.List.Permᴰ
use llcpp_exchange.Prelude.{
  ℕ, ◌≡◌, refl, inl, inr, false, some, List, [], ◌∷◌, arith, map, if◌then◌else◌, All, Bool-cases,
}
use llcpp_exchange.Types.{Side}
use llcpp_exchange.Protocol.{MeClientRequest, ClientRequestType}
use llcpp_exchange.FifoSequencer.Sequencer.{
  RecvTimeClientRequest, FifoSequencer, before, new_sequencer, sequence_and_publish, receive,
}
use llcpp_exchange.FifoSequencer.Ordered.{InOrder, All-perm}
use llcpp_exchange.FifoSequencer.Cycle.{insert_by_time, by_time, entries, Sorts, cycle-by_time}

insert_entry : RecvTimeClientRequest → List RecvTimeClientRequest → List RecvTimeClientRequest
insert_entry e [] = e ∷ []
insert_entry e (x ∷ xs) = if before x e then x ∷ insert_entry e xs else e ∷ x ∷ xs

sort : List RecvTimeClientRequest → List RecvTimeClientRequest
unfolding insert_entry
sort [] = []
sort (e ∷ es) = insert_entry e (sort es)

insert_entry-perm :
    (e : RecvTimeClientRequest) (xs : List RecvTimeClientRequest)
    → Permᴰ (e ∷ xs) (insert_entry e xs)
unfolding insert_entry
insert_entry-perm e [] = Permᴰ.refl (e ∷ [])
insert_entry-perm e (x ∷ xs) = elim (Bool-cases (before x e)) [
  | inl later ↦
      rw later (Permᴰ.trans (Permᴰ.swap refl refl) (Permᴰ.cons refl (insert_entry-perm e xs)))
  | inr first ↦ rw first (Permᴰ.refl (e ∷ x ∷ xs))
]

before-All :
    (e x : RecvTimeClientRequest) (xs : List RecvTimeClientRequest)
    → before x e ≡ false
    → All (λ y. before y x ≡ false) xs
    → All (λ y. before y e ≡ false) xs
before-All e x [] h o = tt
before-All e x (y ∷ ys) h o = (ground (arith, o.0), before-All e x ys h o.1)

insert_entry-InOrder :
    (e : RecvTimeClientRequest) (xs : List RecvTimeClientRequest)
    → InOrder xs
    → InOrder (insert_entry e xs)
unfolding insert_entry
insert_entry-InOrder e [] o = (tt, tt)
insert_entry-InOrder e (x ∷ xs) o = elim (Bool-cases (before x e)) [
  | inl later ↦ rw later (
    All-perm (λ y. before y x ≡ false) (insert_entry-perm e xs) (ground arith, o.0),
    insert_entry-InOrder e xs o.1,
  )
  | inr first ↦ rw first ((first, before-All e x xs first o.0), o)
]

sort-perm : (xs : List RecvTimeClientRequest) → Permᴰ xs (sort xs)
unfolding sort
sort-perm [] = Permᴰ.nil
sort-perm (e ∷ es) = Permᴰ.trans (Permᴰ.cons refl (sort-perm es)) (insert_entry-perm e (sort es))

sort-InOrder : (xs : List RecvTimeClientRequest) → InOrder (sort xs)
unfolding sort
sort-InOrder [] = tt
sort-InOrder (e ∷ es) = insert_entry-InOrder e (sort es) (sort-InOrder es)

sort-Sorts : Sorts sort
sort-Sorts = record { perm = sort-perm; ordered = sort-InOrder }

abbrev numbered : ClientRequestType → ℕ → MeClientRequest
numbered type id = record {
  type = type;
  client_id = 1;
  ticker_id = 0;
  order_id = id;
  side = Side.buy;
  price = 100;
  qty = 1;
}

-- An order and its cancellation in one burst, read after a later request of another socket.
abbrev burst : List (ℕ × MeClientRequest)
burst =
    (9, numbered ClientRequestType.new 3)
    ∷ (5, numbered ClientRequestType.new 1)
    ∷ (5, numbered ClientRequestType.cancel 1)
    ∷ []

cycle-by_time_example :
    (s : FifoSequencer) × (receive burst new_sequencer ≡ some s)
    × (sequence_and_publish sort s
        ≡ (map (λ x. x.request) (by_time (entries 0 burst)), new_sequencer))
cycle-by_time_example = cycle-by_time sort burst sort-Sorts (omega arith)

burst_order :
    map (λ x. x.request) (by_time (entries 0 burst))
    ≡ numbered ClientRequestType.new 1
      ∷ numbered ClientRequestType.cancel 1
      ∷ numbered ClientRequestType.new 3
      ∷ []
unfolding by_time insert_by_time
burst_order = refl

-- ===== src/LfQueue/Steps.antt =====
-- The two threads together: any order of their steps is the same on a bounded list.
use llcpp_exchange.Prelude.{
  ℕ, ◌+◌, ◌≡◌, refl, sym, ap, subst, ◌∙◌, inl, inr, Option, none, some, List, [], ◌∷◌, ◌++◌, arith,
  ltb, if◌then◌else◌, length, Bool-cases,
}
use llcpp_exchange.LfQueue.Ring.{LfQueue, nothing, popped, underflow, push, pop, size}
use llcpp_exchange.LfQueue.Fifo.{
  IsValid, contents, length-contents, push-Pushed, push-full, pop-Popped, pop-empty,
}

-- A call of the producer, or of the consumer.
pub data Step (A : Type 0) : Type 0 where
  pushes : A → Step A
  pops : Step A

module _ {A : Type 0} where
  -- A bounded list with the same calls: the elements read so far are the first part of the result, and
  -- `none` is an overflow.
  abbrev note : Option A → Option (List (Option A) × List A) → Option (List (Option A) × List A)
  note a none = none
  note a (some (seen, xs)) = some (a ∷ seen, xs)

  abbrev pub list_steps :
      (capacity : ℕ) → List (Step A) → List A → Option (List (Option A) × List A)
  list_steps c [] xs = some ([], xs)
  list_steps c (pushes a ∷ more) xs =
      let rest = list_steps c more (xs ++ (a ∷ [])) in if ltb (length xs + 1) c then rest else none
  list_steps c (pops ∷ more) [] = note none (list_steps c more [])
  list_steps c (pops ∷ more) (x ∷ xs) = note (some x) (list_steps c more xs)

  abbrev noted :
      Option A → Option (List (Option A) × LfQueue A) → Option (List (Option A) × LfQueue A)
  noted a none = none
  noted a (some (seen, q)) = some (a ∷ seen, q)

  -- The calls on the queue. `none` is a FATAL exit, of `updateWriteIndex` or of `updateReadIndex`.
  unfoldable pub run_steps : List (Step A) → LfQueue A → Option (List (Option A) × LfQueue A)
  unfolding push pop
  run_steps [] q = some ([], q)
  run_steps (pushes a ∷ more) q = elim (push a q) [ none ↦ none | some q' ↦ run_steps more q' ]
  run_steps (pops ∷ more) q = elim (pop q) [
    | nothing q' ↦ noted none (run_steps more q')
    | popped a q' ↦ noted (some a) (run_steps more q')
    | underflow ↦ none
  ]

  -- Both overflow, or both were handed the same elements, the queue holds the list, and `size` without
  -- a step between its two loads is the length of the list.
  abbrev pub Agree :
      Option (List (Option A) × LfQueue A) → Option (List (Option A) × List A) → Type 0
  Agree none none = Unit
  Agree (some (seen, q)) (some (told, xs)) =
      (seen ≡ told) × IsValid q × (contents q ≡ xs) × (size q q ≡ length xs)
  Agree _ _ = ⊥

  Agree-note :
      (a : Option A) (r : Option (List (Option A) × LfQueue A))
      (l : Option (List (Option A) × List A))
      → Agree r l
      → Agree (noted a r) (note a l)
  Agree-note a none none h = tt
  Agree-note a none (some l) h = absurd h
  Agree-note a (some r) none h = absurd h
  Agree-note a (some (seen, q)) (some (told, xs)) h = (ap (λ s. a ∷ s) h.0, h.1, h.2, h.3)

  run_steps_from :
      (steps : List (Step A)) (q : LfQueue A) (xs : List A)
      → IsValid q
      → contents q ≡ xs
      → Agree (run_steps steps q) (list_steps q.capacity steps xs)
  unfolding run_steps size
  run_steps_from [] q xs v e = (refl, v, e, sym (length-contents q) ∙ ap length e)
  run_steps_from (pushes a ∷ more) q xs v e =
      let long : length (contents q) ≡ length xs = ap length e in
      elim (Bool-cases (ltb (length xs + 1) q.capacity)) [
        | inl room ↦
            let (q', done, v', same, holds) = push-Pushed a q v (ground arith) in
            let ih =
              run_steps_from more q' (xs ++ (a ∷ [])) v' (holds ∙ ap (λ l. l ++ (a ∷ [])) e) in
            rw (room, done, run_steps)
              (subst (λ c. Agree (run_steps more q') (list_steps c more (xs ++ (a ∷ [])))) same ih)
        | inr full ↦
            let short = length-contents q in
            let exact : length (contents q) + 1 ≡ q.capacity = ground (arith, v.read, v.write) in
            rw (full, push-full a q v exact, run_steps) tt
      ]
  run_steps_from (pops ∷ more) q [] v e =
      let (q', done, v', same, holds) = pop-empty q v e in
      let ih = run_steps_from more q' [] v' holds in
      rw (done, run_steps)
        (Agree-note none (run_steps more q') (list_steps q.capacity more [])
          (subst (λ c. Agree (run_steps more q') (list_steps c more [])) same ih))
  run_steps_from (pops ∷ more) q (x ∷ xs) v e =
      let (q', done, v', same, holds) = pop-Popped x xs q v e in
      let ih = run_steps_from more q' xs v' holds in
      rw (done, run_steps)
        (Agree-note (some x) (run_steps more q') (list_steps q.capacity more xs)
          (subst (λ c. Agree (run_steps more q') (list_steps c more xs)) same ih))

  -- Whatever calls the two threads make on a valid queue, in any order, each read hands out what it
  -- does on a list with room for one element less than the capacity, and nothing when the list is
  -- empty; the FATAL exit is reached just when the list overflows. After them the queue is valid, its
  -- elements are the list, and `size` with no call between its two loads is the length of the list.
  pub run_steps-Agree :
      (steps : List (Step A)) (q : LfQueue A)
      → IsValid q
      → Agree (run_steps steps q) (list_steps q.capacity steps (contents q))
  run_steps-Agree steps q v = run_steps_from steps q (contents q) v refl

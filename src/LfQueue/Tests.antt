-- ===== src/LfQueue/Tests.antt =====
-- The theorems of the queue at four slots, whose indices have wrapped around.
use llcpp_exchange.Prelude.{ℕ, ◌+◌, ◌≡◌, refl, none, some, List, [], ◌∷◌, ◌++◌, arith}
use llcpp_exchange.LfQueue.Ring.{LfQueue, nothing, popped, push, pop}
use llcpp_exchange.LfQueue.Steps.{Step, pushes, pops, list_steps, run_steps, Agree, run_steps-Agree}
use llcpp_exchange.LfQueue.Fifo.{IsValid, contents, push-Pushed, push-full, pop-empty, pop-Popped}

-- Two elements, in slots 3 and 0; both cached indices lag behind.
abbrev wrapped : LfQueue ℕ
wrapped = record {
  store = λ i. i + 10;
  capacity = 4;
  next_write_index = 1;
  cached_read_index = 2;
  next_read_index = 3;
  cached_write_index = 3;
}

wrapped-IsValid : IsValid wrapped
wrapped-IsValid = record {
  two = omega arith;
  write = omega arith;
  read = omega arith;
  cached_read = omega arith;
  cached_write = omega arith;
  producer = omega arith;
  consumer = omega arith;
}

push-Pushed_example :
    (q' : LfQueue ℕ) × (push 7 wrapped ≡ some q')
    × IsValid q'
    × (q'.capacity ≡ 4)
    × (contents q' ≡ contents wrapped ++ (7 ∷ []))
push-Pushed_example = push-Pushed 7 wrapped wrapped-IsValid (omega arith)

pop-Popped_example :
    (q' : LfQueue ℕ) × (pop wrapped ≡ popped 13 q')
    × IsValid q'
    × (q'.capacity ≡ 4)
    × (contents q' ≡ 10 ∷ [])
pop-Popped_example = pop-Popped 13 (10 ∷ []) wrapped wrapped-IsValid refl

-- Three elements, in slots 3, 0 and 1.
abbrev full : LfQueue ℕ
full = record wrapped { next_write_index = 2; cached_read_index = 3 }

full-IsValid : IsValid full
full-IsValid = record {
  two = omega arith;
  write = omega arith;
  read = omega arith;
  cached_read = omega arith;
  cached_write = omega arith;
  producer = omega arith;
  consumer = omega arith;
}

push-full_example : push 7 full ≡ none
push-full_example = push-full 7 full full-IsValid refl

abbrev empty : LfQueue ℕ
empty = record wrapped { next_read_index = 1; cached_write_index = 1 }

empty-IsValid : IsValid empty
empty-IsValid = record {
  two = omega arith;
  write = omega arith;
  read = omega arith;
  cached_read = omega arith;
  cached_write = omega arith;
  producer = omega arith;
  consumer = omega arith;
}

pop-empty_example :
    (q' : LfQueue ℕ) × (pop empty ≡ nothing q')
    × IsValid q'
    × (q'.capacity ≡ 4)
    × (contents q' ≡ [])
pop-empty_example = pop-empty empty empty-IsValid refl

-- One element is pushed and read, and then nothing more.
abbrev steps : List (Step ℕ)
steps = pushes 7 ∷ pops ∷ pops ∷ pops ∷ pushes 8 ∷ []

run_steps_example : Agree (run_steps steps wrapped) (list_steps 4 steps (contents wrapped))
run_steps_example = run_steps-Agree steps wrapped wrapped-IsValid

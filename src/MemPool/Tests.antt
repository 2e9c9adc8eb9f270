-- ===== src/MemPool/Tests.antt =====
-- The theorems of the pools at pools of three blocks and of one.
use llcpp_exchange.Prelude.{ℕ, ◌%◌, ◌+◌, ◌≡◌, refl, true, ◌==◌, none, some, arith, put, ==_ne}
use llcpp_exchange.MemPool.Pool.{MemPool, allocate, deallocate, IsValid}
use llcpp_exchange.MemPool.Laws.{
  Allocated, allocate-Allocated, deallocate-IsValid, double_deallocate,
}
use llcpp_exchange.MemPool.Opt.{OptMemPool, unfinished, opt_allocate, opt_allocate-last}

-- Blocks 0 and 1 of three are taken, and the search begins at block 1.
abbrev one_left : MemPool ℕ
one_left = record {
  size = 3;
  object = λ i. i;
  is_free = λ i. i == 2;
  next_free_index = 1;
  free_count = 1;
}

one_left-IsValid : IsValid one_left
one_left-IsValid = record { counted = refl; index = omega arith }

allocate-Allocated_example :
    (i : ℕ) × (q : MemPool ℕ) × (allocate 7 one_left ≡ some (i, q)) × Allocated 7 one_left i q
allocate-Allocated_example = allocate-Allocated 7 one_left one_left-IsValid (omega arith)

deallocate-IsValid_example :
    (q : MemPool ℕ) × (deallocate 1 one_left ≡ some q)
    × IsValid q
    × (q.is_free 1 ≡ true)
    × (q.free_count ≡ 1 + 1)
deallocate-IsValid_example = deallocate-IsValid 1 one_left one_left-IsValid (omega arith) refl

abbrev given_back : MemPool ℕ
given_back = record one_left { is_free = put one_left.is_free 1 true; free_count = 2 }

double_deallocate_example : deallocate 1 given_back ≡ none
unfolding deallocate
double_deallocate_example = double_deallocate 1 one_left given_back refl

-- Block 1 is the last free one of two.
abbrev two : OptMemPool ℕ
two = record { size = 2; object = λ i. i; is_free = λ i. i == 1; next_free_index = 1 }

opt_allocate-last_example : opt_allocate 1000 7 two ≡ unfinished ((1 + 1000) % 2)
opt_allocate-last_example = opt_allocate-last 1000 7 two (omega arith) refl (λ j h. ==_ne j 1 h)

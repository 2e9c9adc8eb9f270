-- ===== src/MemPool/Pool.antt =====
-- MemPool<T> of mem_pool.h. A block is its index in `store`; the vector is its size with a function.
use llcpp_exchange.Prelude.{
  ℕ, zero, suc, ◌+◌, ◌-◌, ◌<◌, ◌≡◌, Bool, true, false, not, ◌&&◌, Option, none, some, ltb, ◌==◌,
  if◌then◌else◌, put,
}

pub record MemPool (A : Type 0) : Type 0 where
  pub size : ℕ
  pub object : ℕ → A
  pub is_free : ℕ → Bool
  pub next_free_index : ℕ
  pub free_count : ℕ

abbrev pub new_pool : {A : Type 0} → ℕ → A → MemPool A
new_pool n a = record {
  size = n;
  object = λ i. a;
  is_free = λ i. true;
  next_free_index = 0;
  free_count = n;
}

-- `++next_free_index`, back to 0 at the end of the store.
abbrev pub next_index : ℕ → ℕ → ℕ
next_index size i = if i + 1 == size then 0 else i + 1

-- The loop of `allocate`. `none` means that the rounds ran out.
unfoldable pub find_free : ℕ → (size : ℕ) → (ℕ → Bool) → ℕ → Option ℕ
find_free zero size free i = none
find_free (suc rounds) size free i = elim (free i) [
  | true ↦ some i
  | false ↦ find_free rounds size free (next_index size i)
]

-- `none` is the FATAL exit of an exhausted pool, or a loop of more rounds than the store has blocks.
unfoldable pub allocate : {A : Type 0} → A → MemPool A → Option (ℕ × MemPool A)
unfolding find_free
allocate a p =
    if ltb 0 p.free_count
    then (elim (find_free p.size p.size p.is_free p.next_free_index) [
      | none ↦ none
      | some i ↦ some (
        i,
        record p {
          object = put p.object i a;
          is_free = put p.is_free i false;
          next_free_index = i;
          free_count = p.free_count - 1;
        },
      )
    ])
    else none

-- `none` is the FATAL exit for a block of another pool or a block that is free.
unfoldable pub deallocate : {A : Type 0} → ℕ → MemPool A → Option (MemPool A)
deallocate i p =
    if ltb i p.size && not (p.is_free i)
    then some (record p { is_free = put p.is_free i true; free_count = p.free_count + 1 })
    else none

abbrev pub count_free : ℕ → (ℕ → Bool) → ℕ
count_free zero free = 0
count_free (suc n) free = (if free n then 1 else 0) + count_free n free

pub record IsValid {A : Type 0} (p : MemPool A) : Type 0 where
  pub counted : p.free_count ≡ count_free p.size p.is_free
  pub index : p.next_free_index < p.size

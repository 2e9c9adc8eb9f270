-- ===== src/MemPool/Laws.antt =====
-- `allocate` finds a free block whenever the count says that there is one, and `deallocate` gives
-- it back.
use llcpp_exchange.Prelude.{
  ℕ, zero, suc, ◌+◌, ◌-◌, ◌≤◌, ◌<◌, ◌≡◌, ◌≢◌, refl, inl, inr, Bool, true, false, none, some, arith,
  ltb, if◌then◌else◌, put, Bool-cases,
}
use llcpp_exchange.MemPool.Pool.{
  MemPool, next_index, find_free, allocate, deallocate, count_free, IsValid,
}

-- Rounds from block `i` to block `j`.
abbrev distance : (size i j : ℕ) → ℕ
distance size i j = if ltb j i then (size - i) + j else j - i

find_free-some :
    (rounds size : ℕ) (free : ℕ → Bool) (i j : ℕ)
    → i < size
    → j < size
    → free j ≡ true
    → distance size i j < rounds
    → (k : ℕ) × (find_free rounds size free i ≡ some k) × (k < size) × (free k ≡ true)
unfolding find_free
find_free-some zero size free i j hi hj fj d = absurd (omega arith)
find_free-some (suc rounds) size free i j hi hj fj d = elim (Bool-cases (free i)) [
  | inl here ↦ (i, rw (here, find_free), hi, here)
  | inr taken ↦
      let (k, e, hk, fk) =
        find_free-some rounds size free (next_index size i) j (ground arith) hj fj (ground arith) in
      (k, rw (taken, find_free) e, hk, fk)
]

some_free : (n : ℕ) (free : ℕ → Bool) → 0 < count_free n free → (j : ℕ) × (j < n) × (free j ≡ true)
some_free zero free h = elim h [ ]
some_free (suc n) free h = elim (Bool-cases (free n)) [
  | inl here ↦ (n, omega arith, here)
  | inr taken ↦ let (j, hj, fj) = some_free n free (ground arith) in (j, omega arith, fj)
]

count_free-put_above :
    (n i : ℕ) (free : ℕ → Bool) (v : Bool) → n ≤ i → count_free n (put free i v) ≡ count_free n free
count_free-put_above zero i free v h = refl
count_free-put_above (suc n) i free v h = ground (arith, count_free-put_above n i free v)

count_free-take :
    (n i : ℕ) (free : ℕ → Bool)
    → i < n
    → free i ≡ true
    → count_free n (put free i false) + 1 ≡ count_free n free
count_free-take zero i free h f = elim h [ ]
count_free-take (suc n) i free h f =
    ground (arith, count_free-take n i free, count_free-put_above n i free false)

count_free-give :
    (n i : ℕ) (free : ℕ → Bool)
    → i < n
    → free i ≡ false
    → count_free n (put free i true) ≡ count_free n free + 1
count_free-give zero i free h f = elim h [ ]
count_free-give (suc n) i free h f =
    ground (arith, count_free-give n i free, count_free-put_above n i free true)

module _ {A : Type 0} where
  -- What `allocate` hands out and leaves behind.
  pub record Allocated (a : A) (p : MemPool A) (i : ℕ) (q : MemPool A) : Type 0 where
    pub valid : IsValid q
    pub inside : i < p.size
    pub was_free : p.is_free i ≡ true
    pub taken : q.is_free i ≡ false
    pub holds : q.object i ≡ a
    pub others : (j : ℕ) → j ≢ i → (q.object j ≡ p.object j) × (q.is_free j ≡ p.is_free j)
    pub count : q.free_count + 1 ≡ p.free_count

  allocate-step :
      (a : A) (p : MemPool A) (i : ℕ)
      → IsValid p
      → 0 < p.free_count
      → find_free p.size p.size p.is_free p.next_free_index ≡ some i
      → i < p.size
      → p.is_free i ≡ true
      → (q : MemPool A) × (allocate a p ≡ some (i, q)) × Allocated a p i q
  unfolding allocate
  allocate-step a p i v some_left e hi fi = (
    record p {
      object = put p.object i a;
      is_free = put p.is_free i false;
      next_free_index = i;
      free_count = p.free_count - 1;
    },
    ground (arith, e),
    record {
      valid = record {
        counted = omega (arith, v.counted, count_free-take p.size i p.is_free hi fi);
        index = hi;
      };
      inside = hi;
      was_free = fi;
      taken = ground arith;
      holds = ground arith;
      others = λ j h. (ground arith, ground arith);
      count = omega arith;
    },
  )

  -- On a valid pool with a block left, `allocate` returns a block that was free, holding the new
  -- object; no other block changes, and the count stays right.
  pub allocate-Allocated :
      (a : A) (p : MemPool A)
      → IsValid p
      → 0 < p.free_count
      → (i : ℕ) × (q : MemPool A) × (allocate a p ≡ some (i, q)) × Allocated a p i q
  allocate-Allocated a p v some_left =
      let (j, hj, fj) = some_free p.size p.is_free (omega (arith, v.counted)) in
      let (i, e, hi, fi) =
        find_free-some p.size p.size p.is_free p.next_free_index j v.index hj fj
          (let h = v.index in ground arith) in
      let (q, e', done) = allocate-step a p i v some_left e hi fi in (i, q, e', done)

  -- A block that was handed out can be given back: the pool is valid again, with one block more.
  pub deallocate-IsValid :
      (i : ℕ) (p : MemPool A)
      → IsValid p
      → i < p.size
      → p.is_free i ≡ false
      → (q : MemPool A) × (deallocate i p ≡ some q)
        × IsValid q
        × (q.is_free i ≡ true)
        × (q.free_count ≡ p.free_count + 1)
  unfolding deallocate
  deallocate-IsValid i p v h f = (
    record p { is_free = put p.is_free i true; free_count = p.free_count + 1 },
    ground (arith, f),
    record {
      counted = omega (arith, v.counted, count_free-give p.size i p.is_free h f);
      index = v.index;
    },
    ground arith,
    refl,
  )

  -- A second `deallocate` of the same block is the FATAL exit.
  pub double_deallocate :
      (i : ℕ) (p q : MemPool A) → deallocate i p ≡ some q → deallocate i q ≡ none
  unfolding deallocate
  double_deallocate i p q e = ground (arith, e)

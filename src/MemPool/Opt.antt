-- ===== src/MemPool/Opt.antt =====
-- OptMemPool<T> of opt_mem_pool.h: `allocate` takes the block at `next_free_index` and looks for
-- the next free one afterwards.
use native.Mathlib.Nat.{add-mod_left, mod-eq_of_lt}
use llcpp_exchange.Prelude.{
  sym, ◌+◌, ◌%◌, ◌<◌, ap, ◌∙◌, ◌==◌, Bool-cases, inl, inr, ℕ, zero, suc, ◌≡◌, ◌≢◌, Bool, true,
  false, arith, if◌then◌else◌, put,
}
use llcpp_exchange.MemPool.Pool.{next_index}

pub record OptMemPool (A : Type 0) : Type 0 where
  pub size : ℕ
  pub object : ℕ → A
  pub is_free : ℕ → Bool
  pub next_free_index : ℕ

-- Where a search is after a number of rounds: ended at a free block, stopped by the assertion, or
-- still at work, at the index given.
pub data Search : Type 0 where
  found : ℕ → Search
  assertion_failed : Search
  searching : ℕ → Search

-- `updateNextFreeIndex` of a debug build, for a number of rounds of its loop. The assertion stands in
-- the branch in which the search is back where it began, and asserts just that.
unfoldable pub update_next_free_index :
    ℕ → (size : ℕ) → (ℕ → Bool) → (initial_free_index : ℕ) → ℕ → Search
update_next_free_index zero size free initial i = searching i
update_next_free_index (suc rounds) size free initial i = elim (free i) [
  | true ↦ found i
  | false ↦
      let next = next_index size i in
      let later = update_next_free_index rounds size free initial next in
      if initial == next then (if initial == next then later else assertion_failed) else later
]

-- A call of `allocate`: it returns, it is FATAL since the block is taken or by the assertion, or it
-- has not returned after the given rounds of its search.
pub data OptOutcome (A : Type 0) : Type 0 where
  returns : ℕ → OptMemPool A → OptOutcome A
  fatal : OptOutcome A
  unfinished : ℕ → OptOutcome A

unfoldable pub opt_allocate : {A : Type 0} → ℕ → A → OptMemPool A → OptOutcome A
unfolding update_next_free_index
opt_allocate rounds a p =
    let i = p.next_free_index in
    let free = put p.is_free i false in
    if p.is_free i
    then (elim (update_next_free_index rounds p.size free i i) [
      | found next ↦
          returns i (record p { object = put p.object i a; is_free = free; next_free_index = next })
      | assertion_failed ↦ fatal
      | searching j ↦ unfinished j
    ])
    else fatal

next_index-mod : (size i n : ℕ) → i < size → (next_index size i + n) % size ≡ (i + suc n) % size
next_index-mod size i n h = elim (Bool-cases (i + 1 == size)) [
  | inl last ↦ rw last (
      let e : i + suc n ≡ size + n = ground arith in
      ap (λ k. k % size) (let z : 0 + n ≡ n = omega arith in z)
      ∙ sym (ap (λ k. k % size) e ∙ add-mod_left size n))
  | inr inner ↦ rw inner (ap (λ k. k % size) (let e : i + 1 + n ≡ i + suc n = omega arith in e))
]

update_next_free_index-searching :
    (rounds size : ℕ) (free : ℕ → Bool) (initial i : ℕ)
    → ((j : ℕ) → free j ≡ false)
    → i < size
    → update_next_free_index rounds size free initial i ≡ searching ((i + rounds) % size)
unfolding update_next_free_index
update_next_free_index-searching zero size free initial i h l =
    ap searching (sym (ap (λ k. k % size) (let e : i + 0 ≡ i = omega arith in e) ∙ mod-eq_of_lt l))
update_next_free_index-searching (suc rounds) size free initial i h l =
    let next = next_index size i in
    let ih = update_next_free_index-searching rounds size free initial next h (ground arith) in
    let same : (next + rounds) % size ≡ (i + suc rounds) % size = next_index-mod size i rounds l in
    ground (arith, h i, ih ∙ ap searching same)

-- When the block to be handed out is the last free one, a call of `allocate` has not returned after
-- any number of rounds of its search, nor has the assertion failed: after that many rounds the search
-- goes on at the block that many places behind, round and round the store.
pub opt_allocate-last :
    {A : Type 0} (rounds : ℕ) (a : A) (p : OptMemPool A)
    → p.next_free_index < p.size
    → p.is_free p.next_free_index ≡ true
    → ((j : ℕ) → j ≢ p.next_free_index → p.is_free j ≡ false)
    → opt_allocate rounds a p ≡ unfinished ((p.next_free_index + rounds) % p.size)
unfolding opt_allocate
opt_allocate-last rounds a p l f h =
    let i = p.next_free_index in
    let free = put p.is_free i false in
    let endless =
      update_next_free_index-searching rounds p.size free i i (λ j. ground (arith, h j)) l in
    ground (arith, endless)

-- ===== src/LfQueue/Ring.antt =====
-- LfQueue<T>. Each call is one step of its thread; the cached copies of the other side's index may
-- lag behind it.
use llcpp_exchange.Prelude.{ℕ, ◌+◌, ◌-◌, Option, none, some, leb, ◌==◌, if◌then◌else◌, put}

pub record LfQueue (A : Type 0) : Type 0 where
  pub store : ℕ → A
  pub capacity : ℕ
  pub next_write_index : ℕ
  pub cached_read_index : ℕ
  pub next_read_index : ℕ
  pub cached_write_index : ℕ

-- What comes of a consumer's step: `nullptr` and the queue with its refreshed cache, the element read,
-- or the ASSERT against underflow.
pub data Popped (A : Type 0) : Type 0 where
  nothing : LfQueue A → Popped A
  popped : A → LfQueue A → Popped A
  underflow : Popped A

-- The index behind `i`, with the compare in place of a modulo.
abbrev pub wrap_around : ℕ → ℕ → ℕ
wrap_around capacity i = if i + 1 == capacity then 0 else i + 1

module _ {A : Type 0} where
  -- `none` is the ASSERT of the constructor.
  unfoldable pub new_queue : ℕ → A → Option (LfQueue A)
  new_queue num_elems a =
      if leb 2 num_elems
      then some (record {
        store = λ i. a;
        capacity = num_elems;
        next_write_index = 0;
        cached_read_index = 0;
        next_read_index = 0;
        cached_write_index = 0;
      })
      else none

  -- `*getNextToWriteTo() = a`
  unfoldable pub write_next : A → LfQueue A → LfQueue A
  write_next a q = record q { store = put q.store q.next_write_index a }

  -- `none` is the FATAL overflow.
  unfoldable pub update_write_index : LfQueue A → Option (LfQueue A)
  update_write_index q =
      let next = wrap_around q.capacity q.next_write_index in
      let cached = if next == q.cached_read_index then q.next_read_index else q.cached_read_index in
      if next == cached
      then none
      else some (record q { next_write_index = next; cached_read_index = cached })

  -- `nullptr` for an empty queue is `none`; the cache is refreshed when it looks empty.
  unfoldable pub get_next_to_read : LfQueue A → Option A × LfQueue A
  get_next_to_read q =
      let read = q.next_read_index in
      let cached =
        if read == q.cached_write_index then q.next_write_index else q.cached_write_index in
      (
        if read == cached then none else some (q.store read),
        record q { cached_write_index = cached },
      )

  -- `none` is the ASSERT against underflow.
  unfoldable pub update_read_index : LfQueue A → Option (LfQueue A)
  update_read_index q =
      let read = q.next_read_index in
      let cached =
        if read == q.cached_write_index then q.next_write_index else q.cached_write_index in
      if read == cached
      then none
      else some
          (record q { next_read_index = wrap_around q.capacity read; cached_write_index = cached })

  -- `size`, with the queue when the write index is loaded and the queue when the read index is:
  -- the other threads may have gone on in between.
  unfoldable pub size : LfQueue A → LfQueue A → ℕ
  size at_write at_read =
      let write = at_write.next_write_index in
      let read = at_read.next_read_index in
      if leb read write then write - read else (at_read.capacity - read) + write

  -- A producer's step and a consumer's.
  unfoldable pub push : A → LfQueue A → Option (LfQueue A)
  unfolding write_next update_write_index
  push a q = update_write_index (write_next a q)

  unfoldable pub pop : LfQueue A → Popped A
  unfolding get_next_to_read update_read_index
  pop q = elim (get_next_to_read q).0 [
    | none ↦ nothing (get_next_to_read q).1
    | some a ↦ elim (update_read_index (get_next_to_read q).1) [
      | none ↦ underflow
      | some q' ↦ popped a q'
    ]
  ]

-- ===== src/LfQueue/Fifo.antt =====
-- The queue is a bounded FIFO: its contents are a list, and one slot stays free.
use llcpp_exchange.Prelude.{
  ℕ, zero, suc, ◌+◌, ◌-◌, ◌≤◌, ◌<◌, ◌≡◌, refl, sym, ◌∙◌, ap, ap₂, none, some, List, [], ◌∷◌, ◌++◌,
  arith, leb, ◌==◌, if◌then◌else◌, put, length, ==_ne, ==_refl,
}
use llcpp_exchange.LfQueue.Ring.{
  LfQueue, nothing, popped, wrap_around, write_next, update_write_index, get_next_to_read,
  update_read_index, push, pop,
}

-- Steps from `i` round to `j`.
abbrev pub ahead : (capacity i j : ℕ) → ℕ
ahead n i j = if leb i j then j - i else (n - i) + j

pub record IsValid {A : Type 0} (q : LfQueue A) : Type 0 where
  pub two : 2 ≤ q.capacity
  pub write : q.next_write_index < q.capacity
  pub read : q.next_read_index < q.capacity
  pub cached_read : q.cached_read_index < q.capacity
  pub cached_write : q.cached_write_index < q.capacity
  -- The producer's copy of the read index is not ahead of it, nor the consumer's of the write index.
  pub producer :
      ahead q.capacity q.cached_read_index q.next_read_index
        + ahead q.capacity q.next_read_index q.next_write_index
      < q.capacity
  pub consumer :
      ahead q.capacity q.next_read_index q.cached_write_index
      ≤ ahead q.capacity q.next_read_index q.next_write_index

module _ {A : Type 0} where
  -- `n` elements from index `i` on.
  abbrev items : (ℕ → A) → (capacity i n : ℕ) → List A
  items f c i zero = []
  items f c i (suc n) = f i ∷ items f c (wrap_around c i) n

  abbrev pub contents : LfQueue A → List A
  contents q =
      items q.store q.capacity q.next_read_index
        (ahead q.capacity q.next_read_index q.next_write_index)

  items-put :
      (f : ℕ → A) (a : A) (c i w n : ℕ)
      → i < c
      → w < c
      → n ≤ ahead c i w
      → items (put f w a) c i n ≡ items f c i n
  items-put f a c i w zero hi hw h = refl
  items-put f a c i w (suc n) hi hw h = ground (arith, items-put f a c (wrap_around c i) w n)

  items-snoc :
      (f : ℕ → A) (c i w n : ℕ)
      → i < c
      → w < c
      → ahead c i w ≡ n
      → items f c i (suc n) ≡ items f c i n ++ (f w ∷ [])
  items-snoc f c i w zero hi hw h = ground arith
  items-snoc f c i w (suc n) hi hw h =
      ap (◌∷◌ (f i)) (items-snoc f c (wrap_around c i) w n (ground arith) hw (ground arith))

  length-items : (f : ℕ → A) (c i n : ℕ) → length (items f c i n) ≡ n
  length-items f c i zero = refl
  length-items f c i (suc n) = ap suc (length-items f c (wrap_around c i) n)

  pub length-contents :
      (q : LfQueue A) → length (contents q) ≡ ahead q.capacity q.next_read_index q.next_write_index
  length-contents q =
      length-items q.store q.capacity q.next_read_index
        (ahead q.capacity q.next_read_index q.next_write_index)

  items-cons :
      (f : ℕ → A) (c i n : ℕ) (a : A) (rest : List A)
      → items f c i n ≡ a ∷ rest
      → (m : ℕ) × (n ≡ suc m) × (f i ≡ a) × (items f c (wrap_around c i) m ≡ rest)
  items-cons f c i zero a rest h = ground arith
  items-cons f c i (suc m) a rest h = (m, refl, cc, cc)

  put-items :
      (a : A) (q : LfQueue A)
      → IsValid q
      → ahead q.capacity q.next_read_index q.next_write_index + 1 < q.capacity
      → items
          (put q.store q.next_write_index a)
          q.capacity
          q.next_read_index
          (ahead q.capacity q.next_read_index (wrap_around q.capacity q.next_write_index))
        ≡ contents q ++ (a ∷ [])
  put-items a q v room =
      let c = q.capacity in
      let r = q.next_read_index in
      let w = q.next_write_index in
      let n = ahead c r w in
      let longer : ahead c r (wrap_around c w) ≡ suc n = ground arith in
      ap (items (put q.store w a) c r) longer
      ∙ items-snoc (put q.store w a) c r w n v.read v.write refl
      ∙ ap₂ (λ xs x. xs ++ (x ∷ [])) (items-put q.store a c r w n v.read v.write (omega arith))
          (rw (==_refl w) refl)

  -- On a valid queue with more than one slot unused, a producer's step returns a valid queue of the
  -- same capacity with the element behind the others.
  pub push-Pushed :
      (a : A) (q : LfQueue A)
      → IsValid q
      → length (contents q) + 1 < q.capacity
      → (q' : LfQueue A) × (push a q ≡ some q')
        × IsValid q'
        × (q'.capacity ≡ q.capacity)
        × (contents q' ≡ contents q ++ (a ∷ []))
  unfolding push write_next update_write_index
  push-Pushed a q v spare =
      let next = wrap_around q.capacity q.next_write_index in
      let cached = if next == q.cached_read_index then q.next_read_index else q.cached_read_index in
      let room : ahead q.capacity q.next_read_index q.next_write_index + 1 < q.capacity =
        omega (arith, length-contents q) in
      (
        record q {
          store = put q.store q.next_write_index a;
          next_write_index = next;
          cached_read_index = cached;
        },
        rw (==_ne next cached (ground arith)) refl,
        record {
          two = v.two;
          write = ground arith;
          read = v.read;
          cached_read = ground arith;
          cached_write = v.cached_write;
          producer = ground arith;
          consumer = ground arith;
        },
        refl,
        put-items a q v room,
      )

  -- On a valid queue with one slot unused, a producer's step is the FATAL exit.
  pub push-full :
      (a : A) (q : LfQueue A) → IsValid q → length (contents q) + 1 ≡ q.capacity → push a q ≡ none
  unfolding push write_next update_write_index
  push-full a q v full = ground (arith, length-contents q)

  -- On a valid queue without elements, a consumer's step is handed no element: it is neither a read
  -- nor the ASSERT against underflow, and leaves a valid queue that is still empty.
  pub pop-empty :
      (q : LfQueue A)
      → IsValid q
      → contents q ≡ []
      → (q' : LfQueue A) × (pop q ≡ nothing q')
        × IsValid q'
        × (q'.capacity ≡ q.capacity)
        × (contents q' ≡ [])
  unfolding pop get_next_to_read update_read_index
  pop-empty q v empty =
      let none_left : ahead q.capacity q.next_read_index q.next_write_index ≡ 0 =
        sym (length-contents q) ∙ ap length empty in
      let r = q.next_read_index in
      let cached = if r == q.cached_write_index then q.next_write_index else q.cached_write_index in
      (
        record q { cached_write_index = cached },
        ground (arith, none_left),
        record {
          two = v.two;
          write = v.write;
          read = v.read;
          cached_read = v.cached_read;
          cached_write = ground arith;
          producer = v.producer;
          consumer = ground arith;
        },
        refl,
        empty,
      )

  -- On a valid queue with elements, a consumer's step returns the first of them and a valid queue of
  -- the same capacity with the others.
  pub pop-Popped :
      (a : A) (rest : List A) (q : LfQueue A)
      → IsValid q
      → contents q ≡ a ∷ rest
      → (q' : LfQueue A) × (pop q ≡ popped a q')
        × IsValid q'
        × (q'.capacity ≡ q.capacity)
        × (contents q' ≡ rest)
  unfolding pop get_next_to_read update_read_index
  pop-Popped a rest q v some_items =
      let (m, longer, head, tail) =
        items-cons q.store q.capacity q.next_read_index
          (ahead q.capacity q.next_read_index q.next_write_index) a rest some_items in
      let r = q.next_read_index in
      let next = wrap_around q.capacity r in
      let cached = if r == q.cached_write_index then q.next_write_index else q.cached_write_index in
      let busy = ==_ne r cached (ground arith) in
      let shorter : ahead q.capacity next q.next_write_index ≡ m = ground arith in
      (
        record q { next_read_index = next; cached_write_index = cached },
        ground (arith, busy, head),
        record {
          two = v.two;
          write = v.write;
          read = ground arith;
          cached_read = v.cached_read;
          cached_write = ground arith;
          producer = ground arith;
          consumer = ground arith;
        },
        refl,
        ap (items q.store q.capacity next) shorter ∙ tail,
      )

-- ===== src/MarketData/Spans.antt =====
-- Buffers that hold messages of a stream, and what a drain publishes of it.
use llcpp_exchange.Prelude.{
  ℕ, zero, suc, ◌+◌, ◌-◌, ◌^◌, ◌≤◌, ◌<◌, ◌≡◌, ◌≢◌, refl, ap, ap₂, ◌∙◌, List, [], ◌∷◌, ◌++◌, arith,
  All,
}
use native.Mathlib.Decide.{dec_lt, ℕ_discrete}
use llcpp_exchange.Protocol.{MeMarketUpdate}
use llcpp_exchange.Wire.{next_seq}
use llcpp_exchange.MarketData.Buffer.{
  Entry, Drained, insert, drain_contiguous, replay_buffered, publish_first,
}

-- The last number, which no message carries: a 64-bit counter does not get there.
abbrev pub max_seq : ℕ
max_seq = 2 ^ 64 - 1

-- The updates of a stream from a number on.
abbrev pub span : (ℕ → MeMarketUpdate) → ℕ → ℕ → List MeMarketUpdate
span f first zero = []
span f first (suc k) = f first ∷ span f (suc first) k

pub span_snoc :
    (f : ℕ → MeMarketUpdate) (first k : ℕ)
    → span f first k ++ (f (first + k) ∷ []) ≡ span f first (suc k)
span_snoc f first zero = ap (λ i. f i ∷ []) (omega arith)
span_snoc f first (suc k) =
    ap (λ l. f first ∷ l)
      (ap (λ i. span f (suc first) k ++ (f i ∷ [])) (omega arith) ∙ span_snoc f (suc first) k)

pub span-append :
    (f : ℕ → MeMarketUpdate) (first k j : ℕ)
    → span f first k ++ span f (first + k) j ≡ span f first (k + j)
span-append f first zero j =
    let e : first + zero ≡ first = omega arith in let e' : zero + j ≡ j = omega arith in cc
span-append f first (suc k) j =
    let e : suc k + j ≡ suc (k + j) = omega arith in
    let e' : first + suc k ≡ suc first + k = omega arith in
    rw (e, e') (ap (λ l. f first ∷ l) (span-append f (suc first) k j))

-- An entry of the stream under its number.
abbrev pub IsKept : (ℕ → MeMarketUpdate) → Entry → Type 0
IsKept f e = (e.update ≡ f e.seq) × (e.seq < max_seq)

pub insert-All :
    (P : Entry → Type 0) (n : ℕ) (u : MeMarketUpdate) (es : List Entry)
    → P (record { seq = n; update = u })
    → All P es
    → All P (insert n u es)
unfolding insert
insert-All P n u [] p a = (p, tt)
insert-All P n u (e ∷ es) p a = ground (arith, insert-All P n u es p a.1)

pub drain_next :
    (n : ℕ) (e : Entry) (es : List Entry)
    → e.seq ≡ n
    → drain_contiguous n (e ∷ es) ≡ publish_first e.update (drain_contiguous (next_seq n) es)
unfolding drain_contiguous
drain_next n e es h = ground arith

pub drain_stop :
    (n : ℕ) (e : Entry) (es : List Entry)
    → e.seq ≢ n
    → drain_contiguous n (e ∷ es) ≡ record { published = []; next_exp = n; left = e ∷ es }
unfolding drain_contiguous
drain_stop n e es h = ground arith

pub replay_skip :
    (n : ℕ) (e : Entry) (es : List Entry)
    → e.seq < n
    → replay_buffered n (e ∷ es) ≡ replay_buffered n es
unfolding replay_buffered
replay_skip n e es h = ground arith

pub replay_next :
    (n : ℕ) (e : Entry) (es : List Entry)
    → e.seq ≡ n
    → replay_buffered n (e ∷ es) ≡ publish_first e.update (replay_buffered (next_seq n) es)
unfolding replay_buffered
replay_next n e es h = ground arith

pub replay_stop :
    (n : ℕ) (e : Entry) (es : List Entry)
    → n < e.seq
    → replay_buffered n (e ∷ es) ≡ record { published = []; next_exp = n; left = e ∷ es }
unfolding replay_buffered
replay_stop n e es h = ground arith

-- A drain publishes the stream from the number expected on, without a gap.
pub record Spanned (f : ℕ → MeMarketUpdate) (n : ℕ) (d : Drained) : Type 0 where
  pub count : ℕ
  pub published : d.published ≡ span f n count
  pub next_exp : d.next_exp ≡ n + count
  pub bound : d.next_exp ≤ max_seq
  pub left : All (IsKept f) d.left

stopped :
    (f : ℕ → MeMarketUpdate) (n : ℕ) (es : List Entry)
    → n ≤ max_seq
    → All (IsKept f) es
    → Spanned f n (record { published = []; next_exp = n; left = es })
stopped f n es h a = record {
  count = 0;
  published = refl;
  next_exp = omega arith;
  bound = h;
  left = a;
}

advanced :
    (f : ℕ → MeMarketUpdate) (n : ℕ) (u : MeMarketUpdate) (d : Drained)
    → u ≡ f n
    → Spanned f (suc n) d
    → Spanned f n (publish_first u d)
advanced f n u d e s = record {
  count = suc s.count;
  published = ap₂ (λ x l. x ∷ l) e s.published;
  next_exp = s.next_exp ∙ omega arith;
  bound = s.bound;
  left = s.left;
}

pub next_seq-suc : (n : ℕ) → n < max_seq → next_seq n ≡ suc n
next_seq-suc n h = omega arith

pub drain_contiguous-Spanned :
    (f : ℕ → MeMarketUpdate) (n : ℕ) (es : List Entry)
    → n ≤ max_seq
    → All (IsKept f) es
    → Spanned f n (drain_contiguous n es)
unfolding drain_contiguous
drain_contiguous-Spanned f n [] h a = stopped f n [] h a
drain_contiguous-Spanned f n (e ∷ es) h (k, a) = elim (ℕ_discrete e.seq n) [
  | Dec.yes q ↦
      rw (drain_next n e es q, next_seq-suc n (omega (arith, k.1)))
        (advanced f n e.update (drain_contiguous (suc n) es) (k.0 ∙ ap f q)
          (drain_contiguous-Spanned f (suc n) es (omega (arith, k.1)) a))
  | Dec.no q ↦ rw (drain_stop n e es q) (stopped f n (e ∷ es) h (k, a))
]

pub replay_buffered-Spanned :
    (f : ℕ → MeMarketUpdate) (n : ℕ) (es : List Entry)
    → n ≤ max_seq
    → All (IsKept f) es
    → Spanned f n (replay_buffered n es)
unfolding replay_buffered
replay_buffered-Spanned f n [] h a = stopped f n [] h a
replay_buffered-Spanned f n (e ∷ es) h (k, a) = elim (ℕ_discrete e.seq n) [
  | Dec.yes q ↦
      rw (replay_next n e es q, next_seq-suc n (omega (arith, k.1)))
        (advanced f n e.update (replay_buffered (suc n) es) (k.0 ∙ ap f q)
          (replay_buffered-Spanned f (suc n) es (omega (arith, k.1)) a))
  | Dec.no q ↦ elim (dec_lt e.seq n) [
    | Dec.yes l ↦ rw (replay_skip n e es l) (replay_buffered-Spanned f n es h a)
    | Dec.no l ↦ rw (replay_stop n e es (omega arith)) (stopped f n (e ∷ es) h (k, a))
  ]
]

-- ===== src/MarketData/Replayed.antt =====
-- What `finishRecovery` takes out of the buffer, by the numbers alone.
use llcpp_exchange.Prelude.{
  ℕ, ◌≤◌, ◌<◌, ◌≡◌, refl, subst, Option, none, some, List, [], ◌∷◌, arith, ◌==◌, if◌then◌else◌, All,
}
use native.Mathlib.Decide.{dec_lt, ℕ_discrete}
use llcpp_exchange.Protocol.{MeMarketUpdate}
use llcpp_exchange.Wire.{next_seq}
use llcpp_exchange.MarketData.Buffer.{Entry, Drained, replay_buffered}
use llcpp_exchange.MarketData.Spans.{max_seq, replay_next, replay_skip, replay_stop, next_seq-suc}
use llcpp_exchange.MarketData.Ahead.{InOrder, Bounded, All-map}

-- The update that the buffer holds under a number.
abbrev pub held : ℕ → List Entry → Option MeMarketUpdate
held n [] = none
held n (e ∷ es) = if e.seq == n then some e.update else held n es

-- The updates held under the numbers from `n` on, one after the other, up to the first number `k`
-- that is missing.
abbrev pub RunsFrom : List Entry → ℕ → List MeMarketUpdate → ℕ → Type 0
RunsFrom es n [] k = (n ≡ k) × (held k es ≡ none)
RunsFrom es n (u ∷ us) k = (held n es ≡ some u) × RunsFrom es (next_seq n) us k

held-below : (n : ℕ) (es : List Entry) → All (λ x. n < x.seq) es → held n es ≡ none
held-below n [] a = refl
held-below n (e ∷ es) a = ground (arith, held-below n es a.1)

held-Bounded :
    (n : ℕ) (u : MeMarketUpdate) (es : List Entry) → Bounded es → held n es ≡ some u → n < max_seq
held-Bounded n u [] b h = absurd (ground arith)
held-Bounded n u (e ∷ es) b h = elim (ℕ_discrete e.seq n) [
  | Dec.yes q ↦ omega (arith, b.0)
  | Dec.no q ↦ held-Bounded n u es b.1 (ground arith)
]

RunsFrom-more :
    (e : Entry) (es : List Entry) (n : ℕ) (us : List MeMarketUpdate) (k : ℕ)
    → Bounded es
    → e.seq < n
    → RunsFrom es n us k
    → RunsFrom (e ∷ es) n us k
RunsFrom-more e es n [] k b l r = let q = r.0 in (q, ground (arith, r.1))
RunsFrom-more e es n (u ∷ us) k b l r =
    let next = next_seq-suc n (held-Bounded n u es b r.0) in
    (ground (arith, r.0), RunsFrom-more e es (next_seq n) us k b (omega arith) r.1)

pub replay_buffered-RunsFrom :
    (n : ℕ) (es : List Entry)
    → InOrder es
    → Bounded es
    → RunsFrom es n (replay_buffered n es).published (replay_buffered n es).next_exp
unfolding replay_buffered
replay_buffered-RunsFrom n [] o b = (refl, refl)
replay_buffered-RunsFrom n (e ∷ es) o b = elim (ℕ_discrete e.seq n) [
  | Dec.yes q ↦
      let next = next_seq-suc n (omega (arith, b.0)) in
      let ih = replay_buffered-RunsFrom (next_seq n) es o.1 b.1 in
      rw (replay_next n e es q)
        (ground arith, RunsFrom-more e es (next_seq n) _ _ b.1 (omega arith) ih)
  | Dec.no q ↦ elim (dec_lt e.seq n) [
    | Dec.yes l ↦
        rw (replay_skip n e es l)
          (RunsFrom-more e es n _ _ b.1 l (replay_buffered-RunsFrom n es o.1 b.1))
    | Dec.no l ↦
        let a : All (λ x. n < x.seq) (e ∷ es) = (
          omega arith,
          All-map {P = λ x. e.seq < x.seq} {Q = λ x. n < x.seq} es (λ x h. omega arith) o.0,
        ) in
        rw (replay_stop n e es (omega arith)) (refl, held-below n (e ∷ es) a)
  ]
]

-- What comes later than the number expected stays in the buffer.
pub replay_buffered-held :
    (n m : ℕ) (es : List Entry)
    → n ≤ max_seq
    → Bounded es
    → (replay_buffered n es).next_exp ≤ m
    → n ≤ (replay_buffered n es).next_exp × (held m (replay_buffered n es).left ≡ held m es)
unfolding replay_buffered
replay_buffered-held n m [] l b h = (omega arith, refl)
replay_buffered-held n m (e ∷ es) l b h = elim (ℕ_discrete e.seq n) [
  | Dec.yes q ↦
      let next = next_seq-suc n (omega (arith, b.0)) in
      let below = b.0 in
      let same = replay_next n e es q in
      let later : (replay_buffered (next_seq n) es).next_exp ≤ m =
        subst (λ (d : Drained). d.next_exp ≤ m) same h in
      let (up, ih) = replay_buffered-held (next_seq n) m es (omega arith) b.1 later in
      rw same (omega arith, ground (arith, ih))
  | Dec.no q ↦ elim (dec_lt e.seq n) [
    | Dec.yes k ↦
        let same = replay_skip n e es k in
        let later : (replay_buffered n es).next_exp ≤ m =
          subst (λ (d : Drained). d.next_exp ≤ m) same h in
        let (up, ih) = replay_buffered-held n m es l b.1 later in rw same (up, ground (arith, ih))
    | Dec.no k ↦ rw (replay_stop n e es (omega arith)) (omega arith, refl)
  ]
]

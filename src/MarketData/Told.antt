-- ===== src/MarketData/Told.antt =====
-- What the book downstream has been told, whatever datagrams are lost, repeated or reordered.
use llcpp_exchange.Prelude.{
  ℕ, suc, ◌+◌, ◌≤◌, ◌<◌, ◌≡◌, ◌⊎◌, refl, ap, ap₂, subst, ◌∙◌, true, false, List, [], ◌∷◌, ◌++◌,
  arith, All, Bool-cases, inl, inr,
}
use mathlib.Core.List.{append_assoc, append-nil}
use native.Mathlib.Decide.{dec_lt, ℕ_discrete}
use llcpp_exchange.Protocol.{MarketUpdateType, MeMarketUpdate}
use llcpp_exchange.Wire.{MdpMarketUpdate, next_seq}
use llcpp_exchange.MarketData.Buffer.{Drained, drain_contiguous}
use llcpp_exchange.MarketData.Consumer.{
  MarketDataConsumer, StreamMessage, incremental, snapshot, buffered, start_recovery,
  process_incremental,
}
use llcpp_exchange.MarketData.Spans.{
  max_seq, span, span-append, IsKept, insert-All, Spanned, drain_contiguous-Spanned, next_seq-suc,
}

-- The updates of the two streams, by their numbers.
module _ (inc snap : ℕ → MeMarketUpdate) where
  -- A message that was sent on its stream, and a snapshot's end that names a number of the other.
  abbrev pub IsSent : StreamMessage → Type 0
  IsSent (incremental m) = (m.me_market_update ≡ inc m.seq_num) × (m.seq_num < max_seq)
  IsSent (snapshot m) =
      (m.me_market_update ≡ snap m.seq_num)
      × (m.seq_num < max_seq)
      × (m.me_market_update.type ≡ MarketUpdateType.snapshot_end
          → m.me_market_update.order_id < max_seq)

  -- The last thing published is the CLEAR with the number seen.
  pub record Anchored (seen : ℕ) (out : List MeMarketUpdate) : Type 0 where
    pub before : List MeMarketUpdate
    pub published : out ≡ before ++ (snap seen ∷ [])
    pub clear : (snap seen).type ≡ MarketUpdateType.clear
    pub bound : seen < max_seq

  -- The last things published are the CLEAR numbered `start` of a cycle and all orders of that cycle
  -- up to the number seen.
  pub record Partial (seen : ℕ) (out : List MeMarketUpdate) : Type 0 where
    pub before : List MeMarketUpdate
    pub start : ℕ
    pub count : ℕ
    pub published : out ≡ before ++ (snap start ∷ span snap (start + 2) count)
    pub at : seen ≡ start + 1 + count
    pub bound : seen < max_seq
    pub clear : (snap start).type ≡ MarketUpdateType.clear
    pub opening : (snap (start + 1)).type ≡ MarketUpdateType.snapshot_start
    pub orders : All (λ u. u.type ≡ MarketUpdateType.add) (span snap (start + 2) count)

  -- A whole cycle, whose end says that the stream goes on at `b`.
  pub record Complete (b : ℕ) (out : List MeMarketUpdate) : Type 0 where
    pub seen : ℕ
    pub image : Partial seen out
    pub closing : (snap (suc seen)).type ≡ MarketUpdateType.snapshot_end
    pub resumes : b ≡ suc (snap (suc seen)).order_id

  -- Nothing or a whole cycle, and then the other stream from there, without a gap, up to `n`.
  pub record Current (n : ℕ) (out : List MeMarketUpdate) : Type 0 where
    pub base : List MeMarketUpdate
    pub first : ℕ
    pub count : ℕ
    pub published : out ≡ base ++ span inc first count
    pub next : n ≡ first + count
    pub origin : ((base ≡ []) × (first ≡ 1)) ⊎ Complete first base

  pub record Told (c : MarketDataConsumer) (out : List MeMarketUpdate) : Type 0 where
    pub kept : All (IsKept inc) c.out_of_order_buf
    pub bound : c.next_exp_inc_seq_num ≤ max_seq
    pub steady : c.in_recovery ≡ false → Current c.next_exp_inc_seq_num out
    pub calm : c.in_recovery ≡ false → (c.snapshot_armed ≡ false) × (c.in_snapshot ≡ false)
    pub armed : c.snapshot_armed ≡ true → Anchored c.snapshot_last_seen out
    pub single : c.in_snapshot ≡ true → c.snapshot_armed ≡ false
    pub inside : c.in_snapshot ≡ true → Partial c.snapshot_last_seen out

  Current-append :
      (n k : ℕ) (out us : List MeMarketUpdate)
      → us ≡ span inc n k
      → Current n out
      → Current (n + k) (out ++ us)
  Current-append n k out us e t = record {
    base = t.base;
    first = t.first;
    count = t.count + k;
    published =
        ap₂ (λ x y. x ++ y) t.published (e ∙ ap (λ i. span inc i k) t.next)
        ∙ (append_assoc t.base (span inc t.first t.count) (span inc (t.first + t.count) k)
            ∙ ap (λ l. t.base ++ l) (span-append inc t.first t.count k));
    next = let h = t.next in omega arith;
    origin = t.origin;
  }

  -- A step that publishes nothing.
  pub quiet :
      (r : List MeMarketUpdate × MarketDataConsumer) (c : MarketDataConsumer)
      (out : List MeMarketUpdate)
      → r ≡ ([], c)
      → Told c out
      → Told r.1 (out ++ r.0)
  quiet r c out e t = rw (e, append-nil out) t

  buffered-Told :
      (m : MdpMarketUpdate) (c : MarketDataConsumer) (out : List MeMarketUpdate)
      → IsSent (incremental m)
      → c.in_recovery ≡ true
      → Told c out
      → Told (buffered m c) out
  buffered-Told m c out s r t = record {
    kept = insert-All (IsKept inc) m.seq_num m.me_market_update c.out_of_order_buf s t.kept;
    bound = t.bound;
    steady = λ f. absurd (ground arith);
    calm = λ f. absurd (ground arith);
    armed = t.armed;
    single = t.single;
    inside = t.inside;
  }

  gap-Told :
      (m : MdpMarketUpdate) (c : MarketDataConsumer) (out : List MeMarketUpdate)
      → IsSent (incremental m)
      → c.in_recovery ≡ false
      → Told c out
      → Told (start_recovery (buffered m c)) out
  gap-Told m c out s r t = rw r (record {
    kept = insert-All (IsKept inc) m.seq_num m.me_market_update c.out_of_order_buf s t.kept;
    bound = t.bound;
    steady = λ f. absurd (ground arith);
    calm = λ f. absurd (ground arith);
    armed = λ f. absurd (ground arith);
    single = λ f. refl;
    inside = λ f. absurd (ground arith);
  })

  abbrev drained : MarketDataConsumer → Drained
  drained c = drain_contiguous (next_seq c.next_exp_inc_seq_num) c.out_of_order_buf

  next-Told :
      (m : MdpMarketUpdate) (c : MarketDataConsumer) (out : List MeMarketUpdate)
      → IsSent (incremental m)
      → m.seq_num ≡ c.next_exp_inc_seq_num
      → c.in_recovery ≡ false
      → Told c out
      → Told
          (record c {
            next_exp_inc_seq_num = (drained c).next_exp;
            out_of_order_buf = (drained c).left;
          })
          (out ++ (m.me_market_update ∷ (drained c).published))
  next-Told m c out (u, b) e r t =
      let n = c.next_exp_inc_seq_num in
      let q : next_seq n ≡ suc n = next_seq-suc n (omega arith) in
      let d : Spanned inc (suc n) (drained c) =
        rw q (drain_contiguous-Spanned inc (suc n) c.out_of_order_buf (omega arith) t.kept) in
      let all : m.me_market_update ∷ (drained c).published ≡ span inc n (suc d.count) =
        ap₂ (λ x l. x ∷ l) (u ∙ ap inc e) d.published in
      let reached : n + suc d.count ≡ (drained c).next_exp = let h = d.next_exp in omega arith in
      record {
        kept = d.left;
        bound = d.bound;
        steady = λ f.
            subst (λ i. Current i (out ++ (m.me_market_update ∷ (drained c).published))) reached
              (Current-append n (suc d.count) out (m.me_market_update ∷ (drained c).published) all
                (t.steady r));
        calm = t.calm;
        armed = λ f. absurd (let h = t.calm r in ground arith);
        single = t.single;
        inside = λ f. absurd (let h = t.calm r in ground arith);
      }

  pub process_incremental-Told :
      (m : MdpMarketUpdate) (c : MarketDataConsumer) (out : List MeMarketUpdate)
      → IsSent (incremental m)
      → Told c out
      → Told (process_incremental m c).1 (out ++ (process_incremental m c).0)
  unfolding process_incremental
  process_incremental-Told m c out s t = elim (Bool-cases c.in_recovery) [
    | inl r ↦
        quiet (process_incremental m c) (buffered m c) out (ground arith)
          (buffered-Told m c out s r t)
    | inr r ↦ elim (ℕ_discrete m.seq_num c.next_exp_inc_seq_num) [
      | Dec.yes e ↦
          let q : process_incremental m c ≡ (
            m.me_market_update ∷ (drained c).published,
            record c {
              next_exp_inc_seq_num = (drained c).next_exp;
              out_of_order_buf = (drained c).left;
            },
          ) =
            ground arith in
          rw q (next-Told m c out s e r t)
      | Dec.no ne ↦ elim (dec_lt m.seq_num c.next_exp_inc_seq_num) [
        | Dec.yes l ↦ quiet (process_incremental m c) c out (ground arith) t
        | Dec.no l ↦
            quiet (process_incremental m c) (start_recovery (buffered m c)) out (ground arith)
              (gap-Told m c out s r t)
      ]
    ]
  ]

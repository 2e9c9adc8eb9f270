-- ===== src/MarketData/Ahead.antt =====
-- The buffer never holds a message back that could be published.
use llcpp_exchange.Prelude.{
  ℕ, suc, ◌≤◌, ◌<◌, ◌≡◌, refl, sym, subst, ◌∙◌, true, false, List, [], ◌∷◌, arith, ◌==◌, All,
  Bool-cases, inl, inr,
}
use native.Mathlib.Decide.{dec_lt, ℕ_discrete}
use llcpp_exchange.Protocol.{MarketUpdateType, MeMarketUpdate}
use llcpp_exchange.Wire.{MdpMarketUpdate, next_seq}
use llcpp_exchange.MarketData.Buffer.{Entry, Drained, insert, drain_contiguous, replay_buffered}
use llcpp_exchange.MarketData.Consumer.{
  MarketDataConsumer, StreamMessage, incremental, snapshot, new_consumer, buffered, start_recovery,
  process_incremental, finish_recovery, snapshot_case, process_snapshot, on_message, on_messages,
}
use llcpp_exchange.MarketData.Spans.{
  max_seq, insert-All, drain_next, drain_stop, replay_next, replay_skip, replay_stop, next_seq-suc,
}

-- Increasing numbers, below the last.
abbrev pub InOrder : List Entry → Type 0
InOrder [] = Unit
InOrder (e ∷ es) = All (λ x. e.seq < x.seq) es × InOrder es

abbrev pub Bounded : List Entry → Type 0
Bounded es = All (λ x. x.seq < max_seq) es

-- Everything in the buffer is behind the number expected.
pub record Ahead (n : ℕ) (es : List Entry) : Type 0 where
  pub order : InOrder es
  pub bounded : Bounded es
  pub later : All (λ x. n < x.seq) es
  pub bound : n ≤ max_seq

pub All-map :
    {P Q : Entry → Type 0} (es : List Entry) → ((e : Entry) → P e → Q e) → All P es → All Q es
All-map [] f a = tt
All-map (e ∷ es) f a = (f e a.0, All-map es f a.1)

insert-InOrder :
    (n : ℕ) (u : MeMarketUpdate) (es : List Entry) → InOrder es → InOrder (insert n u es)
unfolding insert
insert-InOrder n u [] o = (tt, tt)
insert-InOrder n u (e ∷ es) o = elim (ℕ_discrete n e.seq) [
  | Dec.yes q ↦ let a : All (λ x. n < x.seq) es = rw q o.0 in ground (arith, o.1)
  | Dec.no ne ↦ elim (dec_lt n e.seq) [
    | Dec.yes l ↦
        let a = All-map {P = λ x. e.seq < x.seq} {Q = λ x. n < x.seq} es (λ x h. omega arith) o.0 in
        ground arith
    | Dec.no l ↦
        let a = insert-All (λ x. e.seq < x.seq) n u es (omega arith) o.0 in
        ground (arith, insert-InOrder n u es o.1)
  ]
]

stop_Ahead :
    (n : ℕ) (e : Entry) (es : List Entry)
    → n < e.seq
    → InOrder (e ∷ es)
    → Bounded (e ∷ es)
    → Ahead n (e ∷ es)
stop_Ahead n e es l o b = record {
  order = o;
  bounded = b;
  later = (l, All-map {P = λ x. e.seq < x.seq} {Q = λ x. n < x.seq} es (λ x h. omega arith) o.0);
  bound = omega (arith, b.0);
}

drain_contiguous-Ahead :
    (n : ℕ) (es : List Entry)
    → n ≤ max_seq
    → InOrder es
    → Bounded es
    → All (λ x. n ≤ x.seq) es
    → Ahead (drain_contiguous n es).next_exp (drain_contiguous n es).left
unfolding drain_contiguous
drain_contiguous-Ahead n [] h o b a = record { order = tt; bounded = tt; later = tt; bound = h }
drain_contiguous-Ahead n (e ∷ es) h o b a = elim (ℕ_discrete e.seq n) [
  | Dec.yes q ↦
      rw (drain_next n e es q, next_seq-suc n (omega (arith, b.0)))
        (drain_contiguous-Ahead (suc n) es (omega (arith, b.0)) o.1 b.1
          (All-map {P = λ x. e.seq < x.seq} {Q = λ x. suc n ≤ x.seq} es (λ x k. omega arith) o.0))
  | Dec.no q ↦ rw (drain_stop n e es q) (stop_Ahead n e es (omega (arith, a.0)) o b)
]

replay_buffered-Ahead :
    (n : ℕ) (es : List Entry)
    → n ≤ max_seq
    → InOrder es
    → Bounded es
    → Ahead (replay_buffered n es).next_exp (replay_buffered n es).left
unfolding replay_buffered
replay_buffered-Ahead n [] h o b = record { order = tt; bounded = tt; later = tt; bound = h }
replay_buffered-Ahead n (e ∷ es) h o b = elim (ℕ_discrete e.seq n) [
  | Dec.yes q ↦
      rw (replay_next n e es q, next_seq-suc n (omega (arith, b.0)))
        (replay_buffered-Ahead (suc n) es (omega (arith, b.0)) o.1 b.1)
  | Dec.no q ↦ elim (dec_lt e.seq n) [
    | Dec.yes l ↦ rw (replay_skip n e es l) (replay_buffered-Ahead n es h o.1 b.1)
    | Dec.no l ↦ rw (replay_stop n e es (omega arith)) (stop_Ahead n e es (omega arith) o b)
  ]
]

-- A message below the last number, and a snapshot's end that names one.
abbrev pub IsNumbered : StreamMessage → Type 0
IsNumbered (incremental m) = m.seq_num < max_seq
IsNumbered (snapshot m) =
    m.me_market_update.type ≡ MarketUpdateType.snapshot_end → m.me_market_update.order_id < max_seq

pub record Ready (c : MarketDataConsumer) : Type 0 where
  pub order : InOrder c.out_of_order_buf
  pub bounded : Bounded c.out_of_order_buf
  pub bound : c.next_exp_inc_seq_num ≤ max_seq
  pub ahead : c.in_recovery ≡ false → All (λ x. c.next_exp_inc_seq_num < x.seq) c.out_of_order_buf

-- A state with the same buffer, number and mode.
same-Ready :
    (c c' : MarketDataConsumer)
    → c'.out_of_order_buf ≡ c.out_of_order_buf
    → c'.next_exp_inc_seq_num ≡ c.next_exp_inc_seq_num
    → c'.in_recovery ≡ c.in_recovery
    → Ready c
    → Ready c'
same-Ready c c' b n m r = record {
  order = rw b r.order;
  bounded = rw b r.bounded;
  bound = rw n r.bound;
  ahead = λ f. rw (b, n) (r.ahead (sym m ∙ f));
}

recovering-Ready :
    (m : MdpMarketUpdate) (c c' : MarketDataConsumer)
    → m.seq_num < max_seq
    → c'.out_of_order_buf ≡ insert m.seq_num m.me_market_update c.out_of_order_buf
    → c'.next_exp_inc_seq_num ≡ c.next_exp_inc_seq_num
    → c'.in_recovery ≡ true
    → Ready c
    → Ready c'
recovering-Ready m c c' h b n t r = record {
  order = rw b (insert-InOrder m.seq_num m.me_market_update c.out_of_order_buf r.order);
  bounded = rw b (
      insert-All (λ x. x.seq < max_seq) m.seq_num m.me_market_update c.out_of_order_buf h
        r.bounded);
  bound = rw n r.bound;
  ahead = λ f. absurd (ground arith);
}

module _ (m : MdpMarketUpdate) (c : MarketDataConsumer) (r : Ready c) where
  abbrev drained : Drained
  drained = drain_contiguous (next_seq c.next_exp_inc_seq_num) c.out_of_order_buf

  abbrev advanced : MarketDataConsumer
  advanced = record c { next_exp_inc_seq_num = drained.next_exp; out_of_order_buf = drained.left }

  advanced-Ready :
      m.seq_num < max_seq
      → m.seq_num ≡ c.next_exp_inc_seq_num
      → c.in_recovery ≡ false
      → Ready advanced
  advanced-Ready h e f =
      let n = c.next_exp_inc_seq_num in
      let q : next_seq n ≡ suc n = next_seq-suc n (omega arith) in
      let a : Ahead drained.next_exp drained.left = rw q (
        drain_contiguous-Ahead (suc n) c.out_of_order_buf (omega arith) r.order r.bounded
          (r.ahead f)) in
      record { order = a.order; bounded = a.bounded; bound = a.bound; ahead = λ g. a.later }

  process_incremental-Ready : m.seq_num < max_seq → Ready (process_incremental m c).1
  unfolding process_incremental
  process_incremental-Ready h = elim (Bool-cases c.in_recovery) [
    | inl t ↦
        let q : process_incremental m c ≡ ([], buffered m c) = ground arith in
        rw q (recovering-Ready m c (buffered m c) h refl refl t r)
    | inr t ↦ elim (ℕ_discrete m.seq_num c.next_exp_inc_seq_num) [
      | Dec.yes e ↦
          let q : process_incremental m c ≡ (m.me_market_update ∷ drained.published, advanced) =
            ground arith in
          rw q (advanced-Ready h e t)
      | Dec.no ne ↦ elim (dec_lt m.seq_num c.next_exp_inc_seq_num) [
        | Dec.yes l ↦ let q : process_incremental m c ≡ ([], c) = ground arith in rw q r
        | Dec.no l ↦
            let c' = start_recovery (buffered m c) in
            let q : process_incremental m c ≡ ([], c') = ground arith in
            rw q (recovering-Ready m c c' h (ground arith) (ground arith) (ground arith) r)
      ]
    ]
  ]

  finish_recovery-Ready :
      (last : ℕ) (c' : MarketDataConsumer)
      → last < max_seq
      → c'.out_of_order_buf ≡ c.out_of_order_buf
      → Ready (finish_recovery last c').1
  unfolding finish_recovery
  finish_recovery-Ready last c' h b =
      let d = replay_buffered (next_seq last) c'.out_of_order_buf in
      let a : Ahead d.next_exp d.left =
        rw (b, next_seq-suc last h)
          (replay_buffered-Ahead (suc last) c.out_of_order_buf (omega arith) r.order r.bounded) in
      record { order = a.order; bounded = a.bounded; bound = a.bound; ahead = λ g. a.later }

  snapshot_case-Ready :
      (y : MarketUpdateType)
      → (y ≡ MarketUpdateType.snapshot_end → m.me_market_update.order_id < max_seq)
      → Ready (snapshot_case y m c).1
  unfolding snapshot_case
  snapshot_case-Ready MarketUpdateType.clear h =
      same-Ready c (snapshot_case MarketUpdateType.clear m c).1 refl refl refl r
  snapshot_case-Ready MarketUpdateType.snapshot_start h =
      same-Ready c (snapshot_case MarketUpdateType.snapshot_start m c).1 (ground arith)
        (ground arith) (ground arith) r
  snapshot_case-Ready MarketUpdateType.add h =
      same-Ready c (snapshot_case MarketUpdateType.add m c).1 (ground arith) (ground arith)
        (ground arith) r
  snapshot_case-Ready MarketUpdateType.snapshot_end h =
      let last = m.me_market_update.order_id in
      let c' = record c { snapshot_last_seen = m.seq_num; pending_last_inc_seq = last } in
      let step = snapshot_case MarketUpdateType.snapshot_end m c in
      let done = finish_recovery-Ready last c' (h refl) refl in
      let kept = same-Ready c (record c { in_snapshot = false }) refl refl refl r in
      elim (Bool-cases c.in_snapshot) [
        | inr a ↦ let q : step ≡ ([], c) = ground arith in rw q r
        | inl a ↦ elim (Bool-cases (m.seq_num == next_seq c.snapshot_last_seen)) [
          | inl e ↦ let q : step ≡ finish_recovery last c' = ground arith in rw q done
          | inr e ↦
              let q : step ≡ ([], record c { in_snapshot = false }) = ground arith in rw q kept
        ]
      ]
  snapshot_case-Ready MarketUpdateType.invalid h = r
  snapshot_case-Ready MarketUpdateType.modify h = r
  snapshot_case-Ready MarketUpdateType.cancel h = r
  snapshot_case-Ready MarketUpdateType.trade h = r

on_message-Ready :
    (m : StreamMessage) (c : MarketDataConsumer) → IsNumbered m → Ready c → Ready (on_message m c).1
unfolding on_message process_snapshot
on_message-Ready (incremental m) c h r = process_incremental-Ready m c r h
on_message-Ready (snapshot m) c h r = elim (Bool-cases c.in_recovery) [
  | inr f ↦
      let q : process_snapshot m c ≡ ([], c) = ground arith in subst (λ p. Ready p.1) (sym q) r
  | inl f ↦
      let y = m.me_market_update.type in
      let q : process_snapshot m c ≡ snapshot_case y m c = ground arith in
      subst (λ p. Ready p.1) (sym q) (snapshot_case-Ready m c r y h)
]

on_messages_keep :
    (ms : List StreamMessage) (c : MarketDataConsumer)
    → All IsNumbered ms
    → Ready c
    → Ready (on_messages ms c).1
unfolding on_messages
on_messages_keep [] c h r = r
on_messages_keep (m ∷ ms) c h r =
    on_messages_keep ms (on_message m c).1 h.1 (on_message-Ready m c h.0 r)

-- A consumer that starts anew receives any messages, of either stream, with numbers below the last
-- 64-bit number, in any order. Then the numbers in its buffer increase, and whenever it is not in
-- recovery all of them are above the number expected next: nothing that could be published, and
-- nothing stale, is held back, and so no entry at the front can stop the drain.
pub on_messages-Ready :
    (ms : List StreamMessage) → All IsNumbered ms → Ready (on_messages ms new_consumer).1
on_messages-Ready ms h =
    on_messages_keep ms new_consumer h
      (record { order = tt; bounded = tt; bound = omega arith; ahead = λ f. tt })

-- ===== src/MarketData/Recovery.antt =====
-- The messages of the two streams one by one: what has been told, and when recovery ends.
use llcpp_exchange.Prelude.{
  ℕ, suc, ◌<◌, ◌≡◌, refl, sym, ap, subst, ◌∙◌, true, false, List, [], ◌∷◌, ◌++◌, arith, All,
  Bool-cases, inl, inr,
}
use mathlib.Core.List.{append_assoc, append-nil}
use native.Mathlib.Decide.{ℕ_discrete}
use llcpp_exchange.Protocol.{MarketUpdateType, MeMarketUpdate}
use llcpp_exchange.Wire.{MdpMarketUpdate, next_seq}
use llcpp_exchange.MarketData.Buffer.{replay_buffered}
use llcpp_exchange.MarketData.Consumer.{
  MarketDataConsumer, StreamMessage, incremental, snapshot, new_consumer, process_incremental,
  finish_recovery, snapshot_case, process_snapshot, on_message, on_messages,
}
use llcpp_exchange.MarketData.Spans.{max_seq, Spanned, replay_buffered-Spanned, next_seq-suc}
use llcpp_exchange.MarketData.Told.{IsSent, Partial, Told, quiet, process_incremental-Told}
use llcpp_exchange.MarketData.Image.{idle, opened, extended, abandoned-Told}

module _ (inc snap : ℕ → MeMarketUpdate) where
  module _ (m : MdpMarketUpdate) (c : MarketDataConsumer) (out : List MeMarketUpdate)
      (r : c.in_recovery ≡ true) (u : m.me_market_update ≡ snap m.seq_num) (b : m.seq_num < max_seq)
      (t : Told inc snap c out) where
    abbrev StepTold : MarketUpdateType → Type 0
    StepTold y = Told inc snap (snapshot_case y m c).1 (out ++ (snapshot_case y m c).0)

    typed : (y : MarketUpdateType) → m.me_market_update.type ≡ y → (snap m.seq_num).type ≡ y
    typed y e = ap (λ (x : MeMarketUpdate). x.type) (sym u) ∙ e

    clear-Told : m.me_market_update.type ≡ MarketUpdateType.clear → StepTold MarketUpdateType.clear
    unfolding snapshot_case
    clear-Told y = record {
      kept = t.kept;
      bound = t.bound;
      steady = λ f. absurd (ground arith);
      calm = λ f. absurd (ground arith);
      armed = λ f. record {
        before = out;
        published = ap (λ x. out ++ (x ∷ [])) u;
        clear = typed MarketUpdateType.clear y;
        bound = b;
      };
      single = λ f. absurd (ground arith);
      inside = λ f. absurd (ground arith);
    }

    abbrev begun : MarketDataConsumer
    begun = record c { in_snapshot = true; snapshot_last_seen = m.seq_num; snapshot_armed = false }

    start-Told :
        m.me_market_update.type ≡ MarketUpdateType.snapshot_start
        → StepTold MarketUpdateType.snapshot_start
    unfolding snapshot_case
    start-Told y =
        let step = snapshot_case MarketUpdateType.snapshot_start m c in
        let aborted = record c { in_snapshot = false; snapshot_armed = false } in
        let none_told = abandoned-Told inc snap false c out r (λ f. absurd (ground arith)) t in
        elim (Bool-cases c.snapshot_armed) [
          | inr a ↦ quiet inc snap step aborted out (ground arith) none_told
          | inl a ↦ elim (ℕ_discrete m.seq_num (next_seq c.snapshot_last_seen)) [
            | Dec.no ne ↦ quiet inc snap step aborted out (ground arith) none_told
            | Dec.yes e ↦ quiet inc snap step begun out (ground arith) (
                idle inc snap c begun out r t r refl refl (λ f. absurd (ground arith)) (λ f. refl)
                  (λ f.
                    opened inc snap c.snapshot_last_seen m.seq_num out (t.armed a) e b
                      (typed MarketUpdateType.snapshot_start y)))
          ]
        ]

    given :
        Partial inc snap c.snapshot_last_seen out
        → m.seq_num ≡ next_seq c.snapshot_last_seen
        → m.me_market_update.type ≡ MarketUpdateType.add
        → Partial inc snap m.seq_num (out ++ (m.me_market_update ∷ []))
    given p e y =
        subst (λ x. Partial inc snap m.seq_num (out ++ (x ∷ []))) (sym u)
          (extended inc snap c.snapshot_last_seen m.seq_num out p e b
            (typed MarketUpdateType.add y))

    add-Told : m.me_market_update.type ≡ MarketUpdateType.add → StepTold MarketUpdateType.add
    unfolding snapshot_case
    add-Told y =
        let step = snapshot_case MarketUpdateType.add m c in
        elim (Bool-cases c.in_snapshot) [
          | inr a ↦ quiet inc snap step c out (ground arith) t
          | inl a ↦ elim (ℕ_discrete m.seq_num (next_seq c.snapshot_last_seen)) [
            | Dec.no ne ↦
                quiet inc snap step (record c { in_snapshot = false }) out (ground arith)
                  (abandoned-Told inc snap c.snapshot_armed c out r (λ f. f) t)
            | Dec.yes e ↦
                let q : step
                    ≡ (m.me_market_update ∷ [], record c { snapshot_last_seen = m.seq_num }) =
                  ground arith in
                rw q (record {
                  kept = t.kept;
                  bound = t.bound;
                  steady = λ f. absurd (ground arith);
                  calm = λ f. absurd (ground arith);
                  armed = λ f. absurd (let h = t.single a in ground arith);
                  single = t.single;
                  inside = λ f. given (t.inside a) e y;
                })
          ]
        ]

    abbrev last : ℕ
    last = m.me_market_update.order_id

    abbrev ended : MarketDataConsumer
    ended = record c { snapshot_last_seen = m.seq_num; pending_last_inc_seq = last }

    finish-Told :
        m.me_market_update.type ≡ MarketUpdateType.snapshot_end
        → last < max_seq
        → Partial inc snap c.snapshot_last_seen out
        → m.seq_num ≡ next_seq c.snapshot_last_seen
        → Told inc snap (finish_recovery last ended).1 (out ++ (finish_recovery last ended).0)
    unfolding finish_recovery
    finish-Told y l p e =
        let d : Spanned inc (suc last) (replay_buffered (next_seq last) c.out_of_order_buf) =
          rw (next_seq-suc last l)
            (replay_buffered-Spanned inc (suc last) c.out_of_order_buf (omega arith) t.kept) in
        let here : m.seq_num ≡ suc c.snapshot_last_seen = (let h = p.bound in omega arith) in
        record {
          kept = d.left;
          bound = d.bound;
          steady = λ f. record {
            base = out;
            first = suc last;
            count = d.count;
            published = ap (λ l. out ++ l) d.published;
            next = d.next_exp;
            origin = inr (record {
              seen = c.snapshot_last_seen;
              image = p;
              closing = rw (← here) (typed MarketUpdateType.snapshot_end y);
              resumes =
                  ap (λ (x : MeMarketUpdate). suc x.order_id) u
                  ∙ ap (λ i. suc (snap i).order_id) here;
            });
          };
          calm = λ f. (refl, refl);
          armed = λ f. absurd (ground arith);
          single = λ f. refl;
          inside = λ f. absurd (ground arith);
        }

    end-Told :
        (m.me_market_update.type ≡ MarketUpdateType.snapshot_end → last < max_seq)
        → m.me_market_update.type ≡ MarketUpdateType.snapshot_end
        → StepTold MarketUpdateType.snapshot_end
    unfolding snapshot_case
    end-Told l y =
        let step = snapshot_case MarketUpdateType.snapshot_end m c in
        elim (Bool-cases c.in_snapshot) [
          | inr a ↦ quiet inc snap step c out (ground arith) t
          | inl a ↦ elim (ℕ_discrete m.seq_num (next_seq c.snapshot_last_seen)) [
            | Dec.no ne ↦
                quiet inc snap step (record c { in_snapshot = false }) out (ground arith)
                  (abandoned-Told inc snap c.snapshot_armed c out r (λ f. f) t)
            | Dec.yes e ↦
                let q : step ≡ finish_recovery last ended = ground arith in
                rw q (finish-Told y (l y) (t.inside a) e)
          ]
        ]

    case-Told :
        (m.me_market_update.type ≡ MarketUpdateType.snapshot_end → last < max_seq)
        → (y : MarketUpdateType) → m.me_market_update.type ≡ y
        → StepTold y
    unfolding snapshot_case
    case-Told l MarketUpdateType.clear e = clear-Told e
    case-Told l MarketUpdateType.snapshot_start e = start-Told e
    case-Told l MarketUpdateType.add e = add-Told e
    case-Told l MarketUpdateType.snapshot_end e = end-Told l e
    case-Told l MarketUpdateType.invalid e = rw (append-nil out) t
    case-Told l MarketUpdateType.modify e = rw (append-nil out) t
    case-Told l MarketUpdateType.cancel e = rw (append-nil out) t
    case-Told l MarketUpdateType.trade e = rw (append-nil out) t

  process_snapshot-Told :
      (m : MdpMarketUpdate) (c : MarketDataConsumer) (out : List MeMarketUpdate)
      → IsSent inc snap (snapshot m)
      → Told inc snap c out
      → Told inc snap (process_snapshot m c).1 (out ++ (process_snapshot m c).0)
  unfolding process_snapshot
  process_snapshot-Told m c out (u, b, l) t = elim (Bool-cases c.in_recovery) [
    | inr r ↦ quiet inc snap (process_snapshot m c) c out (ground arith) t
    | inl r ↦
        let q : process_snapshot m c ≡ snapshot_case m.me_market_update.type m c = ground arith in
        rw q (case-Told m c out r u b t l m.me_market_update.type refl)
  ]

  pub on_messages-append_Told :
      (ms : List StreamMessage) (c : MarketDataConsumer) (out : List MeMarketUpdate)
      → All (IsSent inc snap) ms
      → Told inc snap c out
      → Told inc snap (on_messages ms c).1 (out ++ (on_messages ms c).0)
  unfolding on_messages on_message
  on_messages-append_Told [] c out s t = rw (append-nil out) t
  on_messages-append_Told (incremental m ∷ ms) c out (s, h) t =
      let c' = (process_incremental m c).1 in
      let us = (process_incremental m c).0 in
      subst (Told inc snap (on_messages ms c').1) (append_assoc out us (on_messages ms c').0) (
        on_messages-append_Told ms c' (out ++ us) h (process_incremental-Told inc snap m c out s t))
  on_messages-append_Told (snapshot m ∷ ms) c out (s, h) t =
      let c' = (process_snapshot m c).1 in
      let us = (process_snapshot m c).0 in
      subst (Told inc snap (on_messages ms c').1) (append_assoc out us (on_messages ms c').0)
        (on_messages-append_Told ms c' (out ++ us) h (process_snapshot-Told m c out s t))

-- Two streams of updates are given by their numbers, and a consumer that starts anew receives any
-- messages sent on them, below the last 64-bit number, in any order, with any lost or repeated, where
-- a snapshot's end names a number below the last, too. Then what it has published is, whenever it
-- is not in recovery, an earlier part (none, with the incremental stream from 1, or one that ends
-- with a whole cycle: its CLEAR, all its orders, and a SNAPSHOT_END right behind them that names the
-- number before the one resumed at) and then the incremental stream without a gap up to the number
-- expected next. In recovery, with a cycle under way, what was published ends with its CLEAR and
-- all its orders up to the last number seen.
pub on_messages-Told :
    (inc snap : ℕ → MeMarketUpdate) (ms : List StreamMessage)
    → All (IsSent inc snap) ms
    → Told inc snap (on_messages ms new_consumer).1 (on_messages ms new_consumer).0
on_messages-Told inc snap ms s = on_messages-append_Told inc snap ms new_consumer [] s (record {
  kept = tt;
  bound = omega arith;
  steady = λ f. record {
    base = [];
    first = 1;
    count = 0;
    published = refl;
    next = refl;
    origin = inl (refl, refl);
  };
  calm = λ f. (refl, refl);
  armed = λ f. absurd (ground arith);
  single = λ f. refl;
  inside = λ f. absurd (ground arith);
})

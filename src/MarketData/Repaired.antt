-- ===== src/MarketData/Repaired.antt =====
-- A whole cycle received in recovery: what is published, by the synthesizer's slots and the numbers
-- in the buffer.
use llcpp_exchange.Prelude.{
  ℕ, zero, suc, ◌≤◌, ◌<◌, inl, inr, Option-cases, ◌≡◌, refl, sym, ap, subst, ◌∙◌, true, false,
  Option, none, some, List, ◌∷◌, ◌++◌, map, arith, All, All-append,
}
use llcpp_exchange.Types.{me_max_tickers, me_max_order_ids, invalid_u64}
use llcpp_exchange.Protocol.{MarketUpdateType, MeMarketUpdate}
use llcpp_exchange.Wire.{next_seq}
use llcpp_exchange.MarketData.Synthesizer.{
  SnapshotSynthesizer, blank, as_add, walk_orders, walk_tickers, snapshot_cycle, publish_snapshot,
}
use llcpp_exchange.MarketData.Buffer.{replay_buffered}
use llcpp_exchange.MarketData.Consumer.{MarketDataConsumer, snapshot, on_messages}
use llcpp_exchange.MarketData.Restored.{IsAdd, cycle-Recovered}
use llcpp_exchange.MarketData.Snapshots.{IsKeyed, lookup, lookup-walk_tickers}
use llcpp_exchange.MarketData.Spans.{max_seq, next_seq-suc}
use llcpp_exchange.MarketData.Ahead.{InOrder, Bounded}
use llcpp_exchange.MarketData.Replayed.{
  held, RunsFrom, replay_buffered-RunsFrom, replay_buffered-held,
}

as_add-All : (o : Option MeMarketUpdate) → All IsAdd (as_add o)
as_add-All none = tt
as_add-All (some o) = (refl, tt)

walk_orders-All :
    (slots : ℕ → Option MeMarketUpdate) (count first : ℕ)
    → All IsAdd (walk_orders slots count first)
unfolding walk_orders
walk_orders-All slots zero first = tt
walk_orders-All slots (suc count) first =
    All-append IsAdd (as_add (slots first)) (walk_orders slots count (suc first))
      (as_add-All (slots first)) (walk_orders-All slots count (suc first))

walk_tickers-All :
    (slots : ℕ → ℕ → Option MeMarketUpdate) (ids count first : ℕ)
    → All IsAdd (walk_tickers slots ids count first)
unfolding walk_tickers
walk_tickers-All slots ids zero first = tt
walk_tickers-All slots ids (suc count) first =
    All-append IsAdd (walk_orders (slots first) ids 0) (walk_tickers slots ids count (suc first))
      (walk_orders-All (slots first) ids 0) (walk_tickers-All slots ids count (suc first))

-- A message is the order of its slot.
abbrev InSlot : (ℕ → ℕ → Option MeMarketUpdate) → MeMarketUpdate → Type 0
InSlot slots u = slots u.ticker_id u.order_id ≡ some u

as_add-InSlot :
    (slots : ℕ → ℕ → Option MeMarketUpdate) (t o : ℕ)
    → IsKeyed slots
    → All (InSlot slots) (as_add (slots t o))
as_add-InSlot slots t o k = elim (Option-cases (slots t o)) [
  | inl n ↦ rw n tt
  | inr (w, e) ↦
      let (i, j, y) = k t o w e in
      let same : record w { type = MarketUpdateType.add } ≡ w =
        ap (λ z. record w { type = z }) (sym y) in
      rw e (ground (arith, e, same), tt)
]

walk_orders-InSlot :
    (slots : ℕ → ℕ → Option MeMarketUpdate) (t count first : ℕ)
    → IsKeyed slots
    → All (InSlot slots) (walk_orders (slots t) count first)
unfolding walk_orders
walk_orders-InSlot slots t zero first k = tt
walk_orders-InSlot slots t (suc count) first k =
    All-append (InSlot slots) (as_add (slots t first)) (walk_orders (slots t) count (suc first))
      (as_add-InSlot slots t first k) (walk_orders-InSlot slots t count (suc first) k)

walk_tickers-InSlot :
    (slots : ℕ → ℕ → Option MeMarketUpdate) (ids count first : ℕ)
    → IsKeyed slots
    → All (InSlot slots) (walk_tickers slots ids count first)
unfolding walk_tickers
walk_tickers-InSlot slots ids zero first k = tt
walk_tickers-InSlot slots ids (suc count) first k =
    All-append (InSlot slots) (walk_orders (slots first) ids 0)
      (walk_tickers slots ids count (suc first)) (walk_orders-InSlot slots first ids 0 k)
      (walk_tickers-InSlot slots ids count (suc first) k)

-- `r` is the end of a recovery of the consumer `c` by a snapshot of `s`.
pub record Repaired (s : SnapshotSynthesizer) (c : MarketDataConsumer)
    (r : List MeMarketUpdate × MarketDataConsumer) : Type 0 where
  pub image : List MeMarketUpdate
  pub replayed : List MeMarketUpdate
  pub published : r.0 ≡ blank MarketUpdateType.clear invalid_u64 ∷ (image ++ replayed)
  -- The image has the orders of the synthesizer's slots, each of them and no others.
  pub in_slots : All (InSlot s.ticker_orders) image
  pub slots :
      (t o : ℕ) → t < me_max_tickers → o < me_max_order_ids → lookup t o image ≡ s.ticker_orders t o
  -- What was buffered right behind the synthesizer's last number, up to the first number missing.
  pub runs :
      RunsFrom c.out_of_order_buf (next_seq s.last_inc_seq_num) replayed r.1.next_exp_inc_seq_num
  pub done : r.1.in_recovery ≡ false
  -- What was buffered under later numbers is kept.
  pub kept :
      (m : ℕ)
      → r.1.next_exp_inc_seq_num ≤ m
      → held m r.1.out_of_order_buf ≡ held m c.out_of_order_buf

-- A consumer in recovery, whose buffer has increasing numbers below the last 64-bit number, receives
-- all messages of one published snapshot of a synthesizer that keeps each order in its own slot and
-- has read up to a number below the last. Then it is in recovery no longer. It has published the
-- CLEAR, an image that has for each ticker and order id what the slot holds and nothing else, and
-- then the updates it had buffered under the numbers right behind the synthesizer's last one, each of
-- them up to the first number it did not hold, which it now expects. What it had buffered under
-- later numbers is still there.
pub publish_snapshot-Repaired :
    (now : ℕ) (s : SnapshotSynthesizer) (c : MarketDataConsumer)
    → c.in_recovery ≡ true
    → IsKeyed s.ticker_orders
    → s.last_inc_seq_num < max_seq
    → InOrder c.out_of_order_buf
    → Bounded c.out_of_order_buf
    → Repaired s c (on_messages (map snapshot (publish_snapshot now s).0) c)
unfolding publish_snapshot snapshot_cycle
publish_snapshot-Repaired now s c r k small o b =
    let walk = walk_tickers s.ticker_orders me_max_order_ids me_max_tickers 0 in
    let n = next_seq s.last_inc_seq_num in
    let next = next_seq-suc s.last_inc_seq_num small in
    let v =
      cycle-Recovered (blank MarketUpdateType.clear invalid_u64)
        (blank MarketUpdateType.snapshot_start invalid_u64)
        (blank MarketUpdateType.snapshot_end s.last_inc_seq_num) walk s.next_snap_seq_num c
        (walk_tickers-All s.ticker_orders me_max_order_ids me_max_tickers 0) refl refl refl r in
    record {
      image = walk;
      replayed = (replay_buffered n c.out_of_order_buf).published;
      published = v.published;
      in_slots = walk_tickers-InSlot s.ticker_orders me_max_order_ids me_max_tickers 0 k;
      slots = λ t i l h.
          lookup-walk_tickers s.ticker_orders me_max_order_ids me_max_tickers 0 t i k h
          ∙ ground arith;
      runs =
          subst (RunsFrom c.out_of_order_buf n (replay_buffered n c.out_of_order_buf).published)
            (sym v.next_exp) (replay_buffered-RunsFrom n c.out_of_order_buf o b);
      done = v.done;
      kept = λ m l.
          ap (held m) v.left
          ∙ (replay_buffered-held n m c.out_of_order_buf (omega arith) b
              (subst (λ x. x ≤ m) v.next_exp l)).1;
    }

-- ===== src/MarketData/Restored.antt =====
-- The two streams without a loss: updates arrive in order, and a whole cycle ends recovery.
use llcpp_exchange.Prelude.{
  ℕ, ◌≡◌, refl, sym, ap, subst, ◌∙◌, true, false, List, [], ◌∷◌, ◌++◌, map, arith, All,
}
use mathlib.Core.List.{append_assoc, append-nil}
use llcpp_exchange.Protocol.{MarketUpdateType, MeMarketUpdate}
use llcpp_exchange.Wire.{MdpMarketUpdate, next_seq}
use llcpp_exchange.MarketData.Publisher.{MarketDataPublisher, poll}
use llcpp_exchange.MarketData.Synthesizer.{numbered}
use llcpp_exchange.MarketData.Buffer.{Drained, drain_contiguous, replay_buffered}
use llcpp_exchange.MarketData.Consumer.{
  MarketDataConsumer, StreamMessage, incremental, snapshot, process_incremental, finish_recovery,
  snapshot_case, process_snapshot, on_message, on_messages,
}

-- A consumer in steady state that holds nothing back and expects the publisher's next number gets
-- all that the publisher polls: it publishes exactly the updates of the matching engine, in order,
-- and then expects the publisher's next number again, with nothing held back.
pub poll-on_messages :
    (us : List MeMarketUpdate) (p : MarketDataPublisher) (c : MarketDataConsumer)
    → c.in_recovery ≡ false
    → c.out_of_order_buf ≡ []
    → c.next_exp_inc_seq_num ≡ p.next_inc_seq_num
    → on_messages (map incremental (poll us p).0) c ≡ (
      us,
      record c { next_exp_inc_seq_num = (poll us p).1.next_inc_seq_num; out_of_order_buf = [] },
    )
unfolding on_messages on_message poll process_incremental drain_contiguous
poll-on_messages [] p c r b n = cc
poll-on_messages (u ∷ us) p c r b n =
    let p' : MarketDataPublisher = record { next_inc_seq_num = next_seq p.next_inc_seq_num } in
    let c' = record c {
      next_exp_inc_seq_num = next_seq c.next_exp_inc_seq_num;
      out_of_order_buf = [];
    } in
    let m : MdpMarketUpdate = record { seq_num = p.next_inc_seq_num; me_market_update = u } in
    let step : process_incremental m c ≡ (u ∷ [], c') = ground arith in
    rw (step, poll-on_messages us p' c' r refl (ap next_seq n)) refl

abbrev pub IsAdd : MeMarketUpdate → Type 0
IsAdd u = u.type ≡ MarketUpdateType.add

-- The end of a recovery: the image and what was buffered are published, and the recovery is over.
pub record Recovered (image : List MeMarketUpdate) (d : Drained)
    (r : List MeMarketUpdate × MarketDataConsumer) : Type 0 where
  pub published : r.0 ≡ image ++ d.published
  pub done : r.1.in_recovery ≡ false
  pub next_exp : r.1.next_exp_inc_seq_num ≡ d.next_exp
  pub left : r.1.out_of_order_buf ≡ d.left

on_messages-step :
    (m : MdpMarketUpdate) (ms : List StreamMessage) (c c' : MarketDataConsumer)
    (us : List MeMarketUpdate)
    → process_snapshot m c ≡ (us, c')
    → on_messages (snapshot m ∷ ms) c ≡ (us ++ (on_messages ms c').0, (on_messages ms c').1)
unfolding on_messages on_message
on_messages-step m ms c c' us e = rw e refl

Recovered-after :
    (m : MdpMarketUpdate) (ms : List StreamMessage) (c c' : MarketDataConsumer)
    (us image : List MeMarketUpdate) (d : Drained)
    → process_snapshot m c ≡ (us, c')
    → Recovered image d (on_messages ms c')
    → Recovered (us ++ image) d (on_messages (snapshot m ∷ ms) c)
Recovered-after m ms c c' us image d e v =
    subst (Recovered (us ++ image) d) (sym (on_messages-step m ms c c' us e)) (record {
      published = ap (λ l. us ++ l) v.published ∙ sym (append_assoc us image d.published);
      done = v.done;
      next_exp = v.next_exp;
      left = v.left;
    })

abbrev pub sent_from : ℕ → List MeMarketUpdate → List StreamMessage
sent_from n us = map snapshot (numbered n us).0

ended :
    (m : MdpMarketUpdate) (c c' : MarketDataConsumer) (last : ℕ)
    → process_snapshot m c ≡ finish_recovery last c'
    → Recovered []
        (replay_buffered (next_seq last) c'.out_of_order_buf)
        (on_messages (snapshot m ∷ []) c)
unfolding on_messages finish_recovery
ended m c c' last e =
    let d = replay_buffered (next_seq last) c'.out_of_order_buf in
    subst (Recovered [] d) (sym (on_messages-step m [] c (finish_recovery last c').1 d.published e))
      (record { published = append-nil d.published; done = refl; next_exp = refl; left = refl })

-- Within a cycle.
adds-Recovered :
    (us : List MeMarketUpdate) (close : MeMarketUpdate) (n : ℕ) (c : MarketDataConsumer)
    → All IsAdd us
    → close.type ≡ MarketUpdateType.snapshot_end
    → c.in_recovery ≡ true
    → c.in_snapshot ≡ true
    → n ≡ next_seq c.snapshot_last_seen
    → Recovered us
        (replay_buffered (next_seq close.order_id) c.out_of_order_buf)
        (on_messages (sent_from n (us ++ (close ∷ []))) c)
unfolding numbered process_snapshot snapshot_case
adds-Recovered [] close n c a y r i e =
    let m : MdpMarketUpdate = record { seq_num = n; me_market_update = close } in
    let c' = record c { snapshot_last_seen = n; pending_last_inc_seq = close.order_id } in
    let step : process_snapshot m c ≡ finish_recovery close.order_id c' = ground arith in
    ended m c c' close.order_id step
adds-Recovered (u ∷ us) close n c (h, a) y r i e =
    let m : MdpMarketUpdate = record { seq_num = n; me_market_update = u } in
    let c' = record c { snapshot_last_seen = n } in
    let step : process_snapshot m c ≡ (u ∷ [], c') = ground arith in
    Recovered-after m (sent_from (next_seq n) (us ++ (close ∷ []))) c c' (u ∷ []) us
      (replay_buffered (next_seq close.order_id) c.out_of_order_buf) step
      (adds-Recovered us close (next_seq n) c' a y r i refl)

pub cycle-Recovered :
    (start open' close : MeMarketUpdate) (us : List MeMarketUpdate) (n : ℕ) (c : MarketDataConsumer)
    → All IsAdd us
    → start.type ≡ MarketUpdateType.clear
    → open'.type ≡ MarketUpdateType.snapshot_start
    → close.type ≡ MarketUpdateType.snapshot_end
    → c.in_recovery ≡ true
    → Recovered
        (start ∷ us)
        (replay_buffered (next_seq close.order_id) c.out_of_order_buf)
        (on_messages (sent_from n (start ∷ open' ∷ (us ++ (close ∷ [])))) c)
unfolding numbered process_snapshot snapshot_case
cycle-Recovered start open' close us n c a ys yo yc r =
    let d = replay_buffered (next_seq close.order_id) c.out_of_order_buf in
    let n' = next_seq n in
    let m : MdpMarketUpdate = record { seq_num = n; me_market_update = start } in
    let m' : MdpMarketUpdate = record { seq_num = n'; me_market_update = open' } in
    let c₁ = record c { in_snapshot = false; snapshot_armed = true; snapshot_last_seen = n } in
    let c₂ = record c₁ { in_snapshot = true; snapshot_last_seen = n'; snapshot_armed = false } in
    let step₁ : process_snapshot m c ≡ (start ∷ [], c₁) = ground arith in
    let step₂ : process_snapshot m' c₁ ≡ ([], c₂) = ground arith in
    let rest = sent_from (next_seq n') (us ++ (close ∷ [])) in
    Recovered-after m (snapshot m' ∷ rest) c c₁ (start ∷ []) us d step₁ (
      Recovered-after m' rest c₁ c₂ [] us d step₂
        (adds-Recovered us close (next_seq n') c₂ a yc r refl refl))

-- ===== src/MarketData/Image.antt =====
-- A cycle while it is put together: opened, extended by an order, abandoned.
use llcpp_exchange.Prelude.{
  ℕ, suc, ◌+◌, ◌<◌, ◌≡◌, refl, sym, ap, subst, ◌∙◌, Bool, true, false, List, [], ◌∷◌, ◌++◌, arith,
  All, All-append,
}
use mathlib.Core.List.{append_assoc}
use llcpp_exchange.Protocol.{MarketUpdateType, MeMarketUpdate}
use llcpp_exchange.Wire.{next_seq}
use llcpp_exchange.MarketData.Consumer.{MarketDataConsumer}
use llcpp_exchange.MarketData.Spans.{max_seq, span, span_snoc, IsKept}
use llcpp_exchange.MarketData.Told.{Anchored, Partial, Told}

module _ (inc snap : ℕ → MeMarketUpdate) where
  -- In recovery, with the flags of the cycle taken down.
  pub idle :
      (c c' : MarketDataConsumer) (out : List MeMarketUpdate)
      → c.in_recovery ≡ true
      → Told inc snap c out
      → c'.in_recovery ≡ true
      → c'.out_of_order_buf ≡ c.out_of_order_buf
      → c'.next_exp_inc_seq_num ≡ c.next_exp_inc_seq_num
      → (c'.snapshot_armed ≡ true → Anchored inc snap c'.snapshot_last_seen out)
      → (c'.in_snapshot ≡ true → c'.snapshot_armed ≡ false)
      → (c'.in_snapshot ≡ true → Partial inc snap c'.snapshot_last_seen out)
      → Told inc snap c' out
  idle c c' out r t r' b n a o i = record {
    kept = subst (λ es. All (IsKept inc) es) (sym b) t.kept;
    bound = rw n t.bound;
    steady = λ f. absurd (ground arith);
    calm = λ f. absurd (ground arith);
    armed = a;
    single = o;
    inside = i;
  }

  pub opened :
      (seen n : ℕ) (out : List MeMarketUpdate)
      → Anchored inc snap seen out
      → n ≡ next_seq seen
      → n < max_seq
      → (snap n).type ≡ MarketUpdateType.snapshot_start
      → Partial inc snap n out
  opened seen n out a e b y = record {
    before = a.before;
    start = seen;
    count = 0;
    published = a.published;
    at = let h = a.bound in omega arith;
    bound = b;
    clear = a.clear;
    opening = let e' : n ≡ seen + 1 = (let h = a.bound in omega arith) in rw (← e') y;
    orders = tt;
  }

  pub extended :
      (seen n : ℕ) (out : List MeMarketUpdate)
      → Partial inc snap seen out
      → n ≡ next_seq seen
      → n < max_seq
      → (snap n).type ≡ MarketUpdateType.add
      → Partial inc snap n (out ++ (snap n ∷ []))
  extended seen n out p e b y =
      let from = p.start + 2 in
      let here : n ≡ from + p.count = (let h = p.bound in let k = p.at in omega arith) in
      let grown : span snap from p.count ++ (snap n ∷ []) ≡ span snap from (suc p.count) =
        ap (λ i. span snap from p.count ++ (snap i ∷ [])) here ∙ span_snoc snap from p.count in
      record {
        before = p.before;
        start = p.start;
        count = suc p.count;
        published =
            ap (λ l. l ++ (snap n ∷ [])) p.published
            ∙ (append_assoc p.before (snap p.start ∷ span snap from p.count) (snap n ∷ [])
                ∙ ap (λ l. p.before ++ (snap p.start ∷ l)) grown);
        at = let k = p.at in omega arith;
        bound = b;
        clear = p.clear;
        opening = p.opening;
        orders = subst (All (λ u. u.type ≡ MarketUpdateType.add)) grown (
            All-append (λ u. u.type ≡ MarketUpdateType.add) (span snap from p.count) (snap n ∷ [])
              p.orders (y, tt));
      }

  pub abandoned-Told :
      (a : Bool) (c : MarketDataConsumer) (out : List MeMarketUpdate)
      → c.in_recovery ≡ true
      → (a ≡ true → c.snapshot_armed ≡ true)
      → Told inc snap c out
      → Told inc snap (record c { in_snapshot = false; snapshot_armed = a }) out
  abandoned-Told a c out r h t =
      idle c (record c { in_snapshot = false; snapshot_armed = a }) out r t r refl refl
        (λ f. t.armed (h f)) (λ f. absurd (ground arith)) (λ f. absurd (ground arith))

-- ===== src/MarketData/Snapshots.antt =====
-- What a snapshot says of an order is what the synthesizer holds of it.
use llcpp_exchange.Prelude.{
  ℕ, zero, suc, ◌+◌, ◌<◌, ◌≡◌, refl, sym, subst, ◌∙◌, ◌&&◌, Option, none, some, List, [], ◌∷◌, ◌++◌,
  arith, ◌||◌, leb, ltb, ◌==◌, if◌then◌else◌, put₂, Bool-cases, Option-cases, inl, inr,
}
use llcpp_exchange.Types.{me_max_tickers, me_max_order_ids}
use llcpp_exchange.Protocol.{MarketUpdateType, MeMarketUpdate}
use llcpp_exchange.Wire.{MdpMarketUpdate}
use llcpp_exchange.MarketData.Synthesizer.{
  SnapshotSynthesizer, apply_update, add_to_snapshot, as_add, walk_orders, walk_tickers,
  indexes_book, is_due, check_interval, check_time, publish_snapshot, run_once, run_rounds,
}

-- An order is in the slot of its ticker and its id, as the ADD that it came in.
abbrev pub IsKeyed : (ℕ → ℕ → Option MeMarketUpdate) → Type 0
IsKeyed slots =
    (t o : ℕ) (u : MeMarketUpdate)
    → slots t o ≡ some u
    → (u.ticker_id ≡ t) × (u.order_id ≡ o) × (u.type ≡ MarketUpdateType.add)

put₂-IsKeyed :
    (slots : ℕ → ℕ → Option MeMarketUpdate) (v : MeMarketUpdate)
    → IsKeyed slots
    → v.type ≡ MarketUpdateType.add
    → IsKeyed (put₂ slots v.ticker_id v.order_id (some v))
put₂-IsKeyed slots v k y t o u e = ground (arith, k t o u)

cleared-IsKeyed :
    (slots : ℕ → ℕ → Option MeMarketUpdate) (i j : ℕ)
    → IsKeyed slots
    → IsKeyed (put₂ slots i j none)
cleared-IsKeyed slots i j k t o u e = ground (arith, k t o u)

changed-IsKeyed :
    (slots : ℕ → ℕ → Option MeMarketUpdate) (i j q : ℕ) (v : MeMarketUpdate)
    → IsKeyed slots
    → slots i j ≡ some v
    → IsKeyed (put₂ slots i j (some (record v { qty = q })))
changed-IsKeyed slots i j q v k h t o u e = ground (arith, k t o u, k i j v h)

apply_update-IsKeyed :
    (y : MarketUpdateType) (u : MeMarketUpdate) (s s' : SnapshotSynthesizer)
    → u.type ≡ y
    → IsKeyed s.ticker_orders
    → apply_update y u s ≡ some s'
    → IsKeyed s'.ticker_orders
unfolding apply_update
apply_update-IsKeyed MarketUpdateType.add u s s' e k h t o v q =
    ground (arith, put₂-IsKeyed s.ticker_orders u k e t o v)
apply_update-IsKeyed MarketUpdateType.modify u s s' e k h t o v q =
    elim (Option-cases (s.ticker_orders u.ticker_id u.order_id)) [
      | inl n ↦ ground (arith, k t o v)
      | inr (w, n) ↦
          ground (arith, changed-IsKeyed s.ticker_orders u.ticker_id u.order_id u.qty w k n t o v)
    ]
apply_update-IsKeyed MarketUpdateType.cancel u s s' e k h t o v q =
    elim (Option-cases (s.ticker_orders u.ticker_id u.order_id)) [
      | inl n ↦ ground (arith, k t o v)
      | inr (w, n) ↦ ground (arith, cleared-IsKeyed s.ticker_orders u.ticker_id u.order_id k t o v)
    ]
apply_update-IsKeyed MarketUpdateType.invalid u s s' e k h t o v q = ground (arith, k t o v)
apply_update-IsKeyed MarketUpdateType.clear u s s' e k h t o v q = ground (arith, k t o v)
apply_update-IsKeyed MarketUpdateType.trade u s s' e k h t o v q = ground (arith, k t o v)
apply_update-IsKeyed MarketUpdateType.snapshot_start u s s' e k h t o v q = ground (arith, k t o v)
apply_update-IsKeyed MarketUpdateType.snapshot_end u s s' e k h t o v q = ground (arith, k t o v)

pub add_to_snapshot-IsKeyed :
    (m : MdpMarketUpdate) (s s' : SnapshotSynthesizer)
    → IsKeyed s.ticker_orders
    → add_to_snapshot m s ≡ some s'
    → IsKeyed s'.ticker_orders
unfolding add_to_snapshot
add_to_snapshot-IsKeyed m s s' k h t o v q =
    let u = m.me_market_update in
    let noted = record s { last_inc_seq_num = m.seq_num } in
    let out = leb me_max_tickers u.ticker_id || leb me_max_order_ids u.order_id in
    elim (Bool-cases (indexes_book u.type && out)) [
      | inl g ↦ ground (arith, k t o v)
      | inr g ↦
          let h' : apply_update u.type u noted ≡ some s' = ground arith in
          apply_update-IsKeyed u.type u noted s' refl k h' t o v q
    ]

pub publish_snapshot_orders :
    (now : ℕ) (s : SnapshotSynthesizer) → (publish_snapshot now s).1.ticker_orders ≡ s.ticker_orders
unfolding publish_snapshot
publish_snapshot_orders now s = refl

pub check_interval_orders :
    (now : ℕ) (s : SnapshotSynthesizer) → (check_interval now s).1.ticker_orders ≡ s.ticker_orders
unfolding check_interval
check_interval_orders now s = elim (Bool-cases (is_due now s)) [
  | inl d ↦ rw d (publish_snapshot_orders now s)
  | inr d ↦ rw d refl
]

pub check_time_orders :
    (now : ℕ) (s : SnapshotSynthesizer) → (check_time now s).1.ticker_orders ≡ s.ticker_orders
unfolding check_time
check_time_orders now s = elim (Bool-cases (s.last_snapshot_time == 0)) [
  | inl z ↦ rw z refl
  | inr z ↦ rw z (check_interval_orders now s)
]

pub run_once-IsKeyed :
    (now : ℕ) (m : Option MdpMarketUpdate) (s : SnapshotSynthesizer)
    (r : List MdpMarketUpdate × SnapshotSynthesizer)
    → IsKeyed s.ticker_orders
    → run_once now m s ≡ some r
    → IsKeyed r.1.ticker_orders
unfolding run_once
run_once-IsKeyed now none s r k h =
    let e : check_interval now s ≡ r = cc in
    subst (λ p. IsKeyed p.1.ticker_orders) e (subst IsKeyed (sym (check_interval_orders now s)) k)
run_once-IsKeyed now (some m) s r k h = elim (Option-cases (add_to_snapshot m s)) [
  | inl e ↦ absurd (ground arith)
  | inr (s', e) ↦
      let e' : check_time now s' ≡ r = ground arith in
      subst (λ p. IsKeyed p.1.ticker_orders) e'
        (subst IsKeyed (sym (check_time_orders now s')) (add_to_snapshot-IsKeyed m s s' k e))
]

pub run_rounds-IsKeyed :
    (rounds : List (ℕ × Option MdpMarketUpdate)) (s : SnapshotSynthesizer)
    (r : List MdpMarketUpdate × SnapshotSynthesizer)
    → IsKeyed s.ticker_orders
    → run_rounds rounds s ≡ some r
    → IsKeyed r.1.ticker_orders
unfolding run_rounds
run_rounds-IsKeyed [] s r k h t o v q = ground (arith, k t o v)
run_rounds-IsKeyed ((now, m) ∷ rounds) s r k h t o v q = elim (Option-cases (run_once now m s)) [
  | inl e ↦ absurd (ground arith)
  | inr ((sent, s'), e) ↦ elim (Option-cases (run_rounds rounds s')) [
    | inl e' ↦ absurd (ground arith)
    | inr (r', e') ↦
        let k' = run_once-IsKeyed now m s (sent, s') k e in
        ground (arith, run_rounds-IsKeyed rounds s' r' k' e' t o v)
  ]
]

-- The first update of an order.
abbrev pub lookup : ℕ → ℕ → List MeMarketUpdate → Option MeMarketUpdate
lookup t o [] = none
lookup t o (u ∷ us) = if u.ticker_id == t && u.order_id == o then some u else lookup t o us

abbrev pub or_else : Option MeMarketUpdate → Option MeMarketUpdate → Option MeMarketUpdate
or_else none b = b
or_else (some a) b = some a

pub lookup-append :
    (t o : ℕ) (xs ys : List MeMarketUpdate)
    → lookup t o (xs ++ ys) ≡ or_else (lookup t o xs) (lookup t o ys)
lookup-append t o [] ys = refl
lookup-append t o (x ∷ xs) ys = ground (arith, lookup-append t o xs ys)

lookup-as_add :
    (slots : ℕ → ℕ → Option MeMarketUpdate) (i j t o : ℕ)
    → IsKeyed slots
    → lookup t o (as_add (slots i j)) ≡ (if i == t && j == o then slots t o else none)
lookup-as_add slots i j t o k = elim (Option-cases (slots i j)) [
  | inl n ↦ ground arith
  | inr (w, n) ↦ ground (arith, k i j w n)
]

-- The part of one ticker, from `first` on.
lookup-walk_orders :
    (slots : ℕ → ℕ → Option MeMarketUpdate) (i count first t o : ℕ)
    → IsKeyed slots
    → lookup t o (walk_orders (slots i) count first)
      ≡ (if i == t && (leb first o && ltb o (first + count)) then slots t o else none)
unfolding walk_orders
lookup-walk_orders slots i zero first t o k = ground arith
lookup-walk_orders slots i (suc count) first t o k =
    lookup-append t o (as_add (slots i first)) (walk_orders (slots i) count (suc first))
    ∙ ground (
      arith,
      lookup-as_add slots i first t o k,
      lookup-walk_orders slots i count (suc first) t o k,
    )

pub lookup-walk_tickers :
    (slots : ℕ → ℕ → Option MeMarketUpdate) (ids count first t o : ℕ)
    → IsKeyed slots
    → o < ids
    → lookup t o (walk_tickers slots ids count first)
      ≡ (if leb first t && ltb t (first + count) then slots t o else none)
unfolding walk_tickers
lookup-walk_tickers slots ids zero first t o k h = ground arith
lookup-walk_tickers slots ids (suc count) first t o k h =
    lookup-append t o (walk_orders (slots first) ids 0) (walk_tickers slots ids count (suc first))
    ∙ ground (
      arith,
      lookup-walk_orders slots first ids 0 t o k,
      lookup-walk_tickers slots ids count (suc first) t o k h,
    )

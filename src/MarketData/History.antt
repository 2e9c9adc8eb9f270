-- ===== src/MarketData/History.antt =====
-- A snapshot against the incremental stream: what it says of each order is what the updates said.
use llcpp_exchange.Prelude.{
  ℕ, ◌+◌, ◌-◌, ◌≤◌, ◌<◌, ◌≡◌, refl, ap, ◌∙◌, ◌&&◌, ◌||◌, Option, none, some, List, [], ◌∷◌, ◌++◌,
  arith, leb, ◌==◌, if◌then◌else◌, put₂, length, Bool-cases, Option-cases, inl, inr,
}
use llcpp_exchange.Types.{me_max_tickers, me_max_order_ids}
use llcpp_exchange.Protocol.{MarketUpdateType, MeMarketUpdate}
use llcpp_exchange.Wire.{MdpMarketUpdate, next_seq}
use llcpp_exchange.MarketData.Synthesizer.{
  SnapshotSynthesizer, new_synthesizer, blank, numbered, apply_update, add_to_snapshot,
  walk_tickers, snapshot_cycle, indexes_book, check_interval, check_time, publish_snapshot,
  run_once, run_rounds, is_due,
}
use llcpp_exchange.MarketData.Snapshots.{
  lookup, lookup-append, lookup-walk_tickers, check_interval_orders, check_time_orders,
  run_rounds-IsKeyed,
}

-- What an update says of the order that it names, after what was known of it.
abbrev pub said : MarketUpdateType → MeMarketUpdate → Option MeMarketUpdate → Option MeMarketUpdate
said MarketUpdateType.add u known = some u
said MarketUpdateType.modify u none = none
said MarketUpdateType.modify u (some o) = some (record o { qty = u.qty })
said MarketUpdateType.cancel u known = none
said _ u known = known

-- What the updates read in some rounds say of one order.
abbrev pub history :
    (ticker_id order_id : ℕ)
    → List (ℕ × Option MdpMarketUpdate)
    → Option MeMarketUpdate
    → Option MeMarketUpdate
history t o [] known = known
history t o ((now, none) ∷ more) known = history t o more known
history t o ((now, some m) ∷ more) known =
    let u = m.me_market_update in
    history t o more (if u.ticker_id == t && u.order_id == o then said u.type u known else known)

-- The messages of a snapshot without their numbers.
abbrev pub contents : List MdpMarketUpdate → List MeMarketUpdate
contents [] = []
contents (m ∷ ms) = m.me_market_update ∷ contents ms

contents-numbered : (n : ℕ) (us : List MeMarketUpdate) → contents (numbered n us).0 ≡ us
unfolding numbered
contents-numbered n [] = refl
contents-numbered n (u ∷ us) = ap (λ l. u ∷ l) (contents-numbered (next_seq n) us)

-- One order after one update.
abbrev Said :
    ℕ → ℕ → MarketUpdateType → MeMarketUpdate → SnapshotSynthesizer → SnapshotSynthesizer → Type 0
Said t o y u s s' = s'.ticker_orders t o ≡ (
    if u.ticker_id == t && u.order_id == o
    then said y u (s.ticker_orders t o)
    else s.ticker_orders t o)

abbrev Noted :
    MarketUpdateType → MeMarketUpdate → SnapshotSynthesizer → Option SnapshotSynthesizer → Type 0
Noted y u s r =
    (s' : SnapshotSynthesizer) × (r ≡ some s')
    × (s'.order_pool ≤ s.order_pool + 1)
    × ((t o : ℕ) → Said t o y u s s')

apply_update-Noted :
    (y : MarketUpdateType) (u : MeMarketUpdate) (s : SnapshotSynthesizer)
    → s.order_pool < me_max_order_ids
    → Noted y u s (apply_update y u s)
unfolding apply_update
apply_update-Noted MarketUpdateType.add u s h = (
  record s {
    ticker_orders = put₂ s.ticker_orders u.ticker_id u.order_id (some u);
    order_pool = s.order_pool + 1;
  },
  ground arith,
  omega arith,
  λ t o. ground arith,
)
apply_update-Noted MarketUpdateType.modify u s h =
    elim (Option-cases (s.ticker_orders u.ticker_id u.order_id)) [
      | inl e ↦ (s, ground arith, omega arith, λ t o. ground (arith, e))
      | inr (w, e) ↦ (
        record s {
          ticker_orders =
              put₂ s.ticker_orders u.ticker_id u.order_id (some (record w { qty = u.qty }));
        },
        ground arith,
        omega arith,
        λ t o. ground (arith, e),
      )
    ]
apply_update-Noted MarketUpdateType.cancel u s h =
    elim (Option-cases (s.ticker_orders u.ticker_id u.order_id)) [
      | inl e ↦ (s, ground arith, omega arith, λ t o. ground (arith, e))
      | inr (w, e) ↦ (
        record s {
          ticker_orders = put₂ s.ticker_orders u.ticker_id u.order_id none;
          order_pool = s.order_pool - 1;
        },
        ground arith,
        omega arith,
        λ t o. ground (arith, e),
      )
    ]
apply_update-Noted MarketUpdateType.invalid u s h = (s, refl, omega arith, λ t o. ground arith)
apply_update-Noted MarketUpdateType.clear u s h = (s, refl, omega arith, λ t o. ground arith)
apply_update-Noted MarketUpdateType.trade u s h = (s, refl, omega arith, λ t o. ground arith)
apply_update-Noted MarketUpdateType.snapshot_start u s h =
    (s, refl, omega arith, λ t o. ground arith)
apply_update-Noted MarketUpdateType.snapshot_end u s h = (s, refl, omega arith, λ t o. ground arith)

-- After an update that is read, for the orders in the table.
abbrev Read : MdpMarketUpdate → SnapshotSynthesizer → Option SnapshotSynthesizer → Type 0
Read m s r =
    (s' : SnapshotSynthesizer) × (r ≡ some s')
    × (s'.order_pool ≤ s.order_pool + 1)
    × ((t o : ℕ)
        → t < me_max_tickers
        → o < me_max_order_ids
        → Said t o m.me_market_update.type m.me_market_update s s')

add_to_snapshot-Read :
    (m : MdpMarketUpdate) (s : SnapshotSynthesizer)
    → s.order_pool < me_max_order_ids
    → Read m s (add_to_snapshot m s)
unfolding add_to_snapshot
add_to_snapshot-Read m s h =
    let u = m.me_market_update in
    let noted = record s { last_inc_seq_num = m.seq_num } in
    let far = leb me_max_tickers u.ticker_id || leb me_max_order_ids u.order_id in
    elim (Bool-cases (indexes_book u.type && far)) [
      | inl g ↦ (noted, ground arith, omega arith, λ t o l k. ground (arith, g))
      | inr g ↦
          let (s', e, pool, all) = apply_update-Noted u.type u noted h in
          (s', ground (arith, g, e), pool, λ t o l k. all t o)
    ]

check_interval_pool :
    (now : ℕ) (s : SnapshotSynthesizer) → (check_interval now s).1.order_pool ≡ s.order_pool
unfolding check_interval publish_snapshot
check_interval_pool now s = elim (Bool-cases (is_due now s)) [
  | inl d ↦ rw d refl
  | inr d ↦ rw d refl
]

check_time_pool :
    (now : ℕ) (s : SnapshotSynthesizer) → (check_time now s).1.order_pool ≡ s.order_pool
unfolding check_time
check_time_pool now s = elim (Bool-cases (s.last_snapshot_time == 0)) [
  | inl z ↦ rw z refl
  | inr z ↦ rw z (check_interval_pool now s)
]

-- The rounds end without the FATAL of the pool, and a slot holds what the updates said.
abbrev Rounds :
    List (ℕ × Option MdpMarketUpdate)
    → SnapshotSynthesizer
    → Option (List MdpMarketUpdate × SnapshotSynthesizer)
    → Type 0
Rounds rounds s r =
    (sent : List MdpMarketUpdate) × (s' : SnapshotSynthesizer) × (r ≡ some (sent, s'))
    × ((t o : ℕ)
        → t < me_max_tickers
        → o < me_max_order_ids
        → s'.ticker_orders t o ≡ history t o rounds (s.ticker_orders t o))

run_rounds-Rounds :
    (rounds : List (ℕ × Option MdpMarketUpdate)) (s : SnapshotSynthesizer)
    → s.order_pool + length rounds ≤ me_max_order_ids
    → Rounds rounds s (run_rounds rounds s)
unfolding run_rounds run_once
run_rounds-Rounds [] s h = ([], s, refl, λ t o l k. refl)
run_rounds-Rounds ((now, none) ∷ more) s h =
    let first = check_interval now s in
    let pool = check_interval_pool now s in
    let (sent, s', e, all) = run_rounds-Rounds more first.1 (omega arith) in
    (
      first.0 ++ sent,
      s',
      rw (e, run_rounds) refl,
      λ t o l k.
          all t o l k ∙ ap (λ slots. history t o more (slots t o)) (check_interval_orders now s),
    )
run_rounds-Rounds ((now, some m) ∷ more) s h =
    let (s₁, e₁, grown, all₁) = add_to_snapshot-Read m s (omega arith) in
    let first = check_time now s₁ in
    let pool = check_time_pool now s₁ in
    let (sent, s', e, all) = run_rounds-Rounds more first.1 (omega arith) in
    (
      first.0 ++ sent,
      s',
      rw (e₁, e, run_rounds, run_once) refl,
      λ t o l k.
          all t o l k
          ∙ ap (λ slots. history t o more (slots t o)) (check_time_orders now s₁)
          ∙ ap (history t o more) (all₁ t o l k),
    )

lookup-cycle :
    (s : SnapshotSynthesizer) (t o : ℕ)
    → t < me_max_tickers
    → lookup t o (snapshot_cycle s)
      ≡ lookup t o (walk_tickers s.ticker_orders me_max_order_ids me_max_tickers 0)
unfolding snapshot_cycle
lookup-cycle s t o l =
    let walk = walk_tickers s.ticker_orders me_max_order_ids me_max_tickers 0 in
    let close = blank MarketUpdateType.snapshot_end s.last_inc_seq_num in
    ground (arith, lookup-append t o walk (close ∷ []))

lookup-publish :
    (now : ℕ) (s : SnapshotSynthesizer) (t o : ℕ)
    → t < me_max_tickers
    → lookup t o (contents (publish_snapshot now s).0)
      ≡ lookup t o (walk_tickers s.ticker_orders me_max_order_ids me_max_tickers 0)
unfolding publish_snapshot
lookup-publish now s t o l =
    ap (lookup t o) (contents-numbered s.next_snap_seq_num (snapshot_cycle s))
    ∙ lookup-cycle s t o l

-- After rounds of the synthesizer from the start, its next snapshot tells the incremental stream.
abbrev pub TellsHistory : List (ℕ × Option MdpMarketUpdate) → ℕ → Type 0
TellsHistory rounds now =
    (sent : List MdpMarketUpdate) × (s : SnapshotSynthesizer) × (run_rounds rounds new_synthesizer
      ≡ some (sent, s))
    × ((t o : ℕ)
        → t < me_max_tickers
        → o < me_max_order_ids
        → lookup t o (contents (publish_snapshot now s).0) ≡ history t o rounds none)

-- At most as many rounds of the loop from the start as the pool has blocks return, at any times and
-- with any updates read. The messages that a snapshot sends then say of each order, by its ticker
-- below 8 and its id below 2^20, what the updates read said of it, in the order in which they were
-- read: the last ADD with the quantity of the last MODIFY behind it, and nothing when no ADD came
-- after the last CANCEL.
pub run_rounds-TellsHistory :
    (rounds : List (ℕ × Option MdpMarketUpdate)) (now : ℕ)
    → length rounds ≤ me_max_order_ids
    → TellsHistory rounds now
run_rounds-TellsHistory rounds now few =
    let (sent, s, e, all) = run_rounds-Rounds rounds new_synthesizer (omega arith) in
    let keyed =
      run_rounds-IsKeyed rounds new_synthesizer (sent, s) (λ i j u h. absurd (ground arith)) e in
    (
      sent,
      s,
      e,
      λ t o l k.
          lookup-publish now s t o l
          ∙ (lookup-walk_tickers s.ticker_orders me_max_order_ids me_max_tickers 0 t o keyed k
              ∙ (ground arith ∙ all t o l k)),
    )

-- ===== src/MarketData/Synthesizer.antt =====
-- SnapshotSynthesizer. A slot of `ticker_orders_` holds what its pointer refers to, and the pool is
-- the number of its blocks in use; the clock is a parameter of a round of the loop.
use llcpp_exchange.Prelude.{
  ℕ, zero, suc, ◌+◌, ◌-◌, ◌*◌, ◌^◌, Bool, true, false, ◌&&◌, ◌||◌, Option, none, some, List, [],
  ◌∷◌, ◌++◌, ltb, leb, ◌==◌, if◌then◌else◌, put₂,
}
use llcpp_exchange.Types.{Side, me_max_tickers, me_max_order_ids, invalid_u32, invalid_u64}
use llcpp_exchange.Protocol.{MarketUpdateType, MeMarketUpdate}
use llcpp_exchange.Wire.{MdpMarketUpdate, next_seq}

pub record SnapshotSynthesizer : Type 0 where
  pub ticker_orders : ℕ → ℕ → Option MeMarketUpdate
  pub order_pool : ℕ
  pub last_inc_seq_num : ℕ
  pub next_snap_seq_num : ℕ
  pub last_snapshot_time : ℕ

abbrev pub new_synthesizer : SnapshotSynthesizer
new_synthesizer = record {
  ticker_orders = λ t o. none;
  order_pool = 0;
  last_inc_seq_num = 0;
  next_snap_seq_num = 1;
  last_snapshot_time = 0;
}

abbrev pub indexes_book : MarketUpdateType → Bool
indexes_book MarketUpdateType.add = true
indexes_book MarketUpdateType.modify = true
indexes_book MarketUpdateType.cancel = true
indexes_book _ = false

-- The switch on the type. `none` is the pool's FATAL when it has no block left.
unfoldable pub apply_update :
    MarketUpdateType → MeMarketUpdate → SnapshotSynthesizer → Option SnapshotSynthesizer
apply_update MarketUpdateType.add u s =
    if leb me_max_order_ids s.order_pool
    then none
    else some (record s {
      ticker_orders = put₂ s.ticker_orders u.ticker_id u.order_id (some u);
      order_pool = s.order_pool + 1;
    })
apply_update MarketUpdateType.modify u s = elim (s.ticker_orders u.ticker_id u.order_id) [
  | none ↦ some s
  | some o ↦ some (record s {
    ticker_orders = put₂ s.ticker_orders u.ticker_id u.order_id (some (record o { qty = u.qty }));
  })
]
apply_update MarketUpdateType.cancel u s = elim (s.ticker_orders u.ticker_id u.order_id) [
  | none ↦ some s
  | some o ↦ some (record s {
    ticker_orders = put₂ s.ticker_orders u.ticker_id u.order_id none;
    order_pool = s.order_pool - 1;
  })
]
apply_update _ u s = some s

unfoldable pub add_to_snapshot : MdpMarketUpdate → SnapshotSynthesizer → Option SnapshotSynthesizer
unfolding apply_update
add_to_snapshot m s =
    let u = m.me_market_update in
    let noted = record s { last_inc_seq_num = m.seq_num } in
    if indexes_book u.type && (leb me_max_tickers u.ticker_id || leb me_max_order_ids u.order_id)
    then some noted
    else apply_update u.type u noted

-- `MEMarketUpdate{}` with a type and an order id.
abbrev pub blank : MarketUpdateType → ℕ → MeMarketUpdate
blank y o = record {
  type = y;
  ticker_id = invalid_u32;
  side = Side.invalid;
  price = invalid_u64;
  qty = invalid_u32;
  order_id = o;
  priority = invalid_u64;
}

-- Messages with their numbers, and the next number.
unfoldable pub numbered : ℕ → List MeMarketUpdate → List MdpMarketUpdate × ℕ
numbered n [] = ([], n)
numbered n (u ∷ us) =
    let later = numbered (next_seq n) us in
    (record { seq_num = n; me_market_update = u } ∷ later.0, later.1)

-- The order in a slot, as the walk emits it.
abbrev pub as_add : Option MeMarketUpdate → List MeMarketUpdate
as_add none = []
as_add (some o) = record o { type = MarketUpdateType.add } ∷ []

-- `for (oid = first; oid < first + count; ++oid)` over the slots of one ticker.
unfoldable pub walk_orders : (ℕ → Option MeMarketUpdate) → ℕ → ℕ → List MeMarketUpdate
walk_orders slots zero first = []
walk_orders slots (suc count) first = as_add (slots first) ++ walk_orders slots count (suc first)

unfoldable pub walk_tickers : (ℕ → ℕ → Option MeMarketUpdate) → ℕ → ℕ → ℕ → List MeMarketUpdate
unfolding walk_orders
walk_tickers slots ids zero first = []
walk_tickers slots ids (suc count) first =
    walk_orders (slots first) ids 0 ++ walk_tickers slots ids count (suc first)

-- The messages of one cycle: SNAPSHOT_START goes out in the message that CLEAR was, with its type
-- changed.
unfoldable pub snapshot_cycle : SnapshotSynthesizer → List MeMarketUpdate
snapshot_cycle s =
    blank MarketUpdateType.clear invalid_u64
    ∷ blank MarketUpdateType.snapshot_start invalid_u64
    ∷ (walk_tickers s.ticker_orders me_max_order_ids me_max_tickers 0
        ++ (blank MarketUpdateType.snapshot_end s.last_inc_seq_num ∷ []))

-- `publishSnapshot` at the time `now`.
unfoldable pub publish_snapshot :
    ℕ → SnapshotSynthesizer → List MdpMarketUpdate × SnapshotSynthesizer
publish_snapshot now s =
    let sent = numbered s.next_snap_seq_num (snapshot_cycle s) in
    (sent.0, record s { next_snap_seq_num = sent.1; last_snapshot_time = now })

abbrev pub snapshot_interval : ℕ
snapshot_interval = 60 * 10 ^ 9

-- A time is a signed count of nanoseconds; these are the ones that are not negative.
abbrev pub is_due : ℕ → SnapshotSynthesizer → Bool
is_due now s = ltb 0 s.last_snapshot_time && ltb (s.last_snapshot_time + snapshot_interval) now

-- The check when there is no update to read.
unfoldable pub check_interval : ℕ → SnapshotSynthesizer → List MdpMarketUpdate × SnapshotSynthesizer
check_interval now s = if is_due now s then publish_snapshot now s else ([], s)

-- The check after an update; the first one only sets the time.
unfoldable pub check_time : ℕ → SnapshotSynthesizer → List MdpMarketUpdate × SnapshotSynthesizer
check_time now s =
    if s.last_snapshot_time == 0
    then ([], record s { last_snapshot_time = now })
    else check_interval now s

-- A round of the loop of `run`, with the update it reads, if there is one.
unfoldable pub run_once :
    ℕ
    → Option MdpMarketUpdate
    → SnapshotSynthesizer
    → Option (List MdpMarketUpdate × SnapshotSynthesizer)
run_once now none s = some (check_interval now s)
run_once now (some m) s = elim (add_to_snapshot m s) [
  | none ↦ none
  | some s' ↦ some (check_time now s')
]

-- Rounds of the loop, each with the time and what it reads; all that is sent, in order.
unfoldable pub run_rounds :
    List (ℕ × Option MdpMarketUpdate)
    → SnapshotSynthesizer
    → Option (List MdpMarketUpdate × SnapshotSynthesizer)
run_rounds [] s = some ([], s)
run_rounds ((now, m) ∷ rounds) s = elim (run_once now m s) [
  | none ↦ none
  | some (sent, s') ↦ elim (run_rounds rounds s') [
    | none ↦ none
    | some (later, s'') ↦ some (sent ++ later, s'')
  ]
]

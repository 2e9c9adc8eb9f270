-- ===== src/MarketData/Consumer.antt =====
-- MarketDataConsumer. The queue to the book is the list of the updates published on it, the
-- sockets are outside the model. The frames of the incremental stream are parsed as in Framing; what
-- the end of a recovery does to the buffer of the snapshot stream is in SnapshotRead.
use llcpp_exchange.Prelude.{
  ℕ, Bool, true, false, not, ◌&&◌, List, [], ◌∷◌, ◌++◌, ltb, ◌==◌, if◌then◌else◌,
}
use llcpp_exchange.Protocol.{MarketUpdateType, MeMarketUpdate}
use llcpp_exchange.Wire.{MdpMarketUpdate, next_seq}
use llcpp_exchange.MarketData.Buffer.{Entry, insert, drain_contiguous, replay_buffered}

pub record MarketDataConsumer : Type 0 where
  pub next_exp_inc_seq_num : ℕ
  pub in_recovery : Bool
  pub out_of_order_buf : List Entry
  pub snapshot_armed : Bool
  pub in_snapshot : Bool
  pub snapshot_last_seen : ℕ
  pub pending_last_inc_seq : ℕ

abbrev pub new_consumer : MarketDataConsumer
new_consumer = record {
  next_exp_inc_seq_num = 1;
  in_recovery = false;
  out_of_order_buf = [];
  snapshot_armed = false;
  in_snapshot = false;
  snapshot_last_seen = 0;
  pending_last_inc_seq = 0;
}

abbrev pub start_recovery : MarketDataConsumer → MarketDataConsumer
start_recovery c = if c.in_recovery then c else record c {
  in_recovery = true;
  snapshot_armed = false;
  in_snapshot = false;
  snapshot_last_seen = 0;
}

abbrev pub buffered : MdpMarketUpdate → MarketDataConsumer → MarketDataConsumer
buffered m c = record c {
  out_of_order_buf = insert m.seq_num m.me_market_update c.out_of_order_buf;
}

-- What is published downstream, and the state after.
unfoldable pub process_incremental :
    MdpMarketUpdate → MarketDataConsumer → List MeMarketUpdate × MarketDataConsumer
unfolding drain_contiguous insert
process_incremental m c =
    if c.in_recovery
    then ([], buffered m c)
    else (if m.seq_num == c.next_exp_inc_seq_num
        then (let d = drain_contiguous (next_seq c.next_exp_inc_seq_num) c.out_of_order_buf in
            (
              m.me_market_update ∷ d.published,
              record c { next_exp_inc_seq_num = d.next_exp; out_of_order_buf = d.left },
            ))
        else (if ltb m.seq_num c.next_exp_inc_seq_num
            then ([], c)
            else ([], start_recovery (buffered m c))))

-- Without the `destroy` of the snapshot socket, which is in SnapshotRead.
unfoldable pub finish_recovery : ℕ → MarketDataConsumer → List MeMarketUpdate × MarketDataConsumer
unfolding replay_buffered
finish_recovery last_inc_seq_num c =
    let d = replay_buffered (next_seq last_inc_seq_num) c.out_of_order_buf in
    (
      d.published,
      record c {
        next_exp_inc_seq_num = d.next_exp;
        out_of_order_buf = d.left;
        snapshot_armed = false;
        in_snapshot = false;
        in_recovery = false;
      },
    )

-- The cases of the switch on the type of a snapshot message.
unfoldable pub snapshot_case :
    MarketUpdateType
    → MdpMarketUpdate
    → MarketDataConsumer
    → List MeMarketUpdate × MarketDataConsumer
unfolding finish_recovery
snapshot_case MarketUpdateType.clear m c = (
  m.me_market_update ∷ [],
  record c { in_snapshot = false; snapshot_armed = true; snapshot_last_seen = m.seq_num },
)
snapshot_case MarketUpdateType.snapshot_start m c =
    if c.snapshot_armed && (m.seq_num == next_seq c.snapshot_last_seen)
    then (
      [],
      record c { in_snapshot = true; snapshot_last_seen = m.seq_num; snapshot_armed = false },
    )
    else ([], record c { in_snapshot = false; snapshot_armed = false })
snapshot_case MarketUpdateType.add m c =
    if c.in_snapshot
    then (if m.seq_num == next_seq c.snapshot_last_seen
        then (m.me_market_update ∷ [], record c { snapshot_last_seen = m.seq_num })
        else ([], record c { in_snapshot = false }))
    else ([], c)
snapshot_case MarketUpdateType.snapshot_end m c =
    let last = m.me_market_update.order_id in
    if c.in_snapshot
    then (if m.seq_num == next_seq c.snapshot_last_seen
        then finish_recovery last
            (record c { snapshot_last_seen = m.seq_num; pending_last_inc_seq = last })
        else ([], record c { in_snapshot = false }))
    else ([], c)
snapshot_case _ m c = ([], c)

unfoldable pub process_snapshot :
    MdpMarketUpdate → MarketDataConsumer → List MeMarketUpdate × MarketDataConsumer
unfolding snapshot_case
process_snapshot m c =
    if not c.in_recovery then ([], c) else snapshot_case m.me_market_update.type m c

-- A message of either stream, in the order in which they are handled.
pub data StreamMessage : Type 0 where
  incremental snapshot : MdpMarketUpdate → StreamMessage

unfoldable pub on_message :
    StreamMessage → MarketDataConsumer → List MeMarketUpdate × MarketDataConsumer
unfolding process_incremental process_snapshot
on_message (incremental m) c = process_incremental m c
on_message (snapshot m) c = process_snapshot m c

unfoldable pub on_messages :
    List StreamMessage → MarketDataConsumer → List MeMarketUpdate × MarketDataConsumer
unfolding on_message
on_messages [] c = ([], c)
on_messages (m ∷ ms) c =
    let first = on_message m c in
    let later = on_messages ms first.1 in (first.0 ++ later.0, later.1)

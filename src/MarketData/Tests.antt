-- ===== src/MarketData/Tests.antt =====
-- A stream of five updates with a loss, and the snapshot that repairs it.
use llcpp_exchange.Prelude.{
  ℕ, ◌+◌, ◌*◌, ◌++◌, none, ◌≡◌, refl, true, false, Option, some, List, [], ◌∷◌, map, arith, ◌==◌,
  if◌then◌else◌, put₂,
}
use llcpp_exchange.Types.{Side}
use llcpp_exchange.Protocol.{MarketUpdateType, MeMarketUpdate}
use llcpp_exchange.Wire.{MdpMarketUpdate}
use llcpp_exchange.MarketData.Publisher.{new_publisher, poll}
use llcpp_exchange.MarketData.Synthesizer.{SnapshotSynthesizer, new_synthesizer, publish_snapshot}
use llcpp_exchange.MarketData.Consumer.{
  MarketDataConsumer, StreamMessage, incremental, snapshot, new_consumer, process_snapshot,
  on_messages,
}
use llcpp_exchange.MarketData.Told.{Told}
use llcpp_exchange.MarketData.Recovery.{on_messages-Told}
use llcpp_exchange.MarketData.Restored.{poll-on_messages}
use llcpp_exchange.MarketData.SnapshotRead.{
  SnapshotRead, reading, recv_snapshot, recv_snapshot_runs_on,
}
use llcpp_exchange.MarketData.Repaired.{Repaired, publish_snapshot-Repaired}
use llcpp_exchange.MarketData.History.{history, TellsHistory, run_rounds-TellsHistory}
use llcpp_exchange.MarketData.Ahead.{Ready, on_messages-Ready}

abbrev update : MarketUpdateType → ℕ → MeMarketUpdate
update y o = record {
  type = y;
  ticker_id = 0;
  side = Side.buy;
  price = 100;
  qty = 10;
  order_id = o;
  priority = 1;
}

-- The incremental stream.
abbrev inc : ℕ → MeMarketUpdate
inc n = update MarketUpdateType.add n

-- One cycle with the order 1, up to the number 1 of the other stream.
abbrev snap : ℕ → MeMarketUpdate
snap n =
    if n == 1
    then update MarketUpdateType.clear 0
    else (if n == 2
        then update MarketUpdateType.snapshot_start 0
        else (if n == 3
            then update MarketUpdateType.add 1
            else update MarketUpdateType.snapshot_end 1))

abbrev on_inc : ℕ → StreamMessage
on_inc n = incremental (record { seq_num = n; me_market_update = inc n })

abbrev on_snap : ℕ → StreamMessage
on_snap n = snapshot (record { seq_num = n; me_market_update = snap n })

-- The number 2 is late, and the rest comes twice and out of order.
abbrev received : List StreamMessage
received =
    on_inc 1
    ∷ on_inc 3
    ∷ on_snap 1
    ∷ on_inc 2
    ∷ on_snap 2
    ∷ on_inc 3
    ∷ on_snap 3
    ∷ on_snap 4
    ∷ on_inc 2
    ∷ on_inc 4
    ∷ []

on_messages-Told_example :
    Told inc snap (on_messages received new_consumer).1 (on_messages received new_consumer).0
on_messages-Told_example = on_messages-Told inc snap received ground arith

on_messages-Ready_example : Ready (on_messages received new_consumer).1
on_messages-Ready_example = on_messages-Ready received ground arith

-- It ends in steady state, having told the book of 1, the image, 2, 3 and 4.
recovers :
    ((on_messages received new_consumer).1.in_recovery ≡ false)
    × ((on_messages received new_consumer).1.next_exp_inc_seq_num ≡ 5)
    × ((on_messages received new_consumer).0 ≡ inc 1 ∷ snap 1 ∷ snap 3 ∷ inc 2 ∷ inc 3 ∷ inc 4 ∷ [])
unfolding on_messages
recovers = (refl, refl, refl)

abbrev updates : List MeMarketUpdate
updates = inc 1 ∷ inc 2 ∷ []

poll-on_messages_example :
    on_messages (map incremental (poll updates new_publisher).0) new_consumer ≡ (
      updates,
      record new_consumer {
        next_exp_inc_seq_num = (poll updates new_publisher).1.next_inc_seq_num;
        out_of_order_buf = [];
      },
    )
poll-on_messages_example = poll-on_messages updates new_publisher new_consumer refl refl refl

abbrev read : ℕ → MeMarketUpdate → Option MdpMarketUpdate
read n u = some (record { seq_num = n; me_market_update = u })

-- Two orders come, the first changes, the second goes; one round reads nothing.
abbrev rounds : List (ℕ × Option MdpMarketUpdate)
rounds =
    (5, read 1 (inc 1))
    ∷ (6, read 2 (inc 2))
    ∷ (7, none)
    ∷ (8, read 3 (record (update MarketUpdateType.modify 1) { qty = 4 }))
    ∷ (9, read 4 (update MarketUpdateType.cancel 2))
    ∷ []

run_rounds-TellsHistory_example : TellsHistory rounds 10
run_rounds-TellsHistory_example = run_rounds-TellsHistory rounds 10 (omega arith)

-- The history of the first order.
changed : history 0 1 rounds none ≡ some (record (inc 1) { qty = 4 })
changed = refl

abbrev kept : SnapshotSynthesizer
kept = record {
  ticker_orders = put₂ new_synthesizer.ticker_orders 0 1 (some (inc 1));
  order_pool = 1;
  last_inc_seq_num = 1;
  next_snap_seq_num = 1;
  last_snapshot_time = 5;
}

-- It has lost the number 1, and holds 2, 3 and 5.
abbrev lost : MarketDataConsumer
lost = record new_consumer {
  in_recovery = true;
  out_of_order_buf =
      record { seq = 2; update = inc 2 }
      ∷ record { seq = 3; update = inc 3 }
      ∷ record { seq = 5; update = inc 5 }
      ∷ [];
}

publish_snapshot-Repaired_example :
    Repaired kept lost (on_messages (map snapshot (publish_snapshot 6 kept).0) lost)
publish_snapshot-Repaired_example =
    publish_snapshot-Repaired 6 kept lost refl (λ t o u e. ground arith) (omega arith) ground arith
      ground arith

-- The end of a cycle is the only frame in the buffer.
abbrev ending : SnapshotRead
ending = record {
  consumer = record lost { in_snapshot = true; snapshot_last_seen = 3 };
  next_rcv_valid_index = 54;
  offset = 0;
  published = [];
}

abbrev last_frame : ℕ → MdpMarketUpdate
last_frame i = record { seq_num = 4; me_market_update = update MarketUpdateType.snapshot_end 1 }

recv_snapshot_runs_on_example :
    recv_snapshot 54 last_frame 1001 ending
    ≡ reading (record {
      consumer = (process_snapshot (last_frame 0) ending.consumer).1;
      next_rcv_valid_index = 0;
      offset = 0 + 54 + 1000 * 54;
      published = [] ++ (process_snapshot (last_frame 0) ending.consumer).0;
    })
unfolding process_snapshot
recv_snapshot_runs_on_example =
    recv_snapshot_runs_on 54 last_frame 1000 ending (omega arith) (omega arith) (omega arith) refl
      refl (omega arith)

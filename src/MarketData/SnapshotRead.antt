-- ===== src/MarketData/SnapshotRead.antt =====
-- MarketDataConsumer::recvSnapshot. Its handler may call `destroy` of the socket whose buffer the loop
-- reads, so it has a model of its own: the bytes in the buffer are known by what `memcpy` makes of them
-- at each offset, and the two indices are `size_t`s. Past the buffer the code's reads are undefined:
-- there the model has arbitrary frames.
use llcpp_exchange.Prelude.{
  ℕ, zero, suc, ◌+◌, ◌-◌, ◌*◌, ◌%◌, ◌^◌, ◌≤◌, ◌<◌, ◌≡◌, refl, ap, ◌∙◌, Bool, true, false, not, ◌&&◌,
  List, [], ◌++◌, arith, leb, if◌then◌else◌,
}
use mathlib.Core.List.{append-nil}
use llcpp_exchange.Protocol.{MeMarketUpdate}
use llcpp_exchange.Wire.{MdpMarketUpdate}
use llcpp_exchange.MarketData.Consumer.{MarketDataConsumer, process_snapshot}

-- The size of the receive buffer.
abbrev pub mcast_buffer_size : ℕ
mcast_buffer_size = 64 * 1024 * 1024

pub record SnapshotRead : Type 0 where
  pub consumer : MarketDataConsumer
  pub next_rcv_valid_index : ℕ
  pub offset : ℕ
  pub published : List MeMarketUpdate

-- What comes of a number of rounds: the loop has ended, or it has not.
pub data Reading : Type 0 where
  ended : SnapshotRead → Reading
  reading : SnapshotRead → Reading

-- `size` is `sizeof(MDPMarketUpdate)`, `frame` what the bytes from an offset on decode to.
module _ (size : ℕ) (frame : ℕ → MdpMarketUpdate) where
  -- `next_rcv_valid_index_ - offset >= size` on unsigned numbers.
  unfoldable pub frame_left : SnapshotRead → Bool
  frame_left r = leb size ((2 ^ 64 + r.next_rcv_valid_index - r.offset) % 2 ^ 64)

  -- The body. The end of the recovery destroys the socket, which clears the index of the buffer.
  unfoldable pub read_frame : SnapshotRead → SnapshotRead
  unfolding process_snapshot
  read_frame r =
      let (sent, c) = process_snapshot (frame r.offset) r.consumer in
      record {
        consumer = c;
        next_rcv_valid_index =
            if r.consumer.in_recovery && not c.in_recovery then 0 else r.next_rcv_valid_index;
        offset = (r.offset + size) % 2 ^ 64;
        published = r.published ++ sent;
      }

  -- The loop, and the index after the rest of the buffer has been moved to its front.
  unfoldable pub recv_snapshot : (rounds : ℕ) → SnapshotRead → Reading
  unfolding frame_left read_frame
  recv_snapshot zero r = reading r
  recv_snapshot (suc rounds) r =
      let later = recv_snapshot rounds (read_frame r) in
      if frame_left r
      then later
      else ended (record r {
        next_rcv_valid_index = (2 ^ 64 + r.next_rcv_valid_index - r.offset) % 2 ^ 64;
      })

  idle_reads_on :
      (rounds : ℕ) (r : SnapshotRead)
      → 0 < size
      → r.consumer.in_recovery ≡ false
      → r.next_rcv_valid_index ≡ 0
      → 0 < r.offset
      → r.offset + rounds * size + size ≤ 2 ^ 64
      → recv_snapshot rounds r ≡ reading (record r { offset = r.offset + rounds * size })
  unfolding recv_snapshot frame_left read_frame process_snapshot
  idle_reads_on zero r pos idle empty begun room =
      ap (λ x. reading (record r { offset = x })) (omega arith)
  idle_reads_on (suc rounds) r pos idle empty begun room =
      let more : suc rounds * size ≡ rounds * size + size = grind arith in
      let left : frame_left r ≡ true = ground (arith, empty) in
      let r' : SnapshotRead = record r { offset = r.offset + size } in
      let quiet : process_snapshot (frame r.offset) r.consumer ≡ ([], r.consumer) =
        rw (idle, process_snapshot) refl in
      let next : (r.offset + size) % 2 ^ 64 ≡ r.offset + size = omega arith in
      let step : read_frame r ≡ r' =
        ap
          (λ (p : List MeMarketUpdate × MarketDataConsumer). record {
            consumer = p.1;
            next_rcv_valid_index =
                if r.consumer.in_recovery && not p.1.in_recovery then 0 else r.next_rcv_valid_index;
            offset = (r.offset + size) % 2 ^ 64;
            published = r.published ++ p.0;
          })
          quiet
        ∙ rw (idle, next, append-nil r.published) refl in
      let ih = idle_reads_on rounds r' pos idle empty (omega arith) (omega arith) in
      rw (left, recv_snapshot)
        (ap (recv_snapshot rounds) step
          ∙ ih
          ∙ ap (λ x. reading (record r { offset = x })) (omega arith))

  -- A consumer in recovery reads a frame of its buffer, which has at most the 64 MiB of the default profile, and the frame ends
  -- the recovery. Then the loop of recvSnapshot does not end with the last frame of the buffer: with
  -- the index of the buffer cleared, it is at work after every further number of rounds up to the end
  -- of the 64 bits, at offsets that go on by a frame each round, and publishes nothing more.
  pub recv_snapshot_runs_on :
      (rounds : ℕ) (r : SnapshotRead)
      → 0 < size
      → r.offset + size ≤ r.next_rcv_valid_index
      → r.next_rcv_valid_index ≤ mcast_buffer_size
      → r.consumer.in_recovery ≡ true
      → (process_snapshot (frame r.offset) r.consumer).1.in_recovery ≡ false
      → r.offset + size + rounds * size + size ≤ 2 ^ 64
      → recv_snapshot (suc rounds) r
        ≡ reading (record {
          consumer = (process_snapshot (frame r.offset) r.consumer).1;
          next_rcv_valid_index = 0;
          offset = r.offset + size + rounds * size;
          published = r.published ++ (process_snapshot (frame r.offset) r.consumer).0;
        })
  unfolding recv_snapshot frame_left read_frame
  recv_snapshot_runs_on rounds r pos fits small busy done room =
      let r' : SnapshotRead = record {
        consumer = (process_snapshot (frame r.offset) r.consumer).1;
        next_rcv_valid_index = 0;
        offset = r.offset + size;
        published = r.published ++ (process_snapshot (frame r.offset) r.consumer).0;
      } in
      let left : frame_left r ≡ true = ground arith in
      let step : read_frame r ≡ r' = ground (arith, busy, done) in
      let rest = idle_reads_on rounds r' pos done refl (omega arith) room in
      rw (left, recv_snapshot) (ap (recv_snapshot rounds) step ∙ rest)

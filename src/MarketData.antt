-- ===== src/MarketData.antt =====
-- The market data path: Exchange/market_data/market_data_publisher.cpp numbers the updates,
-- Exchange/market_data/snapshot_synthesizer.cpp rebuilds the book for snapshots, and
-- trading/market_data/market_data_consumer.cpp puts the two streams together again.
pub mod Publisher
pub mod Synthesizer
pub mod Snapshots
pub mod Ahead
pub mod Buffer
pub mod Consumer
pub mod SnapshotRead
pub mod Spans
pub mod Replayed
pub mod Image
pub mod Recovery
pub mod Restored
pub mod Repaired
pub mod History
pub mod Told
mod Tests

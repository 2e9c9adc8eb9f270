-- ===== src/Framing.antt =====
-- The receive buffers of fixed-size frames, as `OrderServer::recvCallback`,
-- `OrderGateway::recvCallback` and `MarketDataConsumer::recvIncremental` parse them. The loop of
-- `recvSnapshot` has the same text, but its handler may clear the buffer's index: it is in
-- MarketData/SnapshotRead.
pub mod Buffer
pub mod Stream
mod Tests

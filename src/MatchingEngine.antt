-- ===== src/MatchingEngine.antt =====
-- Exchange/matcher/matching_engine.{h,cpp}: the requests of all tickers, one after the other.
-- `Engine` has the code, `Runs` what holds of the books along a run,
-- `Sending` and `Delivery` have the two outgoing queues.
pub mod Engine
pub mod Runs
pub mod Sending
pub mod Delivery
mod Tests

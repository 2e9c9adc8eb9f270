-- ===== src/TradeEngine.antt =====
-- trading/strategy/trade_engine.{h,cpp}: the market updates on the client's books.
pub mod Books
pub mod Tickers
pub mod Following
pub mod BestPrices
pub mod Clearing
mod Tests

-- ===== src/MarketOrderBook.antt =====
-- trading/strategy/market_order_book.{h,cpp}, market_order.h: the book that a client rebuilds from
-- the market updates.
pub mod Book
pub mod Update
pub mod Best
pub mod View
pub mod Image
pub mod Mirror
pub mod Steps
pub mod Follow
pub mod Rest
pub mod Loop
pub mod Requests
pub mod Clear
pub mod Sample
mod Tests

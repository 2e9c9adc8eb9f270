-- ===== src/OrderManager.antt =====
-- trading/strategy/order_manager.{h,cpp} and om_order.h: a client's orders, one per ticker and side.
pub mod Manager
pub mod Ids
mod Tests

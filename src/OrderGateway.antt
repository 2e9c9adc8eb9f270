-- ===== src/OrderGateway.antt =====
-- trading/order_gw/order_gateway.cpp: a client's end of its session, and the two ends together.
pub mod Gateway
pub mod Session
mod Tests

-- ===== src/OrderServer.antt =====
-- Exchange/order_server/order_server.cpp: the sessions of the clients, the requests they send, and
-- the responses sent back.
pub mod Server
pub mod Sessions
pub mod Isolation
mod Tests

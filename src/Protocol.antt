-- ===== src/Protocol.antt =====
-- The messages: order_server/client_request.h, order_server/client_response.h and
-- market_data/market_update.h of Exchange. Ids, prices and quantities are numbers.
use llcpp_exchange.Prelude.{ℕ}
use llcpp_exchange.Types.{Side}

pub data ClientRequestType : Type 0 where
  invalid new cancel shutdown : ClientRequestType

pub record MeClientRequest : Type 0 where
  pub type : ClientRequestType
  pub client_id : ℕ
  pub ticker_id : ℕ
  pub order_id : ℕ
  pub side : Side
  pub price : ℕ
  pub qty : ℕ

pub data ClientResponseType : Type 0 where
  invalid accepted canceled filled cancel_rejected : ClientResponseType

pub record MeClientResponse : Type 0 where
  pub type : ClientResponseType
  pub client_id : ℕ
  pub ticker_id : ℕ
  pub client_order_id : ℕ
  pub market_order_id : ℕ
  pub side : Side
  pub price : ℕ
  pub exec_qty : ℕ
  pub leaves_qty : ℕ

pub data MarketUpdateType : Type 0 where
  invalid clear add modify cancel trade snapshot_start snapshot_end : MarketUpdateType

pub record MeMarketUpdate : Type 0 where
  pub type : MarketUpdateType
  pub ticker_id : ℕ
  pub side : Side
  pub price : ℕ
  pub qty : ℕ
  pub order_id : ℕ
  pub priority : ℕ

-- ===== src/Wire.antt =====
-- The messages as they travel between processes: OMClientRequest and OMClientResponse of
-- Exchange/order_server, MDPMarketUpdate of Exchange/market_data, each with its sequence number,
-- a `size_t` of 64 bits.
use llcpp_exchange.Prelude.{ℕ, ◌+◌, ◌%◌, ◌^◌}
use llcpp_exchange.Protocol.{MeClientRequest, MeClientResponse, MeMarketUpdate}

pub record OmClientRequest : Type 0 where
  pub seq_num : ℕ
  pub me_client_request : MeClientRequest

pub record OmClientResponse : Type 0 where
  pub seq_num : ℕ
  pub me_client_response : MeClientResponse

pub record MdpMarketUpdate : Type 0 where
  pub seq_num : ℕ
  pub me_market_update : MeMarketUpdate

-- `++seq` on a `size_t`.
abbrev pub next_seq : ℕ → ℕ
next_seq n = (n + 1) % 2 ^ 64

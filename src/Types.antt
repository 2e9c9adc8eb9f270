-- ===== src/Types.antt =====
-- include/types.h: the capacities of the default profile, sentinels and sides.
use llcpp_exchange.Prelude.{ℕ, ◌-◌, ◌*◌, ◌^◌, Bool, true, false}

abbrev pub me_max_client_updates : ℕ
me_max_client_updates = 256 * 1024

abbrev pub me_max_market_updates : ℕ
me_max_market_updates = 256 * 1024

abbrev pub me_max_tickers : ℕ
me_max_tickers = 8

abbrev pub me_max_num_clients : ℕ
me_max_num_clients = 256

abbrev pub me_max_order_ids : ℕ
me_max_order_ids = 1024 * 1024

abbrev pub me_max_price_levels : ℕ
me_max_price_levels = 256

-- `StrongType::INVALID` of a 32-bit and of a 64-bit type.
abbrev pub invalid_u32 : ℕ
invalid_u32 = 2 ^ 32 - 1

abbrev pub invalid_u64 : ℕ
invalid_u64 = 2 ^ 64 - 1

pub data Side : Type 0 where
  invalid buy sell max : Side

-- `side == Side::BUY` and `side == Side::SELL`.
abbrev pub is_buy : Side → Bool
is_buy Side.buy = true
is_buy _ = false

abbrev pub is_sell : Side → Bool
is_sell Side.sell = true
is_sell _ = false

-- The two sides that have a chain of levels.
abbrev pub IsTraded : Side → Type 0
IsTraded Side.buy = Unit
IsTraded Side.sell = Unit
IsTraded _ = ⊥

-- ===== src/MarketData/Publisher.antt =====
-- MarketDataPublisher: the loop of `poll` over the matching engine's updates.
use llcpp_exchange.Prelude.{ℕ, List, [], ◌∷◌}
use llcpp_exchange.Protocol.{MeMarketUpdate}
use llcpp_exchange.Wire.{MdpMarketUpdate, next_seq}

pub record MarketDataPublisher : Type 0 where
  pub next_inc_seq_num : ℕ

abbrev pub new_publisher : MarketDataPublisher
new_publisher = record { next_inc_seq_num = 1 }

-- The messages sent on the incremental stream, which are also those queued for the synthesizer.
unfoldable pub poll :
    List MeMarketUpdate → MarketDataPublisher → List MdpMarketUpdate × MarketDataPublisher
poll [] p = ([], p)
poll (u ∷ us) p =
    let later = poll us (record { next_inc_seq_num = next_seq p.next_inc_seq_num }) in
    (record { seq_num = p.next_inc_seq_num; me_market_update = u } ∷ later.0, later.1)

-- ===== src/MarketData/Buffer.antt =====
-- `std::map<size_t, MEMarketUpdate>`: its entries in the order of their keys.
use llcpp_exchange.Prelude.{ℕ, List, [], ◌∷◌, ltb, ◌==◌, if◌then◌else◌}
use llcpp_exchange.Protocol.{MeMarketUpdate}
use llcpp_exchange.Wire.{next_seq}

pub record Entry : Type 0 where
  pub seq : ℕ
  pub update : MeMarketUpdate

-- `buffer[seq] = update`
unfoldable pub insert : ℕ → MeMarketUpdate → List Entry → List Entry
insert n u [] = record { seq = n; update = u } ∷ []
insert n u (e ∷ es) =
    if n == e.seq
    then record { seq = n; update = u } ∷ es
    else (if ltb n e.seq then record { seq = n; update = u } ∷ e ∷ es else e ∷ insert n u es)

-- What a drain publishes, the number expected after it, and the entries that stay.
pub record Drained : Type 0 where
  pub published : List MeMarketUpdate
  pub next_exp : ℕ
  pub left : List Entry

abbrev pub publish_first : MeMarketUpdate → Drained → Drained
publish_first u d = record d { published = u ∷ d.published }

-- The loop in `processIncremental`: while the first entry is the one expected.
unfoldable pub drain_contiguous : ℕ → List Entry → Drained
drain_contiguous n [] = record { published = []; next_exp = n; left = [] }
drain_contiguous n (e ∷ es) =
    let rest = drain_contiguous (next_seq n) es in
    if e.seq == n
    then publish_first e.update rest
    else record { published = []; next_exp = n; left = e ∷ es }

-- The loop in `finishRecovery`, which also erases the entries before the one expected.
unfoldable pub replay_buffered : ℕ → List Entry → Drained
replay_buffered n [] = record { published = []; next_exp = n; left = [] }
replay_buffered n (e ∷ es) =
    let rest = replay_buffered (if e.seq == n then next_seq n else n) es in
    if ltb e.seq n
    then rest
    else (if e.seq == n
        then publish_first e.update rest
        else record { published = []; next_exp = n; left = e ∷ es })

-- ===== src/TradeEngine/BestPrices.antt =====
-- What a strategy reads: the best prices of the client are those of the exchange.
use llcpp_exchange.Prelude.{ℕ, ◌<◌, ◌≡◌, subst, some, List, arith, length, All}
use llcpp_exchange.Types.{me_max_tickers, me_max_order_ids}
use llcpp_exchange.Protocol.{MeClientRequest}
use llcpp_exchange.OrderBook.Matching.{Event}
use llcpp_exchange.OrderBook.Invariant.{Inv}
use llcpp_exchange.MatchingEngine.Engine.{MatchingEngine, new_engine, book_of, run}
use llcpp_exchange.MatchingEngine.Runs.{NamesSide, run-start}
use llcpp_exchange.MarketOrderBook.Best.{IsBest, mirrored-IsBest}
use llcpp_exchange.TradeEngine.Books.{TradeEngine, new_trade_engine, handle_updates}
use llcpp_exchange.TradeEngine.Following.{run-mirrored}

-- After a run of the engine from the start, and all its updates handled by the client.
abbrev pub RunBest : List MeClientRequest → Type 0
RunBest rs =
    (e : MatchingEngine) × (sent : List Event) × (left : List MeClientRequest) × (c : TradeEngine)
    × (run rs new_engine ≡ some (e, sent, left))
    × (handle_updates sent new_trade_engine ≡ some c)
    × ((t : ℕ) → t < me_max_tickers → IsBest (book_of t e) (c.market_order_books t).bbo)

-- From the start, over any fewer than 2^20 requests of which the new ones name a side, once the
-- client has handled all updates sent, `bbo_` of each ticker's book is the best of the exchange's
-- book: no bid in it is higher and no ask lower than the price, the quantity is the sum of all orders
-- at that price, on 32 bits, and a side without orders has the invalid price.
pub run-IsBest :
    (rs : List MeClientRequest) → All NamesSide rs → length rs < me_max_order_ids → RunBest rs
run-IsBest rs sides few =
    let (e, sent, left, c, ran, handled, mirrors) = run-mirrored rs sides few in
    let (e', sent', left', ran', sound) = run-start rs sides (omega arith) in
    let same : e' ≡ e = cc in
    (
      e,
      sent,
      left,
      c,
      ran,
      handled,
      λ t l.
          mirrored-IsBest (book_of t e) (c.market_order_books t)
            (subst (λ x. Inv (book_of t x)) same (sound t)) (mirrors t l),
    )

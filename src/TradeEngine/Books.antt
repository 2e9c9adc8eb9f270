-- ===== src/TradeEngine/Books.antt =====
-- TradeEngine::handleMarketUpdate, as far as it changes the books. What reads a book after an update
-- (the features, the positions and the callbacks) takes it as a const pointer. The constructor makes
-- all books, so none is a null pointer.
use llcpp_exchange.Prelude.{
  ℕ, zero, suc, Option, none, some, List, [], ◌∷◌, leb, if◌then◌else◌, put,
}
use llcpp_exchange.Types.{me_max_tickers}
use llcpp_exchange.Protocol.{MarketUpdateType, MeMarketUpdate}
use llcpp_exchange.OrderBook.Matching.{Event, response, update}
use llcpp_exchange.MarketOrderBook.Book.{MarketOrderBook, new_market_book}
use llcpp_exchange.MarketOrderBook.Update.{on_market_update}

pub record TradeEngine : Type 0 where
  pub market_order_books : ℕ → MarketOrderBook

abbrev pub new_trade_engine : TradeEngine
new_trade_engine = record { market_order_books = λ t. new_market_book }

-- The update on the book of a ticker; `none` is a FATAL exit of the book.
unfoldable pub update_ticker : MeMarketUpdate → ℕ → TradeEngine → Option TradeEngine
update_ticker u t e = elim (on_market_update u (e.market_order_books t)) [
  | none ↦ none
  | some k ↦ some (record { market_order_books = put e.market_order_books t k })
]

-- The loop over the first `n` books.
unfoldable pub broadcast : MeMarketUpdate → ℕ → TradeEngine → Option TradeEngine
broadcast u zero e = some e
broadcast u (suc n) e = elim (broadcast u n e) [ none ↦ none | some e' ↦ update_ticker u n e' ]

abbrev pub broadcast_case : MarketUpdateType → MeMarketUpdate → TradeEngine → Option TradeEngine
broadcast_case MarketUpdateType.clear u e = broadcast u me_max_tickers e
broadcast_case _ u e = some e

unfoldable pub handle_market_update : MeMarketUpdate → TradeEngine → Option TradeEngine
handle_market_update u e =
    if leb me_max_tickers u.ticker_id
    then broadcast_case u.type u e
    else update_ticker u u.ticker_id e

-- The market's part of what the matching engine sent, handled in that order.
unfoldable pub handle_updates : List Event → TradeEngine → Option TradeEngine
handle_updates [] e = some e
handle_updates (response r ∷ es) e = handle_updates es e
handle_updates (update u ∷ es) e = elim (handle_market_update u e) [
  | none ↦ none
  | some e' ↦ handle_updates es e'
]

-- ===== src/TradeEngine/Tests.antt =====
-- A session of two clients on two tickers, and a CLEAR for all books.
use llcpp_exchange.Prelude.{ℕ, ◌<◌, ◌≡◌, refl, some, List, [], ◌∷◌, arith}
use llcpp_exchange.Types.{Side, me_max_tickers}
use llcpp_exchange.Protocol.{MeClientRequest, ClientRequestType, MarketUpdateType, MeMarketUpdate}
use llcpp_exchange.OrderBook.Sample.{asks, asks-Inv}
use llcpp_exchange.MatchingEngine.Engine.{new_engine}
use llcpp_exchange.MarketOrderBook.Book.{new_market_book}
use llcpp_exchange.MarketOrderBook.Sample.{client_book, client_book-Mirrors}
use llcpp_exchange.TradeEngine.Books.{TradeEngine, new_trade_engine, handle_market_update}
use llcpp_exchange.TradeEngine.Following.{RunFollowed, run-mirrored}
use llcpp_exchange.TradeEngine.BestPrices.{RunBest, run-IsBest}
use llcpp_exchange.TradeEngine.Clearing.{handle_market_update-wiped}

abbrev request : ClientRequestType → Side → (client ticker id price qty : ℕ) → MeClientRequest
request type side client ticker id price qty = record {
  type = type;
  client_id = client;
  ticker_id = ticker;
  order_id = id;
  side = side;
  price = price;
  qty = qty;
}

-- The buyer takes a part of the offer, which is then withdrawn.
abbrev session : List MeClientRequest
session =
    request ClientRequestType.new Side.sell 1 0 1 101 10
    ∷ request ClientRequestType.new Side.buy 2 0 1 102 4
    ∷ request ClientRequestType.cancel Side.invalid 1 0 1 0 0
    ∷ request ClientRequestType.new Side.sell 1 3 1 50 5
    ∷ []

run-mirrored_example : RunFollowed session new_engine new_trade_engine
run-mirrored_example =
    run-mirrored session ((λ _. tt), ((λ _. tt), ((λ e. ground arith), ((λ _. tt), tt))))
      (omega arith)

run-IsBest_example : RunBest session
run-IsBest_example =
    run-IsBest session ((λ _. tt), ((λ _. tt), ((λ e. ground arith), ((λ _. tt), tt))))
      (omega arith)

-- The CLEAR of a snapshot.
abbrev clear_all : MeMarketUpdate
clear_all = record {
  type = MarketUpdateType.clear;
  ticker_id = 4294967295;
  side = Side.invalid;
  price = 0;
  qty = 0;
  order_id = 0;
  priority = 0;
}

-- A client with the same three asks for every ticker.
abbrev full : TradeEngine
full = record { market_order_books = λ t. client_book }

handle_market_update-wiped_example :
    (c' : TradeEngine) × (handle_market_update clear_all full ≡ some c')
    × ((t : ℕ) → t < me_max_tickers → c'.market_order_books t ≡ new_market_book)
handle_market_update-wiped_example =
    handle_market_update-wiped clear_all full refl (omega arith) (λ t l. record {
      book = asks;
      inv = asks-Inv;
      ids = omega arith;
      mirrors = client_book-Mirrors;
    })

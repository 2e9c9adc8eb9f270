-- ===== src/MarketOrderBook/Tests.antt =====
-- The theorems of the client's book at a book of three asks at two prices.
use llcpp_exchange.Prelude.{inl, ◌≡◌, refl, some, List, arith}
use llcpp_exchange.Types.{Side}
use llcpp_exchange.Protocol.{MeClientRequest, ClientRequestType, MarketUpdateType, MeMarketUpdate}
use llcpp_exchange.OrderBook.State.{MeOrderBook, new_book}
use llcpp_exchange.OrderBook.Matching.{Event}
use llcpp_exchange.OrderBook.Requests.{add, cancel}
use llcpp_exchange.OrderBook.Sample.{request, asks, asks-Inv}
use llcpp_exchange.MarketOrderBook.Book.{new_market_book}
use llcpp_exchange.MarketOrderBook.Update.{on_market_update}
use llcpp_exchange.MarketOrderBook.Mirror.{Mirrors}
use llcpp_exchange.MarketOrderBook.Steps.{apply_events, Follows}
use llcpp_exchange.MarketOrderBook.Clear.{clear-Follows}
use llcpp_exchange.MarketOrderBook.Requests.{add-Follows, cancel-Follows}
use llcpp_exchange.MarketOrderBook.Sample.{client_book, client_book-Mirrors}

abbrev sweep : MeClientRequest
sweep = request ClientRequestType.new Side.buy 3 0 100 20

add-Follows_example :
    (b' : MeOrderBook) × (sent : List Event) × (add sweep asks ≡ some (b', sent))
    × Follows b' (apply_events sent client_book)
add-Follows_example =
    add-Follows sweep asks client_book asks-Inv tt (omega arith) (omega arith) client_book-Mirrors

cancel-Follows_example :
    Follows (cancel 2 5 0 asks).0 (apply_events (cancel 2 5 0 asks).1 client_book)
cancel-Follows_example =
    cancel-Follows 2 5 0 asks client_book asks-Inv (omega arith) client_book-Mirrors

abbrev wipe : MeMarketUpdate
wipe = record {
  type = MarketUpdateType.clear;
  ticker_id = 0;
  side = Side.invalid;
  price = 0;
  qty = 0;
  order_id = 0;
  priority = 0;
}

clear-Follows_example :
    (on_market_update wipe client_book ≡ some new_market_book)
    × Mirrors (new_book 0) new_market_book
clear-Follows_example =
    clear-Follows wipe 0 asks client_book (inl refl) asks-Inv (omega arith) client_book-Mirrors

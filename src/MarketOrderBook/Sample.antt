-- ===== src/MarketOrderBook/Sample.antt =====
-- The client's book of three asks at two prices, for tests.
use llcpp_exchange.Prelude.{ℕ, refl, ◌||◌, Option, none, some, ◌==◌, if◌then◌else◌, arith}
use llcpp_exchange.OrderBook.Sample.{asks}
use llcpp_exchange.MarketOrderBook.Book.{MarketOrderBook}
use llcpp_exchange.MarketOrderBook.Mirror.{mirrored, Mirrors}

abbrev pub pointers_to_asks : ℕ → Option ℕ
pointers_to_asks m = if m == 1 || m == 2 || m == 3 then some m else none

abbrev pub client_book : MarketOrderBook
client_book = mirrored asks pointers_to_asks

pub client_book-Mirrors : Mirrors asks client_book
client_book-Mirrors = record { oid = pointers_to_asks; pointers = λ m l. ground arith; same = refl }

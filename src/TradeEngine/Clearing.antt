-- ===== src/TradeEngine/Clearing.antt =====
-- A CLEAR for no ticker goes to all books.
use llcpp_exchange.Prelude.{
  ℕ, zero, suc, ◌≤◌, ◌<◌, ◌≡◌, refl, ap, ◌∙◌, inl, some, arith, leb, ltb, put, if◌then◌else◌, true,
}
use llcpp_exchange.Types.{me_max_tickers, me_max_order_ids}
use llcpp_exchange.Protocol.{MarketUpdateType, MeMarketUpdate}
use llcpp_exchange.OrderBook.State.{MeOrderBook}
use llcpp_exchange.OrderBook.Invariant.{Inv}
use llcpp_exchange.MarketOrderBook.Book.{MarketOrderBook, new_market_book}
use llcpp_exchange.MarketOrderBook.Update.{on_market_update}
use llcpp_exchange.MarketOrderBook.Mirror.{Mirrors}
use llcpp_exchange.MarketOrderBook.Clear.{clear-Follows}
use llcpp_exchange.TradeEngine.Books.{
  TradeEngine, update_ticker, broadcast, broadcast_case, handle_market_update,
}

-- A client's book that mirrors some sound book of the exchange with ids up to 2^20.
pub record MirrorsSound (k : MarketOrderBook) : Type 0 where
  pub book : MeOrderBook
  pub inv : Inv book
  pub ids : book.next_market_order_id ≤ me_max_order_ids
  pub mirrors : Mirrors book k

wiped :
    (u : MeMarketUpdate) (k : MarketOrderBook)
    → u.type ≡ MarketUpdateType.clear
    → MirrorsSound k
    → on_market_update u k ≡ some new_market_book
wiped u k y s = (clear-Follows u 0 s.book k (inl y) s.inv s.ids s.mirrors).0

broadcast-wiped :
    (n : ℕ) (u : MeMarketUpdate) (c : TradeEngine)
    → u.type ≡ MarketUpdateType.clear
    → n ≤ me_max_tickers
    → ((t : ℕ) → t < me_max_tickers → MirrorsSound (c.market_order_books t))
    → (c' : TradeEngine) × (broadcast u n c ≡ some c')
      × ((t : ℕ)
          → c'.market_order_books t ≡ (if ltb t n then new_market_book else c.market_order_books t))
unfolding broadcast update_ticker
broadcast-wiped zero u c y l s = (c, refl, λ t. ground arith)
broadcast-wiped (suc n) u c y l s =
    let (c', done, books) = broadcast-wiped n u c y (omega arith) s in
    let same : c'.market_order_books n ≡ c.market_order_books n = ground (arith, books n) in
    let here : on_market_update u (c'.market_order_books n) ≡ some new_market_book =
      ap (on_market_update u) same ∙ wiped u (c.market_order_books n) y (s n (omega arith)) in
    (
      record { market_order_books = put c'.market_order_books n new_market_book },
      rw (done, here, broadcast, update_ticker) refl,
      λ t. ground (arith, books t),
    )

-- When each book of the client mirrors a sound book of the exchange whose next order id is at most
-- 2^20, a CLEAR whose ticker is out of range is handled and leaves every book as the constructor made
-- it, with all blocks back in its pools.
pub handle_market_update-wiped :
    (u : MeMarketUpdate) (c : TradeEngine)
    → u.type ≡ MarketUpdateType.clear
    → me_max_tickers ≤ u.ticker_id
    → ((t : ℕ) → t < me_max_tickers → MirrorsSound (c.market_order_books t))
    → (c' : TradeEngine) × (handle_market_update u c ≡ some c')
      × ((t : ℕ) → t < me_max_tickers → c'.market_order_books t ≡ new_market_book)
unfolding handle_market_update
handle_market_update-wiped u c y far s =
    let (c', done, books) = broadcast-wiped me_max_tickers u c y (omega arith) s in
    let out : leb me_max_tickers u.ticker_id ≡ true = ground arith in
    (
      c',
      rw (out, handle_market_update) (ap (λ y'. broadcast_case y' u c) y ∙ done),
      λ t l. ground (arith, books t),
    )

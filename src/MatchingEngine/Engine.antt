-- ===== src/MatchingEngine/Engine.antt =====
-- MatchingEngine: its books, made when a ticker is first named, and the loop over the requests.
use llcpp_exchange.Prelude.{
  ℕ, Bool, true, false, Option, none, some, List, [], ◌∷◌, ◌++◌, ltb, if◌then◌else◌, put,
}
use llcpp_exchange.Types.{me_max_tickers, invalid_u64}
use llcpp_exchange.Protocol.{MeClientRequest, ClientRequestType, ClientResponseType}
use llcpp_exchange.OrderBook.State.{MeOrderBook, new_book}
use llcpp_exchange.OrderBook.Matching.{Event}
use llcpp_exchange.OrderBook.Requests.{reply, add, cancel}

-- `ticker_order_books_`; the three queues are the lists of requests and of messages.
pub record MatchingEngine : Type 0 where
  pub ticker_order_books : ℕ → Option MeOrderBook

abbrev pub new_engine : MatchingEngine
new_engine = record { ticker_order_books = λ t. none }

abbrev pub reject_client_request : MeClientRequest → Event
reject_client_request r =
    reply ClientResponseType.invalid r.client_id r.ticker_id r.order_id invalid_u64 r.side r.price 0

-- The book of a ticker, a new one at the first use.
abbrev pub book_of : ℕ → MatchingEngine → MeOrderBook
book_of t e = elim (e.ticker_order_books t) [ none ↦ new_book t | some b ↦ b ]

abbrev pub with_book : ℕ → MeOrderBook → MatchingEngine → MatchingEngine
with_book t b e = record { ticker_order_books = put e.ticker_order_books t (some b) }

-- The switch on the type of the request. `none` is a FATAL exit in `add`.
unfoldable pub dispatch :
    ClientRequestType → MeClientRequest → MeOrderBook → Option (MeOrderBook × List Event)
dispatch ClientRequestType.new r b = add r b
dispatch ClientRequestType.cancel r b = some (cancel r.client_id r.order_id r.ticker_id b)
dispatch _ r b = some (b, reject_client_request r ∷ [])

unfoldable pub process_client_request :
    MeClientRequest → MatchingEngine → Option (MatchingEngine × List Event)
process_client_request r e =
    if ltb r.ticker_id me_max_tickers
    then elim (dispatch r.type r (book_of r.ticker_id e)) [
      | none ↦ none
      | some (b, sent) ↦ some (with_book r.ticker_id b e, sent)
    ]
    else some (e, reject_client_request r ∷ [])

abbrev pub is_shutdown : ClientRequestType → Bool
is_shutdown ClientRequestType.shutdown = true
is_shutdown _ = false

-- The loop over the requests in the order of the queue, up to the first SHUTDOWN, with all messages
-- in the order they are sent and the requests that stay in the queue. `none` is a FATAL exit of a
-- book; the queues into which the messages go, with their FATAL overflow, are in Sending.
unfoldable pub run :
    List MeClientRequest
    → MatchingEngine
    → Option (MatchingEngine × List Event × List MeClientRequest)
unfolding process_client_request
run [] e = some (e, [], [])
run (r ∷ rs) e =
    if is_shutdown r.type then some (e, [], rs) else elim (process_client_request r e) [
      | none ↦ none
      | some (e', sent) ↦ elim (run rs e') [
        | none ↦ none
        | some (e'', more, left) ↦ some (e'', sent ++ more, left)
      ]
    ]

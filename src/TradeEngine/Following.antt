-- ===== src/TradeEngine/Following.antt =====
-- The client's books follow the matching engine's over a run.
use llcpp_exchange.Prelude.{
  ℕ, suc, ◌+◌, ◌≤◌, ◌<◌, ◌≡◌, refl, sym, ap, subst, ◌∙◌, inl, inr, some, none, Option, List, [],
  ◌∷◌, ◌++◌, arith, ltb, ◌==◌, length, All, Bool-cases, Option-cases, put,
}
use llcpp_exchange.Types.{IsTraded, me_max_tickers, me_max_order_ids}
use llcpp_exchange.Protocol.{MeClientRequest, ClientRequestType}
use llcpp_exchange.OrderBook.State.{MeOrderBook}
use llcpp_exchange.OrderBook.Matching.{Event, response, update}
use llcpp_exchange.OrderBook.Requests.{add}
use llcpp_exchange.OrderBook.Invariant.{Inv}
use llcpp_exchange.OrderBook.Added.{add-Inv}
use llcpp_exchange.OrderBook.Cancelled.{cancel-Inv}
use llcpp_exchange.MatchingEngine.Engine.{
  MatchingEngine, is_shutdown, reject_client_request, new_engine, book_of, with_book, dispatch,
  process_client_request, run,
}
use llcpp_exchange.MatchingEngine.Runs.{new_book-Inv, NamesSide}
use llcpp_exchange.MarketOrderBook.Book.{MarketOrderBook}
use llcpp_exchange.MarketOrderBook.Mirror.{Mirrors}
use llcpp_exchange.MarketOrderBook.Steps.{apply_events, Follows}
use llcpp_exchange.MarketOrderBook.Requests.{add-Follows, cancel-Follows}
use llcpp_exchange.TradeEngine.Books.{
  TradeEngine, new_trade_engine, handle_market_update, handle_updates,
}
use llcpp_exchange.TradeEngine.Tickers.{OfTicker, add-OfTicker, cancel-OfTicker, handle_updates-one}

-- A sound book with ids below 2^20 and blocks for `n` more orders.
record Room (n : ℕ) (b : MeOrderBook) : Type 0 where
  inv : Inv b
  ids : b.next_market_order_id + n ≤ me_max_order_ids
  orders : n ≤ b.order_free

-- What one request does to a book and to the client's.
abbrev Served : ℕ → ℕ → MarketOrderBook → Option (MeOrderBook × List Event) → Type 0
Served n t k result =
    (b' : MeOrderBook) × (sent : List Event) × (result ≡ some (b', sent))
    × Room n b'
    × OfTicker t sent
    × Follows b' (apply_events sent k)

add-Served :
    (n : ℕ) (r : MeClientRequest) (b : MeOrderBook) (k : MarketOrderBook)
    → IsTraded r.side
    → Room (suc n) b
    → Mirrors b k
    → Served n r.ticker_id k (add r b)
add-Served n r b k side v m =
    let h = v.ids in
    let l = v.orders in
    let (b', sent, e, inv, ids, orders) = add-Inv r b v.inv side (omega arith) (omega arith) in
    let (b₂, sent₂, e₂, follows) = add-Follows r b k v.inv side (omega arith) (omega arith) m in
    let same_book : b₂ ≡ b' = cc in
    let same_sent : sent₂ ≡ sent = cc in
    (
      b',
      sent,
      e,
      record { inv = inv; ids = omega arith; orders = omega arith },
      add-OfTicker r b b' sent e,
      subst (λ x. Follows x (apply_events sent k)) same_book
          (subst (λ x. Follows b₂ (apply_events x k)) same_sent follows),
    )

dispatch-Served :
    (n : ℕ) (t : ClientRequestType) (r : MeClientRequest) (b : MeOrderBook) (k : MarketOrderBook)
    → (t ≡ ClientRequestType.new → IsTraded r.side)
    → Room (suc n) b
    → Mirrors b k
    → Served n r.ticker_id k (dispatch t r b)
unfolding dispatch apply_events
dispatch-Served n ClientRequestType.new r b k side v m = add-Served n r b k (side refl) v m
dispatch-Served n ClientRequestType.cancel r b k side v m =
    let h = v.ids in
    let l = v.orders in
    let (inv, ids, orders) = cancel-Inv r.client_id r.order_id r.ticker_id b v.inv in
    (
      _,
      _,
      refl,
      record { inv = inv; ids = omega arith; orders = omega arith },
      cancel-OfTicker r.client_id r.order_id r.ticker_id b,
      cancel-Follows r.client_id r.order_id r.ticker_id b k v.inv (omega arith) m,
    )
dispatch-Served n _ r b k side v m =
    let h = v.ids in
    let l = v.orders in
    (
      b,
      reject_client_request r ∷ [],
      refl,
      record { inv = v.inv; ids = omega arith; orders = omega arith },
      (refl, tt),
      (k, refl, m),
    )

-- Each book of the engine is sound, and the client's book of the ticker mirrors it.
record InStep (n : ℕ) (e : MatchingEngine) (c : TradeEngine) : Type 0 where
  room : (t : ℕ) → Room n (book_of t e)
  mirrors : (t : ℕ) → t < me_max_tickers → Mirrors (book_of t e) (c.market_order_books t)

Room-less : (n : ℕ) (b : MeOrderBook) → Room (suc n) b → Room n b
Room-less n b v =
    let h = v.ids in
    let l = v.orders in record { inv = v.inv; ids = omega arith; orders = omega arith }

with_book-InStep :
    (n t : ℕ) (b : MeOrderBook) (k : MarketOrderBook) (e : MatchingEngine) (c c' : TradeEngine)
    → Room n b
    → Mirrors b k
    → InStep (suc n) e c
    → ((j : ℕ) → c'.market_order_books j ≡ put c.market_order_books t k j)
    → InStep n (with_book t b e) c'
with_book-InStep n t b k e c c' v m s other = record {
  room = λ j. elim (Bool-cases (t == j)) [
    | inl same ↦ rw (same, book_of) v
    | inr apart ↦ rw (apart, book_of) (Room-less n (book_of j e) (s.room j))
  ];
  mirrors = λ j l.
      subst (λ x. Mirrors (book_of j (with_book t b e)) x) (sym (other j))
        (elim (Bool-cases (t == j)) [
          | inl same ↦ rw (same, book_of) m
          | inr apart ↦ rw (apart, book_of) (s.mirrors j l)
        ]);
}

process-InStep :
    (n : ℕ) (r : MeClientRequest) (e : MatchingEngine) (c : TradeEngine)
    → NamesSide r
    → InStep (suc n) e c
    → (e' : MatchingEngine) × (sent : List Event) × (c' : TradeEngine) × (process_client_request r e
        ≡ some (e', sent))
      × (handle_updates sent c ≡ some c')
      × InStep n e' c'
unfolding process_client_request handle_updates
process-InStep n r e c side s = elim (Bool-cases (ltb r.ticker_id me_max_tickers)) [
  | inr wild ↦ (
    e,
    reject_client_request r ∷ [],
    c,
    rw (wild, process_client_request) refl,
    refl,
    record { room = λ t. Room-less n (book_of t e) (s.room t); mirrors = s.mirrors },
  )
  | inl known ↦
      let l : r.ticker_id < me_max_tickers = ground arith in
      let (b, sent, done, v, own, (k, applied, m)) =
        dispatch-Served n r.type r (book_of r.ticker_id e) (c.market_order_books r.ticker_id) side
          (s.room r.ticker_id) (s.mirrors r.ticker_id l) in
      let (c', handled, other) = handle_updates-one sent r.ticker_id c k l own applied in
      (
        with_book r.ticker_id b e,
        sent,
        c',
        rw (known, done, process_client_request) refl,
        handled,
        with_book-InStep n r.ticker_id b k e c c' v m s other,
      )
]

handle_updates-append :
    (es fs : List Event) (c c' c'' : TradeEngine)
    → handle_updates es c ≡ some c'
    → handle_updates fs c' ≡ some c''
    → handle_updates (es ++ fs) c ≡ some c''
unfolding handle_updates
handle_updates-append [] fs c c' c'' e f = let same : c ≡ c' = cc in ap (handle_updates fs) same ∙ f
handle_updates-append (response r ∷ es) fs c c' c'' e f = handle_updates-append es fs c c' c'' e f
handle_updates-append (update u ∷ es) fs c c' c'' e f =
    elim (Option-cases (handle_market_update u c)) [
      | inl n ↦ absurd (ground arith)
      | inr (c₁, n) ↦
          let ih = handle_updates-append es fs c₁ c' c'' (ground arith) f in ground arith
    ]

-- Along a run of the engine the client handles what is sent.
abbrev pub RunFollowed : List MeClientRequest → MatchingEngine → TradeEngine → Type 0
RunFollowed rs e c =
    (e' : MatchingEngine) × (sent : List Event) × (left : List MeClientRequest) × (c' : TradeEngine)
    × (run rs e ≡ some (e', sent, left))
    × (handle_updates sent c ≡ some c')
    × ((t : ℕ) → t < me_max_tickers → Mirrors (book_of t e') (c'.market_order_books t))

run-RunFollowed :
    (rs : List MeClientRequest) (e : MatchingEngine) (c : TradeEngine)
    → All NamesSide rs
    → InStep (length rs) e c
    → RunFollowed rs e c
unfolding run handle_updates
run-RunFollowed [] e c sides s = (e, [], [], c, refl, refl, s.mirrors)
run-RunFollowed (r ∷ rs) e c sides s =
    let (e', sent, c', done, handled, s') = process-InStep (length rs) r e c sides.0 s in
    let (e'', more, left, c'', ran, rest, m) = run-RunFollowed rs e' c' sides.1 s' in
    elim (Bool-cases (is_shutdown r.type)) [
      | inl stop ↦ (e, [], rs, c, rw (stop, run) refl, refl, s.mirrors)
      | inr go ↦ (
        e'',
        sent ++ more,
        left,
        c'',
        rw (go, done, ran, run) refl,
        handle_updates-append sent more c c' c'' handled rest,
        m,
      )
    ]

-- From the start, over any fewer than 2^20 requests of which the new ones name a side, the matching
-- engine's run returns, TradeEngine takes all the updates sent, in order, and for each ticker the
-- client's book then mirrors the engine's: the same levels and orders in the same order, the
-- pointers of the live orders, and the best prices.
pub run-mirrored :
    (rs : List MeClientRequest)
    → All NamesSide rs
    → length rs < me_max_order_ids
    → RunFollowed rs new_engine new_trade_engine
run-mirrored rs sides few = run-RunFollowed rs new_engine new_trade_engine sides (record {
  room = λ t. record { inv = new_book-Inv t; ids = omega arith; orders = omega arith };
  mirrors = λ t l. record { oid = λ m. none; pointers = λ m h. refl; same = refl };
})

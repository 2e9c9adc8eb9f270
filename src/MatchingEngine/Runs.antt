-- ===== src/MatchingEngine/Runs.antt =====
-- Every book of the engine stays sound along a run.
use llcpp_exchange.Prelude.{
  ℕ, suc, ◌+◌, ◌^◌, ◌≤◌, ◌<◌, ◌≡◌, refl, inl, inr, some, List, [], ◌∷◌, ◌++◌, arith, ltb, ◌==◌,
  length, All, Bool-cases,
}
use llcpp_exchange.Types.{IsTraded, me_max_tickers, me_max_order_ids}
use llcpp_exchange.Protocol.{MeClientRequest, ClientRequestType}
use llcpp_exchange.OrderBook.State.{MeOrderBook, new_book}
use llcpp_exchange.OrderBook.Matching.{Event}
use llcpp_exchange.OrderBook.Invariant.{Inv}
use llcpp_exchange.OrderBook.Added.{add-Inv}
use llcpp_exchange.OrderBook.Cancelled.{cancel-Inv}
use llcpp_exchange.MatchingEngine.Engine.{
  MatchingEngine, is_shutdown, reject_client_request, new_engine, book_of, with_book, dispatch,
  process_client_request, run,
}

pub new_book-Inv : (t : ℕ) → Inv (new_book t)
new_book-Inv t = record {
  links = record {
    bids = (tt, tt);
    asks = (tt, tt);
    slots = λ p. refl;
    keys = λ i p e. cc;
    pointers = λ c k m. refl;
    unique = λ m. omega arith;
    level_pool = refl;
  };
  order_pool = refl;
  positive_bids = tt;
  positive_asks = tt;
  uncrossed = tt;
}

-- A sound book with ids and blocks for `n` more orders.
pub record Roomy (n : ℕ) (b : MeOrderBook) : Type 0 where
  pub inv : Inv b
  pub ids : b.next_market_order_id + n < 2 ^ 64
  pub orders : n ≤ b.order_free

-- A side is named by all new orders.
abbrev pub NamesSide : MeClientRequest → Type 0
NamesSide r = r.type ≡ ClientRequestType.new → IsTraded r.side

dispatch-Roomy :
    (n : ℕ) (t : ClientRequestType) (r : MeClientRequest) (b : MeOrderBook)
    → (t ≡ ClientRequestType.new → IsTraded r.side)
    → Roomy (suc n) b
    → (b' : MeOrderBook) × (sent : List Event) × (dispatch t r b ≡ some (b', sent)) × Roomy n b'
unfolding dispatch
dispatch-Roomy n ClientRequestType.new r b side v =
    let h = v.ids in
    let k = v.orders in
    let (b', sent, e, inv, ids, orders) =
      add-Inv r b v.inv (side refl) (omega arith) (omega arith) in
    (b', sent, e, record { inv = inv; ids = omega arith; orders = omega arith })
dispatch-Roomy n ClientRequestType.cancel r b side v =
    let h = v.ids in
    let k = v.orders in
    let (inv, ids, orders) = cancel-Inv r.client_id r.order_id r.ticker_id b v.inv in
    (_, _, refl, record { inv = inv; ids = omega arith; orders = omega arith })
dispatch-Roomy n _ r b side v =
    let h = v.ids in
    let k = v.orders in
    (b, _, refl, record { inv = v.inv; ids = omega arith; orders = omega arith })

abbrev pub AllRoomy : ℕ → MatchingEngine → Type 0
AllRoomy n e = (t : ℕ) → Roomy n (book_of t e)

Roomy-less : (n : ℕ) (b : MeOrderBook) → Roomy (suc n) b → Roomy n b
Roomy-less n b v =
    let h = v.ids in
    let k = v.orders in record { inv = v.inv; ids = omega arith; orders = omega arith }

with_book-Roomy :
    (n t : ℕ) (b : MeOrderBook) (e : MatchingEngine)
    → Roomy n b
    → AllRoomy (suc n) e
    → AllRoomy n (with_book t b e)
with_book-Roomy n t b e v all j = elim (Bool-cases (t == j)) [
  | inl same ↦ rw (same, book_of) v
  | inr other ↦ rw (other, book_of) (Roomy-less n (book_of j e) (all j))
]

process-Roomy :
    (n : ℕ) (r : MeClientRequest) (e : MatchingEngine)
    → NamesSide r
    → AllRoomy (suc n) e
    → (e' : MatchingEngine) × (sent : List Event) × (process_client_request r e ≡ some (e', sent))
      × AllRoomy n e'
unfolding process_client_request
process-Roomy n r e side all = elim (Bool-cases (ltb r.ticker_id me_max_tickers)) [
  | inr wild ↦ (
    e,
    reject_client_request r ∷ [],
    rw (wild, process_client_request) refl,
    λ t. Roomy-less n (book_of t e) (all t),
  )
  | inl known ↦
      let (b, sent, done, v) =
        dispatch-Roomy n r.type r (book_of r.ticker_id e) side (all r.ticker_id) in
      (
        with_book r.ticker_id b e,
        sent,
        rw (known, done, process_client_request) refl,
        with_book-Roomy n r.ticker_id b e v all,
      )
]

Roomy-zero : (n : ℕ) (b : MeOrderBook) → Roomy n b → Roomy 0 b
Roomy-zero n b v =
    let h = v.ids in
    let k = v.orders in record { inv = v.inv; ids = omega arith; orders = omega arith }

-- A run over requests of which the new ones name a side returns, and every book is sound after it,
-- when each book has ids and blocks for as many orders as there are requests.
pub run-Roomy :
    (rs : List MeClientRequest) (e : MatchingEngine)
    → All NamesSide rs
    → AllRoomy (length rs) e
    → (e' : MatchingEngine) × (sent : List Event) × (left : List MeClientRequest) × (run rs e
        ≡ some (e', sent, left))
      × AllRoomy 0 e'
unfolding run
run-Roomy [] e sides all = (e, [], [], refl, all)
run-Roomy (r ∷ rs) e sides all =
    let (e', sent, done, v) = process-Roomy (length rs) r e sides.0 all in
    let (e'', more, left, ran, w) = run-Roomy rs e' sides.1 v in
    elim (Bool-cases (is_shutdown r.type)) [
      | inl stop ↦ (e, [], rs, rw (stop, run) refl, λ t. Roomy-zero _ (book_of t e) (all t))
      | inr go ↦ (e'', sent ++ more, left, rw (go, done, ran, run) refl, w)
    ]

-- From the start, a run over at most as many requests as the order pool has blocks, of which the new
-- ones name a side, returns without a FATAL exit of a book, and every book is sound after it.
pub run-start :
    (rs : List MeClientRequest)
    → All NamesSide rs
    → length rs ≤ me_max_order_ids
    → (e' : MatchingEngine) × (sent : List Event) × (left : List MeClientRequest) × (run rs
          new_engine
        ≡ some (e', sent, left))
      × ((t : ℕ) → Inv (book_of t e'))
run-start rs sides few =
    let (e', sent, left, ran, v) =
      run-Roomy rs new_engine sides
        (λ t. record { inv = new_book-Inv t; ids = omega arith; orders = few }) in
    (e', sent, left, ran, λ t. (v t).inv)

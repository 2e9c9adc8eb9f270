-- ===== src/TradeEngine/Tickers.antt =====
-- The updates of a request name its ticker.
use llcpp_exchange.Prelude.{
  ℕ, zero, suc, ◌+◌, ◌%◌, ◌^◌, not, ◌&&◌, ◌<◌, ◌≡◌, refl, inl, inr, Bool, true, some, List, [], ◌∷◌,
  arith, ◌==◌, put, All, All-append, Bool-cases, Option-cases,
}
use llcpp_exchange.Types.{me_max_tickers}
use llcpp_exchange.Protocol.{MeClientRequest}
use llcpp_exchange.OrderBook.State.{MeOrder, MeOrderBook}
use llcpp_exchange.OrderBook.Matching.{
  Event, response, update, Outcome, Incoming, match_events, match_order, next_passive, opposite,
  match_loop, check_for_match,
}
use llcpp_exchange.OrderBook.Requests.{
  incoming, rest_order, settle, accept, add, cancel_target, cancel, valid_ids, price_collision,
}
use llcpp_exchange.MarketOrderBook.Book.{MarketOrderBook}
use llcpp_exchange.MarketOrderBook.Update.{on_market_update}
use llcpp_exchange.MarketOrderBook.Steps.{apply_events}
use llcpp_exchange.TradeEngine.Books.{
  TradeEngine, update_ticker, handle_market_update, handle_updates,
}

abbrev pub of_ticker : ℕ → Event → Bool
of_ticker t (response r) = true
of_ticker t (update u) = u.ticker_id == t

abbrev pub OfTicker : ℕ → List Event → Type 0
OfTicker t es = All (λ e. of_ticker t e ≡ true) es

match_events-OfTicker :
    (i : Incoming) (o : MeOrder) (fill leaves : ℕ)
    → OfTicker i.ticker_id (match_events i o fill leaves)
unfolding match_events
match_events-OfTicker i o fill leaves = ground arith

match_loop-OfTicker :
    (n : ℕ) (i : Incoming) (leaves : ℕ) (b : MeOrderBook)
    → OfTicker i.ticker_id (match_loop n i leaves b).2
unfolding match_loop match_order
match_loop-OfTicker zero i leaves b = tt
match_loop-OfTicker (suc n) i leaves b = elim (Bool-cases (leaves == 0)) [
  | inl stop ↦ rw (stop, match_loop) tt
  | inr on ↦
      rw (on, match_loop)
        elim (Option-cases (next_passive i.side i.price (opposite i.side b))) [
          | inl nobody ↦ rw (nobody, match_loop) tt
          | inr (o, e) ↦
              rw (e, match_loop)
                (All-append (λ x. of_ticker i.ticker_id x ≡ true) (match_order i o leaves b).2
                  (match_loop n i (match_order i o leaves b).1 (match_order i o leaves b).0).2
                  (match_events-OfTicker i o _ _)
                  (match_loop-OfTicker n i (match_order i o leaves b).1
                    (match_order i o leaves b).0))
        ]
]

rest_order-OfTicker :
    (i : Incoming) (leaves : ℕ) (b b' : MeOrderBook) (es : List Event)
    → rest_order i leaves b ≡ some (b', es)
    → OfTicker i.ticker_id es
unfolding rest_order
rest_order-OfTicker i leaves b b' es e = ground arith

settle-OfTicker :
    (r : MeClientRequest) (i : Incoming) (out : Outcome) (b' : MeOrderBook) (sent : List Event)
    → OfTicker i.ticker_id out.2
    → settle r i out ≡ some (b', sent)
    → OfTicker i.ticker_id sent
unfolding settle
settle-OfTicker r i out b' sent v e = elim (Option-cases (rest_order i out.1 out.0)) [
  | inl n ↦ absurd (ground arith)
  | inr ((b₁, added), rests) ↦
      let w =
        All-append (λ x. of_ticker i.ticker_id x ≡ true) out.2 added v
          (rest_order-OfTicker i out.1 out.0 b₁ added rests) in
      ground (arith, w)
]

-- Every update that the exchange's book sends for a new order names the ticker of the request.
pub add-OfTicker :
    (r : MeClientRequest) (b b' : MeOrderBook) (sent : List Event)
    → add r b ≡ some (b', sent)
    → OfTicker r.ticker_id sent
unfolding add accept check_for_match
add-OfTicker r b b' sent e = elim (Bool-cases (valid_ids r b && not (price_collision r b))) [
  | inr bad ↦ ground arith
  | inl good ↦
      let c : MeOrderBook = record b {
        next_market_order_id = (b.next_market_order_id + 1) % 2 ^ 64;
      } in
      let i : Incoming = incoming r b.next_market_order_id in
      settle-OfTicker r i (match_loop r.qty i r.qty c) b' sent (match_loop-OfTicker r.qty i r.qty c)
        (ground arith)
]

pub cancel-OfTicker : (c i t : ℕ) (b : MeOrderBook) → OfTicker t (cancel c i t b).1
unfolding cancel
cancel-OfTicker c i t b = elim (Option-cases (cancel_target c i b)) [
  | inl nobody ↦ rw (nobody, cancel) (refl, tt)
  | inr (o, e) ↦ rw (e, cancel) (ground arith)
]

-- The updates of one ticker change its book alone.
pub handle_updates-one :
    (es : List Event) (t : ℕ) (e : TradeEngine) (k : MarketOrderBook)
    → t < me_max_tickers
    → OfTicker t es
    → apply_events es (e.market_order_books t) ≡ some k
    → (e' : TradeEngine) × (handle_updates es e ≡ some e')
      × ((j : ℕ) → e'.market_order_books j ≡ put e.market_order_books t k j)
unfolding handle_updates apply_events handle_market_update update_ticker
handle_updates-one [] t e k l v h = (e, refl, λ j. ground arith)
handle_updates-one (response r ∷ es) t e k l v h = handle_updates-one es t e k l v.1 h
handle_updates-one (update u ∷ es) t e k l v h =
    elim (Option-cases (on_market_update u (e.market_order_books t))) [
      | inl n ↦ absurd (ground arith)
      | inr (k₁, n) ↦
          let e₁ : TradeEngine = record { market_order_books = put e.market_order_books t k₁ } in
          let (e', done, other) = handle_updates-one es t e₁ k l v.1 (ground arith) in
          (e', ground arith, λ j. ground (arith, other j))
    ]

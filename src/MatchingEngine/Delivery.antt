-- ===== src/MatchingEngine/Delivery.antt =====
-- A run whose messages fit into the outgoing queues.
use llcpp_exchange.Prelude.{
  ℕ, ◌+◌, ◌*◌, ◌≤◌, ◌<◌, ◌≡◌, refl, sym, ap, ◌∙◌, inl, inr, some, List, [], ◌∷◌, ◌++◌, arith, ltb,
  length, length-append, sum_by, All, Bool-cases, Option-cases,
}
use mathlib.Core.List.{append_assoc, append-nil}
use llcpp_exchange.Types.{
  me_max_tickers, me_max_order_ids, me_max_client_updates, me_max_market_updates,
}
use llcpp_exchange.Protocol.{MeClientRequest, ClientRequestType}
use llcpp_exchange.OrderBook.State.{MeOrderBook}
use llcpp_exchange.OrderBook.Matching.{Event, response, update}
use llcpp_exchange.OrderBook.Invariant.{Inv}
use llcpp_exchange.LfQueue.Ring.{LfQueue}
use llcpp_exchange.LfQueue.Fifo.{IsValid, contents, push-Pushed}
use llcpp_exchange.MatchingEngine.Engine.{
  MatchingEngine, is_shutdown, new_engine, book_of, dispatch, process_client_request, run,
}
use llcpp_exchange.MatchingEngine.Runs.{NamesSide, run-start}
use llcpp_exchange.MatchingEngine.Sending.{
  Outgoing, send_client_response, send_market_update, send_all, responses, updates, AtMost,
  AtMost-append, add-AtMost, cancel-AtMost,
}

-- No request sends more than this to either queue.
abbrev pub most_sent : MeClientRequest → ℕ
most_sent r = 2 * r.qty + 1

dispatch-AtMost :
    (t : ClientRequestType) (r : MeClientRequest) (b b' : MeOrderBook) (sent : List Event)
    → dispatch t r b ≡ some (b', sent)
    → AtMost (most_sent r) sent
unfolding dispatch
dispatch-AtMost ClientRequestType.new r b b' sent e = add-AtMost r b b' sent e
dispatch-AtMost ClientRequestType.cancel r b b' sent e =
    let few = cancel-AtMost r.client_id r.order_id r.ticker_id (2 * r.qty) b in ground (arith, few)
dispatch-AtMost ClientRequestType.invalid r b b' sent e = (ground arith, ground arith)
dispatch-AtMost ClientRequestType.shutdown r b b' sent e = (ground arith, ground arith)

process-AtMost :
    (r : MeClientRequest) (e e' : MatchingEngine) (sent : List Event)
    → process_client_request r e ≡ some (e', sent)
    → AtMost (most_sent r) sent
unfolding process_client_request
process-AtMost r e e' sent h = elim (Bool-cases (ltb r.ticker_id me_max_tickers)) [
  | inr wild ↦ (ground arith, ground arith)
  | inl known ↦ elim (Option-cases (dispatch r.type r (book_of r.ticker_id e))) [
    | inl n ↦ absurd (ground arith)
    | inr ((b, sent'), d) ↦
        let few = dispatch-AtMost r.type r (book_of r.ticker_id e) b sent' d in ground (arith, few)
  ]
]

run-AtMost :
    (rs : List MeClientRequest) (e e' : MatchingEngine) (sent : List Event)
    (left : List MeClientRequest)
    → run rs e ≡ some (e', sent, left)
    → AtMost (sum_by most_sent rs) sent
unfolding run
run-AtMost [] e e' sent left h = (ground arith, ground arith)
run-AtMost (r ∷ rs) e e' sent left h = elim (Bool-cases (is_shutdown r.type)) [
  | inl stop ↦ (ground arith, ground arith)
  | inr go ↦ elim (Option-cases (process_client_request r e)) [
    | inl n ↦ absurd (ground arith)
    | inr ((e₁, now), p) ↦ elim (Option-cases (run rs e₁)) [
      | inl n ↦ absurd (ground arith)
      | inr ((e₂, more, rest), q) ↦
          let few =
            AtMost-append (most_sent r) (sum_by most_sent rs) now more (process-AtMost r e e₁ now p)
              (run-AtMost rs e₁ e₂ more rest q) in
          ground (arith, few)
    ]
  ]
]

-- The queues hold what they did and then the messages, in order.
pub record Delivered (q : Outgoing) (sent : List Event) (q' : Outgoing) : Type 0 where
  pub to_clients : contents q'.outgoing_responses ≡ contents q.outgoing_responses ++ responses sent
  pub to_market : contents q'.market_updates ≡ contents q.market_updates ++ updates sent

send_all-Delivered :
    (es : List Event) (q : Outgoing)
    → IsValid q.outgoing_responses
    → IsValid q.market_updates
    → length (contents q.outgoing_responses) + length (responses es) < q.outgoing_responses.capacity
    → length (contents q.market_updates) + length (updates es) < q.market_updates.capacity
    → (q' : Outgoing) × (send_all es q ≡ some q') × Delivered q es q'
unfolding send_all send_client_response send_market_update
send_all-Delivered [] q v w h k = (
  q,
  refl,
  record {
    to_clients = sym (append-nil (contents q.outgoing_responses));
    to_market = sym (append-nil (contents q.market_updates));
  },
)
send_all-Delivered (response r ∷ es) q v w h k =
    let (rs, done, v', same, holds) = push-Pushed r q.outgoing_responses v (omega arith) in
    let longer = ap length holds ∙ length-append (contents q.outgoing_responses) (r ∷ []) in
    let q₁ = record q { outgoing_responses = rs } in
    let (q', later, d) = send_all-Delivered es q₁ v' w (omega arith) k in
    (
      q',
      rw (done, send_all, send_client_response) later,
      record {
        to_clients =
            d.to_clients
            ∙ (ap (λ l. l ++ responses es) holds
                ∙ append_assoc (contents q.outgoing_responses) (r ∷ []) (responses es));
        to_market = d.to_market;
      },
    )
send_all-Delivered (update u ∷ es) q v w h k =
    let (us, done, w', same, holds) = push-Pushed u q.market_updates w (omega arith) in
    let longer = ap length holds ∙ length-append (contents q.market_updates) (u ∷ []) in
    let q₁ = record q { market_updates = us } in
    let (q', later, d) = send_all-Delivered es q₁ v w' h (omega arith) in
    (
      q',
      rw (done, send_all, send_market_update) later,
      record {
        to_clients = d.to_clients;
        to_market =
            d.to_market
            ∙ (ap (λ l. l ++ updates es) holds
                ∙ append_assoc (contents q.market_updates) (u ∷ []) (updates es));
      },
    )

-- A queue of the given capacity that is ready and empty.
pub record IsNew {A : Type 0} (capacity : ℕ) (q : LfQueue A) : Type 0 where
  pub valid : IsValid q
  pub empty : contents q ≡ []
  pub size : q.capacity ≡ capacity

-- A run from the start, and its messages put into the queues.
abbrev pub RunDelivered : List MeClientRequest → Outgoing → Type 0
RunDelivered rs q =
    (e : MatchingEngine) × (sent : List Event) × (left : List MeClientRequest) × (q' : Outgoing)
    × (run rs new_engine ≡ some (e, sent, left))
    × (send_all sent q ≡ some q')
    × Delivered q sent q'
    × ((t : ℕ) → Inv (book_of t e))

-- From the start, over at most as many requests as the order pool has blocks, of which the new ones
-- name a side, and whose quantities leave the sum of 2 * qty + 1 below 256 * 1024, the run reaches no
-- FATAL exit: neither in a book or its pools, nor, even when nobody reads, by an overflow of the two
-- outgoing queues, which begin empty with 256 * 1024 slots and end up holding the responses and the
-- updates, each in the order sent. Every book is sound after it.
pub run-Delivered :
    (rs : List MeClientRequest) (q : Outgoing)
    → All NamesSide rs
    → length rs ≤ me_max_order_ids
    → sum_by most_sent rs < me_max_client_updates
    → IsNew me_max_client_updates q.outgoing_responses
    → IsNew me_max_market_updates q.market_updates
    → RunDelivered rs q
run-Delivered rs q sides few small newr newu =
    let (e, sent, left, ran, sound) = run-start rs sides few in
    let bound = run-AtMost rs new_engine e sent left ran in
    let h = bound.0 in
    let k = bound.1 in
    let none_r = ap length newr.empty in
    let none_u = ap length newu.empty in
    let size_r = newr.size in
    let size_u = newu.size in
    let (q', done, d) =
      send_all-Delivered sent q newr.valid newu.valid (omega arith) (omega arith) in
    (e, sent, left, q', ran, done, d, sound)

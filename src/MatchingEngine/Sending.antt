-- ===== src/MatchingEngine/Sending.antt =====
-- sendClientResponse and sendMarketUpdate: what a run sends goes into two queues of a fixed size.
use llcpp_exchange.Prelude.{
  ℕ, zero, suc, ◌+◌, ◌*◌, ◌%◌, ◌^◌, ◌≤◌, ◌≡◌, refl, ap, ◌∙◌, inl, inr, not, ◌&&◌, Option, none,
  some, List, [], ◌∷◌, ◌++◌, arith, ◌==◌, length, length-append, Bool-cases, Option-cases,
}
use llcpp_exchange.Protocol.{MeClientRequest, MeClientResponse, MeMarketUpdate}
use llcpp_exchange.OrderBook.State.{MeOrderBook}
use llcpp_exchange.OrderBook.Matching.{
  Event, response, update, Outcome, Incoming, match_events, match_order, next_passive, opposite,
  match_loop, check_for_match,
}
use llcpp_exchange.OrderBook.Requests.{
  incoming, rest_order, settle, accept, add, cancel_target, cancel, valid_ids, price_collision,
}
use llcpp_exchange.LfQueue.Ring.{LfQueue, push}

-- The engine's two outgoing queues.
pub record Outgoing : Type 0 where
  pub outgoing_responses : LfQueue MeClientResponse
  pub market_updates : LfQueue MeMarketUpdate

-- `none` is the FATAL overflow of the queue.
unfoldable pub send_client_response : MeClientResponse → Outgoing → Option Outgoing
unfolding push
send_client_response r q = elim (push r q.outgoing_responses) [
  | none ↦ none
  | some rs ↦ some (record q { outgoing_responses = rs })
]

unfoldable pub send_market_update : MeMarketUpdate → Outgoing → Option Outgoing
unfolding push
send_market_update u q = elim (push u q.market_updates) [
  | none ↦ none
  | some us ↦ some (record q { market_updates = us })
]

unfoldable pub send_all : List Event → Outgoing → Option Outgoing
unfolding send_client_response send_market_update
send_all [] q = some q
send_all (response r ∷ es) q = elim (send_client_response r q) [
  | none ↦ none
  | some q' ↦ send_all es q'
]
send_all (update u ∷ es) q = elim (send_market_update u q) [
  | none ↦ none
  | some q' ↦ send_all es q'
]

abbrev pub responses : List Event → List MeClientResponse
responses [] = []
responses (response r ∷ es) = r ∷ responses es
responses (update u ∷ es) = responses es

abbrev pub updates : List Event → List MeMarketUpdate
updates [] = []
updates (response r ∷ es) = updates es
updates (update u ∷ es) = u ∷ updates es

-- At most `n` messages for either queue.
abbrev pub AtMost : ℕ → List Event → Type 0
AtMost n es = (length (responses es) ≤ n) × (length (updates es) ≤ n)

responses-append : (xs ys : List Event) → responses (xs ++ ys) ≡ responses xs ++ responses ys
responses-append [] ys = refl
responses-append (response r ∷ xs) ys = ap (λ l. r ∷ l) (responses-append xs ys)
responses-append (update u ∷ xs) ys = responses-append xs ys

updates-append : (xs ys : List Event) → updates (xs ++ ys) ≡ updates xs ++ updates ys
updates-append [] ys = refl
updates-append (response r ∷ xs) ys = updates-append xs ys
updates-append (update u ∷ xs) ys = ap (λ l. u ∷ l) (updates-append xs ys)

pub AtMost-append :
    (m n : ℕ) (xs ys : List Event) → AtMost m xs → AtMost n ys → AtMost (m + n) (xs ++ ys)
AtMost-append m n xs ys (h, k) (h', k') =
    let r = ap length (responses-append xs ys) ∙ length-append (responses xs) (responses ys) in
    let u = ap length (updates-append xs ys) ∙ length-append (updates xs) (updates ys) in
    (omega arith, omega arith)

match_loop-AtMost :
    (n : ℕ) (i : Incoming) (leaves : ℕ) (b : MeOrderBook)
    → AtMost (2 * n) (match_loop n i leaves b).2
unfolding match_loop match_order match_events
match_loop-AtMost zero i leaves b = (omega arith, omega arith)
match_loop-AtMost (suc n) i leaves b = elim (Bool-cases (leaves == 0)) [
  | inl stop ↦ rw (stop, match_loop) (omega arith, omega arith)
  | inr on ↦
      rw (on, match_loop)
        elim (Option-cases (next_passive i.side i.price (opposite i.side b))) [
          | inl nobody ↦ rw (nobody, match_loop) (omega arith, omega arith)
          | inr (o, e) ↦
              let r = match_order i o leaves b in
              let more = match_loop n i r.1 r.0 in
              let one : AtMost 2 r.2 = (ground arith, ground arith) in
              let both = AtMost-append 2 (2 * n) r.2 more.2 one (match_loop-AtMost n i r.1 r.0) in
              rw (e, match_loop) (omega (arith, both.0), omega (arith, both.1))
        ]
]

rest_order-AtMost :
    (i : Incoming) (leaves : ℕ) (b b' : MeOrderBook) (es : List Event)
    → rest_order i leaves b ≡ some (b', es)
    → (responses es ≡ []) × (length (updates es) ≤ 1)
unfolding rest_order
rest_order-AtMost i leaves b b' es e = (ground arith, ground arith)

settle-AtMost :
    (n : ℕ) (r : MeClientRequest) (i : Incoming) (out : Outcome) (b' : MeOrderBook)
    (sent : List Event)
    → AtMost n out.2
    → settle r i out ≡ some (b', sent)
    → AtMost (n + 1) sent
unfolding settle
settle-AtMost n r i out b' sent v e = elim (Option-cases (rest_order i out.1 out.0)) [
  | inl none_left ↦ absurd (ground arith)
  | inr ((b₁, added), rests) ↦
      let (quiet, few) = rest_order-AtMost i out.1 out.0 b₁ added rests in
      let h = v.0 in
      let k = v.1 in
      let r' =
        ap length (responses-append out.2 added)
        ∙ length-append (responses out.2) (responses added) in
      let u' =
        ap length (updates-append out.2 added) ∙ length-append (updates out.2) (updates added) in
      let q : length (responses added) ≡ 0 = ap length quiet in (ground arith, ground arith)
]

pub add-AtMost :
    (r : MeClientRequest) (b b' : MeOrderBook) (sent : List Event)
    → add r b ≡ some (b', sent)
    → AtMost (2 * r.qty + 1) sent
unfolding add accept check_for_match
add-AtMost r b b' sent e = elim (Bool-cases (valid_ids r b && not (price_collision r b))) [
  | inr bad ↦ (ground arith, ground arith)
  | inl good ↦
      let c : MeOrderBook = record b {
        next_market_order_id = (b.next_market_order_id + 1) % 2 ^ 64;
      } in
      let i : Incoming = incoming r b.next_market_order_id in
      settle-AtMost (2 * r.qty) r i (match_loop r.qty i r.qty c) b' sent
        (match_loop-AtMost r.qty i r.qty c) (ground arith)
]

pub cancel-AtMost : (c k t n : ℕ) (b : MeOrderBook) → AtMost (n + 1) (cancel c k t b).1
unfolding cancel
cancel-AtMost c k t n b = elim (Option-cases (cancel_target c k b)) [
  | inl nobody ↦ rw (nobody, cancel) (omega arith, omega arith)
  | inr (o, e) ↦ rw (e, cancel) (omega arith, omega arith)
]

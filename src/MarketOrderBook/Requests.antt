-- ===== src/MarketOrderBook/Requests.antt =====
-- A client's book follows the requests that the exchange's book takes.
use llcpp_exchange.Prelude.{
  ℕ, ◌-◌, ◌≤◌, ◌<◌, ◌≡◌, ◌⊎◌, refl, sym, subst, ◌∙◌, not, ◌&&◌, none, some, List, [], ◌∷◌, ◌++◌,
  arith, ltb, Bool-cases, Option-cases, inl, inr,
}
use llcpp_exchange.Types.{IsTraded, me_max_order_ids}
use llcpp_exchange.Protocol.{
  MeClientRequest, ClientResponseType, MeClientResponse, MarketUpdateType, MeMarketUpdate,
}
use llcpp_exchange.OrderBook.State.{MeOrder, MeOrderBook, price_to_index, chain}
use llcpp_exchange.OrderBook.Chains.{get_next_priority, remove_order}
use llcpp_exchange.OrderBook.Matching.{Event, response, update, Outcome, check_for_match}
use llcpp_exchange.OrderBook.Requests.{
  valid_ids, price_collision, settle, accept, add, cancel_target, cancel, invalid_reply,
}
use llcpp_exchange.OrderBook.Invariant.{with_id, Inv}
use llcpp_exchange.OrderBook.RemoveOrder.{chain-ChainOk}
use llcpp_exchange.OrderBook.Pointers.{IsLive-of_pointer, find-young}
use llcpp_exchange.OrderBook.Filling.{Filled}
use llcpp_exchange.OrderBook.AddOrder.{add_order-inserted, both-inserted}
use llcpp_exchange.OrderBook.RestOrder.{with_free, Place-free, rest_order-some, rest_order-none}
use llcpp_exchange.OrderBook.Resting.{slot_cases}
use llcpp_exchange.OrderBook.AddRequest.{
  Accepted, taker, counted_up, counted_up-Links, matched-Filled, rest_with, rested, place,
  orders_left_after, taken-Links, unused_id,
}
use llcpp_exchange.OrderBook.Added.{acknowledgement, settle-some, add-accept, add-invalid}
use llcpp_exchange.OrderBook.Cancelled.{
  cancel-target, target-found, target-pointer, cancel-rejected,
}
use llcpp_exchange.MarketOrderBook.Follow.{cancel_update-Follows}
use llcpp_exchange.MarketOrderBook.Book.{MarketOrderBook}
use llcpp_exchange.MarketOrderBook.Update.{on_market_update}
use llcpp_exchange.MarketOrderBook.Mirror.{Mirrors}
use llcpp_exchange.MarketOrderBook.Steps.{apply_events, apply_events-append, Follows}
use llcpp_exchange.MarketOrderBook.Rest.{add_update-Follows}
use llcpp_exchange.MarketOrderBook.Loop.{check_for_match-Follows}

module _ (r : MeClientRequest) (b : MeOrderBook) (a : Accepted r b) (k : MarketOrderBook)
    (room : b.next_market_order_id < me_max_order_ids) (h : Mirrors b k) where
  abbrev matched : Outcome
  matched = check_for_match (taker a) r.qty (counted_up a)

  matched-Follows : Follows matched.0 (apply_events matched.2 k)
  matched-Follows =
      check_for_match-Follows (taker a) (counted_up a) r.qty k (counted_up-Links a) a.inv.order_pool
        (omega arith) (record { oid = h.oid; pointers = h.pointers; same = h.same })

  abbrev Settled : Outcome → Type 0
  Settled out =
      (b' : MeOrderBook) × (sent : List Event) × (settle r (taker a) out ≡ some (b', sent))
      × Follows b' (apply_events sent k)

  slot_kept :
      (out : Outcome)
      → Filled (taker a) (counted_up a) r.qty out
      → (out.0.price_orders_at_price (price_to_index r.price) ≡ none)
        ⊎ (out.0.price_orders_at_price (price_to_index r.price) ≡ some r.price)
  slot_kept out f = elim (f.shrinks.slots (price_to_index r.price)) [
    | inl e ↦ inl e
    | inr same ↦ elim (slot_cases b r.price a.inv.links a.fits) [
      | inl e ↦ inl (same ∙ e)
      | inr e ↦ inr (same ∙ e)
    ]
  ]

  settle_rest :
      (out : Outcome)
      → Filled (taker a) (counted_up a) r.qty out
      → 0 < out.1
      → Follows out.0 (apply_events out.2 k)
      → Settled out
  unfolding apply_events
  settle_rest out f left (k', e, m) =
      let q = get_next_priority r.price out.0 in
      let o = rest_with a out f q in
      let (fresh, pl) = place a out f q left in
      let c = with_free (out.0.order_free - 1) out.0 in
      let b' = rested a out f q fresh in
      let linked =
        add_order-inserted (taken-Links a out f) o a.traded fresh
          (Place-free (out.0.order_free - 1) fresh o out.0 pl) in
      let u : MeMarketUpdate = record {
        type = MarketUpdateType.add;
        ticker_id = r.ticker_id;
        side = r.side;
        price = r.price;
        qty = out.1;
        order_id = b.next_market_order_id;
        priority = q;
      } in
      let rests =
        rest_order-some (taker a) out.1 q out.0 b' refl left (orders_left_after a out f) linked in
      let (k'', e'', m'') =
        add_update-Follows o out.0 b' linked (orders_left_after a out f) (slot_kept out f) room u k'
          refl refl (λ i. both-inserted (taken-Links a out f) o a.traded (with_id i) fresh)
          (unused_id a out f) m in
      (
        b',
        acknowledgement r b.next_market_order_id ∷ (out.2 ++ (update u ∷ [])),
        settle-some r (taker a) out b' (update u ∷ []) rests,
        (k'', apply_events-append out.2 (update u ∷ []) k k' e ∙ e'', m''),
      )

  settle-Follows :
      (out : Outcome)
      → Filled (taker a) (counted_up a) r.qty out
      → Follows out.0 (apply_events out.2 k)
      → Settled out
  unfolding apply_events
  settle-Follows out f (k', e, m) = elim (Bool-cases (ltb 0 out.1)) [
    | inl left ↦ settle_rest out f (ground arith) (k', e, m)
    | inr nothing ↦
        let zero_left : out.1 ≡ 0 = ground arith in
        (
          out.0,
          acknowledgement r b.next_market_order_id ∷ (out.2 ++ []),
          settle-some r (taker a) out out.0 [] (rw zero_left (rest_order-none (taker a) out.0)),
          (k', apply_events-append out.2 [] k k' e, m),
        )
  ]

  accepted-Follows :
      (b' : MeOrderBook) × (sent : List Event) × (add r b ≡ some (b', sent))
      × Follows b' (apply_events sent k)
  unfolding accept
  accepted-Follows =
      let (b', sent, e, m) = settle-Follows matched (matched-Filled a) matched-Follows in
      (b', sent, add-accept r b a.valid a.fits ∙ e, m)

-- A client's book mirrors a sound book of the exchange that has a free order block and a next order
-- id below 2^20. Then `add` returns for every request on a traded side, accepted or refused, and the
-- client's book takes the updates sent and mirrors the new book: the same levels and orders in the
-- same order, the same slots and free blocks, the pointers of the live orders, and the best prices.
pub add-Follows :
    (r : MeClientRequest) (b : MeOrderBook) (k : MarketOrderBook)
    → Inv b
    → IsTraded r.side
    → 0 < b.order_free
    → b.next_market_order_id < me_max_order_ids
    → Mirrors b k
    → (b' : MeOrderBook) × (sent : List Event) × (add r b ≡ some (b', sent))
      × Follows b' (apply_events sent k)
unfolding apply_events
add-Follows r b k v t free room h = elim (Bool-cases (valid_ids r b && not (price_collision r b))) [
  | inr bad ↦ (b, invalid_reply r ∷ [], add-invalid r b bad, (k, refl, h))
  | inl good ↦
      accepted-Follows r b
        (record {
          inv = v;
          traded = t;
          valid = ground arith;
          fits = ground arith;
          ids_left = omega arith;
          orders_left = free;
        })
        k room h
]

abbrev cancelled_response : ℕ → ℕ → MeOrder → MeClientResponse
cancelled_response c t o = record {
  type = ClientResponseType.canceled;
  client_id = c;
  ticker_id = t;
  client_order_id = o.client_order_id;
  market_order_id = o.market_order_id;
  side = o.side;
  price = o.price;
  exec_qty = 0;
  leaves_qty = 0;
}

sent_one :
    (u : MeMarketUpdate) (p : MeClientResponse) (c : MeOrderBook) (k : MarketOrderBook)
    → Follows c (on_market_update u k)
    → Follows c (apply_events (update u ∷ response p ∷ []) k)
unfolding apply_events
sent_one u p c k (k', e, m) = (k', ground (arith, e), m)

-- A client's book mirrors a sound book of the exchange whose next order id is at most 2^20. Then,
-- after `cancel` with any ids, the client's book takes the updates sent and mirrors the new book.
pub cancel-Follows :
    (c i t : ℕ) (b : MeOrderBook) (k : MarketOrderBook)
    → Inv b
    → b.next_market_order_id ≤ me_max_order_ids
    → Mirrors b k
    → Follows (cancel c i t b).0 (apply_events (cancel c i t b).1 k)
unfolding apply_events
cancel-Follows c i t b k v room h = elim (Option-cases (cancel_target c i b)) [
  | inl nobody ↦
      subst (λ (p : MeOrderBook × List Event). Follows p.0 (apply_events p.1 k))
        (sym (cancel-rejected c i t b nobody)) (k, refl, h)
  | inr (target, found) ↦
      let (m, e, hc, hi) = target-pointer c i b target found in
      let (o, deref, traded, live, id) = IsLive-of_pointer v.links c i m e in
      let young =
        find-young o.side b.next_market_order_id o.market_order_id (chain o.side b) o
          (chain-ChainOk v.links o.side traded).1 live in
      let done = cancel-target c i t b o (target-found c i m b o hc hi e deref) in
      let u : MeMarketUpdate = record {
        type = MarketUpdateType.cancel;
        ticker_id = t;
        side = o.side;
        price = o.price;
        qty = o.qty;
        order_id = o.market_order_id;
        priority = o.priority;
      } in
      subst (λ (p : MeOrderBook × List Event). Follows p.0 (apply_events p.1 k)) (sym done)
        (sent_one u (cancelled_response c t o) (remove_order o b) k
          (cancel_update-Follows v.links o traded live (omega arith) k h u refl refl))
]

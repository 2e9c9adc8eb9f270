-- ===== src/OrderBook/Added.antt =====
-- `add` as a whole: what it does to an accepted request, and that it refuses the others unchanged.
use llcpp_exchange.Prelude.{
  ℕ, ◌+◌, ◌^◌, ◌≤◌, ◌<◌, ◌≡◌, refl, ◌∙◌, ap, inl, inr, true, false, not, ◌&&◌, some, List, [], ◌∷◌,
  ◌++◌, arith, ltb, if◌then◌else◌, Bool-cases,
}
use llcpp_exchange.Types.{IsTraded}
use llcpp_exchange.Protocol.{MeClientRequest, ClientResponseType, MarketUpdateType}
use llcpp_exchange.OrderBook.State.{MeOrder, MeOrderBook, chain}
use llcpp_exchange.OrderBook.Spec.{insert_order, fill_chain, Filling}
use llcpp_exchange.OrderBook.Invariant.{Inv}
use llcpp_exchange.OrderBook.Matching.{Event, Incoming, Outcome, order_update, check_for_match}
use llcpp_exchange.OrderBook.Requests.{
  reply, invalid_reply, valid_ids, price_collision, incoming, resting_order, rest_order, settle,
  accept, add,
}
use llcpp_exchange.OrderBook.Filling.{Filled}
use llcpp_exchange.OrderBook.FillSteps.{passive_side}
use llcpp_exchange.OrderBook.Resting.{next_priority}
use llcpp_exchange.OrderBook.AddRequest.{
  Accepted, taker, counted_up, matched-Filled, filled-Inv, opposite_filled, own_kept, rest_with,
  rested, rest_order-rested, rested_own, rested_opposite,
}
use llcpp_exchange.OrderBook.RestOrder.{rest_order-none}

-- Filling of the opposite side, by price-time priority, up to the limit of the request.
abbrev pub filling : MeClientRequest → MeOrderBook → Filling
filling r b = fill_chain (incoming r b.next_market_order_id) r.qty (chain (passive_side r.side) b)

-- The order that rests with what was not filled.
abbrev pub remainder : MeClientRequest → MeOrderBook → MeOrder
remainder r b =
    resting_order (incoming r b.next_market_order_id) (filling r b).1
      (next_priority r.price (chain r.side b))

abbrev pub acknowledgement : MeClientRequest → ℕ → Event
acknowledgement r m =
    reply ClientResponseType.accepted r.client_id r.ticker_id r.order_id m r.side r.price r.qty

-- The book and the messages after an accepted request.
pub record Added (r : MeClientRequest) (b b' : MeOrderBook) (sent : List Event) : Type 0 where
  pub inv : Inv b'
  pub opposite : chain (passive_side r.side) b' ≡ (filling r b).0
  pub own : chain r.side b' ≡ (
      if ltb 0 (filling r b).1
      then insert_order (remainder r b) (chain r.side b)
      else chain r.side b)
  pub messages :
      sent
      ≡ acknowledgement r b.next_market_order_id
        ∷ ((filling r b).2
            ++ (if ltb 0 (filling r b).1
                then order_update MarketUpdateType.add r.ticker_id (remainder r b) (filling r b).1
                  ∷ []
                else []))
  pub next_id : b'.next_market_order_id ≡ b.next_market_order_id + 1
  pub orders : b.order_free ≤ b'.order_free + 1

pub settle-some :
    (r : MeClientRequest) (i : Incoming) (out : Outcome) (b' : MeOrderBook) (added : List Event)
    → rest_order i out.1 out.0 ≡ some (b', added)
    → settle r i out ≡ some (b', acknowledgement r i.market_order_id ∷ (out.2 ++ added))
unfolding settle
settle-some r i out b' added e = rw (e, settle)

pub add-accept :
    (r : MeClientRequest) (b : MeOrderBook)
    → valid_ids r b ≡ true
    → price_collision r b ≡ false
    → add r b ≡ accept r b
unfolding add
add-accept r b v c = ground (arith, v, c)

module _ (r : MeClientRequest) (b : MeOrderBook) (a : Accepted r b) where
  abbrev matched : Outcome
  matched = check_for_match (taker a) r.qty (counted_up a)

  matched_filling :
      (out : Outcome) → Filled (taker a) (counted_up a) r.qty out → (filling r b).1 ≡ out.1
  matched_filling out f = ap (λ (c : Filling). c.1) f.result

  matched_sent :
      (out : Outcome) → Filled (taker a) (counted_up a) r.qty out → (filling r b).2 ≡ out.2
  matched_sent out f = ap (λ (c : Filling). c.2) f.result

  free_kept :
      (out : Outcome) → Filled (taker a) (counted_up a) r.qty out → b.order_free ≤ out.0.order_free
  free_kept out f =
      omega (arith, f.shrinks.pool, a.inv.order_pool, f.shrinks.orders (λ o. 1) (λ o q. refl))

  settle-Filled :
      (out : Outcome)
      → Filled (taker a) (counted_up a) r.qty out
      → out.1 ≡ 0
      → (b' : MeOrderBook) × (sent : List Event) × (settle r (taker a) out ≡ some (b', sent))
        × Added r b b' sent
  settle-Filled out f e = (
    out.0,
    acknowledgement r b.next_market_order_id ∷ (out.2 ++ []),
    settle-some r (taker a) out out.0 [] (rw e (rest_order-none (taker a) out.0)),
    record {
      inv = filled-Inv a out f;
      opposite = opposite_filled a out f;
      own = rw (matched_filling out f, e) (own_kept a out f);
      messages = rw (matched_filling out f, matched_sent out f, e);
      next_id = let h = a.ids_left in omega (arith, f.shrinks.next_id);
      orders = omega (arith, free_kept out f);
    },
  )

  settle_left :
      (out : Outcome)
      → Filled (taker a) (counted_up a) r.qty out
      → 0 < out.1
      → (b' : MeOrderBook) × (sent : List Event) × (settle r (taker a) out ≡ some (b', sent))
        × Added r b b' sent
  settle_left out f left =
      let q = next_priority r.price (chain r.side b) in
      let (fresh, inv, rests) = rest_order-rested a out f left in
      let more : ltb 0 out.1 ≡ true = ground arith in
      (
        rested a out f q fresh,
        _,
        settle-some r (taker a) out _ _ rests,
        record {
          inv = inv;
          opposite = rested_opposite a out f q fresh ∙ opposite_filled a out f;
          own =
              rw (matched_filling out f, more)
                (rested_own a out f q fresh
                  ∙ ap (insert_order (rest_with a out f q)) (own_kept a out f));
          messages = rw (matched_filling out f, matched_sent out f, more);
          next_id = let h = a.ids_left in ground (arith, f.shrinks.next_id);
          orders = omega (arith, free_kept out f);
        },
      )

  settle_cases :
      (out : Outcome)
      → Filled (taker a) (counted_up a) r.qty out
      → (b' : MeOrderBook) × (sent : List Event) × (settle r (taker a) out ≡ some (b', sent))
        × Added r b b' sent
  settle_cases out f = elim (Bool-cases (ltb 0 out.1)) [
    | inl left ↦ settle_left out f (ground arith)
    | inr nothing ↦ settle-Filled out f (ground arith)
  ]

  accept_lem :
      (b' : MeOrderBook) × (sent : List Event) × (accept r b ≡ some (b', sent)) × Added r b b' sent
  unfolding accept
  accept_lem = settle_cases matched (matched-Filled a)

-- On a sound book with unused ids and a free order block, `add` returns for every request on a
-- traded side that names an unused client order id within the bounds and no colliding price: the
-- opposite side is filled by price-time priority up to the limit, the rest joins its own side
-- behind the orders of its price, the messages are the acknowledgement, the fills and the new
-- order, and the book is sound again.
pub add-Added :
    (r : MeClientRequest) (b : MeOrderBook)
    → Accepted r b
    → (b' : MeOrderBook) × (sent : List Event) × (add r b ≡ some (b', sent)) × Added r b b' sent
add-Added r b a =
    let (b', sent, e, added) = accept_lem r b a in
    (b', sent, add-accept r b a.valid a.fits ∙ e, added)

-- What `add` refuses.
pub add-invalid :
    (r : MeClientRequest) (b : MeOrderBook)
    → (valid_ids r b && not (price_collision r b)) ≡ false
    → add r b ≡ some (b, invalid_reply r ∷ [])
unfolding add
add-invalid r b h = ground arith

-- On a sound book with unused ids and a free order block, every request on a traded side returns a
-- sound book, whether `add` accepts or refuses it, and uses up at most one id and one block.
pub add-Inv :
    (r : MeClientRequest) (b : MeOrderBook)
    → Inv b
    → IsTraded r.side
    → b.next_market_order_id + 1 < 2 ^ 64
    → 0 < b.order_free
    → (b' : MeOrderBook) × (sent : List Event) × (add r b ≡ some (b', sent))
      × Inv b'
      × (b'.next_market_order_id ≤ b.next_market_order_id + 1)
      × (b.order_free ≤ b'.order_free + 1)
add-Inv r b v t ids orders = elim (Bool-cases (valid_ids r b && not (price_collision r b))) [
  | inr bad ↦ (b, invalid_reply r ∷ [], add-invalid r b bad, v, omega arith, omega arith)
  | inl good ↦
      let (b', sent, e, added) = add-Added r b (record {
        inv = v;
        traded = t;
        valid = ground arith;
        fits = ground arith;
        ids_left = ids;
        orders_left = orders;
      }) in
      (b', sent, e, added.inv, omega (arith, added.next_id), added.orders)
]

-- ===== src/OrderBook/Cancelled.antt =====
-- `cancel` as a whole: it takes out the order that the client means, and nothing else.
use llcpp_exchange.Prelude.{
  ℕ, ◌+◌, ◌≤◌, ◌<◌, ◌≡◌, refl, ◌∙◌, ap, subst, inl, inr, none, some, List, [], ◌∷◌, arith,
  if◌then◌else◌, All, Bool-cases, Option-cases, ==_refl,
}
use llcpp_exchange.Types.{Side, is_buy, IsTraded, me_max_num_clients, me_max_order_ids, invalid_u64}
use llcpp_exchange.Protocol.{ClientResponseType, MarketUpdateType}
use llcpp_exchange.OrderBook.State.{MeOrder, Chain, MeOrderBook, deref_order}
use llcpp_exchange.OrderBook.Chains.{remove_order}
use llcpp_exchange.OrderBook.Spec.{drop_order}
use llcpp_exchange.OrderBook.Invariant.{Links, Inv, Uncrossed}
use llcpp_exchange.OrderBook.Matching.{Event, order_update}
use llcpp_exchange.OrderBook.Requests.{reply, cancel_target, cancel}
use llcpp_exchange.OrderBook.DropOrder.{drop-Positive}
use llcpp_exchange.OrderBook.RemoveOrder.{
  IsLive, removed, remove_order-removed, remove_order-Links, both-removed,
}
use llcpp_exchange.OrderBook.FillChain.{drop-Prices}
use llcpp_exchange.OrderBook.Pointers.{IsLive-of_pointer, pointer-ids}

-- The book and the messages after the cancellation of `o`.
pub record Cancelled (c k ticker_id : ℕ) (o : MeOrder) (b b' : MeOrderBook) (sent : List Event)
    : Type 0 where
  pub inv : Inv b'
  pub live : IsLive o b
  pub owner : (o.client_id ≡ c) × (o.client_order_id ≡ k)
  pub bids :
      b'.bids_by_price
      ≡ (if is_buy o.side then drop_order o.market_order_id b.bids_by_price else b.bids_by_price)
  pub asks :
      b'.asks_by_price
      ≡ (if is_buy o.side then b.asks_by_price else drop_order o.market_order_id b.asks_by_price)
  pub pointer : b'.cid_oid_to_order c k ≡ none
  pub next_id : b'.next_market_order_id ≡ b.next_market_order_id
  pub orders : b'.order_free ≡ b.order_free + 1
  pub messages :
      sent
      ≡ order_update MarketUpdateType.cancel ticker_id o o.qty
        ∷ reply ClientResponseType.canceled c ticker_id k o.market_order_id o.side o.price 0
        ∷ []

drop-Uncrossed_bids :
    (m : ℕ) (bids asks : Chain) → Uncrossed bids asks → Uncrossed (drop_order m bids) asks
drop-Uncrossed_bids m bids asks u = drop-Prices (λ p. All (λ k. p < k.price) asks) m bids u

drop-Uncrossed_asks :
    (m : ℕ) (bids asks : Chain) → Uncrossed bids asks → Uncrossed bids (drop_order m asks)
drop-Uncrossed_asks m [] asks u = tt
drop-Uncrossed_asks m (l ∷ bids) asks u =
    (drop-Prices (λ p. l.price < p) m asks u.0, drop-Uncrossed_asks m bids asks u.1)

module _ {b : MeOrderBook} (v : Inv b) (o : MeOrder) (t : IsTraded o.side) (live : IsLive o b) where
  removed-Uncrossed : Uncrossed (removed o b).bids_by_price (removed o b).asks_by_price
  removed-Uncrossed = elim (Bool-cases (is_buy o.side)) [
    | inl buy ↦
        rw buy (drop-Uncrossed_bids o.market_order_id b.bids_by_price b.asks_by_price v.uncrossed)
    | inr sell ↦
        rw sell (drop-Uncrossed_asks o.market_order_id b.bids_by_price b.asks_by_price v.uncrossed)
  ]

  removed-Inv : Inv (removed o b)
  removed-Inv = record {
    links =
        subst Links (remove_order-removed v.links o t live) (remove_order-Links v.links o t live);
    order_pool = omega (arith, both-removed v.links (λ x. 1) o live, v.order_pool);
    positive_bids =
        ground
          (arith, v.positive_bids, drop-Positive o.market_order_id b.bids_by_price v.positive_bids);
    positive_asks =
        ground
          (arith, v.positive_asks, drop-Positive o.market_order_id b.asks_by_price v.positive_asks);
    uncrossed = removed-Uncrossed;
  }

pub cancel-target :
    (c k t : ℕ) (b : MeOrderBook) (o : MeOrder)
    → cancel_target c k b ≡ some o
    → cancel c k t b ≡ (
      remove_order o b,
      order_update MarketUpdateType.cancel t o o.qty
          ∷ reply ClientResponseType.canceled c t o.client_order_id o.market_order_id o.side o.price
              0
          ∷ [],
    )
unfolding cancel
cancel-target c k t b o e = rw (e, cancel)

pub target-found :
    (c k m : ℕ) (b : MeOrderBook) (o : MeOrder)
    → c < me_max_num_clients
    → k < me_max_order_ids
    → b.cid_oid_to_order c k ≡ some m
    → deref_order m b ≡ some o
    → cancel_target c k b ≡ some o
unfolding cancel_target
target-found c k m b o hc hk e found = ground (arith, e, found)

-- For a live order of the client, `cancel` on a sound book takes that order alone out of its side,
-- frees the client's order id, announces the cancellation to the market before the client is told,
-- and leaves a sound book.
pub cancel-Cancelled :
    (c k m t : ℕ) (b : MeOrderBook)
    → Inv b
    → c < me_max_num_clients
    → k < me_max_order_ids
    → b.cid_oid_to_order c k ≡ some m
    → (o : MeOrder) × Cancelled c k t o b (cancel c k t b).0 (cancel c k t b).1
cancel-Cancelled c k m t b v hc hk e =
    let (o, found, traded, live, id) = IsLive-of_pointer v.links c k m e in
    let owner = pointer-ids v.links c k m o e live id in
    let done =
      cancel-target c k t b o (target-found c k m b o hc hk e found)
      ∙ ap
          (λ (b' : MeOrderBook). (
            b',
            order_update MarketUpdateType.cancel t o o.qty
                ∷ reply ClientResponseType.canceled c t o.client_order_id o.market_order_id o.side
                    o.price 0
                ∷ [],
          ))
          (remove_order-removed v.links o traded live) in
    (
      o,
      rw done (record {
        inv = removed-Inv v o traded live;
        live = live;
        owner = owner;
        bids = refl;
        asks = refl;
        pointer = ground (arith, owner, ==_refl c, ==_refl k);
        next_id = refl;
        orders = refl;
        messages = rw owner.1;
      }),
    )

pub target-pointer :
    (c k : ℕ) (b : MeOrderBook) (o : MeOrder)
    → cancel_target c k b ≡ some o
    → (m : ℕ) × (b.cid_oid_to_order c k ≡ some m)
      × (c < me_max_num_clients)
      × (k < me_max_order_ids)
unfolding cancel_target
target-pointer c k b o e = elim (Option-cases (b.cid_oid_to_order c k)) [
  | inl nobody ↦ absurd (ground (arith, nobody))
  | inr (m, found) ↦ (m, found, ground (arith, found), ground (arith, found))
]

pub cancel-rejected :
    (c k t : ℕ) (b : MeOrderBook)
    → cancel_target c k b ≡ none
    → cancel c k t b ≡ (
      b,
      reply ClientResponseType.cancel_rejected c t k invalid_u64 Side.invalid invalid_u64 0 ∷ [],
    )
unfolding cancel
cancel-rejected c k t b e = rw (e, cancel)

-- Every `cancel` on a sound book leaves a sound book, whatever ids come off the wire, and uses up no
-- id and no block.
pub cancel-Inv :
    (c k t : ℕ) (b : MeOrderBook)
    → Inv b
    → Inv (cancel c k t b).0
      × ((cancel c k t b).0.next_market_order_id ≡ b.next_market_order_id)
      × (b.order_free ≤ (cancel c k t b).0.order_free)
cancel-Inv c k t b v = elim (Option-cases (cancel_target c k b)) [
  | inl nobody ↦ rw (cancel-rejected c k t b nobody) (v, refl, omega arith)
  | inr (o, found) ↦
      let (m, e, hc, hk) = target-pointer c k b o found in
      let (_, done) = cancel-Cancelled c k m t b v hc hk e in
      (done.inv, done.next_id, omega (arith, done.orders))
]

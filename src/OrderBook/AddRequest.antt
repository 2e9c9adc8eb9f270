-- ===== src/OrderBook/AddRequest.antt =====
-- `add` of a request that passes its checks: the book becomes what price-time priority asks for.
use llcpp_exchange.Prelude.{
  ℕ, ◌+◌, ◌-◌, ◌%◌, ◌^◌, ◌<◌, ◌≡◌, refl, sym, ◌∙◌, ap, subst, inl, inr, Bool, true, false, none,
  some, List, [], ◌∷◌, arith, All, Option-cases, holds, ==_refl,
}
use llcpp_exchange.Types.{Side, IsTraded}
use llcpp_exchange.Protocol.{MeClientRequest, MarketUpdateType}
use llcpp_exchange.OrderBook.State.{
  MeOrder, Chain, MeOrderBook, find_level, chain, price_to_index, get_orders_at_price,
}
use llcpp_exchange.OrderBook.Chains.{get_next_priority}
use llcpp_exchange.OrderBook.Spec.{insert_order, fill_chain, total}
use llcpp_exchange.OrderBook.Invariant.{Better, with_id, with_ids, both, Links, Inv, Positive}
use llcpp_exchange.OrderBook.Matching.{Event, Incoming, Outcome, order_update, check_for_match}
use llcpp_exchange.OrderBook.Requests.{
  valid_ids, price_collision, incoming, resting_order, rest_order,
}
use llcpp_exchange.OrderBook.RemoveOrder.{find_level-none}
use llcpp_exchange.OrderBook.MatchStep.{PoolOk}
use llcpp_exchange.OrderBook.Filling.{Filled}
use llcpp_exchange.OrderBook.FillSteps.{passive_side}
use llcpp_exchange.OrderBook.MatchLoop.{check_for_match-Filled}
use llcpp_exchange.OrderBook.LevelPool.{spare_level}
use llcpp_exchange.OrderBook.FillChain.{insert-Prices}
use llcpp_exchange.OrderBook.AddOrder.{
  Place, free_slot-none, own_level, inserted, add_order-inserted, inserted-Links, both-inserted,
}
use llcpp_exchange.OrderBook.Insertion.{insert-Positive}
use llcpp_exchange.OrderBook.Resting.{
  next_priority, slot_cases, with_next, with_next-Links, next_id-unused, rest_beyond, own_count,
  Apart, Apart-Uncrossed, Uncrossed-Apart, Apart-fill,
}
use llcpp_exchange.OrderBook.RestOrder.{
  with_free, with_free-Links, Place-free, rest_order-some, priority_found,
}

-- The request meets a sound book and passes the checks; neither the ids nor the pool run out.
pub record Accepted (r : MeClientRequest) (b : MeOrderBook) : Type 0 where
  pub inv : Inv b
  pub traded : IsTraded r.side
  pub valid : valid_ids r b ≡ true
  pub fits : price_collision r b ≡ false
  pub ids_left : b.next_market_order_id + 1 < 2 ^ 64
  pub orders_left : 0 < b.order_free

module _ {r : MeClientRequest} {b : MeOrderBook} (a : Accepted r b) where
  abbrev pub taker : Incoming
  taker = incoming r b.next_market_order_id

  abbrev pub counted_up : MeOrderBook
  counted_up = with_next ((b.next_market_order_id + 1) % 2 ^ 64) b

  pub counted_up-Links : Links counted_up
  counted_up-Links = with_next-Links b _ (let h = a.ids_left in omega arith) a.inv.links

  pub Positive-chain : (s : Side) → Positive (chain s b)
  Positive-chain Side.buy = a.inv.positive_bids
  Positive-chain _ = a.inv.positive_asks

  pub matched-Filled : Filled taker counted_up r.qty (check_for_match taker r.qty counted_up)
  matched-Filled =
      check_for_match-Filled taker counted_up r.qty counted_up-Links a.inv.order_pool
        (Positive-chain (passive_side r.side))

  module _ (out : Outcome) (f : Filled taker counted_up r.qty out) where
    pub unused_id : both (total (with_id b.next_market_order_id)) out.0 ≡ 0
    unused_id = omega (
      arith,
      f.shrinks.orders (with_id b.next_market_order_id) (λ o q. refl),
      next_id-unused b a.inv.links,
    )

    no_pointer : (m : ℕ) → holds (out.0.cid_oid_to_order r.client_id r.order_id) m ≡ false
    no_pointer m = ground (
      arith,
      f.shrinks.links.pointers r.client_id r.order_id m,
      f.shrinks.orders (with_ids r.client_id r.order_id m) (λ o q. refl),
      a.inv.links.pointers r.client_id r.order_id m,
      a.valid,
    )

    vacant : out.0.cid_oid_to_order r.client_id r.order_id ≡ none
    vacant = elim (Option-cases (out.0.cid_oid_to_order r.client_id r.order_id)) [
      | inl e ↦ e
      | inr (m, e) ↦ let contra = no_pointer m in absurd (ground (arith, ==_refl m))
    ]

    -- The order that rests with priority `q`.
    abbrev pub rest_with : ℕ → MeOrder
    rest_with q = resting_order taker out.1 q

    Place-free_slot :
        (q : ℕ)
        → out.0.price_orders_at_price (price_to_index r.price) ≡ none
        → Place true (rest_with q) out.0
    Place-free_slot q e = (e, spare_level f.shrinks.links (price_to_index r.price) (omega arith) e)

    Place-own :
        (q : ℕ)
        → 0 < out.1
        → out.0.price_orders_at_price (price_to_index r.price) ≡ some r.price
        → Place false (rest_with q) out.0
    Place-own q left e =
        let counted = own_count taker counted_up r.qty out f counted_up-Links left a.traded e in
        elim (Option-cases (find_level r.price (chain r.side out.0))) [
          | inr found ↦ found
          | inl missing ↦
              absurd (omega (arith, find_level-none r.price (chain r.side out.0) missing))
        ]

    pub place : (q : ℕ) → 0 < out.1 → (fresh : Bool) × Place fresh (rest_with q) out.0
    place q left = elim (f.shrinks.slots (price_to_index r.price)) [
      | inl e ↦ (true, Place-free_slot q e)
      | inr same ↦ elim (slot_cases b r.price a.inv.links a.fits) [
        | inl e ↦ (true, Place-free_slot q (same ∙ e))
        | inr e ↦ (false, Place-own q left (same ∙ e))
      ]
    ]

    pub orders_left_after : 0 < out.0.order_free
    orders_left_after = omega (
      arith,
      a.orders_left,
      a.inv.order_pool,
      f.shrinks.pool,
      f.shrinks.orders (λ o. 1) (λ o q. refl),
    )

    pub own_kept : chain r.side out.0 ≡ chain r.side b
    own_kept = ground (arith, f.shrinks.other, a.traded)

    young : b.next_market_order_id < out.0.next_market_order_id
    young = let h = a.ids_left in omega (arith, f.shrinks.next_id)

    pub opposite_filled :
        chain (passive_side r.side) out.0
        ≡ (fill_chain taker r.qty (chain (passive_side r.side) b)).0
    opposite_filled = sym (ap (λ (c : Chain × ℕ × List Event). c.0) f.result)

    own_Positive : Positive (chain r.side out.0)
    own_Positive = subst Positive (sym own_kept) (Positive-chain r.side)

    both_Positive :
        (c : MeOrderBook)
        → Positive (chain r.side c)
        → Positive (chain (passive_side r.side) c)
        → Positive c.bids_by_price × Positive c.asks_by_price
    both_Positive c own opp = ground (arith, own, opp, a.traded)

    apart : Apart r.side (chain r.side out.0) (chain (passive_side r.side) out.0)
    apart =
        rw (own_kept, opposite_filled)
          (Apart-fill taker r.qty (chain r.side b) (chain (passive_side r.side) b)
            (Uncrossed-Apart r.side b a.traded a.inv.uncrossed))

    pub filled-Inv : Inv out.0
    filled-Inv = record {
      links = f.shrinks.links;
      order_pool = f.shrinks.pool;
      positive_bids = (both_Positive out.0 own_Positive f.positive).0;
      positive_asks = (both_Positive out.0 own_Positive f.positive).1;
      uncrossed = Apart-Uncrossed r.side out.0 a.traded apart;
    }

    abbrev pub rested : ℕ → Bool → MeOrderBook
    rested q fresh = inserted fresh (rest_with q) (with_free (out.0.order_free - 1) out.0)

    pub rested_own :
        (q : ℕ) (fresh : Bool)
        → chain r.side (rested q fresh) ≡ insert_order (rest_with q) (chain r.side out.0)
    rested_own q fresh = ground (arith, a.traded)

    pub rested_opposite :
        (q : ℕ) (fresh : Bool)
        → chain (passive_side r.side) (rested q fresh) ≡ chain (passive_side r.side) out.0
    rested_opposite q fresh = ground (arith, a.traded)

    pub taken-Links : Links (with_free (out.0.order_free - 1) out.0)
    taken-Links = with_free-Links _ out.0 f.shrinks.links

    module _ (q : ℕ) (left : 0 < out.1) (fresh : Bool) (pl : Place fresh (rest_with q) out.0) where
      rested-Links : Links (rested q fresh)
      rested-Links =
          inserted-Links taken-Links (rest_with q) a.traded fresh
            (Place-free _ fresh (rest_with q) out.0 pl) young vacant unused_id

      rested-PoolOk : PoolOk (rested q fresh)
      rested-PoolOk = omega (
        arith,
        both-inserted taken-Links (rest_with q) a.traded (λ o. 1) fresh,
        f.shrinks.pool,
        orders_left_after,
      )

      rested-Positive :
          Positive (rested q fresh).bids_by_price × Positive (rested q fresh).asks_by_price
      rested-Positive =
          both_Positive (rested q fresh)
            (rw (rested_own q fresh)
              (insert-Positive (rest_with q) (chain r.side out.0) left own_Positive))
            (rw (rested_opposite q fresh) f.positive)

      rested-Apart :
          Apart r.side
            (chain r.side (rested q fresh))
            (chain (passive_side r.side) (rested q fresh))
      rested-Apart =
          rw (rested_own q fresh, rested_opposite q fresh)
            (insert-Prices
              (λ p.
                All (λ k. Better (passive_side r.side) p k.price)
                  (chain (passive_side r.side) out.0))
              (rest_with q) (chain r.side out.0)
              (rest_beyond taker counted_up r.qty out f counted_up-Links left) apart)

      rested-Inv : Inv (rested q fresh)
      rested-Inv = record {
        links = rested-Links;
        order_pool = rested-PoolOk;
        positive_bids = rested-Positive.0;
        positive_asks = rested-Positive.1;
        uncrossed = Apart-Uncrossed r.side (rested q fresh) a.traded rested-Apart;
      }

    priority_next :
        (fresh : Bool)
        → Place fresh (rest_with 0) out.0
        → get_next_priority r.price out.0 ≡ next_priority r.price (chain r.side out.0)
    unfolding get_next_priority get_orders_at_price
    priority_next true pl =
        let nobody = free_slot-none f.shrinks.links (rest_with 0) a.traded pl.0 in
        ground (arith, pl.0, nobody)
    priority_next false (l, found) =
        let own = own_level f.shrinks.links (rest_with 0) a.traded l found in
        priority_found r.price out.0 (chain r.side out.0) l own found

    pub rest_order-rested :
        (left : 0 < out.1)
        → (fresh : Bool) × Inv (rested (next_priority r.price (chain r.side b)) fresh)
          × (rest_order taker out.1 out.0
              ≡ some (
                rested (next_priority r.price (chain r.side b)) fresh,
                order_update MarketUpdateType.add r.ticker_id
                      (rest_with (next_priority r.price (chain r.side b)))
                      out.1
                    ∷ [],
              ))
    unfolding rest_order
    rest_order-rested left =
        let q = next_priority r.price (chain r.side b) in
        let (fresh, pl) = place q left in
        let prio : get_next_priority r.price out.0 ≡ q =
          priority_next (place 0 left).0 (place 0 left).1 ∙ ap (next_priority r.price) own_kept in
        let linked =
          add_order-inserted taken-Links (rest_with q) a.traded fresh
            (Place-free _ fresh (rest_with q) out.0 pl) in
        (
          fresh,
          rested-Inv q left fresh pl,
          rest_order-some taker out.1 q out.0 _ prio left orders_left_after linked,
        )

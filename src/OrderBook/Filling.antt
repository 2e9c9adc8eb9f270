-- ===== src/OrderBook/Filling.antt =====
-- The loop of `checkForMatch` is `fill_chain` of the specification.
use llcpp_exchange.Prelude.{
  ℕ, ◌-◌, ◌<◌, ◌≡◌, refl, sym, ◌∙◌, ap, subst, true, false, List, [], ◌∷◌, arith, min, ◌==◌,
  if◌then◌else◌, ==_refl,
}
use llcpp_exchange.Types.{Side, IsTraded}
use llcpp_exchange.OrderBook.State.{MeOrder, MeOrdersAtPrice, Chain, MeOrderBook, chain}
use llcpp_exchange.OrderBook.Spec.{drop_order, fill_chain}
use llcpp_exchange.OrderBook.Invariant.{ChainOk, Links, Positive}
use llcpp_exchange.OrderBook.Matching.{
  Incoming, Outcome, set_qty, match_events, match_order, opposite, out_of_limit, and_then,
}
use llcpp_exchange.OrderBook.RemoveOrder.{IsLive, chain-ChainOk}
use llcpp_exchange.OrderBook.MatchStep.{
  remaining, PoolOk, Shrinks, Shrinks-refl, Shrinks-trans, match_order-Shrinks, match_order-chain,
}
use llcpp_exchange.OrderBook.FillSteps.{passive_side, and_sent, after_head, fill_round, head-drop}

pub record Filled (i : Incoming) (b : MeOrderBook) (leaves : ℕ) (r : Outcome) : Type 0 where
  pub shrinks : Shrinks (passive_side i.side) b r.0
  pub result :
      fill_chain i leaves (chain (passive_side i.side) b)
      ≡ (chain (passive_side i.side) r.0, r.1, r.2)
  pub positive : Positive (chain (passive_side i.side) r.0)

pub passive-IsTraded : (s : Side) → IsTraded (passive_side s)
passive-IsTraded Side.buy = tt
passive-IsTraded _ = tt

pub opposite-chain : (s : Side) (b : MeOrderBook) → opposite s b ≡ chain (passive_side s) b
opposite-chain Side.buy b = refl
opposite-chain _ b = refl

module _ (i : Incoming) {b : MeOrderBook} (v : Links b) (w : PoolOk b) (leaves : ℕ)
    (l : MeOrdersAtPrice) (o : MeOrder) (os : List MeOrder) (ls : Chain)
    (e : chain (passive_side i.side) b ≡ record l { orders = o ∷ os } ∷ ls) where
  head_side : o.side ≡ passive_side i.side
  head_side =
      (subst (ChainOk (passive_side i.side) b.next_market_order_id) e
        (chain-ChainOk v (passive_side i.side) (passive-IsTraded i.side))).1.0.orders.0.0

  pub head-IsTraded : IsTraded o.side
  head-IsTraded = subst IsTraded (sym head_side) (passive-IsTraded i.side)

  pub head-IsLive : IsLive o b
  head-IsLive = rw (head_side, e) (ground (arith, ==_refl o.market_order_id))

  pub head-Shrinks : Shrinks (passive_side i.side) b (match_order i o leaves b).0
  head-Shrinks =
      subst (λ s. Shrinks s b (match_order i o leaves b).0) head_side
        (match_order-Shrinks i v w o head-IsTraded head-IsLive leaves)

  pub head-chain :
      chain (passive_side i.side) (match_order i o leaves b).0
      ≡ after_head (remaining o leaves) l o os ls
  head-chain =
      let q = remaining o leaves in
      let m = o.market_order_id in
      let after = λ (c : Chain). if q == 0 then drop_order m (set_qty m q c) else set_qty m q c in
      subst (λ s. chain s (match_order i o leaves b).0 ≡ after (chain s b)) head_side
        (match_order-chain i v w o head-IsTraded head-IsLive leaves)
      ∙ ap after e
      ∙ head-drop q l o os ls

  pub head-Filled :
      out_of_limit i.side i.price l.price ≡ false
      → 0 < leaves
      → (r : Outcome) → Filled i (match_order i o leaves b).0 (leaves - min leaves o.qty) r
      → Filled i b leaves
          (and_then (match_events i o (min leaves o.qty) (leaves - min leaves o.qty)) r)
  head-Filled limit pos r f = record {
    shrinks = Shrinks-trans head-Shrinks f.shrinks;
    result = rw e (
        fill_round i leaves l o os ls limit pos
        ∙ ap (and_sent (match_events i o (min leaves o.qty) (leaves - min leaves o.qty)))
            (ap (fill_chain i (leaves - min leaves o.qty)) (sym head-chain) ∙ f.result));
    positive = f.positive;
  }

module _ (i : Incoming) {b : MeOrderBook} (v : Links b) (w : PoolOk b) (leaves : ℕ)
    (pos : Positive (chain (passive_side i.side) b)) where
  pub stop-Filled :
      fill_chain i leaves (chain (passive_side i.side) b)
        ≡ (chain (passive_side i.side) b, leaves, [])
      → Filled i b leaves (b, leaves, [])
  stop-Filled e = record {
    shrinks = Shrinks-refl (passive_side i.side) v w;
    result = e;
    positive = pos;
  }

pub fill_empty : (i : Incoming) (leaves : ℕ) → fill_chain i leaves [] ≡ ([], leaves, [])
unfolding fill_chain
fill_empty i leaves = refl

pub fill_limit :
    (i : Incoming) (leaves : ℕ) (l : MeOrdersAtPrice) (ls : Chain)
    → out_of_limit i.side i.price l.price ≡ true
    → fill_chain i leaves (l ∷ ls) ≡ (l ∷ ls, leaves, [])
unfolding fill_chain
fill_limit i leaves l ls h = ground arith

-- ===== src/OrderBook/MatchStep.antt =====
-- `match` on the whole book: the passive order loses the fill, and leaves the book when nothing of
-- it is left.
use llcpp_exchange.Prelude.{
  ℕ, ◌+◌, ◌-◌, ◌≤◌, ◌≡◌, ◌⊎◌, refl, sym, ◌∙◌, subst, inl, inr, none, arith, min, ◌==◌,
  if◌then◌else◌, Bool-cases,
}
use llcpp_exchange.Types.{Side, is_buy, IsTraded, me_max_order_ids}
use llcpp_exchange.OrderBook.State.{MeOrder, MeOrderBook, chain}
use llcpp_exchange.OrderBook.Chains.{remove_order}
use llcpp_exchange.OrderBook.Spec.{drop_order, total}
use llcpp_exchange.OrderBook.Invariant.{both, Links}
use llcpp_exchange.OrderBook.Matching.{Incoming, set_qty, match_order}
use llcpp_exchange.OrderBook.QtyWrite.{
  with_qty, IgnoresQty, reduced, both-reduced, reduced-Links, reduced-IsLive,
}
use llcpp_exchange.OrderBook.RemoveOrder.{
  IsLive, remove_order-removed, remove_order-Links, both-removed,
}

-- What a match leaves of the passive order.
abbrev pub remaining : MeOrder → ℕ → ℕ
remaining o leaves = o.qty - min leaves o.qty

-- The live orders are those that the pool has handed out.
abbrev pub PoolOk : MeOrderBook → Type 0
PoolOk b = b.order_free + both (total (λ o. 1)) b ≡ me_max_order_ids

-- Nothing is gained: no order, no slot, no pointer. One side is left alone, and so are the ids.
pub record Shrinks (s : Side) (b b' : MeOrderBook) : Type 0 where
  pub links : Links b'
  pub pool : PoolOk b'
  pub other :
      (if is_buy s then b'.asks_by_price else b'.bids_by_price)
      ≡ (if is_buy s then b.asks_by_price else b.bids_by_price)
  pub next_id : b'.next_market_order_id ≡ b.next_market_order_id
  pub orders : (f : MeOrder → ℕ) → IgnoresQty f → both (total f) b' ≤ both (total f) b
  pub slots :
      (j : ℕ)
      → (b'.price_orders_at_price j ≡ none)
        ⊎ (b'.price_orders_at_price j ≡ b.price_orders_at_price j)

pub Shrinks-refl : (s : Side) {b : MeOrderBook} → Links b → PoolOk b → Shrinks s b b
Shrinks-refl s v w = record {
  links = v;
  pool = w;
  other = refl;
  next_id = refl;
  orders = λ f h. omega arith;
  slots = λ j. inr refl;
}

pub Shrinks-trans : {s : Side} {a b c : MeOrderBook} → Shrinks s a b → Shrinks s b c → Shrinks s a c
Shrinks-trans h k = record {
  links = k.links;
  pool = k.pool;
  other = k.other ∙ h.other;
  next_id = k.next_id ∙ h.next_id;
  orders = λ f i. omega (arith, h.orders f i, k.orders f i);
  slots = λ j. ground (arith, h.slots j, k.slots j);
}

module _ {b : MeOrderBook} (v : Links b) (w : PoolOk b) (o : MeOrder) (t : IsTraded o.side)
    (live : IsLive o b) where
  reduced-Shrinks : (q : ℕ) → Shrinks o.side b (reduced q o b)
  reduced-Shrinks q = record {
    links = reduced-Links v q o;
    pool = omega (arith, both-reduced v q o (λ x. 1) (λ x r. refl));
    other = ground arith;
    next_id = refl;
    orders = λ f h. omega (arith, both-reduced v q o f h);
    slots = λ j. inr refl;
  }

  pub remove_order-Shrinks : Shrinks o.side b (remove_order o b)
  remove_order-Shrinks = subst (Shrinks o.side b) (sym (remove_order-removed v o t live)) (record {
    links = subst Links (remove_order-removed v o t live) (remove_order-Links v o t live);
    pool = omega (arith, both-removed v (λ x. 1) o live);
    other = ground arith;
    next_id = refl;
    orders = λ f h. omega (arith, both-removed v f o live);
    slots = λ j. ground arith;
  })

module _ (i : Incoming) {b : MeOrderBook} (v : Links b) (w : PoolOk b) (o : MeOrder)
    (t : IsTraded o.side) (live : IsLive o b) (leaves : ℕ) where
  pub match_order-Shrinks : Shrinks o.side b (match_order i o leaves b).0
  unfolding match_order
  match_order-Shrinks =
      let step = reduced-Shrinks v w o t live (remaining o leaves) in
      elim (Bool-cases ((remaining o leaves) == 0)) [
        | inr some_left ↦ rw some_left step
        | inl gone ↦ rw gone (
            Shrinks-trans step (
              remove_order-Shrinks step.links step.pool (with_qty (remaining o leaves) o) t
                (reduced-IsLive v (remaining o leaves) o live)))
      ]

  pub match_order-chain : chain o.side (match_order i o leaves b).0 ≡ (
      if (remaining o leaves) == 0
      then drop_order o.market_order_id
          (set_qty o.market_order_id (remaining o leaves) (chain o.side b))
      else set_qty o.market_order_id (remaining o leaves) (chain o.side b))
  unfolding match_order
  match_order-chain = elim (Bool-cases ((remaining o leaves) == 0)) [
    | inr some_left ↦ rw some_left (ground arith)
    | inl gone ↦
        rw
          (
            gone,
            remove_order-removed (reduced-Links v (remaining o leaves) o)
                (with_qty (remaining o leaves) o) t (reduced-IsLive v (remaining o leaves) o live),
          )
          (ground arith)
  ]

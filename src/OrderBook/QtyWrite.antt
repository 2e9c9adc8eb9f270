-- ===== src/OrderBook/QtyWrite.antt =====
-- The write of an order's quantity through its pointer: only that quantity changes.
use llcpp_exchange.Prelude.{
  ℕ, ◌≡◌, ◌≢◌, refl, ◌∙◌, ap, inl, inr, true, false, none, some, List, [], ◌∷◌, arith, ◌==◌, All,
  sum_by, Bool-cases, Option-cases,
}
use llcpp_exchange.Types.{Side}
use llcpp_exchange.OrderBook.State.{
  MeOrder, MeOrdersAtPrice, Chain, MeOrderBook, find_in_level, find_order, chain, update_chain,
}
use llcpp_exchange.OrderBook.Chains.{has_id}
use llcpp_exchange.OrderBook.Spec.{total}
use llcpp_exchange.OrderBook.Invariant.{
  Better, OrderOk, LevelOk, Sorted, ChainOk, with_id, with_ids, indicator, both, Links,
}
use llcpp_exchange.OrderBook.Matching.{set_qty_in, set_qty}
use llcpp_exchange.OrderBook.RemoveOrder.{IsLive}

abbrev pub with_qty : ℕ → MeOrder → MeOrder
with_qty q o = record o { qty = q }

-- A measure that does not look at quantities.
abbrev pub IgnoresQty : (MeOrder → ℕ) → Type 0
IgnoresQty f = (o : MeOrder) (q : ℕ) → f (with_qty q o) ≡ f o

module _ (m q : ℕ) where
  pub has-set_qty : (os : List MeOrder) → has_id m (set_qty_in m q os) ≡ has_id m os
  has-set_qty [] = refl
  has-set_qty (x ∷ os) = ground (arith, has-set_qty os)

  sum-set_qty :
      (f : MeOrder → ℕ)
      → IgnoresQty f
      → (os : List MeOrder) → sum_by f (set_qty_in m q os) ≡ sum_by f os
  sum-set_qty f h [] = refl
  sum-set_qty f h (x ∷ os) = ground (arith, h x q, sum-set_qty f h os)

  find_in-set_qty :
      (os : List MeOrder) (o : MeOrder)
      → find_in_level m os ≡ some o
      → find_in_level m (set_qty_in m q os) ≡ some (with_qty q o)
  find_in-set_qty [] o e = cc
  find_in-set_qty (x ∷ os) o e = ground (arith, find_in-set_qty os o)

  find_in_none-set_qty : (os : List MeOrder) → find_in_level m os ≡ none → has_id m os ≡ false
  find_in_none-set_qty [] e = refl
  find_in_none-set_qty (x ∷ os) e = ground (arith, find_in_none-set_qty os)

  find_in_some-has :
      (os : List MeOrder) (o : MeOrder) → find_in_level m os ≡ some o → has_id m os ≡ true
  find_in_some-has [] o e = cc
  find_in_some-has (x ∷ os) o e = ground (arith, find_in_some-has os o)

  orders-set_qty :
      (s : Side) (p n : ℕ) (os : List MeOrder)
      → All (OrderOk s p n) os
      → All (OrderOk s p n) (set_qty_in m q os)
  orders-set_qty s p n [] a = tt
  orders-set_qty s p n (x ∷ os) a = elim (Bool-cases (x.market_order_id == m)) [
    | inl hit ↦ rw hit a
    | inr miss ↦ rw miss (a.0, orders-set_qty s p n os a.1)
  ]

  set_qty_in-ne : (os : List MeOrder) → os ≢ [] → set_qty_in m q os ≢ []
  set_qty_in-ne [] h e = h e
  set_qty_in-ne (x ∷ os) h e = ground arith

  find-set_qty :
      (ls : Chain) (o : MeOrder)
      → find_order m ls ≡ some o
      → find_order m (set_qty m q ls) ≡ some (with_qty q o)
  unfolding set_qty
  find-set_qty [] o e = cc
  find-set_qty (l ∷ ls) o e = elim (Option-cases (find_in_level m l.orders)) [
    | inl missing ↦
        rw (find_in_none-set_qty l.orders missing, missing) (find-set_qty ls o (rw missing at e))
    | inr (x, found) ↦
        let same : x ≡ o = ground (arith, e) in
        rw (find_in_some-has l.orders x found, find_in-set_qty l.orders x found)
          (ap (λ y. some (with_qty q y)) same)
  ]

  total-set_qty :
      (f : MeOrder → ℕ) → IgnoresQty f → (ls : Chain) → total f (set_qty m q ls) ≡ total f ls
  unfolding set_qty
  total-set_qty f h [] = refl
  total-set_qty f h (l ∷ ls) = ground (arith, sum-set_qty f h l.orders, total-set_qty f h ls)

  prices-set_qty :
      (g : ℕ → ℕ) (ls : Chain)
      → sum_by (λ l. g l.price) (set_qty m q ls) ≡ sum_by (λ l. g l.price) ls
  unfolding set_qty
  prices-set_qty g [] = refl
  prices-set_qty g (l ∷ ls) = ground (arith, prices-set_qty g ls)

  Better-set_qty :
      (s : Side) (p : ℕ) (ls : Chain)
      → All (λ k. Better s p k.price) ls
      → All (λ k. Better s p k.price) (set_qty m q ls)
  unfolding set_qty
  Better-set_qty s p [] a = tt
  Better-set_qty s p (l ∷ ls) a = elim (Bool-cases (has_id m l.orders)) [
    | inl hit ↦ rw hit a
    | inr miss ↦ rw miss (a.0, Better-set_qty s p ls a.1)
  ]

  Sorted-set_qty : (s : Side) (ls : Chain) → Sorted s ls → Sorted s (set_qty m q ls)
  unfolding set_qty
  Sorted-set_qty s [] v = tt
  Sorted-set_qty s (l ∷ ls) v = elim (Bool-cases (has_id m l.orders)) [
    | inl hit ↦ rw hit v
    | inr miss ↦ rw miss (Better-set_qty s l.price ls v.0, Sorted-set_qty s ls v.1)
  ]

  level-set_qty :
      (s : Side) (n : ℕ) (l : MeOrdersAtPrice)
      → LevelOk s n l
      → LevelOk s n (record l { orders = set_qty_in m q l.orders })
  level-set_qty s n l v = record {
    side = v.side;
    occupied = set_qty_in-ne l.orders v.occupied;
    orders = orders-set_qty s l.price n l.orders v.orders;
  }

  LevelOk-set_qty :
      (s : Side) (n : ℕ) (ls : Chain) → All (LevelOk s n) ls → All (LevelOk s n) (set_qty m q ls)
  unfolding set_qty
  LevelOk-set_qty s n [] v = tt
  LevelOk-set_qty s n (l ∷ ls) v = elim (Bool-cases (has_id m l.orders)) [
    | inl hit ↦ rw hit (level-set_qty s n l v.0, v.1)
    | inr miss ↦ rw miss (v.0, LevelOk-set_qty s n ls v.1)
  ]

-- The book after the write to the passive order.
abbrev pub reduced : ℕ → MeOrder → MeOrderBook → MeOrderBook
reduced q o b = update_chain o.side (set_qty o.market_order_id q) b

module _ {b : MeOrderBook} (v : Links b) (q : ℕ) (o : MeOrder) where
  pub both-reduced :
      (f : MeOrder → ℕ) → IgnoresQty f → both (total f) (reduced q o b) ≡ both (total f) b
  both-reduced f h = ground (
    arith,
    total-set_qty o.market_order_id q f h b.bids_by_price,
    total-set_qty o.market_order_id q f h b.asks_by_price,
  )

  both_prices-reduced :
      (g : ℕ → ℕ)
      → both (sum_by (λ l. g l.price)) (reduced q o b) ≡ both (sum_by (λ l. g l.price)) b
  both_prices-reduced g = ground (
    arith,
    prices-set_qty o.market_order_id q g b.bids_by_price,
    prices-set_qty o.market_order_id q g b.asks_by_price,
  )

  chain-reduced :
      (s : Side) (n : ℕ) (ls : Chain)
      → ChainOk s n ls
      → ChainOk s n (set_qty o.market_order_id q ls)
  chain-reduced s n ls w =
      (Sorted-set_qty o.market_order_id q s ls w.0, LevelOk-set_qty o.market_order_id q s n ls w.1)

  pub reduced-Links : Links (reduced q o b)
  reduced-Links = record {
    bids = ground (arith, v.bids, chain-reduced Side.buy _ b.bids_by_price v.bids);
    asks = ground (arith, v.asks, chain-reduced Side.sell _ b.asks_by_price v.asks);
    slots = λ p. both_prices-reduced (λ r. indicator (r == p)) ∙ v.slots p;
    keys = v.keys;
    pointers = λ c k m. both-reduced (with_ids c k m) (λ x r. refl) ∙ v.pointers c k m;
    unique = λ m. omega (arith, both-reduced (with_id m) (λ x r. refl), v.unique m);
    level_pool = omega (arith, both_prices-reduced (λ r. 1), v.level_pool);
  }

  pub reduced-IsLive : IsLive o b → IsLive (with_qty q o) (reduced q o b)
  reduced-IsLive live = ground (arith, find-set_qty o.market_order_id q (chain o.side b) o live)

-- ===== src/OrderBook/Pointers.antt =====
-- What a client's pointer leads to: a live order of its own.
use llcpp_exchange.Prelude.{
  ℕ, ◌≤◌, ◌<◌, ◌≡◌, refl, sym, subst, inl, inr, none, some, List, [], ◌∷◌, arith, All, sum_by,
  Option-cases, ==_refl,
}
use llcpp_exchange.Types.{Side, IsTraded}
use llcpp_exchange.OrderBook.State.{
  MeOrder, Chain, MeOrderBook, find_in_level, find_order, deref_order, chain,
}
use llcpp_exchange.OrderBook.Spec.{total}
use llcpp_exchange.OrderBook.Invariant.{LevelOk, with_id, with_ids, both, Links}
use llcpp_exchange.OrderBook.Removal.{find-OrderOk}
use llcpp_exchange.OrderBook.RemoveOrder.{IsLive, removed, both-removed}

find_in-id :
    (m : ℕ) (os : List MeOrder) (o : MeOrder) → find_in_level m os ≡ some o → o.market_order_id ≡ m
find_in-id m [] o e = cc
find_in-id m (x ∷ os) o e = ground (arith, find_in-id m os o)

find_in_none-zero :
    (m : ℕ) (os : List MeOrder) → find_in_level m os ≡ none → sum_by (with_id m) os ≡ 0
find_in_none-zero m [] e = refl
find_in_none-zero m (x ∷ os) e = ground (arith, find_in_none-zero m os)

pub find-id : (m : ℕ) (ls : Chain) (o : MeOrder) → find_order m ls ≡ some o → o.market_order_id ≡ m
find-id m [] o e = cc
find-id m (l ∷ ls) o e = elim (Option-cases (find_in_level m l.orders)) [
  | inl missing ↦ find-id m ls o (rw missing at e)
  | inr (x, found) ↦ ground (arith, find_in-id m l.orders x found)
]

find_none-zero : (m : ℕ) (ls : Chain) → find_order m ls ≡ none → total (with_id m) ls ≡ 0
find_none-zero m [] e = refl
find_none-zero m (l ∷ ls) e = elim (Option-cases (find_in_level m l.orders)) [
  | inl missing ↦
      omega (arith, find_in_none-zero m l.orders missing, find_none-zero m ls (rw missing at e))
  | inr (x, found) ↦ absurd (let contra : some x ≡ none = rw found at e in cc)
]

find-side :
    (s : Side) (n m : ℕ) (ls : Chain) (o : MeOrder)
    → All (LevelOk s n) ls
    → find_order m ls ≡ some o
    → o.side ≡ s
find-side s n m [] o v e = cc
find-side s n m (l ∷ ls) o v e = elim (Option-cases (find_in_level m l.orders)) [
  | inl missing ↦ find-side s n m ls o v.1 (rw missing at e)
  | inr (x, found) ↦ ground (arith, find-OrderOk s l.price n m l.orders x found v.0.orders)
]

pub find-young :
    (s : Side) (n m : ℕ) (ls : Chain) (o : MeOrder)
    → All (LevelOk s n) ls
    → find_order m ls ≡ some o
    → o.market_order_id < n
find-young s n m [] o v e = cc
find-young s n m (l ∷ ls) o v e = elim (Option-cases (find_in_level m l.orders)) [
  | inl missing ↦ find-young s n m ls o v.1 (rw missing at e)
  | inr (x, found) ↦ ground (arith, find-OrderOk s l.price n m l.orders x found v.0.orders)
]

sum-ids-le : (c k m : ℕ) (os : List MeOrder) → sum_by (with_ids c k m) os ≤ sum_by (with_id m) os
sum-ids-le c k m [] = omega arith
sum-ids-le c k m (o ∷ os) = ground (arith, sum-ids-le c k m os)

total-ids-le : (c k m : ℕ) (ls : Chain) → total (with_ids c k m) ls ≤ total (with_id m) ls
total-ids-le c k m [] = omega arith
total-ids-le c k m (l ∷ ls) = omega (arith, sum-ids-le c k m l.orders, total-ids-le c k m ls)

module _ {b : MeOrderBook} (v : Links b) where
  place :
      {s : Side} (o : MeOrder) (m : ℕ)
      → o.side ≡ s
      → o.market_order_id ≡ m
      → find_order m (chain s b) ≡ some o
      → IsLive o b
  place {s} o m side id found =
      subst (λ t. find_order o.market_order_id (chain t b) ≡ some o) (sym side)
        (subst (λ n. find_order n (chain s b) ≡ some o) (sym id) found)

  -- A pointer leads to a live order on a traded side.
  pub IsLive-of_pointer :
      (c k m : ℕ)
      → b.cid_oid_to_order c k ≡ some m
      → (o : MeOrder) × (deref_order m b ≡ some o)
        × IsTraded o.side
        × IsLive o b
        × (o.market_order_id ≡ m)
  unfolding deref_order
  IsLive-of_pointer c k m e = elim (Option-cases (find_order m b.bids_by_price)) [
    | inr (o, found) ↦
        let side = find-side Side.buy _ m b.bids_by_price o v.bids.1 found in
        let id = find-id m b.bids_by_price o found in
        (o, rw found, subst IsTraded (sym side) tt, place o m side id found, id)
    | inl missing ↦ elim (Option-cases (find_order m b.asks_by_price)) [
      | inr (o, found) ↦
          let side = find-side Side.sell _ m b.asks_by_price o v.asks.1 found in
          let id = find-id m b.asks_by_price o found in
          (o, rw (missing, found), subst IsTraded (sym side) tt, place o m side id found, id)
      | inl neither ↦ absurd (
          ground (
            arith,
            find_none-zero m b.bids_by_price missing,
            find_none-zero m b.asks_by_price neither,
            total-ids-le c k m b.bids_by_price,
            total-ids-le c k m b.asks_by_price,
            v.pointers c k m,
            ==_refl m,
          ))
    ]
  ]

  ids-removed-le :
      (c k m : ℕ) (o : MeOrder)
      → both (total (with_ids c k m)) (removed o b) ≤ both (total (with_id m)) (removed o b)
  ids-removed-le c k m o = omega (
    arith,
    total-ids-le c k m (removed o b).bids_by_price,
    total-ids-le c k m (removed o b).asks_by_price,
  )

  -- It is the client's own order.
  pub pointer-ids :
      (c k m : ℕ) (o : MeOrder)
      → b.cid_oid_to_order c k ≡ some m
      → IsLive o b
      → o.market_order_id ≡ m
      → (o.client_id ≡ c) × (o.client_order_id ≡ k)
  pointer-ids c k m o e live id = ground (
    arith,
    v.pointers c k m,
    v.unique m,
    both-removed v (with_ids c k m) o live,
    both-removed v (with_id m) o live,
    ids-removed-le c k m o,
    ==_refl m,
  )

-- ===== src/MarketOrderBook/Steps.antt =====
-- The messages of one match, and those of a cancellation.
use llcpp_exchange.Prelude.{
  ℕ, ◌≡◌, refl, ap, Option, none, some, List, [], ◌∷◌, ◌++◌, arith, Bool-cases, Option-cases, inl,
  inr,
}
use llcpp_exchange.OrderBook.State.{MeOrder, MeOrdersAtPrice, Chain, MeOrderBook}
use llcpp_exchange.OrderBook.Chains.{has_id, erase_id, ring_of, is_alone}
use llcpp_exchange.OrderBook.Matching.{Event, response, update, set_qty_in, set_qty}
use llcpp_exchange.OrderBook.Spec.{prepend, drop_order}
use llcpp_exchange.OrderBook.RemoveOrder.{removed}
use llcpp_exchange.OrderBook.QtyWrite.{with_qty, reduced, has-set_qty}
use llcpp_exchange.MarketOrderBook.Book.{Bbo, MarketOrderBook}
use llcpp_exchange.MarketOrderBook.Update.{on_market_update}
use llcpp_exchange.MarketOrderBook.View.{image}
use llcpp_exchange.MarketOrderBook.Mirror.{Mirrors}

-- The market's part of what the matching engine is handed.
unfoldable pub apply_events : List Event → MarketOrderBook → Option MarketOrderBook
apply_events [] k = some k
apply_events (response r ∷ es) k = apply_events es k
apply_events (update u ∷ es) k = elim (on_market_update u k) [
  | none ↦ none
  | some k' ↦ apply_events es k'
]

-- The updates are applied, and the client's book mirrors the exchange's book `b`.
abbrev pub Follows : MeOrderBook → Option MarketOrderBook → Type 0
Follows b r = (k : MarketOrderBook) × (r ≡ some k) × Mirrors b k

pub apply_events-append :
    (es fs : List Event) (k k' : MarketOrderBook)
    → apply_events es k ≡ some k'
    → apply_events (es ++ fs) k ≡ apply_events fs k'
unfolding apply_events
apply_events-append [] fs k k' e = let e' : k ≡ k' = cc in ap (apply_events fs) e'
apply_events-append (response r ∷ es) fs k k' e = apply_events-append es fs k k' e
apply_events-append (update u ∷ es) fs k k' e = elim (Option-cases (on_market_update u k)) [
  | inl n ↦ absurd (ground arith)
  | inr (k₁, n) ↦ let ih = apply_events-append es fs k₁ k' (ground arith) in ground arith
]

erase-set_qty : (m q : ℕ) (os : List MeOrder) → erase_id m (set_qty_in m q os) ≡ erase_id m os
erase-set_qty m q [] = refl
erase-set_qty m q (o ∷ os) = ground (arith, erase-set_qty m q os)

prepend-orders :
    (os ps : List MeOrder) (l : MeOrdersAtPrice) (ls : Chain)
    → prepend os (record l { orders = ps }) ls ≡ prepend os l ls
unfolding prepend
prepend-orders [] ps l ls = refl
prepend-orders (o ∷ os) ps l ls = refl

drop-set_qty : (m q : ℕ) (c : Chain) → drop_order m (set_qty m q c) ≡ drop_order m c
unfolding drop_order set_qty
drop-set_qty m q [] = refl
drop-set_qty m q (l ∷ ls) = elim (Bool-cases (has_id m l.orders)) [
  | inl h ↦
      rw (h, has-set_qty m q l.orders, h, erase-set_qty m q l.orders)
        (prepend-orders (erase_id m l.orders) (set_qty_in m q l.orders) l ls)
  | inr h ↦ rw (h, h) (ap (λ c. l ∷ c) (drop-set_qty m q ls))
]

alone-set_qty_in : (m q : ℕ) (os : List MeOrder) → is_alone (set_qty_in m q os) ≡ is_alone os
alone-set_qty_in m q [] = refl
alone-set_qty_in m q (o ∷ []) = ground arith
alone-set_qty_in m q (o ∷ p ∷ os) = ground arith

alone-set_qty :
    (m q : ℕ) (c : Chain) → is_alone (ring_of m (set_qty m q c)) ≡ is_alone (ring_of m c)
unfolding ring_of set_qty
alone-set_qty m q [] = refl
alone-set_qty m q (l ∷ ls) =
    ground (arith, has-set_qty m q l.orders, alone-set_qty_in m q l.orders, alone-set_qty m q ls)

-- A write to the quantity of an order that is then removed is not seen.
pub removed-reduced :
    (o : MeOrder) (b : MeOrderBook) (q : ℕ) (f : ℕ → Option ℕ) (x : Bbo)
    → image (removed (with_qty q o) (reduced q o b)) f x ≡ image (removed o b) f x
removed-reduced o b q f x =
    let m = o.market_order_id in
    ground (
      arith,
      alone-set_qty m q b.bids_by_price,
      alone-set_qty m q b.asks_by_price,
      drop-set_qty m q b.bids_by_price,
      drop-set_qty m q b.asks_by_price,
    )

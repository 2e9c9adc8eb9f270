-- ===== src/MarketOrderBook/Mirror.antt =====
-- A client's book that mirrors the exchange's, and the updates of one order.
use llcpp_exchange.Prelude.{
  ℕ, ◌<◌, ◌≡◌, refl, ap, ◌∙◌, Option, none, some, arith, ◌==◌, if◌then◌else◌, put, Bool-cases,
  Option-cases, inl, inr, ==_refl,
}
use llcpp_exchange.Types.{is_buy, IsTraded, me_max_order_ids}
use llcpp_exchange.Protocol.{MeMarketUpdate}
use llcpp_exchange.OrderBook.State.{MeOrder, Chain, MeOrderBook, find_order, or_else, deref_order}
use llcpp_exchange.OrderBook.Chains.{remove_order}
use llcpp_exchange.OrderBook.Matching.{set_qty}
use llcpp_exchange.OrderBook.Spec.{total}
use llcpp_exchange.OrderBook.Invariant.{with_id, both, Links}
use llcpp_exchange.OrderBook.Removal.{total-drop}
use llcpp_exchange.OrderBook.RemoveOrder.{IsLive, removed, both-removed}
use llcpp_exchange.OrderBook.Pointers.{find-id}
use llcpp_exchange.OrderBook.QtyWrite.{reduced, both-reduced}
use llcpp_exchange.MarketOrderBook.Book.{
  Bbo, MarketOrderBook, get_order, write_qty, find_market_order,
}
use llcpp_exchange.MarketOrderBook.Update.{top_price, top_qty, update_bbo, on_modify, on_cancel}
use llcpp_exchange.MarketOrderBook.View.{
  view, view_chain, view_option, image, write_view, find_view,
}
use llcpp_exchange.MarketOrderBook.Image.{or_else_view, update_view, remove-image}

-- The best prices of the exchange's book, as the client keeps them.
abbrev pub top : MeOrderBook → Bbo
top b = record {
  bid_price = top_price (view_chain b.bids_by_price);
  ask_price = top_price (view_chain b.asks_by_price);
  bid_qty = top_qty (view_chain b.bids_by_price);
  ask_qty = top_qty (view_chain b.asks_by_price);
}

abbrev pub mirrored : MeOrderBook → (ℕ → Option ℕ) → MarketOrderBook
mirrored b f = image b f (top b)

-- The client's pointers lead to the live orders, and to no others.
abbrev pub Pointers : MeOrderBook → (ℕ → Option ℕ) → Type 0
Pointers b f =
    (m : ℕ)
    → m < me_max_order_ids
    → f m ≡ (if both (total (with_id m)) b == 0 then none else some m)

-- The same chains, slots and pools, the pointers of the live orders, and the best prices.
pub record Mirrors (b : MeOrderBook) (k : MarketOrderBook) : Type 0 where
  pub oid : ℕ → Option ℕ
  pub pointers : Pointers b oid
  pub same : k ≡ mirrored b oid

pub refreshed :
    (b : MeOrderBook) (f : ℕ → Option ℕ) (x : Bbo) → update_bbo (image b f x) ≡ mirrored b f
unfolding update_bbo
refreshed b f x = refl

deref_view :
    (m : ℕ) (b : MeOrderBook)
    → or_else
        (find_market_order m (view_chain b.bids_by_price))
        (find_market_order m (view_chain b.asks_by_price))
      ≡ view_option view (deref_order m b)
unfolding deref_order
deref_view m b =
    ap (λ r. or_else r (find_market_order m (view_chain b.asks_by_price)))
      (find_view m b.bids_by_price)
    ∙ (ap (or_else (view_option view (find_order m b.bids_by_price))) (find_view m b.asks_by_price)
        ∙ or_else_view view (find_order m b.bids_by_price) (find_order m b.asks_by_price))

module _ {b : MeOrderBook} (v : Links b) (o : MeOrder) (t : IsTraded o.side)
    (live : IsLive o b) where
  counted : both (total (with_id o.market_order_id)) b ≡ 1
  counted = ground (
    arith,
    v.unique o.market_order_id,
    both-removed v (with_id o.market_order_id) o live,
    ==_refl o.market_order_id,
  )

  alone_in :
      (c : Chain) (o' : MeOrder)
      → find_order o.market_order_id c ≡ some o'
      → 0 < total (with_id o.market_order_id) c
  alone_in c o' e =
      let i = find-id o.market_order_id c o' e in
      ground (arith, total-drop (with_id o.market_order_id) o.market_order_id c o' e)

  live_deref : deref_order o.market_order_id b ≡ some o
  unfolding deref_order
  live_deref = elim (Bool-cases (is_buy o.side)) [
    | inl s ↦ ground arith
    | inr s ↦ elim (Option-cases (find_order o.market_order_id b.bids_by_price)) [
      | inl e ↦ ground arith
      | inr (o', e) ↦
          let here : find_order o.market_order_id b.asks_by_price ≡ some o = ground arith in
          absurd
            (omega (arith, counted, alone_in b.bids_by_price o' e, alone_in b.asks_by_price o here))
    ]
  ]

  module _ (f : ℕ → Option ℕ) (x : Bbo) (p : Pointers b f)
      (small : o.market_order_id < me_max_order_ids) where
    known : f o.market_order_id ≡ some o.market_order_id
    known = ground (arith, p o.market_order_id small, counted)

    get_order-live : get_order o.market_order_id (image b f x) ≡ some (view o)
    unfolding get_order
    get_order-live =
        let found = deref_view o.market_order_id b ∙ ap (view_option view) live_deref in
        ground (arith, known)

    -- A CANCEL of the order, and a MODIFY.
    pub cancel-image :
        (u : MeMarketUpdate)
        → u.order_id ≡ o.market_order_id
        → on_cancel u (image b f x) ≡ image (remove_order o b) (put f o.market_order_id none) x
    unfolding on_cancel
    cancel-image u e =
        let g : get_order u.order_id (image b f x) ≡ some (view o) =
          ap (λ m. get_order m (image b f x)) e ∙ get_order-live in
        let r = remove-image f x o b in ground arith

    pub modify-image :
        (u : MeMarketUpdate)
        → u.order_id ≡ o.market_order_id
        → on_modify u (image b f x) ≡ image (reduced u.qty o b) f x
    unfolding on_modify
    modify-image u e =
        let m = o.market_order_id in
        let g : get_order u.order_id (image b f x) ≡ some (view o) =
          ap (λ i. get_order i (image b f x)) e ∙ get_order-live in
        let r =
          update_view o.side (write_qty m u.qty) (set_qty m u.qty) b f x (write_view m u.qty) in
        ground arith

    pub Pointers-removed : Pointers (removed o b) (put f o.market_order_id none)
    Pointers-removed m h = ground (arith, p m h, v.unique m, both-removed v (with_id m) o live)

    pub Pointers-reduced : (q : ℕ) → Pointers (reduced q o b) f
    Pointers-reduced q m h = ground (arith, p m h, both-reduced v q o (with_id m) (λ y r. refl))

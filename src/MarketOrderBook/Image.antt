-- ===== src/MarketOrderBook/Image.antt =====
-- The client's operations on the image of the exchange's book are the exchange's.
use llcpp_exchange.Prelude.{
  ℕ, ◌+◌, ◌-◌, ◌≡◌, refl, ap, ◌∙◌, Bool, true, false, Option, none, some, arith, if◌then◌else◌, put,
  Bool-cases, Option-cases, inl, inr,
}
use llcpp_exchange.Types.{Side, is_buy}
use llcpp_exchange.OrderBook.State.{
  MeOrder, MeOrdersAtPrice, Chain, MeOrderBook, find_level, or_else, get_orders_at_price, chain,
  update_chain, price_to_index,
}
use llcpp_exchange.OrderBook.Chains.{
  insert_level, erase_level, append_order, new_level, ring_of, is_alone, unlink_order,
  add_orders_at_price, remove_orders_at_price, link_order, add_order, remove_order,
}
use llcpp_exchange.MarketOrderBook.Book.{
  MarketOrder, MarketChain, Bbo, MarketOrderBook, market_level_at, market_chain,
  update_market_chain, insert_market_level, erase_market_level, append_market_order, market_ring_of,
  is_only, unlink_market_order, add_market_level, remove_market_level, link_market_order,
  add_market_order, remove_market_order,
}
use llcpp_exchange.MarketOrderBook.View.{
  view, view_level, view_chain, view_option, image, insert_view, erase_view, append_view, ring_view,
  alone_view, unlink_view, find_level_view,
}

pub or_else_view {ℓ κ} :
    {A : Type ℓ} {B : Type κ} (g : A → B) (x y : Option A)
    → or_else (view_option g x) (view_option g y) ≡ view_option g (or_else x y)
or_else_view g none y = refl
or_else_view g (some a) y = refl

-- A write to one side that does the same to what is seen of it.
pub update_view :
    (s : Side) (g : MarketChain → MarketChain) (h : Chain → Chain) (b : MeOrderBook)
    (f : ℕ → Option ℕ) (x : Bbo)
    → ((c : Chain) → g (view_chain c) ≡ view_chain (h c))
    → update_market_chain s g (image b f x) ≡ image (update_chain s h b) f x
update_view s g h b f x e = elim (Bool-cases (is_buy s)) [
  | inl t ↦ rw t (rw (e b.bids_by_price) refl)
  | inr t ↦ rw t (rw (e b.asks_by_price) refl)
]

module _ (b : MeOrderBook) (f : ℕ → Option ℕ) (x : Bbo) where
  pub level_at-image :
      (price : ℕ)
      → market_level_at price (image b f x) ≡ view_option view_level (get_orders_at_price price b)
  unfolding market_level_at get_orders_at_price
  level_at-image price = elim (Option-cases (b.price_orders_at_price (price_to_index price))) [
    | inl e ↦ ground arith
    | inr (p, e) ↦
        let both_found =
          or_else_view view_level (find_level p b.bids_by_price) (find_level p b.asks_by_price) in
        ground (arith, find_level_view p b.bids_by_price, find_level_view p b.asks_by_price)
  ]

  add_level-image :
      (n : MeOrdersAtPrice)
      → add_market_level (view_level n) (image b f x) ≡ image (add_orders_at_price n b) f x
  unfolding add_market_level add_orders_at_price
  add_level-image n =
      update_view n.side (insert_market_level (view_level n)) (insert_level n)
        (record b {
          price_orders_at_price =
              put b.price_orders_at_price (price_to_index n.price) (some n.price);
        })
        f x (insert_view n)

  remove_level-image :
      (s : Side) (price : ℕ)
      → remove_market_level s price (image b f x) ≡ image (remove_orders_at_price s price b) f x
  unfolding remove_market_level remove_orders_at_price
  remove_level-image s price = elim (Option-cases (get_orders_at_price price b)) [
    | inl e ↦ let h = level_at-image price in ground arith
    | inr (l, e) ↦
        let h = level_at-image price in
        let u =
          update_view s (erase_market_level l.price) (erase_level l.price) b f x
            (erase_view l.price) in
        ground arith
  ]

module _ (f : ℕ → Option ℕ) (x : Bbo) where
  link-image :
      (o : MeOrder) (b : MeOrderBook)
      → link_market_order (view o) (image b f x) ≡ view_option (λ b'. image b' f x) (link_order o b)
  unfolding link_market_order link_order
  link-image o b = elim (Option-cases (get_orders_at_price o.price b)) [
    | inl e ↦
        let h = level_at-image b f x o.price in
        let u =
          add_level-image (record b { orders_at_price_free = b.orders_at_price_free - 1 }) f x
            (new_level o) in
        ground arith
    | inr (l, e) ↦
        let h = level_at-image b f x o.price in
        let u =
          update_view l.side (append_market_order l.price (view o)) (append_order l.price o) b f x
            (append_view l.price o) in
        ground arith
  ]

  pub add-image :
      (o : MeOrder) (b : MeOrderBook)
      → add_market_order (view o) (image b f x)
        ≡ view_option
            (λ b'. image b' (put f o.market_order_id (some o.market_order_id)) x)
            (add_order o b)
  unfolding add_market_order add_order
  add-image o b = elim (Option-cases (link_order o b)) [
    | inl e ↦ let h = link-image o b in ground arith
    | inr (b', e) ↦ let h = link-image o b in ground arith
  ]

  chain_view : (s : Side) (b : MeOrderBook) → market_chain s (image b f x) ≡ view_chain (chain s b)
  chain_view s b = ground arith

  alone-image :
      (o : MeOrder) (b : MeOrderBook)
      → is_only (market_ring_of o.market_order_id (market_chain o.side (image b f x)))
        ≡ is_alone (ring_of o.market_order_id (chain o.side b))
  alone-image o b =
      let c = chain o.side b in
      let m = o.market_order_id in
      ap (λ l. is_only (market_ring_of m l)) (chain_view o.side b)
      ∙ (ap is_only (ring_view m c) ∙ alone_view (ring_of m c))

  -- The two books before the pointer is cleared and the block given back.
  abbrev unlinked : MeOrder → MeOrderBook → MeOrderBook
  unlinked o b =
      if is_alone (ring_of o.market_order_id (chain o.side b))
      then remove_orders_at_price o.side o.price b
      else update_chain o.side (unlink_order o.market_order_id) b

  abbrev market_unlinked : MarketOrder → MarketOrderBook → MarketOrderBook
  market_unlinked o k =
      if is_only (market_ring_of o.order_id (market_chain o.side k))
      then remove_market_level o.side o.price k
      else update_market_chain o.side (unlink_market_order o.order_id) k

  unlinked-image :
      (o : MeOrder) (b : MeOrderBook)
      → market_unlinked (view o) (image b f x) ≡ image (unlinked o b) f x
  unlinked-image o b =
      let m = o.market_order_id in
      ap
        (λ (t : Bool).
          if t
          then remove_market_level o.side o.price (image b f x)
          else update_market_chain o.side (unlink_market_order m) (image b f x))
        (alone-image o b)
      ∙ picked (is_alone (ring_of m (chain o.side b)))
          (remove_market_level o.side o.price (image b f x))
          (update_market_chain o.side (unlink_market_order m) (image b f x))
          (remove_orders_at_price o.side o.price b) (update_chain o.side (unlink_order m) b)
          (remove_level-image b f x o.side o.price)
          (update_view o.side (unlink_market_order m) (unlink_order m) b f x (unlink_view m))
    where
      picked :
          (t : Bool) (k k' : MarketOrderBook) (c c' : MeOrderBook)
          → k ≡ image c f x
          → k' ≡ image c' f x
          → (if t then k else k') ≡ image (if t then c else c') f x
      picked true k k' c c' e e' = e
      picked false k k' c c' e e' = e'

  pub remove-image :
      (o : MeOrder) (b : MeOrderBook)
      → remove_market_order (view o) (image b f x)
        ≡ image (remove_order o b) (put f o.market_order_id none) x
  unfolding remove_market_order remove_order
  remove-image o b =
      ap
        (λ (k : MarketOrderBook). record k {
          oid_to_order = put k.oid_to_order o.market_order_id none;
          order_free = k.order_free + 1;
        })
        (unlinked-image o b)

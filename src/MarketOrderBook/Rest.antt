-- ===== src/MarketOrderBook/Rest.antt =====
-- The ADD update of an order that the exchange's book rests.
use llcpp_exchange.Prelude.{
  ℕ, ◌+◌, ◌-◌, ◌<◌, ◌≡◌, ◌⊎◌, refl, ap, ◌∙◌, false, Option, none, some, [], ◌∷◌, arith, put,
  Option-cases, inl, inr,
}
use llcpp_exchange.Types.{me_max_order_ids}
use llcpp_exchange.Protocol.{MarketUpdateType, MeMarketUpdate}
use llcpp_exchange.OrderBook.State.{
  MeOrder, MeOrderBook, find_level, get_orders_at_price, price_to_index,
}
use llcpp_exchange.OrderBook.Chains.{add_order}
use llcpp_exchange.OrderBook.Matching.{update}
use llcpp_exchange.OrderBook.Spec.{total}
use llcpp_exchange.OrderBook.Invariant.{with_id, both}
use llcpp_exchange.OrderBook.RemoveOrder.{find_level-price}
use llcpp_exchange.OrderBook.RestOrder.{with_free}
use llcpp_exchange.MarketOrderBook.Book.{
  MarketOrder, MarketOrderBook, market_level_at, add_market_order,
}
use llcpp_exchange.MarketOrderBook.Update.{
  update_bbo, is_aliased, order_of, on_add, market_update_case, on_market_update,
}
use llcpp_exchange.MarketOrderBook.View.{view, view_level, view_option, image}
use llcpp_exchange.MarketOrderBook.Image.{level_at-image, add-image}
use llcpp_exchange.MarketOrderBook.Mirror.{top, mirrored, Mirrors, refreshed}
use llcpp_exchange.MarketOrderBook.Steps.{apply_events, Follows}

-- A slot that is free or holds the price itself is no alias.
own_slot :
    (p : ℕ) (b : MeOrderBook)
    → (b.price_orders_at_price (price_to_index p) ≡ none)
      ⊎ (b.price_orders_at_price (price_to_index p) ≡ some p)
    → is_aliased p (view_option view_level (get_orders_at_price p b)) ≡ false
unfolding get_orders_at_price
own_slot p b (inl e) = ground arith
own_slot p b (inr e) = elim (Option-cases (find_level p b.bids_by_price)) [
  | inr (l, f) ↦ ground (arith, find_level-price p b.bids_by_price l f)
  | inl f ↦ elim (Option-cases (find_level p b.asks_by_price)) [
    | inl g ↦ ground arith
    | inr (l, g) ↦ ground (arith, find_level-price p b.asks_by_price l g)
  ]
]

taken :
    (u : MeMarketUpdate) (k k' : MarketOrderBook)
    → u.order_id < me_max_order_ids
    → is_aliased u.price (market_level_at u.price k) ≡ false
    → 0 < k.order_free
    → add_market_order (order_of u) (record k { order_free = k.order_free - 1 }) ≡ some k'
    → on_add u k ≡ some (update_bbo k')
unfolding on_add
taken u k k' l a f e = ground arith

module _ (o : MeOrder) (c b' : MeOrderBook)
    (linked : add_order o (with_free (c.order_free - 1) c) ≡ some b') (free : 0 < c.order_free)
    (slot : (c.price_orders_at_price (price_to_index o.price) ≡ none)
      ⊎ (c.price_orders_at_price (price_to_index o.price) ≡ some o.price))
    (small : o.market_order_id < me_max_order_ids) where
  add_update :
      (u : MeMarketUpdate) (f : ℕ → Option ℕ)
      → u.type ≡ MarketUpdateType.add
      → order_of u ≡ view o
      → on_market_update u (mirrored c f)
        ≡ some (mirrored b' (put f o.market_order_id (some o.market_order_id)))
  unfolding on_market_update market_update_case
  add_update u f y e =
      let f' = put f o.market_order_id (some o.market_order_id) in
      let d = with_free (c.order_free - 1) c in
      let alias : is_aliased u.price (market_level_at u.price (mirrored c f)) ≡ false =
        ap (λ (m : MarketOrder). is_aliased m.price (market_level_at m.price (mirrored c f))) e
        ∙ (ap (is_aliased o.price) (level_at-image c f (top c) o.price)
            ∙ own_slot o.price c slot) in
      let done : add_market_order (order_of u) (image d f (top c)) ≡ some (image b' f' (top c)) =
        ap (λ m. add_market_order m (image d f (top c))) e
        ∙ (add-image f (top c) o d ∙ ap (view_option (λ b₁. image b₁ f' (top c))) linked) in
      let id = ap (λ (m : MarketOrder). m.order_id) e in
      ap (λ y'. market_update_case y' u (mirrored c f)) y
      ∙ (taken u (mirrored c f) (image b' f' (top c)) (omega arith) alias free done
          ∙ ap some (refreshed b' f' (top c)))

  pub add_update-Follows :
      (u : MeMarketUpdate) (k : MarketOrderBook)
      → u.type ≡ MarketUpdateType.add
      → order_of u ≡ view o
      → ((m : ℕ) → both (total (with_id m)) b' ≡ both (total (with_id m)) c + with_id m o)
      → both (total (with_id o.market_order_id)) c ≡ 0
      → Mirrors c k
      → Follows b' (apply_events (update u ∷ []) k)
  unfolding apply_events
  add_update-Follows u k y e grown unused h =
      let f' = put h.oid o.market_order_id (some o.market_order_id) in
      let e' : on_market_update u k ≡ some (mirrored b' f') =
        ap (on_market_update u) h.same ∙ add_update u h.oid y e in
      (
        mirrored b' f',
        ground arith,
        record {
          oid = f';
          pointers = λ m l. ground (arith, h.pointers m l, grown m, unused);
          same = refl;
        },
      )

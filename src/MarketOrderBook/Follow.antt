-- ===== src/MarketOrderBook/Follow.antt =====
-- A client's book follows one match, one cancelled order and one that rests.
use llcpp_exchange.Prelude.{
  ℕ, ◌<◌, ◌≡◌, refl, sym, ap, subst, ◌∙◌, Option, none, some, [], ◌∷◌, arith, min, ◌==◌, put,
  Bool-cases, inl, inr,
}
use llcpp_exchange.Types.{IsTraded, me_max_order_ids, invalid_u64}
use llcpp_exchange.Protocol.{MarketUpdateType, MeMarketUpdate}
use llcpp_exchange.OrderBook.State.{MeOrder, MeOrderBook}
use llcpp_exchange.OrderBook.Chains.{remove_order}
use llcpp_exchange.OrderBook.Matching.{update, Incoming, match_events, match_order}
use llcpp_exchange.OrderBook.Invariant.{Links}
use llcpp_exchange.OrderBook.RemoveOrder.{IsLive, removed, remove_order-removed}
use llcpp_exchange.OrderBook.QtyWrite.{with_qty, reduced, reduced-Links, reduced-IsLive}
use llcpp_exchange.OrderBook.MatchStep.{remaining}
use llcpp_exchange.MarketOrderBook.Book.{MarketOrderBook}
use llcpp_exchange.MarketOrderBook.Update.{
  update_bbo, on_modify, on_cancel, market_update_case, on_market_update,
}
use llcpp_exchange.MarketOrderBook.View.{image}
use llcpp_exchange.MarketOrderBook.Mirror.{
  top, mirrored, Pointers, Mirrors, refreshed, cancel-image, modify-image, Pointers-removed,
  Pointers-reduced,
}
use llcpp_exchange.MarketOrderBook.Steps.{apply_events, Follows, removed-reduced}

as_mirror : (b : MeOrderBook) (f : ℕ → Option ℕ) → Pointers b f → Mirrors b (mirrored b f)
as_mirror b f p = record { oid = f; pointers = p; same = refl }

-- A trade is no change.
trade-same :
    (u : MeMarketUpdate) (b : MeOrderBook) (k : MarketOrderBook)
    → u.type ≡ MarketUpdateType.trade
    → Mirrors b k
    → on_market_update u k ≡ some k
unfolding on_market_update market_update_case
trade-same u b k e h =
    let s : update_bbo k ≡ k = ap update_bbo h.same ∙ (refreshed b h.oid (top b) ∙ sym h.same) in
    rw e (ap some s)

module _ {b : MeOrderBook} (v : Links b) (o : MeOrder) (t : IsTraded o.side) (live : IsLive o b)
    (small : o.market_order_id < me_max_order_ids) (k : MarketOrderBook) (h : Mirrors b k) where
  cancel_update :
      (u : MeMarketUpdate)
      → u.type ≡ MarketUpdateType.cancel
      → u.order_id ≡ o.market_order_id
      → on_market_update u k ≡ some (mirrored (remove_order o b) (put h.oid o.market_order_id none))
  unfolding on_market_update market_update_case
  cancel_update u y i =
      let f' = put h.oid o.market_order_id none in
      let b' = remove_order o b in
      let e : on_cancel u k ≡ image b' f' (top b) =
        ap (on_cancel u) h.same ∙ cancel-image v o t live h.oid (top b) h.pointers small u i in
      ap (λ y'. market_update_case y' u k) y
      ∙ (ap (λ c. some (update_bbo c)) e ∙ ap some (refreshed b' f' (top b)))

  pub cancel_update-Follows :
      (u : MeMarketUpdate)
      → u.type ≡ MarketUpdateType.cancel
      → u.order_id ≡ o.market_order_id
      → Follows (remove_order o b) (on_market_update u k)
  cancel_update-Follows u y i =
      let f' = put h.oid o.market_order_id none in
      let p : Pointers (remove_order o b) f' =
        subst (λ c. Pointers c f') (sym (remove_order-removed v o t live))
          (Pointers-removed v o t live h.oid (top b) h.pointers small) in
      (mirrored (remove_order o b) f', cancel_update u y i, as_mirror (remove_order o b) f' p)

  modify_update-Follows :
      (u : MeMarketUpdate)
      → u.type ≡ MarketUpdateType.modify
      → u.order_id ≡ o.market_order_id
      → Follows (reduced u.qty o b) (on_market_update u k)
  unfolding on_market_update market_update_case
  modify_update-Follows u y i =
      let b' = reduced u.qty o b in
      let p = Pointers-reduced v o t live h.oid (top b) h.pointers small u.qty in
      let e : on_modify u k ≡ image b' h.oid (top b) =
        ap (on_modify u) h.same ∙ modify-image v o t live h.oid (top b) h.pointers small u i in
      (
        mirrored b' h.oid,
        ap (λ y'. market_update_case y' u k) y
            ∙ (ap (λ c. some (update_bbo c)) e ∙ ap some (refreshed b' h.oid (top b))),
        as_mirror b' h.oid p,
      )

  -- The order that is filled is removed after the write of its quantity.
  filled-same :
      (q : ℕ) (f : ℕ → Option ℕ)
      → mirrored (remove_order (with_qty q o) (reduced q o b)) f ≡ mirrored (remove_order o b) f
  filled-same q f =
      let o' = with_qty q o in
      let c = reduced q o b in
      ap (λ d. mirrored d f)
        (remove_order-removed (reduced-Links v q o) o' t (reduced-IsLive v q o live))
      ∙ (sym (refreshed (removed o' c) f (top b))
          ∙ (ap update_bbo (removed-reduced o b q f (top b))
              ∙ (refreshed (removed o b) f (top b)
                  ∙ ap (λ d. mirrored d f) (sym (remove_order-removed v o t live)))))

  filled_update-Follows :
      (q : ℕ) (u : MeMarketUpdate)
      → u.type ≡ MarketUpdateType.cancel
      → u.order_id ≡ o.market_order_id
      → Follows (remove_order (with_qty q o) (reduced q o b)) (on_market_update u k)
  filled_update-Follows q u y i =
      let o' = with_qty q o in
      let c = reduced q o b in
      let f' = put h.oid o.market_order_id none in
      let w = reduced-Links v q o in
      let live' = reduced-IsLive v q o live in
      let p : Pointers (remove_order o' c) f' =
        subst (λ d. Pointers d f') (sym (remove_order-removed w o' t live'))
          (Pointers-removed w o' t live' h.oid (top b)
            (Pointers-reduced v o t live h.oid (top b) h.pointers small q) small) in
      (
        mirrored (remove_order o' c) f',
        cancel_update u y i ∙ ap some (sym (filled-same q f')),
        as_mirror (remove_order o' c) f' p,
      )

  traded :
      (u x : MeMarketUpdate) (c : MeOrderBook)
      → u.type ≡ MarketUpdateType.trade
      → Follows c (on_market_update x k)
      → Follows c (apply_events (update u ∷ update x ∷ []) k)
  unfolding apply_events
  traded u x c y (k', e, m) = let same = trade-same u b k y h in (k', ground arith, m)

  pub match_order-Follows :
      (i : Incoming) (leaves : ℕ)
      → Follows (match_order i o leaves b).0 (apply_events (match_order i o leaves b).2 k)
  unfolding match_order match_events apply_events
  match_order-Follows i leaves =
      let q = remaining o leaves in
      let trade : MeMarketUpdate = record {
        type = MarketUpdateType.trade;
        ticker_id = i.ticker_id;
        side = i.side;
        price = o.price;
        qty = min leaves o.qty;
        order_id = invalid_u64;
        priority = invalid_u64;
      } in
      let change : MarketUpdateType → ℕ → MeMarketUpdate = λ y n. record {
        type = y;
        ticker_id = i.ticker_id;
        side = o.side;
        price = o.price;
        qty = n;
        order_id = o.market_order_id;
        priority = o.priority;
      } in
      elim (Bool-cases ((remaining o leaves) == 0)) [
        | inl gone ↦ rw gone (
            traded trade (change MarketUpdateType.cancel o.qty) _ refl
              (filled_update-Follows q (change MarketUpdateType.cancel o.qty) refl refl))
        | inr some_left ↦ rw some_left (
            traded trade (change MarketUpdateType.modify q) _ refl
              (modify_update-Follows (change MarketUpdateType.modify q) refl refl))
      ]

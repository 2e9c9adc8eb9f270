-- ===== src/OrderManager/Ids.antt =====
-- The ids of a client's new orders are numbered one after the other, whatever the exchange answers.
use mathlib.Core.List.{append_assoc}
use llcpp_exchange.Prelude.{
  ap, ap₂, sym, ◌∙◌, ℕ, zero, suc, ◌+◌, ◌*◌, ◌^◌, ◌≤◌, ◌<◌, ◌≡◌, refl, inl, inr, Bool, not, ◌&&◌,
  ◌||◌, List, [], ◌∷◌, ◌++◌, arith, ◌==◌, length, Bool-cases,
}
use llcpp_exchange.Types.{Side, invalid_u64}
use llcpp_exchange.Protocol.{MeClientRequest, ClientRequestType, MeClientResponse}
use llcpp_exchange.OrderManager.Manager.{
  OmOrder, OmOrderState, OrderManager, new_order, cancel_order, place, move_in_state, move_order,
  move_orders, on_order_update,
}

-- What reaches the order manager: a decision of the strategy, with what the risk check allows at that
-- time, or a response.
pub data Input : Type 0 where
  move : (allowed : ℕ → Side → ℕ → Bool) (ticker_id bid_price ask_price clip : ℕ) → Input
  respond : MeClientResponse → Input

abbrev new_id : ClientRequestType → ℕ → List ℕ
new_id ClientRequestType.new k = k ∷ []
new_id _ k = []

abbrev pub new_ids : List MeClientRequest → List ℕ
new_ids [] = []
new_ids (r ∷ rs) = new_id r.type r.order_id ++ new_ids rs

abbrev pub count_up : ℕ → ℕ → List ℕ
count_up n zero = []
count_up n (suc k) = n ∷ count_up (suc n) k

-- The new orders of `sent` are numbered from `n` on, and `m` goes on behind them.
abbrev pub Numbered : ℕ → ℕ → OrderManager → List MeClientRequest → Type 0
Numbered most n m sent =
    (k : ℕ) × (k ≤ most) × (new_ids sent ≡ count_up n k) × (m.next_order_id ≡ n + k)

new_ids-append : (xs ys : List MeClientRequest) → new_ids (xs ++ ys) ≡ new_ids xs ++ new_ids ys
new_ids-append [] ys = refl
new_ids-append (x ∷ xs) ys =
    ap (λ zs. new_id x.type x.order_id ++ zs) (new_ids-append xs ys)
    ∙ sym (append_assoc (new_id x.type x.order_id) (new_ids xs) (new_ids ys))

count_up-add : (n j k : ℕ) → count_up n j ++ count_up (n + j) k ≡ count_up n (j + k)
count_up-add n zero k =
    ap₂ (λ a b. count_up a b) (let e : n + 0 ≡ n = omega arith in e)
      (let e : k ≡ 0 + k = omega arith in e)
count_up-add n (suc j) k =
    let from : n + suc j ≡ suc n + j = omega arith in
    let long : suc (j + k) ≡ suc j + k = omega arith in
    ap (λ a. n ∷ (count_up (suc n) j ++ count_up a k)) from
    ∙ ap (λ xs. n ∷ xs) (count_up-add (suc n) j k)
    ∙ ap (count_up n) long

Numbered-append :
    (a b n : ℕ) (m m' : OrderManager) (xs ys : List MeClientRequest)
    → Numbered a n m xs
    → Numbered b m.next_order_id m' ys
    → Numbered (a + b) n m' (xs ++ ys)
Numbered-append a b n m m' xs ys (j, hj, ej, nj) (k, hk, ek, nk) = (
  j + k,
  omega arith,
  new_ids-append xs ys ∙ ap₂ ◌++◌ ej (ek ∙ ap (λ z. count_up z k) nj) ∙ count_up-add n j k,
  omega arith,
)

module _ (client_id : ℕ) (allowed : ℕ → Side → ℕ → Bool) where
  place-Numbered :
      (t p : ℕ) (s : Side) (q : ℕ) (m : OrderManager)
      → m.next_order_id + 1 < 2 ^ 64
      → Numbered 1 m.next_order_id
          (place client_id allowed t p s q m).0
          (place client_id allowed t p s q m).1
  unfolding place new_order
  place-Numbered t p s q m room = elim (Bool-cases (not (p == invalid_u64) && allowed t s q)) [
    | inl sends ↦ rw sends (1, omega arith, refl, omega arith)
    | inr waits ↦ rw waits (0, omega arith, refl, omega arith)
  ]

  state-Numbered :
      (x : OmOrderState) (o : OmOrder) (t p : ℕ) (s : Side) (q : ℕ) (m : OrderManager)
      → m.next_order_id + 1 < 2 ^ 64
      → Numbered 1 m.next_order_id
          (move_in_state client_id allowed x o t p s q m).0
          (move_in_state client_id allowed x o t p s q m).1
  unfolding move_in_state cancel_order
  state-Numbered OmOrderState.live o t p s q m room =
      elim (Bool-cases (not (o.price == p) || not (o.qty == q))) [
        | inl sends ↦ rw sends (0, omega arith, refl, omega arith)
        | inr waits ↦ rw waits (0, omega arith, refl, omega arith)
      ]
  state-Numbered OmOrderState.invalid o t p s q m room = place-Numbered t p s q m room
  state-Numbered OmOrderState.dead o t p s q m room = place-Numbered t p s q m room
  state-Numbered _ o t p s q m room = (0, omega arith, refl, omega arith)

  move-Numbered :
      (t p : ℕ) (s : Side) (q : ℕ) (m : OrderManager)
      → m.next_order_id + 1 < 2 ^ 64
      → Numbered 1 m.next_order_id
          (move_order client_id allowed t p s q m).0
          (move_order client_id allowed t p s q m).1
  unfolding move_order
  move-Numbered t p s q m room = state-Numbered _ _ t p s q m room

  moves-Numbered :
      (t bid ask clip : ℕ) (m : OrderManager)
      → m.next_order_id + 2 < 2 ^ 64
      → Numbered 2 m.next_order_id
          (move_orders client_id allowed t bid ask clip m).0
          (move_orders client_id allowed t bid ask clip m).1
  unfolding move_orders
  moves-Numbered t bid ask clip m room =
      let bids = move_order client_id allowed t bid Side.buy clip m in
      let asks = move_order client_id allowed t ask Side.sell clip bids.0 in
      let first : Numbered 1 m.next_order_id bids.0 bids.1 =
        move-Numbered t bid Side.buy clip m (omega arith) in
      let few = first.1 in
      let next = first.3 in
      Numbered-append 1 1 m.next_order_id bids.0 asks.0 bids.1 asks.1 first
        (move-Numbered t ask Side.sell clip bids.0 (omega arith))

module _ (client_id : ℕ) where
  unfoldable pub run_inputs : List Input → OrderManager → OrderManager × List MeClientRequest
  unfolding move_orders on_order_update
  run_inputs [] m = (m, [])
  run_inputs (move allowed t bid ask clip ∷ more) m =
      let (m', sent) = move_orders client_id allowed t bid ask clip m in
      let (m'', later) = run_inputs more m' in (m'', sent ++ later)
  run_inputs (respond r ∷ more) m = run_inputs more (on_order_update r m)

  -- Whatever the strategy decides and the exchange answers, and whatever the risk check allows at each
  -- decision, as the positions change, the new orders that are sent carry the
  -- next ids, one after the other without a gap or a repetition, while the ids have room.
  pub run_inputs-Numbered :
      (inputs : List Input) (m : OrderManager)
      → m.next_order_id + (2 * length inputs) < 2 ^ 64
      → Numbered (2 * length inputs) m.next_order_id (run_inputs inputs m).0 (run_inputs inputs m).1
  unfolding run_inputs on_order_update
  run_inputs-Numbered [] m room = (0, omega arith, refl, omega arith)
  run_inputs-Numbered (move allowed t bid ask clip ∷ more) m room =
      let moved = move_orders client_id allowed t bid ask clip m in
      let after = run_inputs more moved.0 in
      let first : Numbered 2 m.next_order_id moved.0 moved.1 =
        moves-Numbered client_id allowed t bid ask clip m (omega arith) in
      let few = first.1 in
      let next = first.3 in
      let both =
        Numbered-append 2 (2 * length more) m.next_order_id moved.0 after.0 moved.1 after.1 first
          (run_inputs-Numbered more moved.0 (omega arith)) in
      (both.0, (let h = both.1 in omega arith), both.2, both.3)
  run_inputs-Numbered (respond r ∷ more) m room =
      let rest = run_inputs-Numbered more (on_order_update r m) (omega arith) in
      (rest.0, (let h = rest.1 in omega arith), rest.2, rest.3)

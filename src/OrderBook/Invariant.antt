-- ===== src/OrderBook/Invariant.antt =====
-- What holds of a book between requests.
use llcpp_exchange.Prelude.{
  ℕ, ◌+◌, ◌≤◌, ◌<◌, ◌≡◌, ◌≢◌, Bool, ◌&&◌, some, [], ◌∷◌, ◌==◌, if◌then◌else◌, All, sum_by, holds,
}
use llcpp_exchange.Types.{Side, is_buy, me_max_order_ids, me_max_price_levels}
use llcpp_exchange.OrderBook.State.{MeOrder, MeOrdersAtPrice, Chain, MeOrderBook, price_to_index}
use llcpp_exchange.OrderBook.Spec.{total}

-- Price `p` is better than price `q`.
abbrev pub Better : Side → ℕ → ℕ → Type 0
Better s p q = if is_buy s then q < p else p < q

abbrev pub OrderOk : Side → ℕ → ℕ → MeOrder → Type 0
OrderOk s p next o = (o.side ≡ s) × (o.price ≡ p) × (o.market_order_id < next)

pub record LevelOk (s : Side) (next : ℕ) (l : MeOrdersAtPrice) : Type 0 where
  pub side : l.side ≡ s
  pub occupied : l.orders ≢ []
  pub orders : All (OrderOk s l.price next) l.orders

-- From the best price to the worst, no price twice.
abbrev pub Sorted : Side → Chain → Type 0
Sorted s [] = Unit
Sorted s (l ∷ ls) = All (λ k. Better s l.price k.price) ls × Sorted s ls

abbrev pub ChainOk : Side → ℕ → Chain → Type 0
ChainOk s next ls = Sorted s ls × All (LevelOk s next) ls

abbrev pub indicator : Bool → ℕ
indicator b = if b then 1 else 0

abbrev pub at_price : ℕ → MeOrdersAtPrice → ℕ
at_price p l = indicator (l.price == p)

abbrev pub with_id : ℕ → MeOrder → ℕ
with_id m o = indicator (o.market_order_id == m)

abbrev pub with_ids : (client_id client_order_id market_order_id : ℕ) → MeOrder → ℕ
with_ids c k m o =
    indicator (o.client_id == c && (o.client_order_id == k && o.market_order_id == m))

abbrev pub both : (Chain → ℕ) → MeOrderBook → ℕ
both f b = f b.bids_by_price + f b.asks_by_price

-- The sides, the slots, the clients' pointers and the pool of levels agree.
pub record Links (b : MeOrderBook) : Type 0 where
  pub bids : ChainOk Side.buy b.next_market_order_id b.bids_by_price
  pub asks : ChainOk Side.sell b.next_market_order_id b.asks_by_price
  -- A slot holds the one live level whose price maps to it.
  pub slots :
      (p : ℕ)
      → both (sum_by (at_price p)) b
        ≡ indicator (holds (b.price_orders_at_price (price_to_index p)) p)
  pub keys : (i p : ℕ) → b.price_orders_at_price i ≡ some p → price_to_index p ≡ i
  -- A client's live orders are those that its pointers lead to.
  pub pointers :
      (c k m : ℕ) → both (total (with_ids c k m)) b ≡ indicator (holds (b.cid_oid_to_order c k) m)
  pub unique : (m : ℕ) → both (total (with_id m)) b ≤ 1
  pub level_pool : b.orders_at_price_free + both (sum_by (λ l. 1)) b ≡ me_max_price_levels

abbrev pub Positive : Chain → Type 0
Positive ls = All (λ l. All (λ o. 0 < o.qty) l.orders) ls

-- Every bid is below every ask.
abbrev pub Uncrossed : Chain → Chain → Type 0
Uncrossed bids asks = All (λ l. All (λ k. l.price < k.price) asks) bids

pub record Inv (b : MeOrderBook) : Type 0 where
  pub links : Links b
  pub order_pool : b.order_free + both (total (λ o. 1)) b ≡ me_max_order_ids
  pub positive_bids : Positive b.bids_by_price
  pub positive_asks : Positive b.asks_by_price
  pub uncrossed : Uncrossed b.bids_by_price b.asks_by_price

-- ===== src/OrderBook/RestOrder.antt =====
-- What rests of an order takes a block of the pool and a place at its price.
use llcpp_exchange.Prelude.{ℕ, ◌-◌, ◌<◌, ◌≡◌, refl, Bool, true, false, some, [], ◌∷◌, arith}
use llcpp_exchange.Protocol.{MarketUpdateType}
use llcpp_exchange.OrderBook.State.{
  MeOrder, MeOrdersAtPrice, Chain, MeOrderBook, find_level, get_orders_at_price,
}
use llcpp_exchange.OrderBook.Chains.{get_next_priority, add_order}
use llcpp_exchange.OrderBook.Invariant.{Links}
use llcpp_exchange.OrderBook.Matching.{Incoming, order_update}
use llcpp_exchange.OrderBook.Requests.{resting_order, rest_order}
use llcpp_exchange.OrderBook.AddOrder.{Place}
use llcpp_exchange.OrderBook.Resting.{next_priority}

abbrev pub with_free : ℕ → MeOrderBook → MeOrderBook
with_free n b = record b { order_free = n }

pub with_free-Links : (n : ℕ) (b : MeOrderBook) → Links b → Links (with_free n b)
with_free-Links n b v = record {
  bids = v.bids;
  asks = v.asks;
  slots = v.slots;
  keys = v.keys;
  pointers = v.pointers;
  unique = v.unique;
  level_pool = v.level_pool;
}

pub Place-free :
    (n : ℕ) (fresh : Bool) (o : MeOrder) (b : MeOrderBook)
    → Place fresh o b
    → Place fresh o (with_free n b)
Place-free n true o b h = h
Place-free n false o b h = h

pub rest_order-some :
    (i : Incoming) (leaves q : ℕ) (b b' : MeOrderBook)
    → get_next_priority i.price b ≡ q
    → 0 < leaves
    → 0 < b.order_free
    → add_order (resting_order i leaves q) (with_free (b.order_free - 1) b) ≡ some b'
    → rest_order i leaves b
      ≡ some
          (b', order_update MarketUpdateType.add i.ticker_id (resting_order i leaves q) leaves ∷ [])
unfolding rest_order
rest_order-some i leaves q b b' prio left free linked = ground (arith, prio, linked)

pub rest_order-none : (i : Incoming) (b : MeOrderBook) → rest_order i 0 b ≡ some (b, [])
unfolding rest_order
rest_order-none i b = refl

pub priority_found :
    (p : ℕ) (b : MeOrderBook) (ls : Chain) (l : MeOrdersAtPrice)
    → get_orders_at_price p b ≡ some l
    → find_level p ls ≡ some l
    → get_next_priority p b ≡ next_priority p ls
unfolding get_next_priority
priority_found p b ls l e e' = ground (arith, e, e')

-- ===== src/OrderBook/Tests.antt =====
-- The theorems of the order book at a book of three asks at two prices.
use llcpp_exchange.Prelude.{ℕ, ◌+◌, ◌≤◌, ◌≡◌, refl, true, some, List, [], ◌∷◌, arith, sum_by}
use llcpp_exchange.Types.{Side}
use llcpp_exchange.Protocol.{MeClientRequest, ClientRequestType}
use llcpp_exchange.OrderBook.State.{MeOrder, Chain, MeOrderBook, chain, get_orders_at_price}
use llcpp_exchange.OrderBook.Chains.{new_level, insert_level, add_order, remove_order}
use llcpp_exchange.OrderBook.Matching.{Event, check_for_match}
use llcpp_exchange.OrderBook.Requests.{incoming, add, cancel}
use llcpp_exchange.OrderBook.Invariant.{Inv}
use llcpp_exchange.OrderBook.Spec.{fill_chain, fill_level}
use llcpp_exchange.OrderBook.RemoveOrder.{removed, remove_order-removed}
use llcpp_exchange.OrderBook.AddOrder.{inserted, add_order-inserted}
use llcpp_exchange.OrderBook.Filling.{Filled}
use llcpp_exchange.OrderBook.MatchLoop.{check_for_match-Filled}
use llcpp_exchange.OrderBook.AddRequest.{Accepted}
use llcpp_exchange.OrderBook.Added.{Added, filling, add-Added, add-Inv}
use llcpp_exchange.OrderBook.Cancelled.{Cancelled, cancel-Cancelled, cancel-Inv}
use llcpp_exchange.OrderBook.Limits.{AllFair, add-AllFair}
use llcpp_exchange.OrderBook.Conservation.{open_qty, traded, add-conserves}
use llcpp_exchange.OrderBook.Sample.{request, ask, asks, asks-Links, asks-Inv}

abbrev sweep : MeClientRequest
sweep = request ClientRequestType.new Side.buy 3 1 101 20

sweep-Accepted : Accepted sweep asks
unfolding get_orders_at_price
sweep-Accepted = record {
  inv = asks-Inv;
  traded = tt;
  valid = refl;
  fits = refl;
  ids_left = omega arith;
  orders_left = omega arith;
}

add-Added_example :
    (b' : MeOrderBook) × (sent : List Event) × (add sweep asks ≡ some (b', sent))
    × Added sweep asks b' sent
add-Added_example = add-Added sweep asks sweep-Accepted

add-conserves_example :
    (b' : MeOrderBook) × (sent : List Event) × (add sweep asks ≡ some (b', sent))
    × (open_qty (chain Side.sell b') + sum_by traded sent ≡ open_qty (chain Side.sell asks))
    × (open_qty (chain Side.buy b') + sum_by traded sent ≡ open_qty (chain Side.buy asks) + 20)
add-conserves_example = add-conserves sweep asks sweep-Accepted

add-AllFair_example :
    (b' : MeOrderBook) × (sent : List Event) × (add sweep asks ≡ some (b', sent))
    × AllFair Side.buy 101 sent
add-AllFair_example = add-AllFair sweep asks sweep-Accepted

add-Inv_example :
    (b' : MeOrderBook) × (sent : List Event) × (add sweep asks ≡ some (b', sent))
    × Inv b'
    × (b'.next_market_order_id ≤ asks.next_market_order_id + 1)
    × (asks.order_free ≤ b'.order_free + 1)
add-Inv_example = add-Inv sweep asks asks-Inv tt (omega arith) (omega arith)

-- The trades leave one of the three orders, with 1 of its 4.
sweep_fills :
    (filling sweep asks).0
    ≡ record { side = Side.sell; price = 101; orders = ask 1 6 2 101 1 1 ∷ [] } ∷ []
unfolding fill_chain fill_level
sweep_fills = refl

check_for_match_example :
    Filled (incoming sweep 4) asks 20 (check_for_match (incoming sweep 4) 20 asks)
check_for_match_example =
    check_for_match-Filled (incoming sweep 4) asks 20 asks-Links refl
      ((omega arith, (omega arith, tt)), ((omega arith, tt), tt))

cancel-Cancelled_example :
    (o : MeOrder) × Cancelled 2 5 0 o asks (cancel 2 5 0 asks).0 (cancel 2 5 0 asks).1
cancel-Cancelled_example = cancel-Cancelled 2 5 3 0 asks asks-Inv (omega arith) (omega arith) refl

cancel-Inv_example :
    Inv (cancel 1 6 0 asks).0
    × ((cancel 1 6 0 asks).0.next_market_order_id ≡ 4)
    × (asks.order_free ≤ (cancel 1 6 0 asks).0.order_free)
cancel-Inv_example = cancel-Inv 1 6 0 asks asks-Inv

remove_order-removed_example :
    remove_order (ask 1 6 2 101 4 1) asks ≡ removed (ask 1 6 2 101 4 1) asks
remove_order-removed_example = remove_order-removed asks-Links (ask 1 6 2 101 4 1) tt refl

add_order-inserted_example :
    add_order (ask 4 1 4 99 3 1) asks ≡ some (inserted true (ask 4 1 4 99 3 1) asks)
add_order-inserted_example =
    add_order-inserted asks-Links (ask 4 1 4 99 3 1) tt true (refl, omega arith)

-- An order whose side is neither bid nor ask goes in front of all asks, whatever its price.
abbrev prices : Chain → List ℕ
prices [] = []
prices (l ∷ ls) = l.price ∷ prices ls

unsided :
    prices (
      insert_level
        (new_level (record (ask 4 1 4 150 3 1) { side = Side.invalid }))
        asks.asks_by_price)
    ≡ 150 ∷ 100 ∷ 101 ∷ []
unfolding insert_level
unsided = refl

-- ===== src/OrderBook/Spec.antt =====
-- One side of a book as price-time priority has it: the specification of the code in Chains and
-- Matching.
use llcpp_exchange.Prelude.{ℕ, ◌-◌, ◌||◌, List, [], ◌∷◌, ◌++◌, sum_by, ltb, ◌==◌, if◌then◌else◌}
use llcpp_exchange.OrderBook.State.{MeOrder, MeOrdersAtPrice, Chain}
use llcpp_exchange.OrderBook.Chains.{should_advance, new_level, has_id, erase_id}
use llcpp_exchange.OrderBook.Matching.{Event, Incoming, match_events, out_of_limit}

-- A level that has lost its last order is gone.
unfoldable pub prepend : List MeOrder → MeOrdersAtPrice → Chain → Chain
prepend [] l ls = ls
prepend (o ∷ os) l ls = record l { orders = o ∷ os } ∷ ls

unfoldable pub drop_order : ℕ → Chain → Chain
drop_order m [] = []
drop_order m (l ∷ ls) =
    if has_id m l.orders then prepend (erase_id m l.orders) l ls else l ∷ drop_order m ls

-- Behind all orders of its price, between the better prices and the worse ones.
unfoldable pub insert_order : MeOrder → Chain → Chain
insert_order o [] = new_level o ∷ []
insert_order o (l ∷ ls) =
    if l.price == o.price
    then record l { orders = l.orders ++ (o ∷ []) } ∷ ls
    else (if should_advance (new_level o) l then l ∷ insert_order o ls else new_level o ∷ l ∷ ls)

-- What is left of the orders, what is left of the quantity, and what was sent.
unfoldable pub fill_level : Incoming → ℕ → List MeOrder → List MeOrder × ℕ × List Event
fill_level i leaves [] = ([], leaves, [])
fill_level i leaves (o ∷ os) =
    let (os', leaves', sent) = fill_level i (leaves - o.qty) os in
    if leaves == 0
    then (o ∷ os, leaves, [])
    else (if ltb leaves o.qty
        then (record o { qty = o.qty - leaves } ∷ os, 0, match_events i o leaves 0)
        else (os', leaves', match_events i o o.qty (leaves - o.qty) ++ sent))

abbrev pub Filling : Type 0
Filling = Chain × ℕ × List Event

abbrev pub after_level : MeOrdersAtPrice → Chain → List MeOrder × ℕ × List Event → Filling → Filling
after_level l ls ([], leaves, sent) (ls', leaves', more) = (ls', leaves', sent ++ more)
after_level l ls (o ∷ os, leaves, sent) rest = (record l { orders = o ∷ os } ∷ ls, leaves, sent)

unfoldable pub fill_chain : Incoming → ℕ → Chain → Filling
unfolding fill_level
fill_chain i leaves [] = ([], leaves, [])
fill_chain i leaves (l ∷ ls) =
    let filled = fill_level i leaves l.orders in
    let rest = fill_chain i filled.1 ls in
    if leaves == 0 || out_of_limit i.side i.price l.price
    then (l ∷ ls, leaves, [])
    else after_level l ls filled rest

-- The measure of an order, summed over a side.
abbrev pub total : (MeOrder → ℕ) → Chain → ℕ
total f ls = sum_by (λ l. sum_by f l.orders) ls

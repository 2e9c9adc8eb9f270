-- ===== src/OrderBook/Sample.antt =====
-- A book of three asks at two prices, for tests.
use llcpp_exchange.Prelude.{ℕ, refl, ◌&&◌, none, some, [], ◌∷◌, ◌==◌, if◌then◌else◌, arith}
use llcpp_exchange.Types.{Side}
use llcpp_exchange.Protocol.{MeClientRequest, ClientRequestType}
use llcpp_exchange.OrderBook.State.{MeOrder, MeOrderBook}
use llcpp_exchange.OrderBook.Invariant.{Links, Inv}

abbrev pub request : ClientRequestType → Side → (client id price qty : ℕ) → MeClientRequest
request type side client id price qty = record {
  type = type;
  client_id = client;
  ticker_id = 0;
  order_id = id;
  side = side;
  price = price;
  qty = qty;
}

abbrev pub ask : (client id m price qty priority : ℕ) → MeOrder
ask client id m price qty priority = record {
  ticker_id = 0;
  client_id = client;
  client_order_id = id;
  market_order_id = m;
  side = Side.sell;
  price = price;
  qty = qty;
  priority = priority;
}

-- Clients 1 and 2 sell at 100, client 1 sells at 101 as well.
abbrev pub asks : MeOrderBook
asks = record {
  ticker_id = 0;
  bids_by_price = [];
  asks_by_price =
      record { side = Side.sell; price = 100; orders = ask 1 5 1 100 10 1 ∷ ask 2 5 3 100 7 2 ∷ [] }
      ∷ record { side = Side.sell; price = 101; orders = ask 1 6 2 101 4 1 ∷ [] }
      ∷ [];
  cid_oid_to_order = λ c k.
      if c == 1 && k == 5
      then some 1
      else (if c == 2 && k == 5 then some 3 else (if c == 1 && k == 6 then some 2 else none));
  price_orders_at_price = λ i. if i == 100 then some 100 else (if i == 101 then some 101 else none);
  next_market_order_id = 4;
  orders_at_price_free = 254;
  order_free = 1048573;
}

pub asks-Links : Links asks
asks-Links = record {
  bids = (tt, tt);
  asks = (
    ((omega arith, tt), (tt, tt)),
    (
      record {
        side = refl;
        occupied = cc;
        orders = ((refl, refl, omega arith), ((refl, refl, omega arith), tt));
      },
      (record { side = refl; occupied = cc; orders = ((refl, refl, omega arith), tt) }, tt),
    ),
  );
  slots = λ p. ground arith;
  keys = λ i p e. ground arith;
  pointers = λ c k m. ground arith;
  unique = λ m. ground arith;
  level_pool = refl;
}

pub asks-Inv : Inv asks
asks-Inv = record {
  links = asks-Links;
  order_pool = refl;
  positive_bids = tt;
  positive_asks = ((omega arith, (omega arith, tt)), ((omega arith, tt), tt));
  uncrossed = tt;
}

-- A bid for 20 at 101: it takes both orders at 100 and a part of the one at 101.

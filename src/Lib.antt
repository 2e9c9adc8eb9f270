-- ===== src/Lib.antt =====
-- llcpp-exchange: the core of the exchange, modelled and verified.
--
-- The program. An order server reads the clients' requests from their sockets; a matching engine
-- (Exchange/matcher) takes the clients' requests from a lock-free
-- queue, into which a sequencer puts them by time of arrival, and keeps an order book for each
-- ticker. An order book matches a new order against the opposite side by price-time priority, lets
-- the rest of it rest in the book, and sends responses to the clients and updates to the market
-- through two more queues. A publisher numbers the updates and sends them to all clients, with
-- snapshots for those that lost some. A client rebuilds the books of all tickers from the updates, and
-- keeps an order for each ticker and side in an order manager.
-- Orders and price levels are blocks of memory pools; nothing is allocated on the hot path.
--
-- The files.
--   Types, Protocol      include/types.h; Exchange/order_server/client_request.h, client_response.h;
--                        Exchange/market_data/market_update.h
--   OrderBook            Exchange/matcher/me_order_book.{h,cpp} and me_order.h. State has the data,
--                        Chains the lists of levels and orders (addOrdersAtPrice, addOrder,
--                        removeOrder), Matching match and checkForMatch, Requests add and cancel. Spec is
--                        price-time priority on one side as functions on lists, Invariant what holds
--                        between requests. The other children are proofs, by operation.
--   MatchingEngine       Exchange/matcher/matching_engine.{h,cpp}: processClientRequest and run in Engine,
--                        sendClientResponse and sendMarketUpdate in Sending; Runs and Delivery are proofs
--   FifoSequencer        Exchange/order_server/fifo_sequencer.h: the requests of a poll cycle, by time
--   Wire                 the same messages with sequence numbers: OMClientRequest, OMClientResponse,
--                        MDPMarketUpdate
--   Framing              the parse loop of OrderServer::recvCallback, OrderGateway::recvCallback and
--                        MarketDataConsumer::recvIncremental on a buffer of bytes
--   OrderServer          Exchange/order_server/order_server.{h,cpp}: recvCallback, the end of a poll
--                        cycle, disconnection, and the responses sent. Sessions and Isolation are proofs.
--   OrderGateway         trading/order_gw/order_gateway.{h,cpp}; Session has the two ends together
--   MarketData           Publisher: Exchange/market_data/market_data_publisher.cpp, poll.
--                        Synthesizer: Exchange/market_data/snapshot_synthesizer.cpp. Buffer,
--                        Consumer and SnapshotRead (the loop of recvSnapshot):
--                        trading/market_data/market_data_consumer.{h,cpp}. The other children are
--                        proofs: Told, Image and Recovery on losses, Restored without a loss, Ahead
--                        and Replayed on the buffer, Repaired on a whole cycle, Snapshots and History
--                        on what a snapshot says.
--   MarketOrderBook      trading/strategy/market_order_book.{h,cpp}, market_order.h: the book that a
--                        client rebuilds. Book and Update hold the code; Best is on the best prices,
--                        View, Image, Mirror, Steps, Follow, Rest, Loop and Requests on the exchange's
--                        book and the client's together, Clear on the pools.
--   TradeEngine          trading/strategy/trade_engine.{h,cpp}: handleMarketUpdate on the books of all
--                        tickers. Tickers and Following put the matching engine and the client
--                        together, BestPrices has the best prices of that, Clearing the CLEAR of a
--                        snapshot.
--   MemPool              include/mem_pool.h, include/opt_mem_pool.h
--   LfQueue              include/lq_free.h
--   OrderManager         trading/strategy/order_manager.{h,cpp}, om_order.h: a client's own orders;
--                        what the risk check allows is given with each decision
--   Prelude              names of the libraries, Boolean tests, lists and maps that all share
--
-- The model of the order book. The circular list of the orders of a level, and that of the levels of
-- a side, is the list of its elements from the head on, in the order of the next pointers; the
-- pointer to an order is its market order id, the pointer to a level is its price, and a null pointer
-- is `none`. What a pointer leads to is looked up in the lists, so that a write through a pointer is seen
-- on every path to the order. The arrays cid_oid_to_order_ and price_orders_at_price_ are functions, and
-- the slot of a price is the price modulo the number of levels, as in the code, collisions included.
-- The two pools of a book are their numbers of free blocks; the pools themselves are in MemPool. An
-- operation returns `none` where the code exits with FATAL, and otherwise
-- the new book with the responses and updates in the order in which they are sent.
--
-- Numbers. Ids, prices and quantities are natural numbers; the market order id and the priority wrap
-- around at 2 ^ 64 as they do in the code. The capacities are those of the default profile.
--
-- Fuel. The loop of checkForMatch has as many rounds as the quantity has units, which is enough since
-- each round takes at least one unit: no live order is empty. The loop of MemPool::allocate has as many
-- rounds as the store has blocks. A search of OptMemPool and a read of recvSnapshot are given any number
-- of rounds, and their results tell a loop that has ended from one that is still at work.
--
-- The sequencer takes std::sort as a parameter, of which it relies on this: it returns the entries in an
-- order in which none is before an earlier one (Sorts in FifoSequencer/Cycle).
--
-- The queue is modelled by the calls of its two threads as atomic steps; each side's copy of the other's
-- index may lag behind, and the two loads of size are of the queue at two times. The memory orders that make the steps atomic are not modelled.
--
-- The requests and messages of the matching engine are lists, except in Sending, where the messages
-- go into two queues of the code's size: everywhere else the queues are taken to have room.
--
-- The streams. A socket is known by a number, a queue to another component is the list of what is
-- published on it, and a stream that may lose, repeat and reorder its messages is any list of
-- messages that were sent on it. The bytes of a frame are decoded by a parameter. The std::map of the
-- consumer is a list in the order of its keys. Sequence numbers are numbers below 2 ^ 64, and wrap
-- around in the model as in the code; theorems that need a number to be smaller say so.
--
-- Not modelled: logging, time measurement, threads, the calls of the sockets, and the text of
-- toString; the rest of the trading client (the strategies, the
-- positions, the risk manager, the responses in the trade engine), the variant of the
-- order book on std::unordered_map, and the Python tools.
pub mod Prelude
pub mod Types
pub mod Protocol
pub mod OrderBook
pub mod MemPool
pub mod MatchingEngine
pub mod FifoSequencer
pub mod OrderManager
pub mod LfQueue
pub mod Wire
pub mod Framing
pub mod OrderServer
pub mod OrderGateway
pub mod MarketData
pub mod MarketOrderBook
pub mod TradeEngine

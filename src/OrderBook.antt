-- ===== src/OrderBook.antt =====
-- Exchange/matcher/me_order_book.h, me_order_book.cpp and me_order.h: the limit order book of one
-- ticker. State, Chains, Matching and Requests hold the code, Spec the book that it implements and
-- Invariant what holds between requests. For removeOrder see Removal, DropOrder and RemoveOrder, for
-- addOrder Insertion, LevelPool and AddOrder, for match and checkForMatch QtyWrite, MatchStep,
-- FillSteps, Filling, MatchLoop and FillChain, for add Resting, RestOrder, AddRequest, Added,
-- Conservation and Limits, for cancel Pointers and Cancelled.
pub mod State
pub mod Chains
pub mod Matching
pub mod Requests
pub mod Spec
pub mod Invariant
pub mod Removal
pub mod DropOrder
pub mod RemoveOrder
pub mod Insertion
pub mod LevelPool
pub mod AddOrder
pub mod QtyWrite
pub mod MatchStep
pub mod FillSteps
pub mod Filling
pub mod MatchLoop
pub mod FillChain
pub mod Resting
pub mod RestOrder
pub mod AddRequest
pub mod Added
pub mod Conservation
pub mod Limits
pub mod Pointers
pub mod Cancelled
pub mod Sample
mod Tests

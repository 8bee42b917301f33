-- ===== src/Exchange.antt =====
-- The matching engine of the exchange: src/include/matching_engine and src/matching_engine.
pub mod OrderBook
pub mod MatchingEngine

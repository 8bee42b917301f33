-- ===== src/MarketData.antt =====
-- Market data: src/include/market_data and src/market_data, at the exchange and at a participant.
pub mod Publisher
pub mod SnapshotSynthesizer
pub mod Consumer

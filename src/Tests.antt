-- ===== src/Tests.antt =====
-- The development's theorems on small concrete inputs.
mod Runtime
mod Threads
mod Queue
mod Levels
mod Logging
mod Network
mod Gateway
mod MarketData
mod Trading
mod Engine
mod Exchange

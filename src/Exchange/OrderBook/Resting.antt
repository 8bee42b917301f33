-- ===== src/Exchange/OrderBook/Resting.antt =====
-- Add accepts and trades an incoming order, and lets what is left of it rest in the book.
use vots.Runtime.MemoryPool.{MemoryPool}

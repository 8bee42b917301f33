-- ===== src/Exchange/OrderBook/Cancelling.antt =====
-- What Cancel does with its table of orders, and what it answers.
use vots.Base.{ℕ, ◌≡◌, some}
use vots.Book.{order_at}
use vots.Exchange.OrderBook.{ExchangeOrderBook}

-- The entry of the table for these identifiers is an order that bears them.
abbrev pub IsEntrySound : ExchangeOrderBook → ℕ → ℕ → Type 0
IsEntrySound b client_id order_id =
    (p : ℕ)
    → b.cid_oid_to_order client_id order_id ≡ some p
    → ((order_at b.ladder p).ids.client_id ≡ client_id)
      × ((order_at b.ladder p).ids.client_order_id ≡ order_id)

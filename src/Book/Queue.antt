-- ===== src/Book/Queue.antt =====
-- The circular list of the orders at a price, as a list of pointers in the order of their arrival:
-- for src/include/matching_engine/exchange_order_book.hpp and
-- src/include/trading_engine/trading_order_book.hpp.
pub mod Append
pub mod Unlink
pub mod Counting
pub mod Keeping
use vots.Base.{ℕ, ◌≡◌, Option, some, List, ◌∷◌}
use vots.Book.Rings.{IsDistinct, Chain}
use vots.Book.{Ladder, Order, order_at, level_at}

module _ {K : Type 0} where
  abbrev pub nexts : Ladder K → ℕ → Option ℕ
  nexts l x = (order_at l x).next_order

  abbrev pub prevs : Ladder K → ℕ → Option ℕ
  prevs l x = (order_at l x).prev_order

  -- The orders of a level: a ring that starts with the level's first order.
  pub data Queue (l : Ladder K) (level : ℕ) : List ℕ → Type 0 where
    in_ring :
        (first : ℕ) (rest : List ℕ)
        → (level_at l level).first_order ≡ some first
        → Chain (nexts l) (prevs l) first rest first
        → IsDistinct (first ∷ rest)
        → Queue l level (first ∷ rest)

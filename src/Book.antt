-- ===== src/Book.antt =====
-- The price levels and order queues that both order books keep: the linked-list code of
-- src/include/matching_engine/exchange_order_book.hpp, of which
-- src/include/trading_engine/trading_order_book.hpp repeats the text. The two books differ in the
-- identifiers `K` of an order and in their tables from identifiers to orders.
-- A pointer is the index of a block of a memory pool, and nullptr is `none`. What goes through a
-- null pointer, fails an ASSERT or is out of an `.at` ends the process and is `none`.
pub mod Levels
pub mod Orders
pub mod Rings
pub mod Queue
use vots.Base.{
  ℕ, suc, ◌+◌, ◌-◌, ◌%◌, ◌^◌, ◌≡◌, Bool, true, false, Option, none, some, if◌then◌else◌, ◌&&◌, ◌||◌,
  ◌==◌, update, ltb,
}
use vots.Base.Int.{ℤ, pos, negsuc, ltb_ℤ}
use vots.Types.{Side, side_eq, me_max_price_levels}
use vots.Runtime.MemoryPool.{MemoryPool, ObjectBlock}

-- `ExchangeOrder` and `TradingOrder`: the identifiers, the common fields, and the links.
pub record Order (K : Type 0) : Type 0 where
  pub ids : K
  pub side : Side
  pub price : ℤ
  pub qty : ℕ
  pub priority : ℕ
  pub prev_order : Option ℕ
  pub next_order : Option ℕ

-- `OrdersAtPrice` and `TradingOrdersAtPrice`.
pub record OrdersAtPrice : Type 0 where
  pub side : Side
  pub price : ℤ
  pub first_order : Option ℕ
  pub prev_entry : Option ℕ
  pub next_entry : Option ℕ

pub record Ladder (K : Type 0) : Type 0 where
  pub orders_at_price_pool : MemoryPool OrdersAtPrice
  pub bids_by_price : Option ℕ
  pub asks_by_price : Option ℕ
  pub price_orders_at_price : ℕ → Option ℕ
  pub order_pool : MemoryPool (Order K)

-- `price % ME_MAX_PRICE_LEVELS`: the price is converted to `size_t` first.
unfoldable pub price_to_index : ℤ → ℕ
price_to_index (pos n) = n % me_max_price_levels
price_to_index (negsuc n) = (2 ^ 64 - 1 - n) % me_max_price_levels

module _ {K : Type 0} where
  abbrev pub order_at : Ladder K → ℕ → Order K
  order_at l p = (l.order_pool.store p).object

  abbrev pub level_at : Ladder K → ℕ → OrdersAtPrice
  level_at l p = (l.orders_at_price_pool.store p).object

  -- An assignment through a pointer to an order, and through one to a level.
  abbrev pub set_order : Ladder K → ℕ → Order K → Ladder K
  set_order l p o = record l {
    order_pool = record l.order_pool {
      store = update l.order_pool.store p (record (l.order_pool.store p) { object = o });
    };
  }

  abbrev pub set_level : Ladder K → ℕ → OrdersAtPrice → Ladder K
  set_level l p e = record l {
    orders_at_price_pool = record l.orders_at_price_pool {
      store =
          update l.orders_at_price_pool.store p
            (record (l.orders_at_price_pool.store p) { object = e });
    };
  }

  unfoldable pub get_orders_at_price : Ladder K → ℤ → Option ℕ
  get_orders_at_price l price = l.price_orders_at_price (price_to_index price)

  -- `(side == Side::BUY ? bids_by_price_ : asks_by_price_)`, read and assigned.
  abbrev pub best_of : Ladder K → Side → Option ℕ
  best_of l side = if side_eq side Side.buy then l.bids_by_price else l.asks_by_price

  abbrev pub set_best : Ladder K → Side → Option ℕ → Ladder K
  set_best l side p =
      if side_eq side Side.buy
      then record l { bids_by_price = p }
      else record l { asks_by_price = p }

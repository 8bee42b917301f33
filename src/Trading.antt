-- ===== src/Trading.antt =====
-- src/include/trading_engine and src/trading_engine: what a client runs on the exchange's responses
-- and market data. Floating-point numbers are a parameter: the type `Double` and the operations that
-- a component uses.
pub mod RiskManager
pub mod OrderManager
pub mod PositionKeeper
pub mod OrderBook
pub mod Algorithms
pub mod Engine
use vots.Base.{ℕ, ◌+◌, ◌-◌, ◌%◌, ◌^◌, Option, none, some, Bool, ltb, leb, ◌&&◌, if◌then◌else◌}
use vots.Base.Int.{ℤ, pos, negsuc, pos_part, neg_part}

-- `static_cast<int32_t>` of a `uint32_t`, and the conversion of an `int` to `uint32_t`.
unfoldable pub to_int32 : ℕ → ℤ
to_int32 n = if ltb n (2 ^ 31) then pos n else negsuc (2 ^ 32 - 1 - n)

unfoldable pub to_uint32 : ℤ → ℕ
to_uint32 (pos n) = n % 2 ^ 32
to_uint32 (negsuc n) = 2 ^ 32 - 1 - n % 2 ^ 32

-- The result of an operation on `int`: outside the type the behaviour is undefined.
unfoldable pub checked_int32 : ℤ → Option ℤ
checked_int32 a = if ltb (pos_part a) (2 ^ 31) && leb (neg_part a) (2 ^ 31) then some a else none

unfoldable pub checked_int64 : ℤ → Option ℤ
checked_int64 a = if ltb (pos_part a) (2 ^ 63) && leb (neg_part a) (2 ^ 63) then some a else none

pub record RiskCfg (Double : Type 0) : Type 0 where
  pub max_order_size : ℕ
  pub max_position : ℕ
  pub max_loss : Double

-- Best bid and offer.
pub record Bbo : Type 0 where
  pub bid_price : ℤ
  pub ask_price : ℤ
  pub bid_qty : ℕ
  pub ask_qty : ℕ

pub record PositionInfo (Double : Type 0) : Type 0 where
  pub position : ℤ
  pub real_pnl : Double
  pub unreal_pnl : Double
  pub total_pnl : Double
  pub open_vwap : ℕ → Double
  pub volume : ℕ
  pub bbo : Option Bbo

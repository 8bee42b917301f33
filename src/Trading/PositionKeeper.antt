-- ===== src/Trading/PositionKeeper.antt =====
-- src/include/trading_engine/position_keeper.hpp: position, profit and loss, and open prices of each
-- ticker. Arithmetic on `int` and `int64_t` that overflows has no defined behaviour and is `none`;
-- `exec_qty_ * side_value` is unsigned and wraps. Logging is left out.
pub mod Fills
use vots.Base.{
  ℕ, ◌+◌, ◌*◌, ◌%◌, ◌^◌, Bool, true, false, not, Option, none, some, if◌then◌else◌, ◌>>=◌, ◌&&◌,
  ltb, update,
}
use vots.Base.Int.{ℤ, pos, ◌+ℤ◌, ◌*ℤ◌, ltb_ℤ, eq_ℤ, abs}
use vots.Types.{Side, side_eq, side_to_value, side_to_index, me_max_tickers, price_invalid}
use vots.Messages.{MeClientResponse}
use vots.Trading.{Bbo, PositionInfo, to_int32, to_uint32, checked_int32, checked_int64}

-- The operations of `double` that the positions use.
pub record DoubleOps (Double : Type 0) : Type 0 where
  pub zero : Double
  pub half : Double
  pub from_int : ℤ → Double
  pub add : Double → Double → Double
  pub sub : Double → Double → Double
  pub mul : Double → Double → Double
  pub div : Double → Double → Double

-- `position_ += exec_qty_ * side_value`, in unsigned arithmetic.
unfoldable pub filled_position : ℤ → Side → ℕ → ℤ
unfolding to_int32 to_uint32
filled_position position side exec_qty =
    to_int32 ((to_uint32 position + exec_qty * to_uint32 (side_to_value side) % 2 ^ 32) % 2 ^ 32)

abbrev opposite : Side → Side
opposite side = if side_eq side Side.buy then Side.sell else Side.buy

abbrev min_ℤ : ℤ → ℤ → ℤ
min_ℤ a b = if ltb_ℤ b a then b else a

module _ {Double : Type 0} (d : DoubleOps Double) where
  -- The branch of an opened or increased position.
  unfoldable pub increase : PositionInfo Double → MeClientResponse → Option (PositionInfo Double)
  increase info r = do
    cost ← checked_int64 (r.price *ℤ pos r.exec_qty)
    let i = side_to_index r.side
    some (record info {
      open_vwap = update info.open_vwap i (d.add (info.open_vwap i) (d.from_int cost));
    })

  -- The flip of a position to the opposite sign.
  unfoldable pub flip : PositionInfo Double → MeClientResponse → Option (PositionInfo Double)
  flip info r = do
    size ← checked_int32 (abs info.position)
    cost ← checked_int64 (r.price *ℤ size)
    let i = side_to_index r.side
    let j = side_to_index (opposite r.side)
    some (record info { open_vwap = update (update info.open_vwap i (d.from_int cost)) j d.zero })

  -- The branch of a decreased position, which was `old_position` before the fill.
  unfoldable pub decrease :
      ℤ → PositionInfo Double → MeClientResponse → Option (PositionInfo Double)
  unfolding flip
  decrease old_position info r = do
    old_size ← checked_int32 (abs old_position)
    size ← checked_int32 (abs info.position)
    product ← checked_int32 (info.position *ℤ old_position)
    let j = side_to_index (opposite r.side)
    let opp_side_vwap = d.div (info.open_vwap j) (d.from_int old_size)
    let gain =
        d.mul
          (d.mul (d.from_int (min_ℤ (to_int32 r.exec_qty) old_size))
            (d.sub opp_side_vwap (d.from_int r.price)))
          (d.from_int (side_to_value r.side))
    let info' = record info {
      open_vwap = update info.open_vwap j (d.mul opp_side_vwap (d.from_int size));
      real_pnl = d.add info.real_pnl gain;
    }
    if ltb_ℤ product (pos 0) then flip info' r else some info'

  -- The unrealised profit and loss at a price.
  unfoldable pub unreal_at : PositionInfo Double → Double → Option Double
  unreal_at info price = do
    size ← checked_int32 (abs info.position)
    let n = d.from_int size
    some (
        if ltb_ℤ (pos 0) info.position
        then d.mul (d.sub price (d.div (info.open_vwap (side_to_index Side.buy)) n)) n
        else d.mul (d.sub (d.div (info.open_vwap (side_to_index Side.sell)) n) price) n)

  -- The unrealised profit and loss, reset when the position is flat, and the total.
  unfoldable pub settle : PositionInfo Double → ℤ → Option (PositionInfo Double)
  unfolding unreal_at
  settle info price =
      if eq_ℤ info.position (pos 0)
      then some (record info {
        open_vwap =
            update (update info.open_vwap (side_to_index Side.sell) d.zero) (side_to_index Side.buy)
              d.zero;
        unreal_pnl = d.zero;
        total_pnl = d.add d.zero info.real_pnl;
      })
      else (unreal_at info (d.from_int price) >>= λ unreal.
          some (record info { unreal_pnl = unreal; total_pnl = d.add unreal info.real_pnl }))

  -- PositionInfo::AddFill.
  unfoldable pub add_fill : PositionInfo Double → MeClientResponse → Option (PositionInfo Double)
  unfolding increase decrease settle filled_position
  add_fill info r = do
    let filled = record info {
      position = filled_position info.position r.side r.exec_qty;
      volume = (info.volume + r.exec_qty) % 2 ^ 32;
    }
    direction ← checked_int32 (info.position *ℤ side_to_value r.side)
    opened ← if ltb_ℤ direction (pos 0) then decrease info.position filled r else increase filled r
    settle opened r.price

  -- PositionInfo::UpdateBbo.
  unfoldable pub update_bbo : PositionInfo Double → Bbo → Option (PositionInfo Double)
  unfolding unreal_at
  update_bbo info bbo =
      let info' = record info { bbo = some bbo } in
      if not (eq_ℤ info.position (pos 0))
        && not (eq_ℤ bbo.bid_price price_invalid)
        && not (eq_ℤ bbo.ask_price price_invalid)
      then (do
        both ← checked_int64 (bbo.bid_price +ℤ bbo.ask_price)
        unreal ← unreal_at info' (d.mul (d.from_int both) d.half)
        some (record info' { unreal_pnl = unreal; total_pnl = d.add unreal info.real_pnl }))
      else some info'

  -- The PositionKeeper's own operations, on the positions of all tickers.
  unfoldable pub keep_fill :
      (ℕ → PositionInfo Double) → MeClientResponse → Option (ℕ → PositionInfo Double)
  unfolding add_fill
  keep_fill positions r =
      if ltb r.ticker_id me_max_tickers
      then (add_fill (positions r.ticker_id) r >>= λ info. some (update positions r.ticker_id info))
      else none

  unfoldable pub keep_bbo : (ℕ → PositionInfo Double) → ℕ → Bbo → Option (ℕ → PositionInfo Double)
  unfolding update_bbo
  keep_bbo positions ticker_id bbo =
      if ltb ticker_id me_max_tickers
      then (update_bbo (positions ticker_id) bbo >>= λ info. some (update positions ticker_id info))
      else none

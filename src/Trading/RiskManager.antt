-- ===== src/Trading/RiskManager.antt =====
-- src/include/trading_engine/risk_manager.hpp: the check of an order before it is sent.
-- A `RiskInfo` points to a position of the PositionKeeper: the positions are an argument.
pub mod Limits
use Prim.Native.String.{String}
use vots.Base.{
  ℕ, suc, ◌+◌, ◌-◌, ◌*◌, ◌%◌, ◌^◌, ◌≤◌, ◌<◌, ◌≡◌, ◌≢◌, refl, sym, ap, ◌∙◌, inl, inr, Bool, true,
  false, Option, none, some, if◌then◌else◌, ◌>>=◌, ltb, leb, ◌&&◌, arith, Bool-cases, Option-cases,
  some_inj, none-ne-some, >>=-eq-some, ltb→lt, lt→ltb, le→leb, leb→le, lt→ltb_false, lt→leb,
}
use vots.Base.Int.{
  ℤ, pos, negsuc, pos_part, neg_part, ◌+ℤ◌, ◌*ℤ◌, ◌≤ℤ◌, ltb_ℤ, abs, sub_ℕ, int_laws,
}
use vots.Types.{Side, side_to_value, me_max_tickers}
use vots.Trading.{RiskCfg, PositionInfo, to_int32, checked_int32}

pub data RiskCheckResult : Type 0 where
  invalid order_too_large position_too_large loss_too_large allowed : RiskCheckResult

unfoldable pub risk_check_result_to_string : RiskCheckResult → String
risk_check_result_to_string RiskCheckResult.invalid = "INVALID"
risk_check_result_to_string RiskCheckResult.order_too_large = "ORDER_TOO_LARGE"
risk_check_result_to_string RiskCheckResult.position_too_large = "POSITION_TOO_LARGE"
risk_check_result_to_string RiskCheckResult.loss_too_large = "LOSS_TOO_LARGE"
risk_check_result_to_string RiskCheckResult.allowed = "ALLOWED"

-- `std::abs(position_ + SideToValue(side) * static_cast<int32_t>(qty))`; `none` is an overflow.
unfoldable pub position_after : ℤ → Side → ℕ → Option ℤ
unfolding checked_int32 to_int32
position_after position side qty = do
  change ← checked_int32 (side_to_value side *ℤ to_int32 qty)
  after ← checked_int32 (position +ℤ change)
  checked_int32 (abs after)

module _ {Double : Type 0} (lt_double : Double → Double → Bool) where
  -- RiskInfo::CheckPreTradeRisk.
  unfoldable pub check_risk :
      PositionInfo Double → RiskCfg Double → Side → ℕ → Option RiskCheckResult
  unfolding position_after
  check_risk info cfg side qty =
      if ltb cfg.max_order_size qty then some RiskCheckResult.order_too_large else (do
        after ← position_after info.position side qty
        some (
            if ltb_ℤ (to_int32 cfg.max_position) after
            then RiskCheckResult.position_too_large
            else if lt_double info.total_pnl cfg.max_loss
            then RiskCheckResult.loss_too_large
            else RiskCheckResult.allowed))

  -- RiskManager::CheckPreTradeRisk, with the positions and the tickers' limits.
  unfoldable pub check_pre_trade_risk :
      (ℕ → PositionInfo Double) → (ℕ → RiskCfg Double) → ℕ → Side → ℕ → Option RiskCheckResult
  unfolding check_risk
  check_pre_trade_risk positions cfgs ticker_id side qty =
      if ltb ticker_id me_max_tickers
      then check_risk (positions ticker_id) (cfgs ticker_id) side qty
      else none

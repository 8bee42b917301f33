-- ===== src/Trading/Algorithms.antt =====
-- src/include/trading_engine/feature_engine.hpp, market_maker.hpp and liquidity_taker.hpp: the
-- features of the market, and the two algorithms that move orders by them.
-- The book is read through its best bid and offer. Logging and measurements are left out.
pub mod Quotes
pub mod Handing
use vots.Base.{
  ℕ, ◌+◌, ◌%◌, ◌^◌, Bool, true, false, not, Option, none, some, if◌then◌else◌, ◌>>=◌, ◌&&◌, ltb,
}
use vots.Base.Int.{ℤ, pos, negsuc, ◌+ℤ◌, ◌*ℤ◌, eq_ℤ}
use vots.Types.{Side, side_eq, me_max_tickers, price_invalid}
use vots.Messages.{MeMarketUpdate}
use vots.Trading.{Bbo, RiskCfg, checked_int64}
use vots.Trading.RiskManager.{RiskCheckResult}
use vots.Trading.OrderManager.{OrderManager, move_orders}

pub record TradeEngineCfg (Double : Type 0) : Type 0 where
  pub clip : ℕ
  pub threshold : Double
  pub risk_cfg : RiskCfg Double

-- The operations of `double` that the features and the algorithms use; `ne` is `!=`.
pub record FeatureOps (Double : Type 0) : Type 0 where
  pub from_int : ℤ → Double
  pub sub : Double → Double → Double
  pub div : Double → Double → Double
  pub ge : Double → Double → Bool
  pub ne : Double → Double → Bool
  pub feature_invalid : Double

pub record FeatureEngine (Double : Type 0) : Type 0 where
  pub mkt_price : Double
  pub agg_trade_qty_ratio : Double

-- The test that all of these begin with.
abbrev pub has_both : Bbo → Bool
has_both bbo = not (eq_ℤ bbo.bid_price price_invalid) && not (eq_ℤ bbo.ask_price price_invalid)

module _ {Double : Type 0} (d : FeatureOps Double) where
  -- FeatureEngine::OnOrderBookUpdate.
  unfoldable pub feature_book_update : FeatureEngine Double → Bbo → Option (FeatureEngine Double)
  feature_book_update f bbo =
      if has_both bbo
      then (do
        bid ← checked_int64 (bbo.bid_price *ℤ pos bbo.ask_qty)
        ask ← checked_int64 (bbo.ask_price *ℤ pos bbo.bid_qty)
        weighted ← checked_int64 (bid +ℤ ask)
        some (record f {
          mkt_price =
              d.div (d.from_int weighted) (d.from_int (pos ((bbo.bid_qty + bbo.ask_qty) % 2 ^ 32)));
        }))
      else some f

  -- FeatureEngine::OnTradeUpdate.
  unfoldable pub feature_trade_update :
      FeatureEngine Double → MeMarketUpdate → Bbo → FeatureEngine Double
  feature_trade_update f u bbo =
      if has_both bbo
      then record f {
        agg_trade_qty_ratio =
            d.div (d.from_int (pos u.qty))
              (d.from_int (pos (if side_eq u.side Side.buy then bbo.ask_qty else bbo.bid_qty)));
      }
      else f

  -- The two prices of the market maker.
  unfoldable pub maker_bid : Double → Double → ℤ → Option ℤ
  maker_bid fair threshold bid =
      checked_int64 (if d.ge (d.sub fair (d.from_int bid)) threshold then bid else bid +ℤ negsuc 0)

  unfoldable pub maker_ask : Double → Double → ℤ → Option ℤ
  maker_ask fair threshold ask =
      checked_int64 (if d.ge (d.sub (d.from_int ask) fair) threshold then ask else ask +ℤ pos 1)

  module _ (check : ℕ → Side → ℕ → Option RiskCheckResult) (cfgs : ℕ → TradeEngineCfg Double) where
    -- MarketMaker::OnOrderBookUpdate.
    unfoldable pub maker_book_update :
        OrderManager → FeatureEngine Double → ℕ → Bbo → Option OrderManager
    unfolding maker_bid maker_ask
    maker_book_update m f ticker_id bbo =
        if has_both bbo && d.ne f.mkt_price d.feature_invalid
        then (if ltb ticker_id me_max_tickers
            then (do
              bid ← maker_bid f.mkt_price (cfgs ticker_id).threshold bbo.bid_price
              ask ← maker_ask f.mkt_price (cfgs ticker_id).threshold bbo.ask_price
              move_orders check m ticker_id bid ask (cfgs ticker_id).clip)
            else none)
        else some m

    -- LiquidityTaker::OnTradeUpdate.
    unfoldable pub taker_trade_update :
        OrderManager → FeatureEngine Double → MeMarketUpdate → Bbo → Option OrderManager
    taker_trade_update m f u bbo =
        if has_both bbo && d.ne f.agg_trade_qty_ratio d.feature_invalid
        then (if ltb u.ticker_id me_max_tickers
            then (if d.ge f.agg_trade_qty_ratio (cfgs u.ticker_id).threshold
                then (if side_eq u.side Side.buy
                    then move_orders check m u.ticker_id bbo.ask_price price_invalid
                        (cfgs u.ticker_id).clip
                    else move_orders check m u.ticker_id price_invalid bbo.bid_price
                        (cfgs u.ticker_id).clip)
                else some m)
            else none)
        else some m

-- ===== src/Trading/Algorithms/Handing.antt =====
-- What the algorithms hand over to the trading engine.
use vots.Base.{
  ℕ, ◌≡◌, sym, subst, inl, inr, Option, some, ◌&&◌, ltb, Bool-cases, some_inj, none-ne-some,
}
use vots.Types.{Side, side_eq, me_max_tickers, price_invalid}
use vots.Messages.{MeMarketUpdate}
use vots.Trading.{Bbo}
use vots.Trading.RiskManager.{RiskCheckResult}
use vots.Trading.OrderManager.{OrderManager}
use vots.Trading.OrderManager.Approved.{Handed, Handed-none, move_orders-Handed}
use vots.Trading.Algorithms.{
  FeatureOps, FeatureEngine, TradeEngineCfg, has_both, maker_book_update, taker_trade_update,
}
use vots.Trading.Algorithms.Quotes.{maker_book_update-Quoted}

module _ {Double : Type 0} (d : FeatureOps Double) (check : ℕ → Side → ℕ → Option RiskCheckResult)
    (cfgs : ℕ → TradeEngineCfg Double) where
  pub maker_book_update-Handed :
      (m m' : OrderManager) (f : FeatureEngine Double) (ticker_id : ℕ) (bbo : Bbo)
      → maker_book_update d check cfgs m f ticker_id bbo ≡ some m'
      → Handed check ticker_id 2 m m'
  maker_book_update-Handed m m' f ticker_id bbo e =
      elim (maker_book_update-Quoted d check cfgs m m' f ticker_id bbo e) [
        | inl same ↦ subst (Handed check ticker_id 2 m) (sym same) (Handed-none check ticker_id 2 m)
        | inr q ↦ move_orders-Handed check ticker_id m m' q.bid q.ask (cfgs ticker_id).clip q.moved
      ]

  pub taker_trade_update-Handed :
      (m m' : OrderManager) (f : FeatureEngine Double) (u : MeMarketUpdate) (bbo : Bbo)
      → taker_trade_update d check cfgs m f u bbo ≡ some m'
      → Handed check u.ticker_id 2 m m'
  unfolding taker_trade_update
  taker_trade_update-Handed m m' f u bbo e =
      elim (Bool-cases (has_both bbo && d.ne f.agg_trade_qty_ratio d.feature_invalid)) [
        | inr unknown ↦ still (some_inj (rw unknown at e))
        | inl priced ↦ elim (Bool-cases (ltb u.ticker_id me_max_tickers)) [
          | inr out ↦ absurd (none-ne-some m' (rw (priced, out) at e))
          | inl known ↦
              elim (Bool-cases (d.ge f.agg_trade_qty_ratio (cfgs u.ticker_id).threshold)) [
                | inr small ↦ still (some_inj (rw (priced, known, small) at e))
                | inl large ↦ elim (Bool-cases (side_eq u.side Side.buy)) [
                  | inl buy ↦
                      move_orders-Handed check u.ticker_id m m' bbo.ask_price price_invalid
                        (cfgs u.ticker_id).clip (rw (priced, known, large, buy) at e)
                  | inr sell ↦
                      move_orders-Handed check u.ticker_id m m' price_invalid bbo.bid_price
                        (cfgs u.ticker_id).clip (rw (priced, known, large, sell) at e)
                ]
              ]
        ]
      ]
    where
      still : m ≡ m' → Handed check u.ticker_id 2 m m'
      still same = subst (Handed check u.ticker_id 2 m) same (Handed-none check u.ticker_id 2 m)

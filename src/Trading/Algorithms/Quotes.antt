-- ===== src/Trading/Algorithms/Quotes.antt =====
-- The prices at which the algorithms quote.
use vots.Base.{
  ℕ, ◌≡◌, sym, subst, ◌⊎◌, inl, inr, Bool, true, false, Option, some, if◌then◌else◌, ◌&&◌, ltb,
  arith, Bool-cases, >>=-eq-some, some_inj, none-ne-some,
}
use vots.Base.Int.{ℤ, pos, negsuc, ◌+ℤ◌, ◌≤ℤ◌}
use vots.Types.{Side, me_max_tickers}
use vots.Trading.{Bbo, checked_int64}
use vots.Trading.RiskManager.{RiskCheckResult}
use vots.Trading.OrderManager.{OrderManager, move_orders}
use vots.Trading.Algorithms.{
  FeatureOps, FeatureEngine, TradeEngineCfg, has_both, maker_bid, maker_ask, maker_book_update,
}

checked_int64-some : (a b : ℤ) → checked_int64 a ≡ some b → b ≡ a
unfolding checked_int64
checked_int64-some a b h = ground arith

one_less : (a : ℤ) → a +ℤ negsuc 0 ≤ℤ a
unfolding ◌+ℤ◌
one_less a = ground arith

one_more : (a : ℤ) → a ≤ℤ a +ℤ pos 1
unfolding ◌+ℤ◌
one_more a = ground arith

not_above : (b : Bool) (a : ℤ) → (if b then a else a +ℤ negsuc 0) ≤ℤ a
not_above true a = omega arith
not_above false a = one_less a

not_below : (b : Bool) (a : ℤ) → a ≤ℤ (if b then a else a +ℤ pos 1)
not_below true a = omega arith
not_below false a = one_more a

module _ {Double : Type 0} (d : FeatureOps Double) (check : ℕ → Side → ℕ → Option RiskCheckResult)
    (cfgs : ℕ → TradeEngineCfg Double) where
  -- The orders are moved to prices that are not better than the best ones.
  pub record Quoted (m m' : OrderManager) (ticker_id : ℕ) (bbo : Bbo) : Type 0 where
    pub bid : ℤ
    pub ask : ℤ
    pub bid_not_above : bid ≤ℤ bbo.bid_price
    pub ask_not_below : bbo.ask_price ≤ℤ ask
    pub moved : move_orders check m ticker_id bid ask (cfgs ticker_id).clip ≡ some m'

  -- Whenever the market maker's handler of a book update returns, it has kept its orders, or moved
  -- them to a bid that is not above the best bid and an ask that is not below the best ask, with
  -- the ticker's clip as quantity.
  pub maker_book_update-Quoted :
      (m m' : OrderManager) (f : FeatureEngine Double) (ticker_id : ℕ) (bbo : Bbo)
      → maker_book_update d check cfgs m f ticker_id bbo ≡ some m'
      → (m' ≡ m) ⊎ Quoted m m' ticker_id bbo
  unfolding maker_book_update maker_bid maker_ask
  maker_book_update-Quoted m m' f ticker_id bbo e =
      elim (Bool-cases (has_both bbo && d.ne f.mkt_price d.feature_invalid)) [
        | inr unknown ↦ inl (sym (some_inj (rw unknown at e)))
        | inl priced ↦ elim (Bool-cases (ltb ticker_id me_max_tickers)) [
          | inr out ↦ absurd (none-ne-some m' (rw (priced, out) at e))
          | inl known ↦
              let threshold = (cfgs ticker_id).threshold in
              let (bid, e₁, e₂) =
                >>=-eq-some (maker_bid d f.mkt_price threshold bbo.bid_price) _
                  (rw (priced, known) at e) in
              let (ask, e₃, e₄) =
                >>=-eq-some (maker_ask d f.mkt_price threshold bbo.ask_price) _ e₂ in
              inr (record {
                bid = bid;
                ask = ask;
                bid_not_above =
                    subst (λ x. x ≤ℤ bbo.bid_price) (sym (checked_int64-some _ bid e₁))
                      (not_above (d.ge (d.sub f.mkt_price (d.from_int bbo.bid_price)) threshold)
                        bbo.bid_price);
                ask_not_below =
                    subst (λ x. bbo.ask_price ≤ℤ x) (sym (checked_int64-some _ ask e₃))
                      (not_below (d.ge (d.sub (d.from_int bbo.ask_price) f.mkt_price) threshold)
                        bbo.ask_price);
                moved = e₄;
              })
        ]
      ]

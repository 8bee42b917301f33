-- ===== src/Trading/Engine/Answers.antt =====
-- What responses make of the state of the trading engine.
use vots.Base.{ℕ, ◌≡◌, Bool, true, false, some, List, [], ◌∷◌, if◌then◌else◌, map, ◌==◌}
use vots.Types.{AlgoType}
use vots.Messages.{MeClientResponse, ClientResponseType}
use vots.Trading.OrderManager.{on_order_update}
use vots.Trading.OrderManager.Requests.{responded, run}
use vots.Trading.OrderManager.Responding.{slot_after}
use vots.Trading.PositionKeeper.{DoubleOps, add_fill, keep_fill}
use vots.Trading.Algorithms.{FeatureOps, TradeEngineCfg}
use vots.Trading.Engine.{EngineState, is_filled}
use vots.Trading.Engine.Draining.{handle_all}

-- The responses of type FILLED.
abbrev pub if_fill :
    ClientResponseType → MeClientResponse → List MeClientResponse → List MeClientResponse
if_fill ClientResponseType.filled r rs = r ∷ rs
if_fill ClientResponseType.accepted r rs = rs
if_fill ClientResponseType.canceled r rs = rs
if_fill ClientResponseType.cancel_rejected r rs = rs
if_fill ClientResponseType.invalid r rs = rs

abbrev pub fills : List MeClientResponse → List MeClientResponse
fills [] = []
fills (r ∷ rs) = if_fill r.type r (fills rs)

-- Those for one ticker.
abbrev pub for_ticker : ℕ → List MeClientResponse → List MeClientResponse
for_ticker t [] = []
for_ticker t (r ∷ rs) = if r.ticker_id == t then r ∷ for_ticker t rs else for_ticker t rs

abbrev pub is_trading : AlgoType → Bool
is_trading AlgoType.maker = true
is_trading AlgoType.taker = true
is_trading _ = false

module _ {Double : Type 0} (p : DoubleOps Double) (d : FeatureOps Double)
    (lt_double : Double → Double → Bool) (cfgs : ℕ → TradeEngineCfg Double) where
  -- The four parts that responses lead to.
  pub record Answered (s : EngineState Double) (rs : List MeClientResponse)
      (s' : EngineState Double) : Type 0 where
    pub filled : handle_all (keep_fill p) s.position_keeper (fills rs) ≡ some s'.position_keeper
    pub positions :
        (t : ℕ)
        → handle_all (add_fill p) (s.position_keeper t) (for_ticker t (fills rs))
          ≡ some (s'.position_keeper t)
    pub orders :
        (t i : ℕ)
        → s'.order_manager.ticker_side_order t i
          ≡ slot_after t i (s.order_manager.ticker_side_order t i) rs
    pub managed : run s.order_manager (map responded rs) ≡ some s'.order_manager
    pub same_queue : s'.outgoing_ogw_requests ≡ s.outgoing_ogw_requests
    pub same_books : s'.ticker_order_book ≡ s.ticker_order_book
    pub same_algo : s'.algo_type ≡ s.algo_type

  -- One response.
  record AnsweredOne (s : EngineState Double) (r : MeClientResponse) (s' : EngineState Double)
      : Type 0 where
    filled :
        (if is_filled r then keep_fill p s.position_keeper r else some s.position_keeper)
        ≡ some s'.position_keeper
    managed : on_order_update s.order_manager r ≡ some s'.order_manager
    same_queue : s'.outgoing_ogw_requests ≡ s.outgoing_ogw_requests
    same_books : s'.ticker_order_book ≡ s.ticker_order_book
    same_algo : s'.algo_type ≡ s.algo_type

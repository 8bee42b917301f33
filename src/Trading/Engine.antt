-- ===== src/Trading/Engine.antt =====
-- src/include/trading_engine/trading_engine.hpp and src/trading_engine/trading_engine.cpp, with the
-- handlers that market_maker.hpp and liquidity_taker.hpp set: responses and market updates come off
-- two queues, go to the books, the positions, the features and the algorithm, and the requests of
-- the order manager go to a third queue.
-- The order manager collects its requests, and the engine writes them to the queue when it is done:
-- it does not read that queue. The limits of the risk manager are those of the tickers' settings.
-- Logging, measurements and the time of the last event are left out, and the volatile flag that ends
-- the loop is left to the caller: `run_round` is one round.
pub mod Draining
pub mod Effects
pub mod Answers
use vots.Base.{
  ℕ, zero, suc, Bool, true, false, Option, none, some, List, [], ◌∷◌, if◌then◌else◌, ◌>>=◌, ltb,
  update,
}
use vots.Types.{AlgoType, Side, me_max_tickers}
use vots.Messages.{MeClientRequest, MeClientResponse, ClientResponseType, MeMarketUpdate}
use vots.Runtime.LockFreeQueue.{LockFreeQueue, push, get_next_to_read, update_read_index}
use vots.Trading.{Bbo, PositionInfo}
use vots.Trading.RiskManager.{RiskCheckResult, check_pre_trade_risk}
use vots.Trading.OrderManager.{OrderManager, on_order_update}
use vots.Trading.OrderBook.{
  TradingOrderBook, Callback, on_trade_update, on_order_book_update, on_market_update,
}
use vots.Trading.PositionKeeper.{DoubleOps, keep_fill, keep_bbo}
use vots.Trading.Algorithms.{
  FeatureOps, FeatureEngine, TradeEngineCfg, feature_book_update, feature_trade_update,
  maker_book_update, taker_trade_update,
}

-- What the handlers read and change. `algo_type` stands for the three functions that the constructor
-- sets.
pub record EngineState (Double : Type 0) : Type 0 where
  pub ticker_order_book : ℕ → TradingOrderBook
  pub outgoing_ogw_requests : LockFreeQueue MeClientRequest
  pub feature_engine : FeatureEngine Double
  pub position_keeper : ℕ → PositionInfo Double
  pub order_manager : OrderManager
  pub algo_type : AlgoType

pub record TradingEngine (Double : Type 0) : Type 0 where
  pub state : EngineState Double
  pub incoming_ogw_responses : LockFreeQueue MeClientResponse
  pub incoming_md_updates : LockFreeQueue MeMarketUpdate

-- SendClientRequest.
unfoldable pub send_client_request :
    {Double : Type 0} → EngineState Double → MeClientRequest → EngineState Double
send_client_request s r = record s { outgoing_ogw_requests = push s.outgoing_ogw_requests r }

unfoldable pub send_requests :
    {Double : Type 0} → EngineState Double → List MeClientRequest → EngineState Double
unfolding send_client_request
send_requests s [] = s
send_requests s (r ∷ rs) = send_requests (send_client_request s r) rs

-- The order manager as an algorithm left it: what it sent is handed over.
unfoldable pub hand_over :
    {Double : Type 0} → EngineState Double → OrderManager → EngineState Double
unfolding send_requests
hand_over s m = send_requests (record s { order_manager = record m { sent = [] } }) m.sent

abbrev pub is_filled : MeClientResponse → Bool
is_filled r = elim r.type [ ClientResponseType.filled ↦ true | _ ↦ false ]

module _ {Double : Type 0} (p : DoubleOps Double) (d : FeatureOps Double)
    (lt_double : Double → Double → Bool) (cfgs : ℕ → TradeEngineCfg Double) where
  -- The risk check of the moment.
  abbrev pub risk_check : EngineState Double → ℕ → Side → ℕ → Option RiskCheckResult
  risk_check s = check_pre_trade_risk lt_double s.position_keeper (λ t. (cfgs t).risk_cfg)

  -- The function that the constructor sets as algo_on_order_book_update_ for an algorithm: but for
  -- the market maker's, it only logs.
  unfoldable pub algo_on_order_book_update :
      AlgoType → EngineState Double → (ticker_id : ℕ) → Bbo → Option OrderManager
  algo_on_order_book_update AlgoType.maker s ticker_id bbo =
      maker_book_update d (risk_check s) cfgs (record s.order_manager { sent = [] })
        s.feature_engine ticker_id bbo
  algo_on_order_book_update _ s ticker_id bbo = some (record s.order_manager { sent = [] })

  -- algo_on_trade_update_: but for the liquidity taker's, it only logs.
  unfoldable pub algo_on_trade_update :
      AlgoType → EngineState Double → MeMarketUpdate → Bbo → Option OrderManager
  algo_on_trade_update AlgoType.taker s u bbo =
      taker_trade_update d (risk_check s) cfgs (record s.order_manager { sent = [] })
        s.feature_engine u bbo
  algo_on_trade_update _ s u bbo = some (record s.order_manager { sent = [] })

  -- algo_on_order_update_: both algorithms forward to the order manager.
  unfoldable pub algo_on_order_update :
      AlgoType → EngineState Double → MeClientResponse → Option OrderManager
  algo_on_order_update AlgoType.maker s r = on_order_update s.order_manager r
  algo_on_order_update AlgoType.taker s r = on_order_update s.order_manager r
  algo_on_order_update _ s r = some s.order_manager

  -- OnOrderBookUpdate: positions, features, algorithm.
  unfoldable pub engine_book_update :
      EngineState Double → (ticker_id : ℕ) → Option (EngineState Double)
  unfolding algo_on_order_book_update hand_over
  engine_book_update s ticker_id = do
    let bbo = (s.ticker_order_book ticker_id).bbo
    positions ← keep_bbo p s.position_keeper ticker_id bbo
    features ← feature_book_update d s.feature_engine bbo
    let s' = record s { position_keeper = positions; feature_engine = features }
    m ← algo_on_order_book_update s.algo_type s' ticker_id bbo
    some (hand_over s' m)

  -- OnTradeUpdate: features, algorithm.
  unfoldable pub engine_trade_update :
      EngineState Double → MeMarketUpdate → Option (EngineState Double)
  unfolding algo_on_trade_update hand_over
  engine_trade_update s u = do
    let bbo = (s.ticker_order_book u.ticker_id).bbo
    let s' = record s { feature_engine = feature_trade_update d s.feature_engine u bbo }
    m ← algo_on_trade_update s.algo_type s' u bbo
    some (hand_over s' m)

  -- OnOrderUpdate: a fill changes the positions, then the algorithm sees every response.
  unfoldable pub engine_order_update :
      EngineState Double → MeClientResponse → Option (EngineState Double)
  unfolding algo_on_order_update
  engine_order_update s r = do
    positions ← if is_filled r then keep_fill p s.position_keeper r else some s.position_keeper
    let s' = record s { position_keeper = positions }
    m ← algo_on_order_update s.algo_type s' r
    some (record s' { order_manager = m })

  -- The call that the book of the update makes.
  unfoldable pub engine_callback : EngineState Double → Callback → Option (EngineState Double)
  unfolding engine_book_update engine_trade_update
  engine_callback s (on_trade_update u) = engine_trade_update s u
  engine_callback s (on_order_book_update ticker_id price side) = engine_book_update s ticker_id

  -- The body of the second loop of Run; a failed ASSERT ends the process.
  unfoldable pub engine_market_update :
      EngineState Double → MeMarketUpdate → Option (EngineState Double)
  unfolding engine_callback
  engine_market_update s u =
      if ltb u.ticker_id me_max_tickers
      then (on_market_update (s.ticker_order_book u.ticker_id) u >>= λ step.
          engine_callback
            (record s { ticker_order_book = update s.ticker_order_book u.ticker_id step.0 }) step.1)
      else none

  -- The two loops of Run, on fuel.
  unfoldable pub drain_responses : ℕ → TradingEngine Double → Option (TradingEngine Double)
  unfolding engine_order_update
  drain_responses zero e = none
  drain_responses (suc fuel) e = elim (get_next_to_read e.incoming_ogw_responses) [
    | none ↦ some e
    | some r ↦ do
      s ← engine_order_update e.state r
      q ← update_read_index e.incoming_ogw_responses
      drain_responses fuel (record e { state = s; incoming_ogw_responses = q })
  ]

  unfoldable pub drain_updates : ℕ → TradingEngine Double → Option (TradingEngine Double)
  unfolding engine_market_update
  drain_updates zero e = none
  drain_updates (suc fuel) e = elim (get_next_to_read e.incoming_md_updates) [
    | none ↦ some e
    | some u ↦ do
      s ← engine_market_update e.state u
      q ← update_read_index e.incoming_md_updates
      drain_updates fuel (record e { state = s; incoming_md_updates = q })
  ]

  -- One round of Run, while nothing new arrives.
  unfoldable pub run_round : TradingEngine Double → Option (TradingEngine Double)
  unfolding drain_responses drain_updates
  run_round e = do
    answered ← drain_responses (suc e.incoming_ogw_responses.num_elements) e
    drain_updates (suc answered.incoming_md_updates.num_elements) answered

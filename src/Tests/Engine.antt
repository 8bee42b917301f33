-- ===== src/Tests/Engine.antt =====
-- Runs of src/trading_engine/trading_engine.cpp. Money is counted in whole numbers in place of
-- `double`.
use vots.Base.{◌≤◌, ◌≡◌, refl, arith, Option, none, some, List, [], ◌∷◌, length, All}
use vots.Base.Int.{ℤ, pos, ltb_ℤ, ◌+ℤ◌, ◌*ℤ◌, abs}
use vots.Types.{Side, AlgoType, side_to_value, side_to_index}
use vots.Messages.{MeClientRequest, ClientRequestType, MeMarketUpdate, MarketUpdateType}
use vots.Runtime.LockFreeQueue
use vots.Runtime.LockFreeQueue.{LockFreeQueue, push}
use vots.Runtime.LockFreeQueue.Refine.{make-IsValid, unread-push}
use vots.Runtime.LockFreeQueue.Room.{Received}
use vots.Trading.RiskManager.{check_pre_trade_risk}
use vots.Trading.OrderManager.{make_manager, move_orders, on_order_update}
use vots.Trading.OrderBook.{on_market_update}
use vots.Trading.Algorithms.{feature_trade_update, taker_trade_update}
use vots.Trading.Engine.{
  EngineState, TradingEngine, engine_market_update, engine_order_update, run_round,
}
use vots.Trading.Engine.Draining.{handle_all, Drained, run_round-drains}
use vots.Trading.Engine.Effects.{IsSafe, engine_market_update-IsSafe}
use vots.Tests.Trading.{
  position, whole, whole_features, config, market, features, book, fill, accepted, add_buy,
}

abbrev no_request : MeClientRequest
no_request = record {
  type = ClientRequestType.invalid;
  client_id = 0;
  ticker_id = 0;
  order_id = 0;
  side = Side.invalid;
  price = pos 0;
  qty = 0;
}

abbrev taking : EngineState ℤ
taking = record {
  ticker_order_book = λ t. record book { bbo = market };
  outgoing_ogw_requests = LockFreeQueue.make 4 no_request;
  feature_engine = features;
  position_keeper = λ t. position;
  order_manager = make_manager 1;
  algo_type = AlgoType.taker;
}

abbrev trade : MeMarketUpdate
trade = record add_buy { type = MarketUpdateType.trade }

abbrev state_or : Option (EngineState ℤ) → EngineState ℤ
state_or none = taking
state_or (some s) = s

abbrev traded : Option (EngineState ℤ)
traded = engine_market_update whole whole_features ltb_ℤ config taking trade

engine_market_update-IsSafe_example :
    (rs : List MeClientRequest) × Received taking.outgoing_ogw_requests rs
      (state_or traded).outgoing_ogw_requests
    × (length rs ≤ 2)
    × All (IsSafe whole whole_features ltb_ℤ config (state_or traded) 0) rs
unfolding engine_market_update LockFreeQueue.make on_market_update taker_trade_update
    feature_trade_update move_orders check_pre_trade_risk ◌*ℤ◌ side_to_value ◌+ℤ◌ abs side_to_index
engine_market_update-IsSafe_example =
    engine_market_update-IsSafe whole whole_features ltb_ℤ config taking (state_or traded) trade
      (omega arith) (omega arith) refl
      (make-IsValid 4 no_request (omega arith) (omega arith), omega arith)

abbrev answered : Option (EngineState ℤ)
answered =
    handle_all (engine_order_update whole whole_features ltb_ℤ config) taking (accepted ∷ fill ∷ [])

abbrev engine : TradingEngine ℤ
engine = record {
  state = taking;
  incoming_ogw_responses = push (LockFreeQueue.make 4 accepted) accepted;
  incoming_md_updates = push (LockFreeQueue.make 4 add_buy) trade;
}

abbrev after_responses : Option (EngineState ℤ)
after_responses =
    handle_all (engine_order_update whole whole_features ltb_ℤ config) taking (accepted ∷ [])

abbrev after_updates : Option (EngineState ℤ)
after_updates =
    handle_all (engine_market_update whole whole_features ltb_ℤ config) (state_or after_responses)
      (trade ∷ [])

run_round-drains_example :
    (e : TradingEngine ℤ) × (run_round whole whole_features ltb_ℤ config engine ≡ some e)
    × (e.state ≡ state_or after_updates)
    × Drained e.incoming_ogw_responses
    × Drained e.incoming_md_updates
unfolding engine_order_update engine_market_update LockFreeQueue.make push on_order_update
    on_market_update taker_trade_update feature_trade_update move_orders side_to_index
run_round-drains_example =
    run_round-drains whole whole_features ltb_ℤ config engine (state_or after_responses)
      (state_or after_updates)
      (unread-push (LockFreeQueue.make 4 accepted) accepted
        (make-IsValid 4 accepted (omega arith) (omega arith)) (omega arith)).1
      (unread-push (LockFreeQueue.make 4 add_buy) trade
        (make-IsValid 4 add_buy (omega arith) (omega arith)) (omega arith)).1
      refl refl

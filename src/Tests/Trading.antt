-- ===== src/Tests/Trading.antt =====
-- Runs of src/trading_engine. Money is counted in whole numbers in place of `double`.
use vots.Base.{
  false, if◌then◌else◌, ◌==◌, not, ◌⊎◌, ℕ, ◌≡◌, refl, arith, Option, none, some, List, [], ◌∷◌,
}
use vots.Base.Int.{eq_ℤ, ℤ, pos, negsuc, ◌+ℤ◌, ◌-ℤ◌, ◌*ℤ◌, ltb_ℤ, abs}
use vots.Types.{Side, side_to_value, side_to_index}
use vots.Runtime.MemoryPool
use vots.Book
use vots.Book.Orders
use vots.Book.Levels
use vots.Messages.{
  MeClientResponse, ClientResponseType, MeMarketUpdate, MarketUpdateType, default_market_update,
}
use vots.Trading.{Bbo, RiskCfg, PositionInfo, checked_int32, checked_int64}
use vots.Trading.RiskManager.{RiskCheckResult, check_pre_trade_risk}
use vots.Trading.RiskManager.Limits.{
  WithinLimits, check_pre_trade_risk-allowed, check_pre_trade_risk_allows,
}
use vots.Trading.OrderManager.{OrderManager, make_manager, move_order, move_orders, on_order_update}
use vots.Trading.OrderManager.Requests.{
  Event, moved, responded, run, new_ids, numbers_from, number_behind, run-numbered,
}
use vots.Trading.Algorithms.{FeatureOps, FeatureEngine, TradeEngineCfg, maker_book_update}
use vots.Trading.OrderManager.Moving.{Moved, move_order-Moved}
use vots.Trading.Algorithms.Quotes.{Quoted, maker_book_update-Quoted}
use vots.Trading.PositionKeeper.{DoubleOps, add_fill}
use vots.Trading.PositionKeeper.Fills.{Filled, add_fill-Filled}
use vots.Trading.OrderBook.{TradingOrderBook, Callback, make_book, on_market_update}
use vots.Trading.OrderBook.Following.{Followed, on_market_update-Followed}

abbrev pub position : PositionInfo ℤ
position = record {
  position = pos 3;
  real_pnl = pos 0;
  unreal_pnl = pos 0;
  total_pnl = pos 0;
  open_vwap = λ _. pos 300;
  volume = 3;
  bbo = none;
}

abbrev pub limits : RiskCfg ℤ
limits = record { max_order_size = 20; max_position = 10; max_loss = negsuc 99 }

check_pre_trade_risk_allows_example :
    check_pre_trade_risk ltb_ℤ (λ _. position) (λ _. limits) 2 Side.sell 10
    ≡ some RiskCheckResult.allowed
unfolding ◌*ℤ◌ ◌+ℤ◌ abs side_to_value ◌-ℤ◌
check_pre_trade_risk_allows_example =
    check_pre_trade_risk_allows ltb_ℤ (λ _. position) (λ _. limits) 2 Side.sell 10 (omega arith)
      (omega arith) (omega arith) (omega arith) (omega arith) (omega arith, omega arith, refl)

check_pre_trade_risk-allowed_example : WithinLimits ltb_ℤ position limits Side.sell 10
check_pre_trade_risk-allowed_example =
    check_pre_trade_risk-allowed ltb_ℤ (λ _. position) (λ _. limits) 2 Side.sell 10 (omega arith)
      (omega arith) check_pre_trade_risk_allows_example

abbrev allow : ℕ → Side → ℕ → Option RiskCheckResult
allow ticker side qty = some RiskCheckResult.allowed

abbrev manager_or : Option OrderManager → OrderManager
manager_or none = make_manager 1
manager_or (some m) = m

abbrev entered_buy : Option OrderManager
entered_buy = move_order allow (make_manager 1) 0 (pos 100) Side.buy 5

move_order-Moved_example :
    Moved allow (make_manager 1) 0 (pos 100) Side.buy 5 (manager_or entered_buy)
unfolding move_order
move_order-Moved_example =
    move_order-Moved allow (make_manager 1) (manager_or entered_buy) 0 (pos 100) Side.buy 5 refl

abbrev pub accepted : MeClientResponse
accepted = record {
  type = ClientResponseType.accepted;
  client_id = 1;
  ticker_id = 0;
  client_order_id = 1;
  market_order_id = 1;
  side = Side.buy;
  price = pos 100;
  exec_qty = 0;
  leaves_qty = 5;
}

-- Both sides are entered, the bid is accepted and then moved away, and another ticker is entered.
abbrev events : List Event
events =
    moved allow 0 (pos 100) (pos 110) 5
    ∷ responded accepted
    ∷ moved allow 0 (pos 101) (pos 110) 5
    ∷ moved allow 3 (pos 50) (pos 60) 5
    ∷ []

run-numbered_example :
    (k : ℕ) × (new_ids (manager_or (run (make_manager 1) events)).sent ≡ numbers_from 1 k)
    × ((manager_or (run (make_manager 1) events)).next_order_id ≡ number_behind 1 k)
unfolding move_orders on_order_update side_to_index
run-numbered_example = run-numbered 1 events (manager_or (run (make_manager 1) events)) refl

abbrev pub whole : DoubleOps ℤ
whole = record {
  zero = pos 0;
  half = pos 1;
  from_int = λ a. a;
  add = ◌+ℤ◌;
  sub = ◌-ℤ◌;
  mul = ◌*ℤ◌;
  div = λ a b. a;
}

abbrev pub fill : MeClientResponse
fill = record accepted {
  type = ClientResponseType.filled;
  side = Side.sell;
  exec_qty = 3;
  leaves_qty = 2;
}

abbrev position_or : Option (PositionInfo ℤ) → PositionInfo ℤ
position_or none = position
position_or (some p) = p

add_fill-Filled_example : Filled whole position (position_or (add_fill whole position fill)) fill
unfolding add_fill ◌+ℤ◌ ◌-ℤ◌ ◌*ℤ◌ abs checked_int32 checked_int64 side_to_value
add_fill-Filled_example =
    add_fill-Filled whole position (position_or (add_fill whole position fill)) fill
      (omega arith, omega arith) (omega arith, omega arith) refl

abbrev pub book : TradingOrderBook
book = make_book (λ _. none) (λ _. none)

abbrev pub add_buy : MeMarketUpdate
add_buy = record default_market_update {
  type = MarketUpdateType.add;
  order_id = 1;
  ticker_id = 0;
  side = Side.buy;
  price = pos 100;
  qty = 10;
  priority = 1;
}

abbrev step_or : Option (TradingOrderBook × Callback) → TradingOrderBook × Callback
step_or none = (book, Callback.on_trade_update default_market_update)
step_or (some r) = r

-- A bid for 10 at 100, in pools of four blocks, and an update that adds 5 to it.
abbrev one_bid : TradingOrderBook
one_bid = record {
  oid_to_order = λ oid. none;
  ladder = record {
    orders_at_price_pool = record {
      store = λ i. record {
        object = record {
          side = Side.buy;
          price = pos 100;
          first_order = some 0;
          prev_entry = some 0;
          next_entry = some 0;
        };
        is_free = false;
      };
      size = 4;
      next_free_index = 1;
    };
    bids_by_price = some 0;
    asks_by_price = none;
    price_orders_at_price = λ i. if i == 100 then some 0 else none;
    order_pool = record {
      store = λ i. record {
        object = record {
          ids = 7;
          side = Side.buy;
          price = pos 100;
          qty = 10;
          priority = 1;
          prev_order = some 0;
          next_order = some 0;
        };
        is_free = not (i == 0);
      };
      size = 4;
      next_free_index = 1;
    };
  };
  bbo = book.bbo;
}

abbrev five_more : MeMarketUpdate
five_more = record add_buy { order_id = 8; qty = 5; priority = 2 }

on_market_update-Followed_example :
    Followed one_bid (step_or (on_market_update one_bid five_more)).0 five_more
unfolding on_market_update make_book MemoryPool.allocate MemoryPool.make
    MemoryPool.update_next_free_index MemoryPool.next_free Orders.add_order Orders.append_order
    Book.get_orders_at_price Book.price_to_index Levels.add_orders_at_price
on_market_update-Followed_example =
    on_market_update-Followed one_bid (step_or (on_market_update one_bid five_more)).0 five_more
      (step_or (on_market_update one_bid five_more)).1 (λ e. cc) refl

fifteen_bid : (step_or (on_market_update one_bid five_more)).0.bbo.bid_qty ≡ 15
unfolding on_market_update make_book MemoryPool.allocate MemoryPool.make
    MemoryPool.update_next_free_index MemoryPool.next_free Orders.add_order Orders.append_order
    Book.get_orders_at_price Book.price_to_index Levels.add_orders_at_price
fifteen_bid = refl

abbrev pub whole_features : FeatureOps ℤ
whole_features = record {
  from_int = λ a. a;
  sub = ◌-ℤ◌;
  div = λ a b. a;
  ge = λ a b. not (ltb_ℤ a b);
  ne = λ a b. not (eq_ℤ a b);
  feature_invalid = negsuc 0;
}

abbrev pub config : ℕ → TradeEngineCfg ℤ
config ticker = record { clip = 5; threshold = pos 3; risk_cfg = limits }

abbrev pub market : Bbo
market = record { bid_price = pos 100; ask_price = pos 110; bid_qty = 5; ask_qty = 5 }

abbrev pub features : FeatureEngine ℤ
features = record { mkt_price = pos 102; agg_trade_qty_ratio = pos 0 }

maker_book_update-Quoted_example :
    (manager_or (maker_book_update whole_features allow config (make_manager 1) features 0 market)
      ≡ make_manager 1)
    ⊎ Quoted whole_features allow config
        (make_manager 1)
        (manager_or
          (maker_book_update whole_features allow config (make_manager 1) features 0 market))
        0
        market
unfolding maker_book_update move_orders side_to_index ◌-ℤ◌ ◌+ℤ◌ checked_int64
maker_book_update-Quoted_example =
    maker_book_update-Quoted whole_features allow config (make_manager 1)
      (manager_or
        (maker_book_update whole_features allow config (make_manager 1) features 0 market))
      features 0 market refl

-- ===== src/Trading/OrderBook.antt =====
-- src/include/trading_engine/trading_order_book.hpp, src/trading_engine/trading_order_book.cpp and
-- src/include/trading_engine/trading_order.hpp: a client's copy of the book of one ticker, which
-- follows the market updates, and its best bid and offer.
-- The callbacks to the trading engine are the result of a step.
pub mod Best
pub mod Following
use vots.Base.{
  ℕ, zero, suc, ◌+◌, ◌%◌, ◌^◌, Bool, true, false, not, Option, none, some, if◌then◌else◌, ◌>>=◌,
  ◌==◌, ◌&&◌, ltb, update,
}
use vots.Base.Int.{ℤ, ltb_ℤ}
use vots.Types.{
  Side, side_eq, me_max_order_ids, me_max_price_levels, order_id_invalid, price_invalid,
  qty_invalid, priority_invalid,
}
use vots.Messages.{MeMarketUpdate, MarketUpdateType}
use vots.Runtime.MemoryPool.{MemoryPool, make, allocate, deallocate}
use vots.Book.{Ladder, Order, OrdersAtPrice, order_at, level_at, set_order}
use vots.Book.Orders.{add_order, remove_order}
use vots.Trading.{Bbo}

-- A `TradingOrder` is identified by its order id.
abbrev pub TradingOrder : Type 0
TradingOrder = Order ℕ

pub record TradingOrderBook : Type 0 where
  pub oid_to_order : ℕ → Option ℕ
  pub ladder : Ladder ℕ
  pub bbo : Bbo

abbrev pub default_bbo : Bbo
default_bbo = record {
  bid_price = price_invalid;
  ask_price = price_invalid;
  bid_qty = qty_invalid;
  ask_qty = qty_invalid;
}

abbrev default_order : TradingOrder
default_order = record {
  ids = order_id_invalid;
  side = Side.invalid;
  price = price_invalid;
  qty = qty_invalid;
  priority = priority_invalid;
  prev_order = none;
  next_order = none;
}

abbrev default_level : OrdersAtPrice
default_level = record {
  side = Side.invalid;
  price = price_invalid;
  first_order = none;
  prev_entry = none;
  next_entry = none;
}

-- The constructor. It leaves the tables oid_to_order_ and price_orders_at_price_ as they were in
-- memory, so their contents are arguments.
unfoldable pub make_book : (oids : ℕ → Option ℕ) → (prices : ℕ → Option ℕ) → TradingOrderBook
make_book oids prices = record {
  oid_to_order = oids;
  ladder = record {
    orders_at_price_pool = make me_max_price_levels default_level;
    bids_by_price = none;
    asks_by_price = none;
    price_orders_at_price = prices;
    order_pool = make me_max_order_ids default_order;
  };
  bbo = default_bbo;
}

-- The loop of UpdateBbo over the orders at a price, on fuel: the sum of the quantities from `order`
-- on until the first order again, in 32 bits.
unfoldable pub sum_qty : ℕ → Ladder ℕ → (first : ℕ) → Option ℕ → ℕ → Option ℕ
sum_qty zero l first order qty = none
sum_qty (suc fuel) l first none qty = none
sum_qty (suc fuel) l first (some order) qty =
    let rest =
      sum_qty fuel l first (order_at l order).next_order
        ((qty + (order_at l order).qty) % 2 ^ 32) in
    if order == first then some qty else rest

-- The price and the total quantity of the best level of a side.
unfoldable pub best_price_qty : Ladder ℕ → Option ℕ → Option (ℤ × ℕ)
unfolding sum_qty
best_price_qty l none = some (price_invalid, qty_invalid)
best_price_qty l (some level) = do
  first ← (level_at l level).first_order
  qty ← sum_qty l.order_pool.size l first (order_at l first).next_order (order_at l first).qty
  some ((level_at l level).price, qty)

abbrev set_bid : Bbo → ℤ × ℕ → Bbo
set_bid b (price, qty) = record b { bid_price = price; bid_qty = qty }

abbrev set_ask : Bbo → ℤ × ℕ → Bbo
set_ask b (price, qty) = record b { ask_price = price; ask_qty = qty }

unfoldable pub update_bbo : TradingOrderBook → Bool → Bool → Option TradingOrderBook
unfolding best_price_qty
update_bbo b update_bid update_ask = do
  bid ←
      if update_bid
      then (best_price_qty b.ladder b.ladder.bids_by_price >>= λ best. some (set_bid b.bbo best))
      else some b.bbo
  ask ←
      if update_ask
      then (best_price_qty b.ladder b.ladder.asks_by_price >>= λ best. some (set_ask bid best))
      else some bid
  some (record b { bbo = ask })

-- `oid_to_order_.at(order_id) = order`.
unfoldable pub set_oid : TradingOrderBook → ℕ → Option ℕ → Option TradingOrderBook
set_oid b order_id order =
    if ltb order_id me_max_order_ids
    then some (record b { oid_to_order = update b.oid_to_order order_id order })
    else none

-- The order of an id; what is done with a null pointer ends the process.
unfoldable pub order_of : TradingOrderBook → ℕ → Option ℕ
order_of b order_id = if ltb order_id me_max_order_ids then b.oid_to_order order_id else none

unfoldable pub apply_add : TradingOrderBook → MeMarketUpdate → Option TradingOrderBook
unfolding set_oid
apply_add b u = do
  new ← allocate b.ladder.order_pool (record {
    ids = u.order_id;
    side = u.side;
    price = u.price;
    qty = u.qty;
    priority = u.priority;
    prev_order = none;
    next_order = none;
  })
  ladder ← add_order (record b.ladder { order_pool = new.1 }) new.0
  set_oid (record b { ladder = ladder }) u.order_id (some new.0)

unfoldable pub apply_modify : TradingOrderBook → MeMarketUpdate → Option TradingOrderBook
unfolding order_of
apply_modify b u = do
  order ← order_of b u.order_id
  some (record b {
    ladder = set_order b.ladder order (record (order_at b.ladder order) { qty = u.qty });
  })

unfoldable pub apply_cancel : TradingOrderBook → MeMarketUpdate → Option TradingOrderBook
unfolding order_of set_oid
apply_cancel b u = do
  order ← order_of b u.order_id
  ladder ← remove_order b.ladder order
  set_oid (record b { ladder = ladder }) (order_at b.ladder order).ids none

-- The loop that gives all orders back to the pool, from identifier `next` on.
unfoldable pub free_orders :
    ℕ → ℕ → (ℕ → Option ℕ) → MemoryPool TradingOrder → Option (MemoryPool TradingOrder)
free_orders zero next oids pool = some pool
free_orders (suc left) next oids pool = elim (oids next) [
  | none ↦ free_orders left (suc next) oids pool
  | some order ↦ deallocate pool order >>= λ pool'. free_orders left (suc next) oids pool'
]

-- The loop that gives the levels behind the best one back, on fuel.
unfoldable pub free_levels :
    ℕ → (best : ℕ) → Option ℕ → MemoryPool OrdersAtPrice → Option (MemoryPool OrdersAtPrice)
free_levels zero best level pool = none
free_levels (suc fuel) best none pool = none
free_levels (suc fuel) best (some level) pool =
    let rest = deallocate pool level >>= λ pool'.
    free_levels fuel best (pool'.store level).object.next_entry pool' in
    if level == best then some pool else rest

unfoldable pub free_side : Option ℕ → MemoryPool OrdersAtPrice → Option (MemoryPool OrdersAtPrice)
unfolding free_levels
free_side none pool = some pool
free_side (some best) pool = do
  rest ← free_levels pool.size best (pool.store best).object.next_entry pool
  deallocate rest best

-- CLEAR. The table price_orders_at_price_ stays as it is.
unfoldable pub apply_clear : TradingOrderBook → Option TradingOrderBook
unfolding free_orders free_side
apply_clear b = do
  orders ← free_orders me_max_order_ids 0 b.oid_to_order b.ladder.order_pool
  bids ← free_side b.ladder.bids_by_price b.ladder.orders_at_price_pool
  levels ← free_side b.ladder.asks_by_price bids
  some (record b {
    oid_to_order = λ oid. none;
    ladder = record b.ladder {
      order_pool = orders;
      orders_at_price_pool = levels;
      bids_by_price = none;
      asks_by_price = none;
    };
  })

-- The call that a step ends with.
pub data Callback : Type 0 where
  on_trade_update : MeMarketUpdate → Callback
  on_order_book_update : (ticker_id : ℕ) → (price : ℤ) → (side : Side) → Callback

-- The best price of a side is touched: read before the change.
unfoldable pub bid_updated : TradingOrderBook → MeMarketUpdate → Bool
bid_updated b u = elim b.ladder.bids_by_price [
  | none ↦ false
  | some best ↦ side_eq u.side Side.buy && not (ltb_ℤ u.price (level_at b.ladder best).price)
]

unfoldable pub ask_updated : TradingOrderBook → MeMarketUpdate → Bool
ask_updated b u = elim b.ladder.asks_by_price [
  | none ↦ false
  | some best ↦ side_eq u.side Side.sell && not (ltb_ℤ (level_at b.ladder best).price u.price)
]

-- The `switch`, but for TRADE.
unfoldable pub apply_update :
    MarketUpdateType → TradingOrderBook → MeMarketUpdate → Option TradingOrderBook
unfolding apply_add apply_modify apply_cancel apply_clear
apply_update MarketUpdateType.add b u = apply_add b u
apply_update MarketUpdateType.modify b u = apply_modify b u
apply_update MarketUpdateType.cancel b u = apply_cancel b u
apply_update MarketUpdateType.clear b u = apply_clear b
apply_update _ b u = some b

abbrev pub is_trade : MarketUpdateType → Bool
is_trade MarketUpdateType.trade = true
is_trade _ = false

unfoldable pub on_market_update :
    TradingOrderBook → MeMarketUpdate → Option (TradingOrderBook × Callback)
unfolding apply_update update_bbo bid_updated ask_updated
on_market_update b u = if is_trade u.type then some (b, on_trade_update u) else (do
  changed ← apply_update u.type b u
  updated ← update_bbo changed (bid_updated b u) (ask_updated b u)
  some (updated, on_order_book_update u.ticker_id u.price u.side))

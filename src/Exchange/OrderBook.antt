-- ===== src/Exchange/OrderBook.antt =====
-- src/include/matching_engine/exchange_order_book.hpp and
-- src/matching_engine/exchange_order_book.cpp: the limit order book of one ticker.
-- The messages that the book hands to the matching engine are collected in `sent`, in the order of
-- the calls; the scratch members client_response_ and market_update_ are assigned before each use.
-- Measurements and logging are left out.
pub mod Trading
pub mod Filling
pub mod Matching
pub mod Adding
pub mod Resting
pub mod Cancelling
use vots.Base.{
  ℕ, zero, suc, ◌+◌, ◌-◌, ◌%◌, ◌^◌, min, Bool, true, false, not, Option, none, some, List, [], ◌∷◌,
  ◌++◌, if◌then◌else◌, ◌==◌, ◌&&◌, ltb, update, ◌>>=◌,
}
use vots.Base.Int.{ℤ, pos, ltb_ℤ}
use vots.Types.{
  Side, side_eq, me_max_num_clients, me_max_order_ids, me_max_price_levels, client_id_invalid,
  ticker_id_invalid, order_id_invalid, price_invalid, qty_invalid, priority_invalid,
}
use vots.Messages.{MeClientResponse, ClientResponseType, MeMarketUpdate, MarketUpdateType}
use vots.Runtime.MemoryPool.{make, allocate}
use vots.Book.{Ladder, Order, OrdersAtPrice, order_at, level_at, set_order}
use vots.Book.Orders.{add_order, remove_order, get_next_priority}

-- The identifiers of an `ExchangeOrder`.
pub record OrderIds : Type 0 where
  pub ticker_id : ℕ
  pub client_id : ℕ
  pub client_order_id : ℕ
  pub market_order_id : ℕ

abbrev pub ExchangeOrder : Type 0
ExchangeOrder = Order OrderIds

-- A call of SendClientResponse or SendMarketUpdate.
pub data Sent : Type 0 where
  response : MeClientResponse → Sent
  update_of : MeMarketUpdate → Sent

pub record ExchangeOrderBook : Type 0 where
  pub ticker_id : ℕ
  pub cid_oid_to_order : ℕ → ℕ → Option ℕ
  pub ladder : Ladder OrderIds
  pub next_market_order_id : ℕ
  pub sent : List Sent

abbrev default_order : ExchangeOrder
default_order = record {
  ids = record {
    ticker_id = ticker_id_invalid;
    client_id = client_id_invalid;
    client_order_id = order_id_invalid;
    market_order_id = order_id_invalid;
  };
  side = Side.invalid;
  price = price_invalid;
  qty = qty_invalid;
  priority = priority_invalid;
  prev_order = none;
  next_order = none;
}

abbrev default_level : OrdersAtPrice
default_level = record {
  side = Side.invalid;
  price = price_invalid;
  first_order = none;
  prev_entry = none;
  next_entry = none;
}

-- The constructor. It leaves the tables cid_oid_to_order_ and price_orders_at_price_ as they were in
-- memory, so their contents are arguments.
unfoldable pub make_book :
    ℕ → (cids : ℕ → ℕ → Option ℕ) → (prices : ℕ → Option ℕ) → ExchangeOrderBook
make_book ticker_id cids prices = record {
  ticker_id = ticker_id;
  cid_oid_to_order = cids;
  ladder = record {
    orders_at_price_pool = make me_max_price_levels default_level;
    bids_by_price = none;
    asks_by_price = none;
    price_orders_at_price = prices;
    order_pool = make me_max_order_ids default_order;
  };
  next_market_order_id = 1;
  sent = [];
}

abbrev pub send_client_response : ExchangeOrderBook → MeClientResponse → ExchangeOrderBook
send_client_response b r = record b { sent = b.sent ++ (response r ∷ []) }

abbrev pub send_market_update : ExchangeOrderBook → MeMarketUpdate → ExchangeOrderBook
send_market_update b u = record b { sent = b.sent ++ (update_of u ∷ []) }

-- `cid_oid_to_order_.at(client_id).at(order_id) = order`; out of range the process ends.
unfoldable pub set_client_order : ExchangeOrderBook → ℕ → ℕ → Option ℕ → Option ExchangeOrderBook
set_client_order b client_id order_id order =
    if ltb client_id me_max_num_clients && ltb order_id me_max_order_ids
    then some (record b {
      cid_oid_to_order =
          update b.cid_oid_to_order client_id
            (update (b.cid_oid_to_order client_id) order_id order);
    })
    else none

-- RemoveOrder with its table.
unfoldable pub remove_order_of : ExchangeOrderBook → ℕ → Option ExchangeOrderBook
unfolding set_client_order
remove_order_of b order = do
  let o = order_at b.ladder order
  ladder ← remove_order b.ladder order
  set_client_order (record b { ladder = ladder }) o.ids.client_id o.ids.client_order_id none

-- AddOrder with its table.
unfoldable pub add_order_of : ExchangeOrderBook → ℕ → Option ExchangeOrderBook
unfolding set_client_order
add_order_of b order = do
  let o = order_at b.ladder order
  ladder ← add_order b.ladder order
  set_client_order (record b { ladder = ladder }) o.ids.client_id o.ids.client_order_id (some order)

-- The caller of a match: the incoming order.
pub record Incoming : Type 0 where
  pub ticker_id : ℕ
  pub client_id : ℕ
  pub side : Side
  pub client_order_id : ℕ
  pub market_order_id : ℕ

-- The responses to both owners, and the trade.
unfoldable pub fill_responses : Incoming → ExchangeOrder → ℕ → ℕ → ℕ → List Sent
fill_responses incoming order fill_qty leaves order_leaves =
    response (record {
      type = ClientResponseType.filled;
      client_id = incoming.client_id;
      ticker_id = incoming.ticker_id;
      client_order_id = incoming.client_order_id;
      market_order_id = incoming.market_order_id;
      side = incoming.side;
      price = order.price;
      exec_qty = fill_qty;
      leaves_qty = leaves;
    })
    ∷ response (record {
      type = ClientResponseType.filled;
      client_id = order.ids.client_id;
      ticker_id = incoming.ticker_id;
      client_order_id = order.ids.client_order_id;
      market_order_id = order.ids.market_order_id;
      side = order.side;
      price = order.price;
      exec_qty = fill_qty;
      leaves_qty = order_leaves;
    })
    ∷ update_of (record {
      type = MarketUpdateType.trade;
      order_id = order_id_invalid;
      ticker_id = incoming.ticker_id;
      side = incoming.side;
      price = order.price;
      qty = fill_qty;
      priority = priority_invalid;
    })
    ∷ []

-- The quantities that `Match` computes, and the book with the fill reported.
abbrev pub fill_qty : ExchangeOrderBook → ℕ → ℕ → ℕ
fill_qty b itr leaves_qty = min leaves_qty (order_at b.ladder itr).qty

unfoldable pub fill_book : ExchangeOrderBook → Incoming → ℕ → ℕ → ExchangeOrderBook
unfolding fill_responses
fill_book b incoming itr leaves_qty =
    let order = order_at b.ladder itr in
    let fill = fill_qty b itr leaves_qty in
    record b {
      ladder = set_order b.ladder itr (record order { qty = order.qty - fill });
      sent = b.sent ++ fill_responses incoming order fill (leaves_qty - fill) (order.qty - fill);
    }

-- The updates upon complete and upon partial execution.
abbrev pub completion_update : Incoming → ExchangeOrder → MeMarketUpdate
completion_update incoming order = record {
  type = MarketUpdateType.cancel;
  order_id = order.ids.market_order_id;
  ticker_id = incoming.ticker_id;
  side = order.side;
  price = order.price;
  qty = order.qty;
  priority = priority_invalid;
}

abbrev pub partial_update : Incoming → ExchangeOrder → ℕ → MeMarketUpdate
partial_update incoming order order_leaves = record {
  type = MarketUpdateType.modify;
  order_id = order.ids.market_order_id;
  ticker_id = incoming.ticker_id;
  side = order.side;
  price = order.price;
  qty = order_leaves;
  priority = order.priority;
}

-- `Match` of the incoming order with the resting one at `itr`: what is left of the incoming
-- quantity, and the book.
unfoldable pub match_order : ExchangeOrderBook → Incoming → ℕ → ℕ → Option (ℕ × ExchangeOrderBook)
match_order b incoming itr leaves_qty =
    let order = order_at b.ladder itr in
    let fill = fill_qty b itr leaves_qty in
    let b₁ = fill_book b incoming itr leaves_qty in
    if (order.qty - fill) == 0
    then (remove_order_of (send_market_update b₁ (completion_update incoming order)) itr >>= λ b₂.
        some (leaves_qty - fill, b₂))
    else some (
      leaves_qty - fill,
      send_market_update b₁ (partial_update incoming order (order.qty - fill)),
    )

-- The side that an incoming order is matched with, and the test that ends the matching.
abbrev pub opposite_best : Ladder OrderIds → Side → Option ℕ
opposite_best l Side.buy = l.asks_by_price
opposite_best l Side.sell = l.bids_by_price
opposite_best l _ = none

abbrev pub too_far : Side → ℤ → ℤ → Bool
too_far Side.buy price resting = ltb_ℤ price resting
too_far _ price resting = ltb_ℤ resting price

-- The `while` of CheckForMatch, on fuel. Each round but the last takes an order out of the book.
unfoldable pub match_loop :
    ℕ → ExchangeOrderBook → Incoming → ℤ → ℕ → Option (ℕ × ExchangeOrderBook)
match_loop zero b incoming price leaves_qty = none
match_loop (suc fuel) b incoming price leaves_qty =
    if leaves_qty == 0 then some (leaves_qty, b) else elim (opposite_best b.ladder incoming.side) [
      | none ↦ some (leaves_qty, b)
      | some level ↦ do
        itr ← (level_at b.ladder level).first_order
        let rest =
            (match_order b incoming itr leaves_qty >>= λ r. match_loop fuel r.1 incoming price r.0)
        if too_far incoming.side price (order_at b.ladder itr).price
            then some (leaves_qty, b)
            else rest
    ]

-- CheckForMatch. Its parameter new_market_order_id is declared with the type of a quantity, so the
-- identifier is cut to 32 bits.
unfoldable pub check_for_match :
    ExchangeOrderBook → ℕ → ℕ → ℕ → Side → ℤ → ℕ → ℕ → Option (ℕ × ExchangeOrderBook)
unfolding match_loop match_order fill_book
check_for_match b client_id client_order_id ticker_id side price qty new_market_order_id =
    match_loop (b.ladder.order_pool.size + 1) b
      (record {
        ticker_id = ticker_id;
        client_id = client_id;
        side = side;
        client_order_id = client_order_id;
        market_order_id = new_market_order_id % 2 ^ 32;
      })
      price qty

abbrev pub new_order : ℕ → ℕ → ℕ → Side → ℤ → ℕ → ℕ → ℕ → ExchangeOrder
new_order client_id client_order_id ticker_id side price leaves_qty id priority = record {
  ids = record {
    ticker_id = ticker_id;
    client_id = client_id;
    client_order_id = client_order_id;
    market_order_id = id;
  };
  side = side;
  price = price;
  qty = leaves_qty;
  priority = priority;
  prev_order = none;
  next_order = none;
}

abbrev pub add_update : ℕ → Side → ℤ → ℕ → ℕ → ℕ → MeMarketUpdate
add_update ticker_id side price leaves_qty id priority = record {
  type = MarketUpdateType.add;
  order_id = id;
  ticker_id = ticker_id;
  side = side;
  price = price;
  qty = leaves_qty;
  priority = priority;
}

-- The new order is allocated, linked and announced.
unfoldable pub rest_order :
    ExchangeOrderBook → ℕ → ℕ → ℕ → Side → ℤ → ℕ → ℕ → Option ExchangeOrderBook
rest_order b client_id client_order_id ticker_id side price leaves_qty id = do
  priority ← get_next_priority b.ladder price
  new ←
      allocate b.ladder.order_pool
        (new_order client_id client_order_id ticker_id side price leaves_qty id priority)
  b' ← add_order_of (record b { ladder = record b.ladder { order_pool = new.1 } }) new.0
  some (send_market_update b' (add_update ticker_id side price leaves_qty id priority))

abbrev pub accepted_response : ℕ → ℕ → ℕ → Side → ℤ → ℕ → ℕ → MeClientResponse
accepted_response client_id client_order_id ticker_id side price qty id = record {
  type = ClientResponseType.accepted;
  client_id = client_id;
  ticker_id = ticker_id;
  client_order_id = client_order_id;
  market_order_id = id;
  side = side;
  price = price;
  exec_qty = 0;
  leaves_qty = qty;
}

-- GenerateNewMarketOrderId, and the acceptance.
unfoldable pub accept : ExchangeOrderBook → ℕ → ℕ → ℕ → Side → ℤ → ℕ → ExchangeOrderBook
accept b client_id client_order_id ticker_id side price qty =
    send_client_response (record b { next_market_order_id = (b.next_market_order_id + 1) % 2 ^ 64 })
      (accepted_response client_id client_order_id ticker_id side price qty b.next_market_order_id)

unfoldable pub add : ExchangeOrderBook → ℕ → ℕ → ℕ → Side → ℤ → ℕ → Option ExchangeOrderBook
add b client_id client_order_id ticker_id side price qty = do
  r ←
      check_for_match (accept b client_id client_order_id ticker_id side price qty) client_id
        client_order_id ticker_id side price qty b.next_market_order_id
  if r.0 == 0
      then some r.1
      else rest_order r.1 client_id client_order_id ticker_id side price r.0 b.next_market_order_id

abbrev pub cancel_rejection : ℕ → ℕ → ℕ → MeClientResponse
cancel_rejection client_id order_id ticker_id = record {
  type = ClientResponseType.cancel_rejected;
  client_id = client_id;
  ticker_id = ticker_id;
  client_order_id = order_id;
  market_order_id = order_id_invalid;
  side = Side.invalid;
  price = price_invalid;
  exec_qty = qty_invalid;
  leaves_qty = qty_invalid;
}

-- `co_itr.at(order_id)`: `none` where the process ends, and `some none` for a null pointer.
unfoldable pub find_client_order : ExchangeOrderBook → ℕ → ℕ → Option (Option ℕ)
find_client_order b client_id order_id =
    if ltb client_id me_max_num_clients
    then (if ltb order_id me_max_order_ids
        then some (b.cid_oid_to_order client_id order_id)
        else none)
    else some none

abbrev pub cancel_response : ExchangeOrder → ℕ → ℕ → ℕ → MeClientResponse
cancel_response o client_id order_id ticker_id = record {
  type = ClientResponseType.canceled;
  client_id = client_id;
  ticker_id = ticker_id;
  client_order_id = order_id;
  market_order_id = o.ids.market_order_id;
  side = o.side;
  price = o.price;
  exec_qty = qty_invalid;
  leaves_qty = o.qty;
}

abbrev pub cancel_update : ExchangeOrder → ℕ → MeMarketUpdate
cancel_update o ticker_id = record {
  type = MarketUpdateType.cancel;
  order_id = o.ids.market_order_id;
  ticker_id = ticker_id;
  side = o.side;
  price = o.price;
  qty = 0;
  priority = o.priority;
}

unfoldable pub cancel : ExchangeOrderBook → ℕ → ℕ → ℕ → Option ExchangeOrderBook
unfolding find_client_order
cancel b client_id order_id ticker_id = do
  found ← find_client_order b client_id order_id
  elim found [
    | none ↦ some (send_client_response b (cancel_rejection client_id order_id ticker_id))
    | some exchange_order ↦ do
      let o = order_at b.ladder exchange_order
      b' ← remove_order_of b exchange_order
      some (
          send_client_response (send_market_update b' (cancel_update o ticker_id))
            (cancel_response o client_id order_id ticker_id))
  ]

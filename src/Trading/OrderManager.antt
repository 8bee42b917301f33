-- ===== src/Trading/OrderManager.antt =====
-- src/include/trading_engine/order_manager.hpp, om_order.hpp and
-- src/trading_engine/order_manager.cpp: the client's own orders, one for each ticker and side.
-- The requests handed to the trading engine are collected in `sent`, in the order of the calls. The
-- risk check of the moment, with its positions and limits, is an argument.
pub mod Requests
pub mod Approved
pub mod Moving
pub mod Responding
use Prim.Native.String.{String}
use vots.Base.{
  ℕ, zero, ◌+◌, ◌%◌, ◌^◌, Bool, true, false, not, Option, none, some, List, [], ◌∷◌, ◌++◌,
  if◌then◌else◌, ◌>>=◌, ◌==◌, ltb, update,
}
use vots.Base.Int.{ℤ, eq_ℤ}
use vots.Types.{
  Side, side_to_index, me_max_tickers, ticker_id_invalid, order_id_invalid, price_invalid,
  qty_invalid,
}
use vots.Messages.{MeClientRequest, ClientRequestType, MeClientResponse, ClientResponseType}
use vots.Trading.RiskManager.{RiskCheckResult}

pub data OmOrderState : Type 0 where
  invalid pending_new live pending_cancel dead : OmOrderState

unfoldable pub om_order_state_to_string : OmOrderState → String
om_order_state_to_string OmOrderState.pending_new = "PENDING_NEW"
om_order_state_to_string OmOrderState.live = "LIVE"
om_order_state_to_string OmOrderState.pending_cancel = "PENDING_CANCEL"
om_order_state_to_string OmOrderState.dead = "DEAD"
om_order_state_to_string OmOrderState.invalid = "INVALID"

pub record OmOrder : Type 0 where
  pub ticker_id : ℕ
  pub order_id : ℕ
  pub side : Side
  pub price : ℤ
  pub qty : ℕ
  pub order_state : OmOrderState

pub record OrderManager : Type 0 where
  pub client_id : ℕ
  pub ticker_side_order : ℕ → ℕ → OmOrder
  pub next_order_id : ℕ
  pub sent : List MeClientRequest

abbrev default_om_order : OmOrder
default_om_order = record {
  ticker_id = ticker_id_invalid;
  order_id = order_id_invalid;
  side = Side.invalid;
  price = price_invalid;
  qty = qty_invalid;
  order_state = OmOrderState.invalid;
}

abbrev pub make_manager : ℕ → OrderManager
make_manager client_id = record {
  client_id = client_id;
  ticker_side_order = λ t s. default_om_order;
  next_order_id = 1;
  sent = [];
}

abbrev pub slot : OrderManager → ℕ → Side → OmOrder
slot m ticker_id side = m.ticker_side_order ticker_id (side_to_index side)

-- An assignment through a pointer to a slot.
unfoldable pub set_slot : OrderManager → ℕ → Side → OmOrder → OrderManager
set_slot m ticker_id side order = record m {
  ticker_side_order =
      update m.ticker_side_order ticker_id
        (update (m.ticker_side_order ticker_id) (side_to_index side) order);
}

-- What a response does to the order.
unfoldable pub updated : OmOrder → MeClientResponse → OmOrder
updated order r = elim r.type [
  | ClientResponseType.accepted ↦ record order { order_state = OmOrderState.live }
  | ClientResponseType.canceled ↦ record order { order_state = OmOrderState.dead }
  | ClientResponseType.filled ↦ record order {
    qty = r.leaves_qty;
    order_state = if r.leaves_qty == 0 then OmOrderState.dead else order.order_state;
  }
  | _ ↦ order
]

-- OnOrderUpdate; `.at` ends the process for an unknown ticker.
unfoldable pub on_order_update : OrderManager → MeClientResponse → Option OrderManager
unfolding updated set_slot
on_order_update m r =
    if ltb r.ticker_id me_max_tickers
    then some (set_slot m r.ticker_id r.side (updated (slot m r.ticker_id r.side) r))
    else none

-- NewOrder into the slot of a ticker and a side: all its callers pass the order of that slot.
unfoldable pub new_order : OrderManager → ℕ → ℤ → Side → ℕ → OrderManager
unfolding set_slot
new_order m ticker_id price side qty =
    record (set_slot m ticker_id side (record {
      ticker_id = ticker_id;
      order_id = m.next_order_id;
      side = side;
      price = price;
      qty = qty;
      order_state = OmOrderState.pending_new;
    })) {
      next_order_id = (m.next_order_id + 1) % 2 ^ 64;
      sent =
          m.sent
          ++ (record {
            type = ClientRequestType.new;
            client_id = m.client_id;
            ticker_id = ticker_id;
            order_id = m.next_order_id;
            side = side;
            price = price;
            qty = qty;
          }
              ∷ []);
    }

-- CancelOrder on the slot of a ticker and a side.
unfoldable pub cancel_order : OrderManager → ℕ → Side → OrderManager
unfolding set_slot
cancel_order m ticker_id side =
    let order = slot m ticker_id side in
    record (set_slot m ticker_id side
      (record order { order_state = OmOrderState.pending_cancel })) {
        sent =
            m.sent
            ++ (record {
              type = ClientRequestType.cancel;
              client_id = m.client_id;
              ticker_id = order.ticker_id;
              order_id = order.order_id;
              side = order.side;
              price = order.price;
              qty = order.qty;
            }
                ∷ []);
      }

abbrev is_allowed : RiskCheckResult → Bool
is_allowed RiskCheckResult.allowed = true
is_allowed _ = false

module _ (check : ℕ → Side → ℕ → Option RiskCheckResult) where
  -- The case of an order that is not there.
  unfoldable pub try_new : OrderManager → ℕ → ℤ → Side → ℕ → Option OrderManager
  unfolding new_order
  try_new m ticker_id price side qty =
      if eq_ℤ price price_invalid
      then some m
      else (check ticker_id side qty >>= λ result.
          some (if is_allowed result then new_order m ticker_id price side qty else m))

  -- The `switch` over the state of the order.
  unfoldable pub move_in : OmOrderState → OrderManager → ℕ → ℤ → Side → ℕ → Option OrderManager
  unfolding try_new cancel_order
  move_in OmOrderState.live m ticker_id price side qty =
      some (if eq_ℤ (slot m ticker_id side).price price then m else cancel_order m ticker_id side)
  move_in OmOrderState.invalid m ticker_id price side qty = try_new m ticker_id price side qty
  move_in OmOrderState.dead m ticker_id price side qty = try_new m ticker_id price side qty
  move_in OmOrderState.pending_new m ticker_id price side qty = some m
  move_in OmOrderState.pending_cancel m ticker_id price side qty = some m

  unfoldable pub move_order : OrderManager → ℕ → ℤ → Side → ℕ → Option OrderManager
  unfolding move_in
  move_order m ticker_id price side qty =
      move_in (slot m ticker_id side).order_state m ticker_id price side qty

  unfoldable pub move_orders : OrderManager → ℕ → ℤ → ℤ → ℕ → Option OrderManager
  unfolding move_order
  move_orders m ticker_id bid_price ask_price clip =
      if ltb ticker_id me_max_tickers
      then (do
        bid ← move_order m ticker_id bid_price Side.buy clip
        move_order bid ticker_id ask_price Side.sell clip)
      else none

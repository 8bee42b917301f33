-- ===== src/Trading/OrderManager/Moving.antt =====
-- What MoveOrder makes of the state, case by case.
use vots.Base.{ℕ, ◌+◌, ◌%◌, ◌^◌, ◌≡◌, ◌≢◌, refl, ◌⊎◌, Option, some, [], ◌∷◌, ◌++◌, arith}
use vots.Base.Int.{ℤ, eq_ℤ-ne}
use vots.Types.{Side, side_to_index, price_invalid}
use vots.Messages.{ClientRequestType}
use vots.Trading.RiskManager.{RiskCheckResult}
use vots.Trading.OrderManager.{
  OrderManager, OmOrderState, slot, set_slot, new_order, cancel_order, move_order,
}
use vots.Trading.OrderManager.Requests.{
  IsFree, Idle, Case, kept, entered, withdrawn, move_order-Case,
}

-- The client and the orders of all other slots are as before.
pub record SameElsewhere (m : OrderManager) (ticker_id : ℕ) (side : Side) (m' : OrderManager)
    : Type 0 where
  pub same_client : m'.client_id ≡ m.client_id
  pub same_orders :
      (t i : ℕ)
      → (ticker_id ≢ t) ⊎ (side_to_index side ≢ i)
      → m'.ticker_side_order t i ≡ m.ticker_side_order t i

-- A new order is in the slot, pending, and has been requested.
pub record Entered (m : OrderManager) (ticker_id : ℕ) (price : ℤ) (side : Side) (qty : ℕ)
    (m' : OrderManager) : Type 0 where
  pub ordered : slot m' ticker_id side ≡ record {
    ticker_id = ticker_id;
    order_id = m.next_order_id;
    side = side;
    price = price;
    qty = qty;
    order_state = OmOrderState.pending_new;
  }
  pub elsewhere : SameElsewhere m ticker_id side m'
  pub counted : m'.next_order_id ≡ (m.next_order_id + 1) % 2 ^ 64
  pub requested :
      m'.sent
      ≡ m.sent
        ++ (record {
          type = ClientRequestType.new;
          client_id = m.client_id;
          ticker_id = ticker_id;
          order_id = m.next_order_id;
          side = side;
          price = price;
          qty = qty;
        }
            ∷ [])

-- The order of the slot is pending its cancellation, which has been requested.
pub record Withdrawn (m : OrderManager) (ticker_id : ℕ) (side : Side) (m' : OrderManager)
    : Type 0 where
  pub ordered :
      slot m' ticker_id side
      ≡ record (slot m ticker_id side) { order_state = OmOrderState.pending_cancel }
  pub elsewhere : SameElsewhere m ticker_id side m'
  pub counted : m'.next_order_id ≡ m.next_order_id
  pub requested :
      m'.sent
      ≡ m.sent
        ++ (record {
          type = ClientRequestType.cancel;
          client_id = m.client_id;
          ticker_id = (slot m ticker_id side).ticker_id;
          order_id = (slot m ticker_id side).order_id;
          side = (slot m ticker_id side).side;
          price = (slot m ticker_id side).price;
          qty = (slot m ticker_id side).qty;
        }
            ∷ [])

-- The three outcomes, each with the conditions under which it is the one.
pub data Moved (check : ℕ → Side → ℕ → Option RiskCheckResult) (m : OrderManager) (ticker_id : ℕ)
    (price : ℤ) (side : Side) (qty : ℕ) (m' : OrderManager) : Type 0 where
  stays : Idle check m ticker_id price side qty → m' ≡ m → Moved check m ticker_id price side qty m'
  enters :
      IsFree m ticker_id side
      → price ≢ price_invalid
      → check ticker_id side qty ≡ some RiskCheckResult.allowed
      → Entered m ticker_id price side qty m'
      → Moved check m ticker_id price side qty m'
  withdraws :
      (slot m ticker_id side).order_state ≡ OmOrderState.live
      → (slot m ticker_id side).price ≢ price
      → Withdrawn m ticker_id side m'
      → Moved check m ticker_id price side qty m'

new_order-Entered :
    (m : OrderManager) (ticker_id : ℕ) (price : ℤ) (side : Side) (qty : ℕ)
    → Entered m ticker_id price side qty (new_order m ticker_id price side qty)
unfolding new_order set_slot
new_order-Entered m ticker_id price side qty = record {
  ordered = ground arith;
  elsewhere = record { same_client = refl; same_orders = λ t i h. ground arith };
  counted = refl;
  requested = refl;
}

cancel_order-Withdrawn :
    (m : OrderManager) (ticker_id : ℕ) (side : Side)
    → Withdrawn m ticker_id side (cancel_order m ticker_id side)
unfolding cancel_order set_slot
cancel_order-Withdrawn m ticker_id side = record {
  ordered = ground arith;
  elsewhere = record { same_client = refl; same_orders = λ t i h. ground arith };
  counted = refl;
  requested = refl;
}

Case-Moved :
    (check : ℕ → Side → ℕ → Option RiskCheckResult) (m : OrderManager) (ticker_id : ℕ) (price : ℤ)
    (side : Side) (qty : ℕ) (m' : OrderManager)
    → Case check m ticker_id price side qty m'
    → Moved check m ticker_id price side qty m'
Case-Moved check m ticker_id price side qty _ (kept why) = stays why refl
Case-Moved check m ticker_id price side qty _ (entered free priced allowed) =
    enters free (eq_ℤ-ne price price_invalid priced) allowed
      (new_order-Entered m ticker_id price side qty)
Case-Moved check m ticker_id price side qty _ (withdrawn live other) =
    withdraws live (eq_ℤ-ne (slot m ticker_id side).price price other)
      (cancel_order-Withdrawn m ticker_id side)

-- MoveOrder keeps everything, when the slot's order is INVALID or DEAD and no price is given or the
-- risk check refuses, when a request is pending, or when the order is LIVE at that price. When the
-- order is INVALID or DEAD, a price is given and the risk check allows it, the slot holds the new
-- order, PENDING_NEW, and one request for it is sent, under the next number. When the order is LIVE
-- at another price, it becomes PENDING_CANCEL and its cancellation is requested. No other slot
-- changes.
pub move_order-Moved :
    (check : ℕ → Side → ℕ → Option RiskCheckResult) (m m' : OrderManager) (ticker_id : ℕ)
    (price : ℤ) (side : Side) (qty : ℕ)
    → move_order check m ticker_id price side qty ≡ some m'
    → Moved check m ticker_id price side qty m'
move_order-Moved check m m' ticker_id price side qty e =
    Case-Moved check m ticker_id price side qty m'
      (move_order-Case check m m' ticker_id price side qty e)

-- ===== src/Trading/OrderManager/Responding.antt =====
-- What responses make of the client's orders, slot by slot.
use vots.Base.{
  ℕ, zero, suc, ◌≡◌, refl, sym, ap, ap₂, ◌∙◌, inl, inr, some, List, [], ◌∷◌, if◌then◌else◌, ◌==◌,
  ◌&&◌, Bool-cases, >>=-eq-some, some_inj, none-ne-some, map, ltb, arith, ==_iff,
}
use vots.Types.{side_to_index, me_max_tickers}
use vots.Messages.{MeClientResponse, ClientResponseType}
use vots.Trading.OrderManager.{
  OrderManager, OmOrder, OmOrderState, slot, set_slot, updated, on_order_update,
}
use vots.Trading.OrderManager.Requests.{responded, run}

-- An order after a response of a type, with the quantity that the response leaves.
abbrev pub answered : ClientResponseType → ℕ → OmOrder → OmOrder
answered ClientResponseType.accepted left o = record o { order_state = OmOrderState.live }
answered ClientResponseType.canceled left o = record o { order_state = OmOrderState.dead }
answered ClientResponseType.filled zero o = record o { qty = 0; order_state = OmOrderState.dead }
answered ClientResponseType.filled (suc left) o = record o { qty = suc left }
answered ClientResponseType.cancel_rejected left o = o
answered ClientResponseType.invalid left o = o

-- The order of a slot after some responses: those for its ticker and side change it, in their order.
abbrev pub slot_after : (ticker_id index : ℕ) → OmOrder → List MeClientResponse → OmOrder
slot_after t i o [] = o
slot_after t i o (r ∷ rs) =
    slot_after t i
      (if (r.ticker_id == t) && (side_to_index r.side == i)
        then answered r.type r.leaves_qty o
        else o)
      rs

updated-answered :
    (o : OmOrder) (r : MeClientResponse) → updated o r ≡ answered r.type r.leaves_qty o
unfolding updated
updated-answered o r = by_type r.type r.leaves_qty refl refl
  where
    by_type :
        (t : ClientResponseType) (n : ℕ)
        → r.type ≡ t
        → r.leaves_qty ≡ n
        → updated o r ≡ answered r.type r.leaves_qty o
    by_type ClientResponseType.accepted n e f = rw e refl
    by_type ClientResponseType.canceled n e f = rw e refl
    by_type ClientResponseType.filled zero e f = rw (e, f) refl
    by_type ClientResponseType.filled (suc n) e f = rw (e, f) (ground arith)
    by_type ClientResponseType.cancel_rejected n e f = rw e refl
    by_type ClientResponseType.invalid n e f = rw e refl

set_slot-at :
    (m : OrderManager) (r : MeClientResponse) (t i : ℕ)
    → (set_slot m r.ticker_id r.side (updated (slot m r.ticker_id r.side) r)).ticker_side_order t i
      ≡ (if (r.ticker_id == t) && (side_to_index r.side == i)
          then updated (m.ticker_side_order t i) r
          else m.ticker_side_order t i)
unfolding set_slot
set_slot-at m r t i = elim (Bool-cases (r.ticker_id == t)) [
  | inr other ↦ rw other refl
  | inl same ↦ elim (Bool-cases (side_to_index r.side == i)) [
    | inr elsewhere ↦
        rw (same, elsewhere) (ap (λ a. m.ticker_side_order a i) ((==_iff r.ticker_id t).0 same))
    | inl here ↦
        rw (same, here)
          (ap₂ (λ a b. updated (m.ticker_side_order a b) r) ((==_iff r.ticker_id t).0 same)
            ((==_iff (side_to_index r.side) i).0 here))
  ]
]

on_order_update-slot :
    (m m' : OrderManager) (r : MeClientResponse) (t i : ℕ)
    → on_order_update m r ≡ some m'
    → m'.ticker_side_order t i ≡ (
        if (r.ticker_id == t) && (side_to_index r.side == i)
        then answered r.type r.leaves_qty (m.ticker_side_order t i)
        else m.ticker_side_order t i)
unfolding on_order_update
on_order_update-slot m m' r t i e = elim (Bool-cases (ltb r.ticker_id me_max_tickers)) [
  | inr unknown ↦ absurd (none-ne-some m' (rw unknown at e))
  | inl known ↦
      ap (λ (x : OrderManager). x.ticker_side_order t i) (sym (some_inj (rw known at e)))
      ∙ (set_slot-at m r t i
          ∙ ap
              (λ (o : OmOrder).
                if (r.ticker_id == t) && (side_to_index r.side == i)
                then o
                else m.ticker_side_order t i)
              (updated-answered (m.ticker_side_order t i) r))
]

pub run-slot :
    (rs : List MeClientResponse) (m m' : OrderManager) (t i : ℕ)
    → run m (map responded rs) ≡ some m'
    → m'.ticker_side_order t i ≡ slot_after t i (m.ticker_side_order t i) rs
run-slot [] m m' t i e = ap (λ (x : OrderManager). x.ticker_side_order t i) (sym (some_inj e))
run-slot (r ∷ rs) m m' t i e =
    let (m₁, first, rest) = >>=-eq-some (on_order_update m r) _ e in
    run-slot rs m₁ m' t i rest
    ∙ ap (λ o. slot_after t i o rs) (on_order_update-slot m m₁ r t i first)

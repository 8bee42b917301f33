-- ===== src/Trading/PositionKeeper/Fills.antt =====
-- The positions after fills.
use vots.Base.{
  ℕ, ◌+◌, ◌%◌, ◌^◌, ◌≤◌, ◌<◌, ◌≡◌, refl, sym, ap, subst, ◌∙◌, ◌⊎◌, inl, inr, Bool, true, false,
  some, if◌then◌else◌, arith, Bool-cases, >>=-eq-some, some_inj,
}
use vots.Base.Int.{ℤ, pos, pos_part, neg_part, ◌+ℤ◌, ◌*ℤ◌, ltb_ℤ, eq_ℤ, abs}
use vots.Types.{Side, side_to_value, side_to_index}
use vots.Messages.{MeClientResponse}
use vots.Trading.{PositionInfo, to_int32, to_uint32, checked_int32, checked_int64}
use vots.Trading.PositionKeeper.{
  DoubleOps, filled_position, increase, flip, decrease, unreal_at, settle, add_fill,
}

-- In the range of int32_t.
abbrev pub InInt32 : ℤ → Type 0
InInt32 a = (pos_part a < 2 ^ 31) × (neg_part a ≤ 2 ^ 31)

filled_position_exact :
    (position : ℤ) (side : Side) (qty : ℕ)
    → InInt32 position
    → InInt32 (position +ℤ side_to_value side *ℤ pos qty)
    → filled_position position side qty ≡ position +ℤ side_to_value side *ℤ pos qty
unfolding filled_position to_int32 to_uint32 side_to_value ◌+ℤ◌ ◌*ℤ◌
filled_position_exact position Side.buy qty h k = ground arith
filled_position_exact position Side.sell qty h k = ground arith
filled_position_exact position Side.invalid qty h k = ground arith
filled_position_exact position Side.max qty h k = ground arith

module _ {Double : Type 0} (d : DoubleOps Double) where
  -- What a position without anything open looks like.
  abbrev pub Flat : PositionInfo Double → Type 0
  Flat info =
      (info.open_vwap (side_to_index Side.buy) ≡ d.zero)
      × (info.open_vwap (side_to_index Side.sell) ≡ d.zero)
      × (info.unreal_pnl ≡ d.zero)

  -- Position and volume as before the change of prices and profit.
  abbrev Held : PositionInfo Double → PositionInfo Double → Type 0
  Held info info' = (info'.position ≡ info.position) × (info'.volume ≡ info.volume)

  increase-Held :
      (info info' : PositionInfo Double) (r : MeClientResponse)
      → increase d info r ≡ some info'
      → Held info info'
  unfolding increase
  increase-Held info info' r e =
      let (cost, e₁, e₂) = >>=-eq-some (checked_int64 (r.price *ℤ pos r.exec_qty)) _ e in
      let same = sym (some_inj e₂) in
      (
        ap (λ (x : PositionInfo Double). x.position) same,
        ap (λ (x : PositionInfo Double). x.volume) same,
      )

  flip-Held :
      (info info' : PositionInfo Double) (r : MeClientResponse)
      → flip d info r ≡ some info'
      → Held info info'
  unfolding flip
  flip-Held info info' r e =
      let (size, e₁, e₂) = >>=-eq-some (checked_int32 (abs info.position)) _ e in
      let (cost, e₃, e₄) = >>=-eq-some (checked_int64 (r.price *ℤ size)) _ e₂ in
      let same = sym (some_inj e₄) in
      (
        ap (λ (x : PositionInfo Double). x.position) same,
        ap (λ (x : PositionInfo Double). x.volume) same,
      )

  decrease-Held :
      (old : ℤ) (info info' : PositionInfo Double) (r : MeClientResponse)
      → decrease d old info r ≡ some info'
      → Held info info'
  unfolding decrease
  decrease-Held old info info' r e =
      let (old_size, e₁, e₂) = >>=-eq-some (checked_int32 (abs old)) _ e in
      let (size, e₃, e₄) = >>=-eq-some (checked_int32 (abs info.position)) _ e₂ in
      let (product, e₅, e₆) = >>=-eq-some (checked_int32 (info.position *ℤ old)) _ e₄ in
      elim (Bool-cases (ltb_ℤ product (pos 0))) [
        | inl flips ↦ flip-Held _ info' r (rw flips at e₆)
        | inr keeps ↦
            let same = sym (some_inj (rw keeps at e₆)) in
            (
              ap (λ (x : PositionInfo Double). x.position) same,
              ap (λ (x : PositionInfo Double). x.volume) same,
            )
      ]

  either-Held :
      (less : Bool) (old : ℤ) (info info' : PositionInfo Double) (r : MeClientResponse)
      → (if less then decrease d old info r else increase d info r) ≡ some info'
      → Held info info'
  either-Held true old info info' r e = decrease-Held old info info' r e
  either-Held false old info info' r e = increase-Held info info' r e

  -- The end of a fill.
  abbrev pub Settled : PositionInfo Double → PositionInfo Double → Type 0
  Settled info info' =
      Held info info'
      × (info'.total_pnl ≡ d.add info'.unreal_pnl info'.real_pnl)
      × ((eq_ℤ info'.position (pos 0) ≡ false) ⊎ Flat info')

  settle-Settled :
      (info info' : PositionInfo Double) (price : ℤ)
      → settle d info price ≡ some info'
      → Settled info info'
  unfolding settle side_to_index
  settle-Settled info info' price e = elim (Bool-cases (eq_ℤ info.position (pos 0))) [
    | inl flat ↦
        subst (Settled info) (some_inj (rw flat at e)) ((refl, refl), refl, inr (refl, refl, refl))
    | inr other ↦
        let (unreal, e₁, e₂) =
          >>=-eq-some (unreal_at d info (d.from_int price)) _ (rw other at e) in
        subst (Settled info) (some_inj e₂) ((refl, refl), refl, inl other)
  ]

  -- A fill, on the exact integers.
  pub record Filled (info info' : PositionInfo Double) (r : MeClientResponse) : Type 0 where
    pub exact : info'.position ≡ info.position +ℤ side_to_value r.side *ℤ pos r.exec_qty
    pub volume : info'.volume ≡ (info.volume + r.exec_qty) % 2 ^ 32
    pub total : info'.total_pnl ≡ d.add info'.unreal_pnl info'.real_pnl
    pub flat : (eq_ℤ info'.position (pos 0) ≡ false) ⊎ Flat info'

  -- Position and volume after the fill, the rest as before.
  abbrev start : PositionInfo Double → MeClientResponse → PositionInfo Double
  start info r = record info {
    position = filled_position info.position r.side r.exec_qty;
    volume = (info.volume + r.exec_qty) % 2 ^ 32;
  }

  -- After a fill the position has changed by exactly the executed quantity on the side of the fill,
  -- the volume has grown by it modulo 2^32, the total profit and loss is the sum of the two parts,
  -- and with position 0 nothing is left of open prices and unrealised profit. The position is in the
  -- range of int32_t before and would be after.
  pub add_fill-Filled :
      (info info' : PositionInfo Double) (r : MeClientResponse)
      → InInt32 info.position
      → InInt32 (info.position +ℤ side_to_value r.side *ℤ pos r.exec_qty)
      → add_fill d info r ≡ some info'
      → Filled info info' r
  unfolding add_fill
  add_fill-Filled info info' r before after e =
      let (direction, e₁, e₂) =
        >>=-eq-some (checked_int32 (info.position *ℤ side_to_value r.side)) _ e in
      let exact = filled_position_exact info.position r.side r.exec_qty before after in
      let (opened, e₃, e₄) =
        >>=-eq-some
          (if ltb_ℤ direction (pos 0)
            then decrease d info.position (start info r) r
            else increase d (start info r) r)
          _ e₂ in
      let (held, total, flat) = settle-Settled opened info' r.price e₄ in
      let kept = either-Held (ltb_ℤ direction (pos 0)) info.position (start info r) opened r e₃ in
      record {
        exact = held.0 ∙ (kept.0 ∙ exact);
        volume = held.1 ∙ kept.1;
        total = total;
        flat = flat;
      }

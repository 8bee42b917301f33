-- ===== src/Trading/RiskManager/Limits.antt =====
-- What an order that passed the check satisfies, and where the check has no overflow.
use vots.Base.{
  ℕ, ◌+◌, ◌-◌, ◌*◌, ◌^◌, ◌≤◌, ◌<◌, ◌≡◌, refl, ap, subst, ◌∙◌, inl, inr, Bool, false, some, ltb,
  arith, Bool-cases, some_inj, none-ne-some, >>=-eq-some, lt→ltb, le→leb, lt→ltb_false, dec_lt,
}
use vots.Base.Int.{ℤ, pos, pos_part, neg_part, ◌+ℤ◌, ◌*ℤ◌, ◌-ℤ◌, ◌≤ℤ◌, ltb_ℤ, abs}
use vots.Types.{Side, side_to_value, me_max_tickers}
use vots.Trading.{RiskCfg, PositionInfo, to_int32, checked_int32}
use vots.Trading.RiskManager.{RiskCheckResult, position_after, check_risk, check_pre_trade_risk}

ltb_false→le : (a b : ℕ) → ltb a b ≡ false → b ≤ a
ltb_false→le a b h = elim (dec_lt a b) [ yes k ↦ absurd (cc (lt→ltb a b k)) | no k ↦ omega arith ]

le→ltb_false : (a b : ℕ) → b ≤ a → ltb a b ≡ false
le→ltb_false a b h = lt→ltb_false a b (omega arith)

-- The position that an order would lead to.
abbrev pub position_with : ℤ → Side → ℕ → ℤ
position_with position side qty = position +ℤ side_to_value side *ℤ pos qty

to_int32_small : (n : ℕ) → n < 2 ^ 31 → to_int32 n ≡ pos n
unfolding to_int32
to_int32_small n h = rw (lt→ltb n (2 ^ 31) h) refl

checked_int32-some : (a b : ℤ) → checked_int32 a ≡ some b → b ≡ a
unfolding checked_int32
checked_int32-some a b h = ground arith

-- Where the code computes a position, it is the exact one.
position_after-exact :
    (position : ℤ) (side : Side) (qty : ℕ) (after : ℤ)
    → qty < 2 ^ 31
    → position_after position side qty ≡ some after
    → after ≡ abs (position_with position side qty)
unfolding position_after
position_after-exact position side qty after h e =
    let (change, e₁, e₂) = >>=-eq-some (checked_int32 (side_to_value side *ℤ to_int32 qty)) _ e in
    let (sum, e₃, e₄) = >>=-eq-some (checked_int32 (position +ℤ change)) _ e₂ in
    let c =
      checked_int32-some _ change e₁ ∙ ap (λ n. side_to_value side *ℤ n) (to_int32_small qty h) in
    checked_int32-some _ after e₄ ∙ ap abs (checked_int32-some _ sum e₃ ∙ ap (λ n. position +ℤ n) c)

checked_int32_small : (a : ℤ) → pos_part a < 2 ^ 31 → neg_part a ≤ 2 ^ 31 → checked_int32 a ≡ some a
unfolding checked_int32
checked_int32_small a h k = rw (lt→ltb _ _ h, le→leb _ _ k) refl

abs-parts :
    (a : ℤ) (n : ℕ)
    → pos_part a ≤ n
    → neg_part a ≤ n
    → (pos_part (abs a) ≤ n) × (neg_part (abs a) ≤ 0)
unfolding abs ◌-ℤ◌
abs-parts a n h k = ground arith

side_change :
    (side : Side) (n : ℕ)
    → (pos_part (side_to_value side *ℤ pos n) ≤ 2 * n)
      × (neg_part (side_to_value side *ℤ pos n) ≤ n)
unfolding side_to_value ◌*ℤ◌
side_change side n = ground arith

sum-parts :
    (a b : ℤ)
    → (pos_part (a +ℤ b) ≤ pos_part a + pos_part b) × (neg_part (a +ℤ b) ≤ neg_part a + neg_part b)
unfolding ◌+ℤ◌
sum-parts a b = ground arith

-- A position and a quantity of less than 2^29 do not overflow.
position_after_defined :
    (position : ℤ) (side : Side) (qty : ℕ)
    → pos_part position < 2 ^ 29
    → neg_part position < 2 ^ 29
    → qty < 2 ^ 29
    → position_after position side qty ≡ some (abs (position_with position side qty))
unfolding position_after
position_after_defined position side qty above below h =
    let change = side_to_value side *ℤ pos qty in
    let c = side_change side qty in
    let s = sum-parts position change in
    let a = abs-parts (position +ℤ change) (2 ^ 31 - 1) (omega arith) (omega arith) in
    rw
      (
        to_int32_small qty (omega arith),
        checked_int32_small change (omega arith) (omega arith),
        checked_int32_small (position +ℤ change) (omega arith) (omega arith),
        checked_int32_small (abs (position +ℤ change)) (omega arith) (omega arith),
      )
      refl

module _ {Double : Type 0} (lt_double : Double → Double → Bool) where
  -- What the three limits ask of an order.
  abbrev pub WithinLimits : PositionInfo Double → RiskCfg Double → Side → ℕ → Type 0
  WithinLimits info cfg side qty =
      (qty ≤ cfg.max_order_size)
      × (abs (position_with info.position side qty) ≤ℤ pos cfg.max_position)
      × (lt_double info.total_pnl cfg.max_loss ≡ false)

  check_risk-allowed :
      (info : PositionInfo Double) (cfg : RiskCfg Double) (side : Side) (qty : ℕ)
      → cfg.max_order_size < 2 ^ 31
      → cfg.max_position < 2 ^ 31
      → check_risk lt_double info cfg side qty ≡ some RiskCheckResult.allowed
      → WithinLimits info cfg side qty
  unfolding check_risk
  check_risk-allowed info cfg side qty order_limit position_limit e =
      elim (Bool-cases (ltb cfg.max_order_size qty)) [
        | inl large ↦ absurd (cc (some_inj (rw large at e)))
        | inr fits ↦
            let (after, found, rest) =
              >>=-eq-some (position_after info.position side qty) _ (rw fits at e) in
            let same =
              position_after-exact info.position side qty after
                (omega (arith, ltb_false→le _ _ fits, order_limit)) found in
            let limit = to_int32_small cfg.max_position position_limit in
            elim (Bool-cases (ltb_ℤ (to_int32 cfg.max_position) after)) [
              | inl far ↦ absurd (cc (some_inj (rw far at rest)))
              | inr near ↦ elim (Bool-cases (lt_double info.total_pnl cfg.max_loss)) [
                | inl lost ↦ absurd (cc (some_inj (rw (near, lost) at rest)))
                | inr sound ↦ (
                  ltb_false→le _ _ fits,
                  subst (λ a. a ≤ℤ pos cfg.max_position) same (ltb_false→le _ _ (rw limit at near)),
                  sound,
                )
              ]
            ]
      ]

-- An order that the risk check allows is within the three limits of its ticker: its quantity within
-- the maximal order size, the absolute value of the exact position that it would lead to within the
-- maximal position, and the profit and loss not below the maximal loss. The limits on the size and
-- the position are below 2^31.
pub check_pre_trade_risk-allowed :
    {Double : Type 0}
    → (lt_double : Double → Double → Bool) (positions : ℕ → PositionInfo Double)
      (cfgs : ℕ → RiskCfg Double) (ticker_id : ℕ) (side : Side) (qty : ℕ)
    → (cfgs ticker_id).max_order_size < 2 ^ 31
    → (cfgs ticker_id).max_position < 2 ^ 31
    → check_pre_trade_risk lt_double positions cfgs ticker_id side qty
      ≡ some RiskCheckResult.allowed
    → WithinLimits lt_double (positions ticker_id) (cfgs ticker_id) side qty
unfolding check_pre_trade_risk
check_pre_trade_risk-allowed lt_double positions cfgs ticker_id side qty order_limit position_limit
      e =
    elim (Bool-cases (ltb ticker_id me_max_tickers)) [
      | inr unknown ↦ absurd (none-ne-some _ (rw unknown at e))
      | inl known ↦
          check_risk-allowed lt_double (positions ticker_id) (cfgs ticker_id) side qty order_limit
            position_limit (rw known at e)
    ]

-- The risk check has no overflow and allows every order that is within the limits, for a known
-- ticker with a position and a maximal order size of less than 2^29 in absolute value.
pub check_pre_trade_risk_allows :
    {Double : Type 0}
    → (lt_double : Double → Double → Bool) (positions : ℕ → PositionInfo Double)
      (cfgs : ℕ → RiskCfg Double) (ticker_id : ℕ) (side : Side) (qty : ℕ)
    → ticker_id < me_max_tickers
    → pos_part (positions ticker_id).position < 2 ^ 29
    → neg_part (positions ticker_id).position < 2 ^ 29
    → (cfgs ticker_id).max_order_size < 2 ^ 29
    → (cfgs ticker_id).max_position < 2 ^ 31
    → WithinLimits lt_double (positions ticker_id) (cfgs ticker_id) side qty
    → check_pre_trade_risk lt_double positions cfgs ticker_id side qty
      ≡ some RiskCheckResult.allowed
unfolding check_pre_trade_risk check_risk
check_pre_trade_risk_allows lt_double positions cfgs ticker_id side qty known above below size limit
      ok =
    let info = positions ticker_id in
    let cfg = cfgs ticker_id in
    rw
      (
        lt→ltb _ _ known,
        le→ltb_false _ _ ok.0,
        position_after_defined info.position side qty above below (omega arith),
        to_int32_small cfg.max_position limit,
        le→ltb_false _ _ ok.1,
        ok.2,
      )
      refl

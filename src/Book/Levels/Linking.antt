-- ===== src/Book/Levels/Linking.antt =====
-- AddOrdersAtPrice: what linking a new level into the ring of its side changes.
use vots.Base.{ℕ, ◌≡◌, ◌≢◌, false, Option, some, if◌then◌else◌, ◌==◌, arith}
use vots.Book.{Ladder, OrdersAtPrice, level_at, set_level}
use vots.Book.Levels.{points_to}

-- Side and price of the levels stay.
abbrev pub SameKey : OrdersAtPrice → OrdersAtPrice → Type 0
SameKey e e' = (e'.side ≡ e.side) × (e'.price ≡ e.price) × (e'.first_order ≡ e.first_order)

module _ {K : Type 0} where
  abbrev pub next_levels : Ladder K → ℕ → Option ℕ
  next_levels l x = (level_at l x).next_entry

  abbrev pub prev_levels : Ladder K → ℕ → Option ℕ
  prev_levels l x = (level_at l x).prev_entry

  -- A new level between two that follow each other.
  abbrev pub linked_after : Ladder K → (target new after : ℕ) → Ladder K
  linked_after l target new after =
      let l₁ = set_level l new (record (level_at l new) { prev_entry = some target }) in
      let l₂ = set_level l₁ after (record (level_at l₁ after) { prev_entry = some new }) in
      let l₃ =
        set_level l₂ new
          (record (level_at l₂ new) { next_entry = (level_at l₂ target).next_entry }) in
      set_level l₃ target (record (level_at l₃ target) { next_entry = some new })

  pub linked_after-next :
      (l : Ladder K) (target new after x : ℕ)
      → new ≢ target
      → (level_at l target).next_entry ≡ some after
      → next_levels (linked_after l target new after) x
        ≡ (if target == x then some new else if new == x then some after else next_levels l x)
  linked_after-next l target new after x h e = ground arith

  pub linked_after-prev :
      (l : Ladder K) (target new after x : ℕ)
      → new ≢ after
      → prev_levels (linked_after l target new after) x
        ≡ (if after == x then some new else if new == x then some target else prev_levels l x)
  linked_after-prev l target new after x h = ground arith

  abbrev pub linked_before : Ladder K → (before new target : ℕ) → Ladder K
  linked_before l before new target =
      let l₁ = set_level l new (record (level_at l new) {
        prev_entry = (level_at l target).prev_entry;
        next_entry = some target;
      }) in
      let l₂ = set_level l₁ before (record (level_at l₁ before) { next_entry = some new }) in
      set_level l₂ target (record (level_at l₂ target) { prev_entry = some new })

  pub linked_before-next :
      (l : Ladder K) (before new target x : ℕ)
      → new ≢ before
      → next_levels (linked_before l before new target) x
        ≡ (if before == x then some new else if new == x then some target else next_levels l x)
  linked_before-next l before new target x h = ground arith

  pub linked_before-prev :
      (l : Ladder K) (before new target x : ℕ)
      → new ≢ target
      → (level_at l target).prev_entry ≡ some before
      → prev_levels (linked_before l before new target) x
        ≡ (if target == x then some new else if new == x then some before else prev_levels l x)
  linked_before-prev l before new target x h e = ground arith

  pub linked_after-SameKey :
      (l : Ladder K) (target new after x : ℕ)
      → SameKey (level_at l x) (level_at (linked_after l target new after) x)
  linked_after-SameKey l target new after x = ground arith

  pub linked_before-SameKey :
      (l : Ladder K) (before new target x : ℕ)
      → SameKey (level_at l x) (level_at (linked_before l before new target) x)
  linked_before-SameKey l before new target x = ground arith

  -- Where the new level becomes the best one, the code writes the old best level once more.
  abbrev pub linked_best : Ladder K → (before new best : ℕ) → Ladder K
  linked_best l before new best =
      let l₃ = linked_before l before new best in
      set_level l₃ best (record (level_at l₃ best) {
        next_entry =
            if points_to (level_at l₃ best).next_entry best
            then some new
            else (level_at l₃ best).next_entry;
      })

  pub linked_best-next :
      (l : Ladder K) (before new best x : ℕ)
      → points_to (next_levels (linked_before l before new best) best) best ≡ false
      → next_levels (linked_best l before new best) x
        ≡ next_levels (linked_before l before new best) x
  linked_best-next l before new best x h = ground arith

  pub linked_best-prev :
      (l : Ladder K) (before new best x : ℕ)
      → prev_levels (linked_best l before new best) x
        ≡ prev_levels (linked_before l before new best) x
  linked_best-prev l before new best x = ground arith

  pub linked_best-SameKey :
      (l : Ladder K) (before new best x : ℕ)
      → SameKey (level_at l x) (level_at (linked_best l before new best) x)
  linked_best-SameKey l before new best x = ground arith

-- ===== src/Book/Levels/Finding.antt =====
-- AddOrdersAtPrice: the search for the place of a new level.
use vots.Base.{
  ℕ, zero, suc, ◌+◌, ◌≤◌, ◌≡◌, ◌≢◌, refl, sym, ap, inl, inr, Bool, true, false, Option, some, List,
  [], ◌∷◌, ◌++◌, if◌then◌else◌, ◌>>=◌, arith, ne-beq, ==_iff, Bool-cases, length,
}
use vots.Book.{Ladder, OrdersAtPrice, level_at}
use vots.Book.Levels.{goes_after, find_target, start_target}
use vots.Book.Levels.Linking.{next_levels, prev_levels}
use vots.Book.Rings.{IsIn, Chain}

module _ {K : Type 0} (l : Ladder K) (new : OrdersAtPrice) where
  -- The levels that the new one goes behind, up to the first that it does not, and the others.
  abbrev pub front_of : List ℕ → List ℕ
  front_of [] = []
  front_of (x ∷ xs) = if goes_after new (level_at l x) then x ∷ front_of xs else []

  abbrev pub back_of : List ℕ → List ℕ
  back_of [] = []
  back_of (x ∷ xs) = if goes_after new (level_at l x) then back_of xs else x ∷ xs

  pub front-back : (xs : List ℕ) → xs ≡ front_of xs ++ back_of xs
  front-back [] = refl
  front-back (x ∷ xs) = elim (Bool-cases (goes_after new (level_at l x))) [
    | inl after ↦ rw after (ap (λ ys. x ∷ ys) (front-back xs))
    | inr before ↦ rw before refl
  ]

  -- Where the search ends: at the first level that the new one does not go behind, or at the best
  -- level again.
  abbrev pub found_at : ℕ → List ℕ → ℕ × Bool
  found_at best [] = (best, true)
  found_at best (x ∷ xs) = (x, false)

  find_target-stop :
      (best x fuel : ℕ) → 1 ≤ fuel → find_target fuel l new best x false ≡ some (x, false)
  unfolding find_target
  find_target-stop best x zero h = absurd (omega arith)
  find_target-stop best x (suc fuel) h = refl

  find_target-best :
      (best fuel : ℕ) → 1 ≤ fuel → find_target fuel l new best best true ≡ some (best, true)
  unfolding find_target
  find_target-best best zero h = absurd (omega arith)
  find_target-best best (suc fuel) h = rw ((==_iff best best).1 refl, find_target) refl

  find_target-found :
      (fuel best x : ℕ) (xs : List ℕ)
      → Chain (next_levels l) (prev_levels l) x xs best
      → ((y : ℕ) → IsIn y (x ∷ xs) → y ≢ best)
      → length xs + 2 ≤ fuel
      → find_target fuel l new best x true ≡ some (found_at best (back_of (x ∷ xs)))
  unfolding find_target
  find_target-found zero best x xs c other h = absurd (omega arith)
  find_target-found (suc fuel) best x [] c other h =
      elim (Bool-cases (goes_after new (level_at l x))) [
        | inr before ↦ rw (ne-beq x best (other x (inl refl)), before, find_target) refl
        | inl after ↦
            rw (ne-beq x best (other x (inl refl)), after, c.0, find_target)
              (find_target-best best fuel (omega arith))
      ]
  find_target-found (suc fuel) best x (y ∷ ys) c other h =
      elim (Bool-cases (goes_after new (level_at l x))) [
        | inr before ↦ rw (ne-beq x best (other x (inl refl)), before, find_target) refl
        | inl after ↦
            rw (ne-beq x best (other x (inl refl)), after, c.0, find_target)
              (find_target-found fuel best y ys c.2 (λ z i. other z (inr i)) (omega arith))
      ]

  -- The whole search, over the ring of a side.
  abbrev pub search : (best fuel : ℕ) → Option (ℕ × Bool)
  search best fuel =
      start_target l new best >>= λ start. find_target fuel l new best start.0 start.1

  pub search-found :
      (best fuel : ℕ) (rest : List ℕ)
      → Chain (next_levels l) (prev_levels l) best rest best
      → ((y : ℕ) → IsIn y rest → best ≢ y)
      → length rest + 1 ≤ fuel
      → search best fuel ≡ some (found_at best (back_of (best ∷ rest)))
  unfolding start_target
  search-found best fuel [] c other h = elim (Bool-cases (goes_after new (level_at l best))) [
    | inr before ↦ rw before (find_target-stop best best fuel h)
    | inl after ↦ rw (after, c.0) (rw after (find_target-best best fuel h))
  ]
  search-found best fuel (x ∷ xs) c other h = elim (Bool-cases (goes_after new (level_at l best))) [
    | inr before ↦ rw before (find_target-stop best best fuel (omega arith))
    | inl after ↦ elim (Bool-cases (goes_after new (level_at l x))) [
      | inl again ↦
          rw (after, c.0, again)
            (rw again at
              (find_target-found fuel best x xs c.2 (λ y i e. other y i (sym e)) (omega arith)))
      | inr here ↦ rw (after, c.0, here) (find_target-stop best x fuel (omega arith))
    ]
  ]

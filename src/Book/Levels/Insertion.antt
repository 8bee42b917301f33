-- ===== src/Book/Levels/Insertion.antt =====
-- AddOrdersAtPrice: the ring of a side with a new level in its place.
use vots.Base.{
  ℕ, ◌≤◌, ◌≡◌, ◌≢◌, refl, sym, subst, ◌⊎◌, inl, inr, Bool, true, false, Option, some, List, [], ◌∷◌,
  ◌++◌, if◌then◌else◌, >>=-eq-some, arith, Bool-cases, length, append-nil,
}
use vots.Base.Int.{eq_ℤ}
use vots.Types.{Side}
use vots.Book.{Ladder, level_at, best_of, set_best}
use vots.Book.Levels.{
  goes_after, goes_before, start_target, link_after, link_before, add_orders_at_price,
}
use vots.Book.Levels.Linking.{
  SameKey, next_levels, prev_levels, linked_after, linked_after-SameKey, linked_before,
  linked_before-SameKey, linked_best, linked_best-SameKey,
}
use vots.Book.Levels.Places.{linked_last, linked_middle, linked_first}
use vots.Book.Levels.Finding.{front_of, back_of, front-back, found_at, search-found}
use vots.Book.Levels.Linked.{
  before_or_after, not_both, Levels, in_ring, tabled, set_best-next, set_best-best_of,
  link_after-linked, link_before-linked, link_before-best, set_best-Chain,
}
use vots.Book.Rings.{
  IsIn, IsIn-right, IsDistinct, Chain, last_of, last_of-IsIn, Chain-end, Chain-split,
  IsDistinct-insert, IsDistinct-append,
}

module _ {K : Type 0} where
  -- What inserting a level leads to.
  pub record Inserted (l : Ladder K) (side : Side) (ps : List ℕ) (l' : Ladder K) : Type 0 where
    pub levels : Levels l' side ps
    pub same_keys : (x : ℕ) → SameKey (level_at l x) (level_at l' x)

  insert_first :
      (l : Ladder K) (new best : ℕ) (rest : List ℕ)
      → Chain (next_levels l) (prev_levels l) best rest best
      → IsDistinct (best ∷ rest)
      → ((x : ℕ) → IsIn x (best ∷ rest) → new ≢ x)
      → goes_before (level_at l new) (level_at l best) ≡ true
      → (l' : Ladder K) × (link_before l new best best ≡ some l')
        × Inserted l (level_at l new).side (new ∷ best ∷ rest) l'
  insert_first l new best rest c d other better =
      let side = (level_at l new).side in
      let (end, back) = Chain-end (next_levels l) (prev_levels l) best rest best c in
      let l₁ = linked_best l (last_of best rest) new best in
      (
        set_best l₁ side (some new),
        link_before-best l new best (last_of best rest) back (other best (inl refl)) better,
        record {
          levels =
              in_ring new (best ∷ rest) (set_best-best_of l₁ side (some new))
                (set_best-Chain l₁ side (some new) new (best ∷ rest) new
                  (linked_first l new best rest c d other))
                (other, d);
          same_keys = λ x.
              subst (SameKey (level_at l x)) (sym (set_best-next l₁ side (some new) x))
                (linked_best-SameKey l (last_of best rest) new best x);
        },
      )

  -- The last step of AddOrdersAtPrice.
  abbrev link : Ladder K → (new best : ℕ) → ℕ × Bool → Option (Ladder K)
  link l new best found =
      if found.1 then link_after l new best found.0 else link_before l new best found.0

  insert_last :
      (l : Ladder K) (new best : ℕ) (xs : List ℕ)
      → best_of l (level_at l new).side ≡ some best
      → Chain (next_levels l) (prev_levels l) best xs best
      → IsDistinct (best ∷ xs)
      → ((x : ℕ) → IsIn x (best ∷ xs) → new ≢ x)
      → (l' : Ladder K) × (link_after l new best best ≡ some l')
        × Inserted l (level_at l new).side (best ∷ (xs ++ (new ∷ []))) l'
  insert_last l new best xs starts c d other =
      let last = last_of best xs in
      let (end, back) = Chain-end (next_levels l) (prev_levels l) best xs best c in
      let l' = linked_after l last new best in
      (
        l',
        link_after-linked l new best last back end (other last (last_of-IsIn best xs)),
        record {
          levels =
              in_ring best (xs ++ (new ∷ [])) starts (linked_last l new best xs c d other)
                (IsDistinct-append (best ∷ xs) new d other);
          same_keys = linked_after-SameKey l last new best;
        },
      )

  insert_behind :
      (l : Ladder K) (new best : ℕ) (xs back : List ℕ)
      → best_of l (level_at l new).side ≡ some best
      → Chain (next_levels l) (prev_levels l) best (xs ++ back) best
      → IsDistinct (best ∷ (xs ++ back))
      → ((x : ℕ) → IsIn x (best ∷ (xs ++ back)) → new ≢ x)
      → goes_before (level_at l new) (level_at l best) ≡ false
      → (l' : Ladder K) × (link l new best (found_at l (level_at l new) best back) ≡ some l')
        × Inserted l (level_at l new).side (best ∷ (xs ++ new ∷ back)) l'
  insert_behind l new best xs [] starts c d other worse =
      insert_last l new best xs starts
        (subst (λ r. Chain (next_levels l) (prev_levels l) best r best) (append-nil xs) c)
        (subst (λ r. IsDistinct (best ∷ r)) (append-nil xs) d)
        (subst (λ r. (x : ℕ) → IsIn x (best ∷ r) → new ≢ x) (append-nil xs) other)
  insert_behind l new best xs (target ∷ ys) starts c d other worse =
      let (front, behind) = Chain-split (next_levels l) (prev_levels l) best xs target ys best c in
      let (end, prev_target) = Chain-end (next_levels l) (prev_levels l) best xs target front in
      let not_target = other target (IsIn-right target (best ∷ xs) (target ∷ ys) (inl refl)) in
      let l' = linked_before l (last_of best xs) new target in
      (
        l',
        link_before-linked l new best target (last_of best xs) prev_target not_target worse,
        record {
          levels =
              in_ring best (xs ++ new ∷ target ∷ ys) starts
                (linked_middle l new best target xs ys c d other)
                (IsDistinct-insert (best ∷ xs) new (target ∷ ys) d other);
          same_keys = linked_before-SameKey l (last_of best xs) new target;
        },
      )

  -- Where the search leaves the new level, among the levels of its side.
  insert_found :
      (l : Ladder K) (new best : ℕ) (rest : List ℕ)
      → ((level_at l new).side ≡ Side.buy) ⊎ ((level_at l new).side ≡ Side.sell)
      → best_of l (level_at l new).side ≡ some best
      → Chain (next_levels l) (prev_levels l) best rest best
      → IsDistinct (best ∷ rest)
      → ((x : ℕ) → IsIn x (best ∷ rest) → new ≢ x)
      → eq_ℤ (level_at l new).price (level_at l best).price ≡ false
      → let key = level_at l new in
        (l' : Ladder K) × (link l new best (found_at l key best (back_of l key (best ∷ rest)))
          ≡ some l')
        × Inserted l key.side (front_of l key (best ∷ rest) ++ new ∷ back_of l key (best ∷ rest)) l'
  insert_found l new best rest valid starts c d other apart =
      let key = level_at l new in
      elim (Bool-cases (goes_after key (level_at l best))) [
        | inr before ↦ rw before (
            insert_first l new best rest c d other
              (before_or_after key (level_at l best) valid apart before))
        | inl after ↦
            let split = front-back l key rest in
            rw after (
              insert_behind l new best (front_of l key rest) (back_of l key rest) starts
                (subst (λ r. Chain (next_levels l) (prev_levels l) best r best) split c)
                (subst (λ r. IsDistinct (best ∷ r)) split d)
                (subst (λ r. (x : ℕ) → IsIn x (best ∷ r) → new ≢ x) split other)
                (not_both key (level_at l best) after))
      ]

  pub add_orders_at_price-Inserted :
      (l : Ladder K) (new : ℕ) (ps : List ℕ)
      → ((level_at l new).side ≡ Side.buy) ⊎ ((level_at l new).side ≡ Side.sell)
      → Levels l (level_at l new).side ps
      → ((x : ℕ) → IsIn x ps → new ≢ x)
      → ((x : ℕ) → IsIn x ps → eq_ℤ (level_at l new).price (level_at l x).price ≡ false)
      → length ps ≤ l.orders_at_price_pool.size
      → let key = level_at l new in
        (l' : Ladder K) × (add_orders_at_price l new ≡ some l')
        × Inserted l key.side (front_of l key ps ++ new ∷ back_of l key ps) l'
  unfolding add_orders_at_price
  add_orders_at_price-Inserted l new _ valid (in_ring best rest starts c d) other apart room =
      let key = level_at l new in
      let l₀ = tabled l new in
      let fuel = l.orders_at_price_pool.size in
      let (start, e₁, e₂) =
        >>=-eq-some (start_target l₀ key best) _
          (search-found l₀ key best fuel rest c d.0 (omega (arith, room))) in
      let (l', done, inserted) =
        insert_found l₀ new best rest valid starts c d other (apart best (inl refl)) in
      (
        l',
        rw (starts, e₁, e₂, add_orders_at_price) done,
        record { levels = inserted.levels; same_keys = inserted.same_keys },
      )

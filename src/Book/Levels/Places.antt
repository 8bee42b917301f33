-- ===== src/Book/Levels/Places.antt =====
-- AddOrdersAtPrice: the rings that the three ways of linking a new level lead to.
use vots.Base.{ℕ, ◌≡◌, ◌≢◌, refl, sym, ◌∙◌, inl, inr, false, List, [], ◌∷◌, ◌++◌, ne-beq, ==_iff}
use vots.Book.{Ladder}
use vots.Book.Levels.{points_to}
use vots.Book.Levels.Linking.{
  next_levels, prev_levels, linked_after, linked_after-next, linked_after-prev, linked_before,
  linked_before-next, linked_before-prev, linked_best, linked_best-next, linked_best-prev,
}
use vots.Book.Rings.{
  IsIn, IsIn-left, IsIn-right, IsDistinct, Chain, last_of, last_of-IsIn, Chain-end, Chain-split,
  Chain-join, Chain-turn, IsDistinct-AreApart,
}

module _ {K : Type 0} where
  -- A new level behind all others.
  pub linked_last :
      (l : Ladder K) (new best : ℕ) (rest : List ℕ)
      → Chain (next_levels l) (prev_levels l) best rest best
      → IsDistinct (best ∷ rest)
      → ((x : ℕ) → IsIn x (best ∷ rest) → new ≢ x)
      → let l' = linked_after l (last_of best rest) new best in
        Chain (next_levels l') (prev_levels l') best (rest ++ (new ∷ [])) best
  linked_last l new best rest c d other =
      let last = last_of best rest in
      let l' = linked_after l last new best in
      let (end, back) = Chain-end (next_levels l) (prev_levels l) best rest best c in
      let not_best = other best (inl refl) in
      let not_last = other last (last_of-IsIn best rest) in
      let next = λ (x : ℕ). linked_after-next l last new best x not_last end in
      let prev = λ (x : ℕ). linked_after-prev l last new best x not_best in
      Chain-join (next_levels l') (prev_levels l') best rest new [] best
        (Chain-turn (next_levels l) (prev_levels l) (next_levels l') (prev_levels l') best rest best
          new d (λ x i apart. next x ∙ rw (ne-beq last x apart, ne-beq new x (other x i)) refl)
          (λ x i. prev x ∙ rw (ne-beq best x (d.0 x i), ne-beq new x (other x (inr i))) refl)
          (next last ∙ rw ((==_iff last last).1 refl) refl)
          (prev new ∙ rw (ne-beq best new (λ e. not_best (sym e)), (==_iff new new).1 refl) refl) c)
        (
          next new ∙ rw (ne-beq last new (λ e. not_last (sym e)), (==_iff new new).1 refl) refl,
          prev best ∙ rw ((==_iff best best).1 refl) refl,
        )

  -- A new level between two others.
  pub linked_middle :
      (l : Ladder K) (new best target : ℕ) (xs ys : List ℕ)
      → Chain (next_levels l) (prev_levels l) best (xs ++ target ∷ ys) best
      → IsDistinct (best ∷ (xs ++ target ∷ ys))
      → ((x : ℕ) → IsIn x (best ∷ (xs ++ target ∷ ys)) → new ≢ x)
      → let l' = linked_before l (last_of best xs) new target in
        Chain (next_levels l') (prev_levels l') best (xs ++ new ∷ target ∷ ys) best
  linked_middle l new best target xs ys c d other =
      let before = last_of best xs in
      let l' = linked_before l before new target in
      let a = IsDistinct-AreApart (best ∷ xs) (target ∷ ys) d in
      let (front, back) = Chain-split (next_levels l) (prev_levels l) best xs target ys best c in
      let (end, prev_target) = Chain-end (next_levels l) (prev_levels l) best xs target front in
      let (last_next, best_prev) = Chain-end (next_levels l) (prev_levels l) target ys best back in
      let in_front =
        λ (x : ℕ) (i : IsIn x (best ∷ xs)). other x (IsIn-left x (best ∷ xs) (target ∷ ys) i) in
      let in_back =
        λ (x : ℕ) (i : IsIn x (target ∷ ys)). other x (IsIn-right x (best ∷ xs) (target ∷ ys) i) in
      let before_in = last_of-IsIn best xs in
      let not_before = in_front before before_in in
      let not_target = in_back target (inl refl) in
      let off_target = λ (x : ℕ) (i : IsIn x (best ∷ xs)) (e : target ≡ x).
        a.apart x target i (inl refl) (sym e) in
      let next = λ (x : ℕ). linked_before-next l before new target x not_before in
      let prev = λ (x : ℕ). linked_before-prev l before new target x not_target prev_target in
      Chain-join (next_levels l') (prev_levels l') best xs new (target ∷ ys) best
        (Chain-turn (next_levels l) (prev_levels l) (next_levels l') (prev_levels l') best xs target
          new a.left
          (λ x i apart. next x ∙ rw (ne-beq before x apart, ne-beq new x (in_front x i)) refl)
          (λ x i.
            prev x
            ∙ rw (ne-beq target x (off_target x (inr i)), ne-beq new x (in_front x (inr i))) refl)
          (next before ∙ rw ((==_iff before before).1 refl) refl)
          (prev new
            ∙ rw (ne-beq target new (λ e. not_target (sym e)), (==_iff new new).1 refl) refl)
          front)
        (
          next new ∙ rw (ne-beq before new (λ e. not_before (sym e)), (==_iff new new).1 refl) refl,
          prev target ∙ rw ((==_iff target target).1 refl) refl,
          Chain-turn (next_levels l) (prev_levels l) (next_levels l') (prev_levels l') target ys
              best best a.right
              (λ x i apart.
                next x
                ∙ rw (ne-beq before x (a.apart before x before_in i), ne-beq new x (in_back x i))
                    refl)
              (λ x i.
                prev x
                ∙ rw (ne-beq target x (a.right.0 x i), ne-beq new x (in_back x (inr i))) refl)
              (next (last_of target ys)
                ∙ rw
                    (
                      ne-beq before (last_of target ys)
                          (a.apart before (last_of target ys) before_in (last_of-IsIn target ys)),
                      ne-beq new (last_of target ys)
                          (in_back (last_of target ys) (last_of-IsIn target ys)),
                    )
                    last_next)
              (prev best
                ∙ rw
                    (
                      ne-beq target best (off_target best (inl refl)),
                      ne-beq new best (in_front best (inl refl)),
                    )
                    best_prev)
              back,
        )

  -- A new level before all others.
  linked_first-test :
      (l : Ladder K) (new best : ℕ) (rest : List ℕ)
      → Chain (next_levels l) (prev_levels l) best rest best
      → IsDistinct (best ∷ rest)
      → ((x : ℕ) → IsIn x (best ∷ rest) → new ≢ x)
      → points_to (next_levels (linked_before l (last_of best rest) new best) best) best ≡ false
  linked_first-test l new best [] c d other =
      let not_best = other best (inl refl) in
      rw (linked_before-next l best new best best not_best, (==_iff best best).1 refl)
        (ne-beq new best not_best)
  linked_first-test l new best (x ∷ xs) c d other =
      let last = last_of x xs in
      let not_last = other last (inr (last_of-IsIn x xs)) in
      rw
        (
          linked_before-next l last new best best not_last,
          ne-beq last best (λ e. d.0 last (last_of-IsIn x xs) (sym e)),
          ne-beq new best (other best (inl refl)),
          c.0,
        )
        (ne-beq x best (λ e. d.0 x (inl refl) (sym e)))

  pub linked_first :
      (l : Ladder K) (new best : ℕ) (rest : List ℕ)
      → Chain (next_levels l) (prev_levels l) best rest best
      → IsDistinct (best ∷ rest)
      → ((x : ℕ) → IsIn x (best ∷ rest) → new ≢ x)
      → let l' = linked_best l (last_of best rest) new best in
        Chain (next_levels l') (prev_levels l') new (best ∷ rest) new
  linked_first l new best rest c d other =
      let last = last_of best rest in
      let l' = linked_best l last new best in
      let (end, back) = Chain-end (next_levels l) (prev_levels l) best rest best c in
      let not_best = other best (inl refl) in
      let not_last = other last (last_of-IsIn best rest) in
      let test = linked_first-test l new best rest c d other in
      let next = λ (x : ℕ).
        linked_best-next l last new best x test ∙ linked_before-next l last new best x not_last in
      let prev = λ (x : ℕ).
        linked_best-prev l last new best x ∙ linked_before-prev l last new best x not_best back in
      (
        next new ∙ rw (ne-beq last new (λ e. not_last (sym e)), (==_iff new new).1 refl) refl,
        prev best ∙ rw ((==_iff best best).1 refl) refl,
        Chain-turn (next_levels l) (prev_levels l) (next_levels l') (prev_levels l') best rest best
            new d (λ x i apart. next x ∙ rw (ne-beq last x apart, ne-beq new x (other x i)) refl)
            (λ x i. prev x ∙ rw (ne-beq best x (d.0 x i), ne-beq new x (other x (inr i))) refl)
            (next last ∙ rw ((==_iff last last).1 refl) refl)
            (prev new ∙ rw (ne-beq best new (λ e. not_best (sym e)), (==_iff new new).1 refl) refl)
            c,
      )

-- ===== src/Book/Rings/Removal.antt =====
-- Taking a member out of a ring that has others.
use vots.Base.{
  ℕ, ◌≡◌, ◌≢◌, refl, sym, subst, ◌∙◌, inl, inr, Option, none, some, List, [], ◌∷◌, ◌++◌,
  if◌then◌else◌, ◌==◌, append-nil, ne-beq, ==_iff,
}
use vots.Book.Levels.{points_to}
use vots.Book.Rings.{
  IsIn, IsDistinct, Chain, last_of, last_of-IsIn, Chain-end, Chain-split, Chain-join, Chain-turn,
  IsDistinct-AreApart, IsDistinct-skip,
}

-- The links of a list that goes round.
pub data Ring (n v : ℕ → Option ℕ) : List ℕ → Type 0 where
  ring :
      (first : ℕ) (rest : List ℕ)
      → Chain n v first rest first
      → IsDistinct (first ∷ rest)
      → Ring n v (first ∷ rest)

abbrev pub first_of : List ℕ → Option ℕ
first_of [] = none
first_of (x ∷ xs) = some x

-- A link of all members but `p`, where that of `at` leads to `to`.
abbrev pub relinked : (ℕ → Option ℕ) → (p at to x : ℕ) → Option ℕ
relinked n p at to x = if p == x then none else if at == x then some to else n x

-- A member, its neighbours, and the ring of the others once the neighbours are linked.
pub record Leaves (n v : ℕ → Option ℕ) (p : ℕ) (all ps : List ℕ) : Type 0 where
  pub before : ℕ
  pub after : ℕ
  pub prev : v p ≡ some before
  pub next : n p ≡ some after
  pub other : p ≢ before
  pub other_after : p ≢ after
  pub starts : (if points_to (first_of all) p then some after else first_of all) ≡ first_of ps
  pub left_over :
      (n' v' : ℕ → Option ℕ)
      → ((x : ℕ) → n' x ≡ relinked n p before after x)
      → ((x : ℕ) → v' x ≡ relinked v p after before x)
      → Ring n' v' ps

pub leave_first :
    (n v : ℕ → Option ℕ) (p x : ℕ) (xs : List ℕ)
    → Ring n v (p ∷ x ∷ xs)
    → Leaves n v p (p ∷ x ∷ xs) (x ∷ xs)
leave_first n v p x xs (ring _ _ c d) =
    let before = last_of x xs in
    let (end, back) = Chain-end n v p (x ∷ xs) p c in
    let not_before = d.0 before (last_of-IsIn x xs) in
    record {
      before = before;
      after = x;
      prev = back;
      next = c.0;
      other = not_before;
      other_after = d.0 x (inl refl);
      starts = rw ((==_iff p p).1 refl) refl;
      left_over = λ n' v' next prev.
          ring x xs
            (Chain-turn n v n' v' x xs p x d.1
              (λ y i apart. next y ∙ rw (ne-beq p y (d.0 y i), ne-beq before y apart) refl)
              (λ y i. prev y ∙ rw (ne-beq p y (d.0 y (inr i)), ne-beq x y (d.1.0 y i)) refl)
              (next before ∙ rw (ne-beq p before not_before, (==_iff before before).1 refl) refl)
              (prev x ∙ rw (ne-beq p x (d.0 x (inl refl)), (==_iff x x).1 refl) refl) c.2)
            d.1;
    }

-- The last member.
pub leave_last :
    (n v : ℕ → Option ℕ) (p first : ℕ) (xs : List ℕ)
    → Ring n v (first ∷ (xs ++ (p ∷ [])))
    → Leaves n v p (first ∷ (xs ++ (p ∷ []))) (first ∷ xs)
leave_last n v p first xs (ring _ _ c d) =
    let before = last_of first xs in
    let a = IsDistinct-AreApart (first ∷ xs) (p ∷ []) d in
    let (front, back) = Chain-split n v first xs p [] first c in
    let (end, prev_order) = Chain-end n v first xs p front in
    let off = λ (y : ℕ) (i : IsIn y (first ∷ xs)) (e : p ≡ y). a.apart y p i (inl refl) (sym e) in
    let not_before = off before (last_of-IsIn first xs) in
    record {
      before = before;
      after = first;
      prev = prev_order;
      next = back.0;
      other = not_before;
      other_after = off first (inl refl);
      starts = rw (ne-beq first p (λ e. off first (inl refl) (sym e))) refl;
      left_over = λ n' v' next prev.
          ring first xs
            (Chain-turn n v n' v' first xs p first a.left
              (λ y i apart. next y ∙ rw (ne-beq p y (off y i), ne-beq before y apart) refl)
              (λ y i. prev y ∙ rw (ne-beq p y (off y (inr i)), ne-beq first y (a.left.0 y i)) refl)
              (next before ∙ rw (ne-beq p before not_before, (==_iff before before).1 refl) refl)
              (prev first
                ∙ rw (ne-beq p first (off first (inl refl)), (==_iff first first).1 refl) refl)
              front)
            a.left;
    }

leave_middle :
    (n v : ℕ → Option ℕ) (p first x : ℕ) (xs ys : List ℕ)
    → Ring n v (first ∷ (xs ++ p ∷ x ∷ ys))
    → Leaves n v p (first ∷ (xs ++ p ∷ x ∷ ys)) (first ∷ (xs ++ x ∷ ys))
leave_middle n v p first x xs ys (ring _ _ c d) =
    let before = last_of first xs in
    let a = IsDistinct-AreApart (first ∷ xs) (p ∷ x ∷ ys) d in
    let (front, back) = Chain-split n v first xs p (x ∷ ys) first c in
    let (end, prev_order) = Chain-end n v first xs p front in
    let (last_next, first_prev) = Chain-end n v x ys first back.2 in
    let off = λ (y : ℕ) (i : IsIn y (first ∷ xs)) (e : p ≡ y). a.apart y p i (inl refl) (sym e) in
    let off_x =
      λ (y : ℕ) (i : IsIn y (first ∷ xs)) (e : x ≡ y). a.apart y x i (inr (inl refl)) (sym e) in
    let behind = λ (y : ℕ) (i : IsIn y (x ∷ ys)). a.right.0 y i in
    let last_in = last_of-IsIn first xs in
    let not_before = off before last_in in
    record {
      before = before;
      after = x;
      prev = prev_order;
      next = back.0;
      other = not_before;
      other_after = behind x (inl refl);
      starts = rw (ne-beq first p (λ e. off first (inl refl) (sym e))) refl;
      left_over = λ n' v' next prev.
          ring first (xs ++ x ∷ ys)
            (Chain-join n' v' first xs x ys first
              (Chain-turn n v n' v' first xs p x a.left
                (λ y i apart. next y ∙ rw (ne-beq p y (off y i), ne-beq before y apart) refl)
                (λ y i. prev y ∙ rw (ne-beq p y (off y (inr i)), ne-beq x y (off_x y (inr i))) refl)
                (next before ∙ rw (ne-beq p before not_before, (==_iff before before).1 refl) refl)
                (prev x ∙ rw (ne-beq p x (behind x (inl refl)), (==_iff x x).1 refl) refl) front)
              (Chain-turn n v n' v' x ys first first a.right.1
                (λ y i apart.
                  next y
                  ∙ rw (ne-beq p y (behind y i), ne-beq before y (a.apart before y last_in (inr i)))
                      refl)
                (λ y i.
                  prev y ∙ rw (ne-beq p y (behind y (inr i)), ne-beq x y (a.right.1.0 y i)) refl)
                (next (last_of x ys)
                  ∙ rw
                      (
                        ne-beq p (last_of x ys) (behind (last_of x ys) (last_of-IsIn x ys)),
                        ne-beq before (last_of x ys)
                            (a.apart before (last_of x ys) last_in (inr (last_of-IsIn x ys))),
                      )
                      last_next)
                (prev first
                  ∙ rw
                      (
                        ne-beq p first (off first (inl refl)),
                        ne-beq x first (off_x first (inl refl)),
                      )
                      first_prev)
                back.2))
            (IsDistinct-skip (first ∷ xs) p (x ∷ ys) d);
    }

pub leave_any :
    (n v : ℕ → Option ℕ) (p : ℕ) (xs ys : List ℕ)
    → Ring n v (xs ++ p ∷ ys)
    → xs ++ ys ≢ []
    → Leaves n v p (xs ++ p ∷ ys) (xs ++ ys)
leave_any n v p [] [] q others = absurd (others refl)
leave_any n v p [] (x ∷ ys) q others = leave_first n v p x ys q
leave_any n v p (first ∷ xs) [] q others =
    subst (λ l. Leaves n v p (first ∷ (xs ++ (p ∷ []))) (first ∷ l)) (sym (append-nil xs))
      (leave_last n v p first xs q)
leave_any n v p (first ∷ xs) (x ∷ ys) q others = leave_middle n v p first x xs ys q

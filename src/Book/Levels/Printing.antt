-- ===== src/Book/Levels/Printing.antt =====
-- ToString of the order books: the walk over the levels of a side, with the check of the order of
-- their prices. A printed level stands for its text by the numbers in it.
use vots.Base.{
  ℕ, zero, suc, ◌≤◌, ◌-◌, ◌^◌, ◌≡◌, ◌≢◌, refl, sym, subst, Bool-cases, Option-cases, >>=-eq-some,
  ◌∙◌, ◌⊎◌, inl, inr, Bool, true, false, Option, none, some, List, [], ◌∷◌, if◌then◌else◌, ◌&&◌,
  ◌||◌, ◌>>=◌, not, length, arith, ne-beq, ==_iff,
}
use vots.Base.Int.{ℤ, pos, negsuc, ltb_ℤ}
use vots.Types.{Side, side_eq}
use vots.Book.{Ladder, OrdersAtPrice, level_at, best_of}
use vots.Book.Levels.{goes_after, points_to}
use vots.Book.Levels.Linking.{next_levels, prev_levels}
use vots.Book.Levels.Linked.{Levels, in_ring}
use vots.Book.Levels.BestFirst.{IsBestFirst}
use vots.Book.Queue.{Queue}
use vots.Book.Queue.Counting.{PrintedLevel, print_level, print_level-all, printed}
use vots.Book.Rings.{IsIn, Chain, Chain-end, last_of}

-- The condition of FATAL, for the price before and that of the level: `>=` and `<=`.
unfoldable pub is_unsorted : Side → ℤ → ℤ → Bool
is_unsorted side last price =
    (side_eq side Side.sell && not (ltb_ℤ last price))
    || (side_eq side Side.buy && not (ltb_ℤ price last))

-- `std::numeric_limits<Price>::min()` for the asks and `max()` for the bids.
unfoldable pub first_last_price : Side → ℤ
first_last_price side = if side_eq side Side.sell then negsuc (2 ^ 63 - 1) else pos (2 ^ 63 - 1)

sorted_next :
    (e f : OrdersAtPrice) (side : Side)
    → e.side ≡ side
    → goes_after e f ≡ true
    → is_unsorted side f.price e.price ≡ false
unfolding goes_after is_unsorted
sorted_next e f side same h = ground arith

unsorted_trans :
    (side : Side) (a b c : ℤ)
    → (side ≡ Side.buy) ⊎ (side ≡ Side.sell)
    → is_unsorted side a b ≡ false
    → is_unsorted side b c ≡ false
    → is_unsorted side a c ≡ false
unfolding is_unsorted
unsorted_trans side a b c valid h k = ground arith

next_sorted :
    (e f : OrdersAtPrice) (side : Side)
    → (side ≡ Side.buy) ⊎ (side ≡ Side.sell)
    → e.side ≡ side
    → is_unsorted side f.price e.price ≡ false
    → goes_after e f ≡ true
unfolding goes_after is_unsorted
next_sorted e f side valid same h = ground arith

none-ne-some : {A : Type 0} {a : A} → (none ≡ some a) → ⊥
none-ne-some e = absurd (cc e)

module _ {K : Type 0} where
  -- The loop over a side from one of its levels, on fuel: FATAL and a loop that goes on are `none`.
  unfoldable pub print_levels : ℕ → Ladder K → Bool → Side → ℕ → ℤ → ℕ → Option (List PrintedLevel)
  unfolding is_unsorted
  print_levels zero l check side best last itr = none
  print_levels (suc fuel) l check side best last itr =
      let price = (level_at l itr).price in
      let next = (level_at l itr).next_entry in
      let rest : Option (List PrintedLevel) = elim (if points_to next best then none else next) [
        | none ↦ some []
        | some n ↦ print_levels fuel l check side best (if check then price else last) n
      ] in
      print_level l itr >>= λ line.
      if check && is_unsorted side last price then none else (rest >>= λ lines. some (line ∷ lines))

  unfoldable pub print_side : Ladder K → Bool → Side → Option (List PrintedLevel)
  unfolding print_levels first_last_price
  print_side l check side = elim (best_of l side) [
    | none ↦ some []
    | some best ↦
        print_levels l.orders_at_price_pool.size l check side best (first_last_price side) best
  ]

  -- The levels of a ring are in the strict order of their prices, from within the limit.
  abbrev pub IsInOrder : Ladder K → Side → ℕ → List ℕ → Type 0
  IsInOrder l side best rest =
      IsBestFirst l (best ∷ rest)
      × (is_unsorted side (first_last_price side) (level_at l best).price ≡ false)

  -- The orders of each of some levels, in their sequence.
  abbrev pub HaveQueues : Ladder K → (ℕ → List ℕ) → List ℕ → Type 0
  HaveQueues l orders ps =
      (x : ℕ) → IsIn x ps → Queue l x (orders x) × (length (orders x) ≤ l.order_pool.size)

  -- Levels from one with another before it, up to one with `best` behind it.
  abbrev pub all_printed : Ladder K → (ℕ → List ℕ) → ℕ → ℕ → ℕ → List ℕ → List PrintedLevel
  all_printed l orders best before itr [] = printed l before itr best (orders itr) ∷ []
  all_printed l orders best before itr (x ∷ xs) =
      printed l before itr x (orders itr) ∷ all_printed l orders best itr x xs

  print_level-of :
      (l : Ladder K) (orders : ℕ → List ℕ) (before itr after : ℕ) (rest : List ℕ)
      → HaveQueues l orders (itr ∷ rest)
      → prev_levels l itr ≡ some before
      → next_levels l itr ≡ some after
      → print_level l itr ≡ some (printed l before itr after (orders itr))
  print_level-of l orders before itr after rest q prev next =
      let (queue, room) = q itr (inl refl) in
      print_level-all l before itr after (orders itr) queue prev next room

  print_levels-all :
      (fuel : ℕ) (l : Ladder K) (side : Side) (best : ℕ) (last : ℤ) (before itr : ℕ) (rest : List ℕ)
      (orders : ℕ → List ℕ)
      → HaveQueues l orders (itr ∷ rest)
      → prev_levels l itr ≡ some before
      → Chain (next_levels l) (prev_levels l) itr rest best
      → ((x : ℕ) → IsIn x rest → best ≢ x)
      → ((x : ℕ) → IsIn x (itr ∷ rest) → (level_at l x).side ≡ side)
      → is_unsorted side last (level_at l itr).price ≡ false
      → IsBestFirst l (itr ∷ rest)
      → length (itr ∷ rest) ≤ fuel
      → print_levels fuel l true side best last itr
        ≡ some (all_printed l orders best before itr rest)
  unfolding print_levels
  print_levels-all zero l side best last before itr rest orders q v c d s u b f =
      absurd (omega (arith, f))
  print_levels-all (suc fuel) l side best last before itr [] orders q v c d s u b f =
      rw (print_level-of l orders before itr best [] q v c.0, u, c.0, (==_iff best best).1 refl)
        refl
  print_levels-all (suc fuel) l side best last before itr (x ∷ xs) orders q v c d s u b f =
      let rest =
        print_levels-all fuel l side best (level_at l itr).price itr x xs orders
          (λ y i. q y (inr i)) c.1 c.2 (λ y i. d y (inr i)) (λ y i. s y (inr i))
          (sorted_next (level_at l x) (level_at l itr) side (s x (inr (inl refl)))
            (b.0 x (inl refl)))
          b.1 (omega (arith, f)) in
      rw
        (
          print_level-of l orders before itr x (x ∷ xs) q v c.0,
          u,
          c.0,
          ne-beq x best (λ e. d x (inl refl) (sym e)),
          rest,
        )
        refl

  print_levels-sorted :
      (fuel : ℕ) (l : Ladder K) (side : Side) (best : ℕ) (last : ℤ) (before itr : ℕ) (rest : List ℕ)
      (orders : ℕ → List ℕ) (r : List PrintedLevel)
      → (side ≡ Side.buy) ⊎ (side ≡ Side.sell)
      → HaveQueues l orders (itr ∷ rest)
      → prev_levels l itr ≡ some before
      → Chain (next_levels l) (prev_levels l) itr rest best
      → ((x : ℕ) → IsIn x rest → best ≢ x)
      → ((x : ℕ) → IsIn x (itr ∷ rest) → (level_at l x).side ≡ side)
      → print_levels fuel l true side best last itr ≡ some r
      → IsBestFirst l (itr ∷ rest)
        × ((x : ℕ) → IsIn x (itr ∷ rest) → is_unsorted side last (level_at l x).price ≡ false)
  unfolding print_levels
  print_levels-sorted zero l side best last before itr rest orders r valid q v c d s e =
      absurd (cc e)
  print_levels-sorted (suc fuel) l side best last before itr [] orders r valid q v c d s e =
      elim (Bool-cases (is_unsorted side last (level_at l itr).price)) [
        | inl bad ↦ absurd (cc (rw (print_level-of l orders before itr best [] q v c.0, bad) at e))
        | inr fine ↦ (
          ((λ y i. elim i [ ]), tt),
          λ x i. elim i [
            | inl same ↦
                subst (λ z. is_unsorted side last (level_at l z).price ≡ false) (sym same) fine
            | inr k ↦ elim k [ ]
          ],
        )
      ]
  print_levels-sorted (suc fuel) l side best last before itr (x ∷ xs) orders r valid q v c d s e =
      elim (Bool-cases (is_unsorted side last (level_at l itr).price)) [
        | inl bad ↦
            absurd (cc (rw (print_level-of l orders before itr x (x ∷ xs) q v c.0, bad) at e))
        | inr fine ↦
            let going = ne-beq x best (λ z. d x (inl refl) (sym z)) in
            let (qs, printed, _) =
              >>=-eq-some (print_levels fuel l true side best (level_at l itr).price x) _ (
                rw (print_level-of l orders before itr x (x ∷ xs) q v c.0, fine, c.0, going) at
                  e) in
            let (sorted, bounded) =
              print_levels-sorted fuel l side best (level_at l itr).price itr x xs orders qs valid
                (λ y i. q y (inr i)) c.1 c.2 (λ y i. d y (inr i)) (λ y i. s y (inr i)) printed in
            (
              (
                λ y i.
                    next_sorted (level_at l y) (level_at l itr) side valid (s y (inr i))
                      (bounded y i),
                sorted,
              ),
              λ y i. elim i [
                | inl same ↦
                    subst (λ z. is_unsorted side last (level_at l z).price ≡ false) (sym same) fine
                | inr k ↦
                    unsorted_trans side last (level_at l itr).price (level_at l y).price valid fine
                      (bounded y k)
              ],
            )
      ]

  -- For a side whose levels form a ring, and the orders of each level too, with no more levels and
  -- orders than blocks in their pools, ToString with its validity check prints every level once, from
  -- the best on, with its price and those of its neighbours in the ring, the sum of its quantities
  -- modulo 2^32 and the number of its orders, when the levels are in the strict order of their prices
  -- and the best price is not at the limit from which the check starts; otherwise it does not
  -- complete.
  pub print_side-checks :
      (l : Ladder K) (side : Side) (best : ℕ) (rest : List ℕ) (orders : ℕ → List ℕ)
      → (side ≡ Side.buy) ⊎ (side ≡ Side.sell)
      → Levels l side (best ∷ rest)
      → ((x : ℕ) → IsIn x (best ∷ rest) → (level_at l x).side ≡ side)
      → HaveQueues l orders (best ∷ rest)
      → length (best ∷ rest) ≤ l.orders_at_price_pool.size
      → (IsInOrder l side best rest
          × (print_side l true side
              ≡ some (all_printed l orders best (last_of best rest) best rest)))
        ⊎ ((¬ IsInOrder l side best rest) × (print_side l true side ≡ none))
  unfolding print_side
  print_side-checks l side best rest orders valid (in_ring _ _ first c d) s q room =
      let size = l.orders_at_price_pool.size in
      let limit = first_last_price side in
      let (_, back) = Chain-end (next_levels l) (prev_levels l) best rest best c in
      let prints : IsInOrder l side best rest
          → print_side l true side
            ≡ some (all_printed l orders best (last_of best rest) best rest) =
        λ o.
          rw (print_side, first)
            (print_levels-all size l side best limit (last_of best rest) best rest orders q back c
              d.0 s o.1 o.0 room) in
      elim (Option-cases (print_side l true side)) [
        | inl stops ↦ inr ((λ o. none-ne-some (sym stops ∙ prints o)), stops)
        | inr (r, e) ↦
            let (sorted, bounded) =
              print_levels-sorted size l side best limit (last_of best rest) best rest orders r
                valid q back c d.0 s (rw (print_side, first) at e) in
            let in_order : IsInOrder l side best rest = (sorted, bounded best (inl refl)) in
            inl (in_order, prints in_order)
      ]

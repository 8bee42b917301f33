-- ===== src/Book/Levels/Unlinking.antt =====
-- RemoveOrdersAtPrice: a level that is not the only one of its side leaves the ring.
use vots.Base.{
  ℕ, ◌<◌, ◌≡◌, ◌≢◌, refl, sym, ap, subst, ◌∙◌, Bool, true, false, Option, none, some, List, [], ◌∷◌,
  ◌++◌, if◌then◌else◌, ◌==◌, update, arith, ne-beq, lt→ltb,
}
use vots.Base.Int.{ℤ}
use vots.Types.{Side}
use vots.Runtime.MemoryPool.{deallocate}
use vots.Book.{
  Ladder, OrdersAtPrice, level_at, set_level, price_to_index, get_orders_at_price, best_of,
  set_best,
}
use vots.Book.Levels.{points_to, unlink_level, remove_orders_at_price}
use vots.Book.Levels.Linking.{next_levels, prev_levels}
use vots.Book.Levels.Linked.{Levels, in_ring, chain-some, set_level-other}
use vots.Book.Rings.Removal.{Ring, ring, first_of, leave_any}

module _ {K : Type 0} where
  -- The assignments of the removal.
  abbrev pub detached : Ladder K → Side → (before level after : ℕ) → Ladder K
  detached l side before level after =
      let l₁ =
        set_level l before
          (record (level_at l before) { next_entry = (level_at l level).next_entry }) in
      let l₂ =
        set_level l₁ after
          (record (level_at l₁ after) { prev_entry = (level_at l₁ level).prev_entry }) in
      let l₃ =
        if points_to (best_of l side) level
        then set_best l₂ side (level_at l₂ level).next_entry
        else l₂ in
      set_level l₃ level (record (level_at l₃ level) { prev_entry = none; next_entry = none })

  pub detached-next :
      (l : Ladder K) (side : Side) (before level after x : ℕ)
      → next_levels l level ≡ some after
      → next_levels (detached l side before level after) x
        ≡ (if level == x then none else if before == x then some after else next_levels l x)
  detached-next l side before level after x n = ground arith

  pub detached-prev :
      (l : Ladder K) (side : Side) (before level after x : ℕ)
      → prev_levels l level ≡ some before
      → prev_levels (detached l side before level after) x
        ≡ (if level == x then none else if after == x then some before else prev_levels l x)
  detached-prev l side before level after x n = ground arith

  pub detached-best :
      (l : Ladder K) (side : Side) (before level after : ℕ)
      → next_levels l level ≡ some after
      → level ≢ before
      → best_of (detached l side before level after) side
        ≡ (if points_to (best_of l side) level then some after else best_of l side)
  detached-best l side before level after n other = ground arith

  unlink_level-detached :
      (l : Ladder K) (side : Side) (before level after : ℕ)
      → prev_levels l level ≡ some before
      → next_levels l level ≡ some after
      → level ≢ before
      → unlink_level l side level ≡ some (detached l side before level after)
  unfolding unlink_level
  unlink_level-detached l side before level after p n other =
      let there =
        ap (λ (e : OrdersAtPrice). e.next_entry)
          (set_level-other l before
            (record (level_at l before) { next_entry = (level_at l level).next_entry }) level
            (λ e. other (sym e)))
        ∙ n in
      chain-some _ _ p (chain-some _ _ there refl)

  -- The table entry and the block of the level are given back.
  abbrev closed : Ladder K → (level : ℕ) → ℤ → Ladder K
  closed l level price = record l {
    price_orders_at_price = update l.price_orders_at_price (price_to_index price) none;
    orders_at_price_pool = record l.orders_at_price_pool {
      store =
          update l.orders_at_price_pool.store level
            (record { object = level_at l level; is_free = true });
    };
  }

  closed-level_at :
      (l : Ladder K) (level : ℕ) (price : ℤ) (x : ℕ)
      → level_at (closed l level price) x ≡ level_at l x
  closed-level_at l level price x = ground arith

  detached-size :
      (l : Ladder K) (side : Side) (before level after : ℕ)
      → (detached l side before level after).orders_at_price_pool.size ≡ l.orders_at_price_pool.size
  detached-size l side before level after = ground arith

  detached-is_free :
      (l : Ladder K) (side : Side) (before level after : ℕ)
      → ((detached l side before level after).orders_at_price_pool.store level).is_free
        ≡ (l.orders_at_price_pool.store level).is_free
  detached-is_free l side before level after = ground arith

  deallocate-closed :
      (l : Ladder K) (level : ℕ)
      → level < l.orders_at_price_pool.size
      → (l.orders_at_price_pool.store level).is_free ≡ false
      → deallocate l.orders_at_price_pool level
        ≡ some (record l.orders_at_price_pool {
          store =
              update l.orders_at_price_pool.store level
                (record { object = level_at l level; is_free = true });
        })
  unfolding deallocate
  deallocate-closed l level inside used =
      rw (lt→ltb level l.orders_at_price_pool.size inside, used) refl

  choose_else :
      (b : Bool) {m r : Option (Ladder K)} (t : Option (Ladder K))
      → b ≡ false
      → m ≡ r
      → (if b then t else m) ≡ r
  choose_else b t h k = rw h k

  points_after :
      (l : Ladder K) (level after : ℕ)
      → next_levels l level ≡ some after
      → level ≢ after
      → points_to (next_levels l level) level ≡ false
  points_after l level after n other = rw n (ne-beq after level (λ e. other (sym e)))

  remove_orders_at_price-closed :
      (l : Ladder K) (side : Side) (price : ℤ) (before level after : ℕ)
      → get_orders_at_price l price ≡ some level
      → level < l.orders_at_price_pool.size
      → (l.orders_at_price_pool.store level).is_free ≡ false
      → prev_levels l level ≡ some before
      → next_levels l level ≡ some after
      → level ≢ before
      → level ≢ after
      → remove_orders_at_price l side price
        ≡ some (closed (detached l side before level after) level price)
  unfolding remove_orders_at_price
  remove_orders_at_price-closed l side price before level after found inside used p n other
        other_after =
      let d = detached l side before level after in
      chain-some _ _ found (
        chain-some
          (if points_to (next_levels l level) level
            then some (set_best l side none)
            else unlink_level l side level)
          _ {a = d}
          (choose_else (points_to (next_levels l level) level) (some (set_best l side none))
            (points_after l level after n other_after)
            (unlink_level-detached l side before level after p n other))
          (chain-some _ _
            (deallocate-closed d level
              (subst (λ k. level < k) (sym (detached-size l side before level after)) inside)
              (detached-is_free l side before level after ∙ used))
            refl))

  Levels-Ring :
      (l : Ladder K) (side : Side) (ps : List ℕ)
      → Levels l side ps
      → Ring (next_levels l) (prev_levels l) ps × (best_of l side ≡ first_of ps)
  Levels-Ring l side _ (in_ring best rest starts c d) = (ring best rest c d, starts)

  Levels-of :
      (l : Ladder K) (side : Side) (ps : List ℕ)
      → best_of l side ≡ first_of ps
      → Ring (next_levels l) (prev_levels l) ps
      → Levels l side ps
  Levels-of l side _ starts (ring best rest c d) = in_ring best rest starts c d

  -- RemoveOrdersAtPrice of a level that is not the only one of its side, from a block of the pool
  -- that is in use: the levels of the side are the others, in their sequence, and start with the
  -- next best one if the best one was removed.
  pub remove_orders_at_price-Levels :
      (l : Ladder K) (side : Side) (price : ℤ) (level : ℕ) (xs ys : List ℕ)
      → get_orders_at_price l price ≡ some level
      → level < l.orders_at_price_pool.size
      → (l.orders_at_price_pool.store level).is_free ≡ false
      → Levels l side (xs ++ level ∷ ys)
      → xs ++ ys ≢ []
      → (l' : Ladder K) × (remove_orders_at_price l side price ≡ some l')
        × Levels l' side (xs ++ ys)
  remove_orders_at_price-Levels l side price level xs ys found inside used h others =
      let (around, starts) = Levels-Ring l side (xs ++ level ∷ ys) h in
      let u = leave_any (next_levels l) (prev_levels l) level xs ys around others in
      let d = detached l side u.before level u.after in
      let l' = closed d level price in
      (
        l',
        remove_orders_at_price-closed l side price u.before level u.after found inside used u.prev
            u.next u.other u.other_after,
        Levels-of l' side (xs ++ ys)
            (detached-best l side u.before level u.after u.next u.other ∙ (rw starts u.starts))
            (u.left_over (next_levels l') (prev_levels l')
              (λ x.
                ap (λ (e : OrdersAtPrice). e.next_entry) (closed-level_at d level price x)
                ∙ detached-next l side u.before level u.after x u.next)
              (λ x.
                ap (λ (e : OrdersAtPrice). e.prev_entry) (closed-level_at d level price x)
                ∙ detached-prev l side u.before level u.after x u.prev)),
      )

-- ===== src/Book/Queue/Unlink.antt =====
-- RemoveOrder of an order that is not the only one at its price.
use vots.Base.{
  ℕ, ◌≡◌, ◌≢◌, refl, sym, ap, ◌∙◌, true, false, none, some, List, [], ◌∷◌, ◌++◌, if◌then◌else◌,
  ◌==◌, ◌<◌, update, arith, ne-beq, lt→ltb,
}
use vots.Runtime.MemoryPool.{deallocate}
use vots.Book.{Ladder, Order, order_at, level_at, set_order, set_level, get_orders_at_price}
use vots.Book.Levels.{points_to}
use vots.Book.Orders.{remove_order}
use vots.Book.Queue.{nexts, prevs, Queue, in_ring}
use vots.Book.Rings.Removal.{Ring, ring, first_of, leave_any}

module _ {K : Type 0} where
  -- The assignments of the removal.
  abbrev pub unlinked : Ladder K → (level before order after : ℕ) → Ladder K
  unlinked l level before order after =
      let l₁ = set_order l before (record (order_at l before) { next_order = some after }) in
      let l₂ = set_order l₁ after (record (order_at l₁ after) { prev_order = some before }) in
      let l₃ =
        if points_to (level_at l₂ level).first_order order
        then set_level l₂ level (record (level_at l₂ level) { first_order = some after })
        else l₂ in
      set_order l₃ order (record (order_at l₃ order) { prev_order = none; next_order = none })

  pub unlinked-next :
      (l : Ladder K) (level before order after x : ℕ)
      → (order_at (unlinked l level before order after) x).next_order ≡ (
          if order == x
          then none
          else if before == x
          then some after
          else (order_at l x).next_order)
  unlinked-next l level before order after x = ground arith

  pub unlinked-prev :
      (l : Ladder K) (level before order after x : ℕ)
      → (order_at (unlinked l level before order after) x).prev_order ≡ (
          if order == x
          then none
          else if after == x
          then some before
          else (order_at l x).prev_order)
  unlinked-prev l level before order after x = ground arith

  pub unlinked-first :
      (l : Ladder K) (level before order after : ℕ)
      → (level_at (unlinked l level before order after) level).first_order ≡ (
          if points_to (level_at l level).first_order order
          then some after
          else (level_at l level).first_order)
  unlinked-first l level before order after = ground arith

  Queue-of :
      (l : Ladder K) (level : ℕ) (ps : List ℕ)
      → (level_at l level).first_order ≡ first_of ps
      → Ring (nexts l) (prevs l) ps
      → Queue l level ps
  Queue-of l level _ starts (ring first rest c d) = in_ring first rest starts c d

  -- The block of the order is given back.
  abbrev freed : Ladder K → ℕ → Ladder K
  freed l order = record l {
    order_pool = record l.order_pool {
      store =
          update l.order_pool.store order (record { object = order_at l order; is_free = true });
    };
  }

  freed-order_at : (l : Ladder K) (order x : ℕ) → order_at (freed l order) x ≡ order_at l x
  freed-order_at l order x = ground arith

  unlinked-size :
      (l : Ladder K) (level before order after : ℕ)
      → (unlinked l level before order after).order_pool.size ≡ l.order_pool.size
  unlinked-size l level before order after = ground arith

  unlinked-is_free :
      (l : Ladder K) (level before order after : ℕ)
      → ((unlinked l level before order after).order_pool.store order).is_free
        ≡ (l.order_pool.store order).is_free
  unlinked-is_free l level before order after = ground arith

  remove_order-freed :
      (l : Ladder K) (level order before after : ℕ)
      → get_orders_at_price l (order_at l order).price ≡ some level
      → order < l.order_pool.size
      → (l.order_pool.store order).is_free ≡ false
      → (order_at l order).prev_order ≡ some before
      → (order_at l order).next_order ≡ some after
      → order ≢ before
      → remove_order l order ≡ some (freed (unlinked l level before order after) order)
  unfolding remove_order deallocate
  remove_order-freed l level order before after found inside used prev next other =
      rw
        (
          prev,
          ne-beq before order (λ e. other (sym e)),
          found,
          next,
          remove_order,
          unlinked-size l level before order after,
          lt→ltb order l.order_pool.size inside,
          unlinked-is_free l level before order after,
          used,
        )
        refl

  Queue-Ring :
      (l : Ladder K) (level : ℕ) (ps : List ℕ)
      → Queue l level ps
      → Ring (nexts l) (prevs l) ps × ((level_at l level).first_order ≡ first_of ps)
  Queue-Ring l level _ (in_ring first rest starts c d) = (ring first rest c d, starts)

  -- RemoveOrder of an order that stands in the queue of its price with others, from a block of the
  -- pool that is in use: the level's queue is what it was without the order, in the same sequence,
  -- and it starts with the order behind it if it was the first.
  pub remove_order-Queue :
      (l : Ladder K) (level order : ℕ) (xs ys : List ℕ)
      → get_orders_at_price l (order_at l order).price ≡ some level
      → order < l.order_pool.size
      → (l.order_pool.store order).is_free ≡ false
      → Queue l level (xs ++ order ∷ ys)
      → xs ++ ys ≢ []
      → (l' : Ladder K) × (remove_order l order ≡ some l') × Queue l' level (xs ++ ys)
  remove_order-Queue l level order xs ys found inside used q others =
      let (around, starts) = Queue-Ring l level (xs ++ order ∷ ys) q in
      let u = leave_any (nexts l) (prevs l) order xs ys around others in
      let l₁ = unlinked l level u.before order u.after in
      (
        freed l₁ order,
        remove_order-freed l level order u.before u.after found inside used u.prev u.next u.other,
        Queue-of (freed l₁ order) level (xs ++ ys)
            (unlinked-first l level u.before order u.after ∙ (rw starts u.starts))
            (u.left_over (nexts (freed l₁ order)) (prevs (freed l₁ order))
              (λ x.
                ap (λ (o : Order K). o.next_order) (freed-order_at l₁ order x)
                ∙ unlinked-next l level u.before order u.after x)
              (λ x.
                ap (λ (o : Order K). o.prev_order) (freed-order_at l₁ order x)
                ∙ unlinked-prev l level u.before order u.after x)),
      )

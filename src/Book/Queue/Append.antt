-- ===== src/Book/Queue/Append.antt =====
-- AddOrder at a level that exists: the order goes to the end of the queue.
use vots.Base.{
  ℕ, ◌≡◌, ◌≢◌, refl, sym, ◌∙◌, inl, inr, some, List, [], ◌∷◌, ◌++◌, if◌then◌else◌, ◌==◌, arith,
  ne-beq, ==_iff,
}
use vots.Book.{Ladder, Order, order_at, set_order, get_orders_at_price}
use vots.Book.Orders.{append_order, add_order}
use vots.Book.Queue.{nexts, prevs, Queue, in_ring}
use vots.Book.Rings.{
  IsIn, IsDistinct, Chain, last_of, last_of-IsIn, Chain-end, Chain-join, Chain-turn,
  IsDistinct-append,
}

module _ {K : Type 0} where
  -- The four assignments of the insertion.
  abbrev appended : Ladder K → (first last order : ℕ) → Ladder K
  appended l first last order =
      let l₁ = set_order l last (record (order_at l last) { next_order = some order }) in
      let l₂ =
        set_order l₁ order
          (record (order_at l₁ order) { prev_order = (order_at l₁ first).prev_order }) in
      let l₃ = set_order l₂ order (record (order_at l₂ order) { next_order = some first }) in
      set_order l₃ first (record (order_at l₃ first) { prev_order = some order })

  appended-next :
      (l : Ladder K) (first last order x : ℕ)
      → order ≢ first
      → (order_at (appended l first last order) x).next_order ≡ (
          if order == x
          then some first
          else if last == x
          then some order
          else (order_at l x).next_order)
  appended-next l first last order x h = ground arith

  appended-prev :
      (l : Ladder K) (first last order x : ℕ)
      → order ≢ first
      → order ≢ last
      → (order_at l first).prev_order ≡ some last
      → (order_at (appended l first last order) x).prev_order ≡ (
          if first == x
          then some order
          else if order == x
          then some last
          else (order_at l x).prev_order)
  appended-prev l first last order x h k e = ground arith

  -- The other fields of the orders.
  abbrev pub SameData : Order K → Order K → Type 0
  SameData o o' =
      (o'.ids ≡ o.ids)
      × (o'.side ≡ o.side)
      × (o'.price ≡ o.price)
      × (o'.qty ≡ o.qty)
      × (o'.priority ≡ o.priority)

  pub appended-SameData :
      (l : Ladder K) (first last order x : ℕ)
      → SameData (order_at l x) (order_at (appended l first last order) x)
  appended-SameData l first last order x = ground arith

  appended-Chain :
      (l : Ladder K) (first order : ℕ) (rest : List ℕ)
      → Chain (nexts l) (prevs l) first rest first
      → IsDistinct (first ∷ rest)
      → ((x : ℕ) → IsIn x (first ∷ rest) → order ≢ x)
      → Chain
          (nexts (appended l first (last_of first rest) order))
          (prevs (appended l first (last_of first rest) order))
          first
          (rest ++ (order ∷ []))
          first
  appended-Chain l first order rest c d new =
      let last = last_of first rest in
      let l' = appended l first last order in
      let not_first = new first (inl refl) in
      let not_last = new last (last_of-IsIn first rest) in
      let (end, back) = Chain-end (nexts l) (prevs l) first rest first c in
      let next = λ (x : ℕ). appended-next l first last order x not_first in
      let prev = λ (x : ℕ). appended-prev l first last order x not_first not_last back in
      Chain-join (nexts l') (prevs l') first rest order [] first
        (Chain-turn (nexts l) (prevs l) (nexts l') (prevs l') first rest first order d
          (λ x i other. next x ∙ rw (ne-beq order x (new x i), ne-beq last x other) refl)
          (λ x i. prev x ∙ rw (ne-beq first x (d.0 x i), ne-beq order x (new x (inr i))) refl)
          (next last ∙ rw (ne-beq order last not_last, (==_iff last last).1 refl) refl)
          (prev order
            ∙ rw (ne-beq first order (λ e. not_first (sym e)), (==_iff order order).1 refl) refl)
          c)
        (
          next order ∙ rw ((==_iff order order).1 refl) refl,
          prev first ∙ rw ((==_iff first first).1 refl) refl,
        )

  -- AddOrder of an order that is not in the queue of its price yet: the level's queue is what it was
  -- with the new order at its end, whatever the order's own links were, and no order's identifiers,
  -- side, price, quantity or priority change.
  pub add_order-Queue :
      (l : Ladder K) (level order : ℕ) (ps : List ℕ)
      → get_orders_at_price l (order_at l order).price ≡ some level
      → Queue l level ps
      → ((x : ℕ) → IsIn x ps → order ≢ x)
      → (l' : Ladder K) × (add_order l order ≡ some l')
        × Queue l' level (ps ++ (order ∷ []))
        × ((x : ℕ) → SameData (order_at l x) (order_at l' x))
  unfolding add_order append_order
  add_order-Queue l level order _ found (in_ring first rest starts c d) new =
      let last = last_of first rest in
      let (end, back) = Chain-end (nexts l) (prevs l) first rest first c in
      (
        appended l first last order,
        rw (found, starts, back, add_order) refl,
        in_ring first (rest ++ (order ∷ [])) starts (appended-Chain l first order rest c d new)
            (IsDistinct-append (first ∷ rest) order d new),
        appended-SameData l first last order,
      )

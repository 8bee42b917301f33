-- ===== src/Book/Queue/Keeping.antt =====
-- AddOrder changes no order but in its links, whatever the lists are.
use vots.Base.{
  ℕ, Bool, true, false, ◌≡◌, refl, sym, ap, subst, ◌∙◌, inl, inr, Option, none, some, Option-cases,
  Bool-cases, >>=-eq-some, some_inj, none-ne-some, ◌>>=◌, ◌==◌, if◌then◌else◌, arith,
}
use vots.Types.{Side}
use vots.Runtime.MemoryPool.{MemoryPool, allocate}
use vots.Book.{
  Ladder, Order, order_at, level_at, set_order, set_level, set_best, get_orders_at_price, best_of,
}
use vots.Book.Orders.{append_order, add_order}
use vots.Book.Levels.{link_after, link_before, start_target, find_target, add_orders_at_price}
use vots.Book.Queue.Append.{SameData, appended-SameData}
use vots.Book.Levels.Linked.{tabled}

-- A result that there is has a part `g` of a known value.
Keeps : {B C : Type 0} → (g : B → C) → C → Option B → Type 0
Keeps {B} g c o = (b : B) → o ≡ some b → g b ≡ c

Keeps-some : {B C : Type 0} (g : B → C) (c : C) (x : B) → g x ≡ c → Keeps g c (some x)
unfolding Keeps
Keeps-some g c x same b e = ap g (sym (some_inj e)) ∙ same

Keeps-bind :
    {A B C : Type 0} (g : B → C) (c : C) (m : Option A) (f : A → Option B)
    → ((a : A) → Keeps g c (f a))
    → Keeps g c (m >>= f)
unfolding Keeps
Keeps-bind g c none f h b e = absurd (none-ne-some b e)
Keeps-bind g c (some a) f h b e = h a b e

module _ {K : Type 0} where
  abbrev orders : Ladder K → MemoryPool (Order K)
  orders l = l.order_pool

  set_best-orders :
      (l : Ladder K) (side : Side) (p : Option ℕ) → orders (set_best l side p) ≡ orders l
  set_best-orders l Side.buy p = refl
  set_best-orders l Side.sell p = refl
  set_best-orders l Side.invalid p = refl
  set_best-orders l Side.max p = refl

  if-orders :
      (test : Bool) (l x y : Ladder K)
      → orders x ≡ orders l
      → orders y ≡ orders l
      → orders (if test then x else y) ≡ orders l
  if-orders true l x y h k = h
  if-orders false l x y h k = k

  link_after-orders :
      (l : Ladder K) (new best found : ℕ) → Keeps orders (orders l) (link_after l new best found)
  unfolding link_after
  link_after-orders l new best found =
      let at_target =
        λ (target : ℕ). set_level l new (record (level_at l new) { prev_entry = some target }) in
      Keeps-bind orders (orders l)
        (if found == best then (level_at l best).prev_entry else some found) _
        (λ target.
          Keeps-bind orders (orders l) (level_at (at_target target) target).next_entry _
            (λ after. Keeps-some orders (orders l) _ refl))

  link_before-orders :
      (l : Ladder K) (new best target : ℕ) → Keeps orders (orders l) (link_before l new best target)
  unfolding link_before
  link_before-orders l new best target =
      let l₁ = set_level l new (record (level_at l new) {
        prev_entry = (level_at l target).prev_entry;
        next_entry = some target;
      }) in
      Keeps-bind orders (orders l) (level_at l₁ target).prev_entry _
        (λ before. Keeps-some orders (orders l) _ (if-orders _ l _ _ (set_best-orders _ _ _) refl))

  add_orders_at_price-orders :
      (l : Ladder K) (new : ℕ) → Keeps orders (orders l) (add_orders_at_price l new)
  unfolding add_orders_at_price Keeps
  add_orders_at_price-orders l new l' e =
      let level = level_at l new in
      let t = tabled l new in
      elim (Option-cases (best_of t level.side)) [
        | inl first ↦
            ap orders (sym (some_inj (rw (first, add_orders_at_price) at e)))
            ∙ set_best-orders t level.side (some new)
        | inr (best, there) ↦
            let (start, e₁, e₂) =
              >>=-eq-some (start_target t level best) _ (rw (there, add_orders_at_price) at e) in
            let (found, e₃, e₄) =
              >>=-eq-some (find_target l.orders_at_price_pool.size t level best start.0 start.1) _
                e₂ in
            elim (Bool-cases found.1) [
              | inl after ↦ link_after-orders t new best found.0 l' (rw after at e₄)
              | inr before ↦ link_before-orders t new best found.0 l' (rw before at e₄)
            ]
      ]

  append_order-SameData :
      (l l' : Ladder K) (first order x : ℕ)
      → append_order l first order ≡ some l'
      → SameData (order_at l x) (order_at l' x)
  unfolding append_order
  append_order-SameData l l' first order x e =
      let (last, e₁, e₂) = >>=-eq-some (order_at l first).prev_order _ e in
      subst (λ (y : Ladder K). SameData (order_at l x) (order_at y x)) (some_inj e₂)
        (appended-SameData l first last order x)

  -- The order that is linked with itself.
  linked_alone : Ladder K → ℕ → Ladder K
  linked_alone l order =
      set_order l order
        (record (order_at l order) { prev_order = some order; next_order = some order })

  linked_alone-SameData :
      (l : Ladder K) (order x : ℕ) → SameData (order_at l x) (order_at (linked_alone l order) x)
  unfolding linked_alone
  linked_alone-SameData l order x = ground arith

  pub add_order-SameData :
      (l l' : Ladder K) (order x : ℕ)
      → add_order l order ≡ some l'
      → SameData (order_at l x) (order_at l' x)
  unfolding add_order linked_alone Keeps
  add_order-SameData l l' order x e =
      elim (Option-cases (get_orders_at_price l (order_at l order).price)) [
        | inr (level, there) ↦
            let (first, e₁, e₂) =
              >>=-eq-some (level_at l level).first_order _ (rw (there, add_order) at e) in
            append_order-SameData l l' first order x e₂
        | inl new_level ↦
            let l₁ = linked_alone l order in
            let (new, e₁, e₂) =
              >>=-eq-some
                (allocate l₁.orders_at_price_pool (record {
                  side = (order_at l₁ order).side;
                  price = (order_at l₁ order).price;
                  first_order = some order;
                  prev_entry = none;
                  next_entry = none;
                }))
                _ (rw (new_level, add_order) at e) in
            let same =
              add_orders_at_price-orders (record l₁ { orders_at_price_pool = new.1 }) new.0 l' e₂ in
            subst (λ (pool : MemoryPool (Order K)). SameData (order_at l x) (pool.store x).object)
              (sym same) (linked_alone-SameData l order x)
      ]

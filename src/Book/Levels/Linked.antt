-- ===== src/Book/Levels/Linked.antt =====
-- AddOrdersAtPrice: its assignments as the three ways of linking, and the ring of a side.
use vots.Base.{
  ℕ, ◌≡◌, ◌≢◌, refl, sym, ap, subst, ◌∙◌, ◌⊎◌, true, false, Option, some, List, ◌∷◌, if◌then◌else◌,
  ◌==◌, ◌>>=◌, update, arith, ==_iff, fun_ext,
}
use vots.Base.Int.{eq_ℤ}
use vots.Types.{Side}
use vots.Book.{Ladder, OrdersAtPrice, level_at, set_level, price_to_index, best_of, set_best}
use vots.Book.Levels.{goes_after, goes_before, link_after, link_before}
use vots.Book.Levels.Linking.{
  SameKey, next_levels, prev_levels, linked_after, linked_before, linked_before-SameKey,
  linked_best,
}
use vots.Book.Rings.{IsDistinct, Chain}

-- A level of a side that exists, at a price of its own, goes before another or behind it.
pub before_or_after :
    (e f : OrdersAtPrice)
    → (e.side ≡ Side.buy) ⊎ (e.side ≡ Side.sell)
    → eq_ℤ e.price f.price ≡ false
    → goes_after e f ≡ false
    → goes_before e f ≡ true
unfolding goes_after goes_before
before_or_after e f s h k = ground arith

pub not_both : (e f : OrdersAtPrice) → goes_after e f ≡ true → goes_before e f ≡ false
unfolding goes_after goes_before
not_both e f h = ground arith

goes_before-SameKey :
    (e f e' f' : OrdersAtPrice) → SameKey e e' → SameKey f f' → goes_before e' f' ≡ goes_before e f
unfolding goes_before
goes_before-SameKey e f e' f' k j = rw (k.0, k.1, j.1) refl

pub chain-some :
    {A B : Type 0} (m : Option A) (f : A → Option B) {a : A} {r : Option B}
    → m ≡ some a
    → f a ≡ r
    → (m >>= f) ≡ r
chain-some m f h k = rw h k

module _ {K : Type 0} where
  -- The levels of a side: a ring that starts with the best one.
  pub data Levels (l : Ladder K) (side : Side) : List ℕ → Type 0 where
    in_ring :
        (best : ℕ) (rest : List ℕ)
        → best_of l side ≡ some best
        → Chain (next_levels l) (prev_levels l) best rest best
        → IsDistinct (best ∷ rest)
        → Levels l side (best ∷ rest)

  -- The table entry of the price is set first.
  abbrev pub tabled : Ladder K → ℕ → Ladder K
  tabled l new = record l {
    price_orders_at_price =
        update l.price_orders_at_price (price_to_index (level_at l new).price) (some new);
  }

  tabled-best_of :
      (l : Ladder K) (new : ℕ) (side : Side) → best_of (tabled l new) side ≡ best_of l side
  tabled-best_of l new side = refl

  pub set_best-next :
      (l : Ladder K) (side : Side) (p : Option ℕ) (x : ℕ)
      → level_at (set_best l side p) x ≡ level_at l x
  set_best-next l side p x = ground arith

  pub set_best-best_of :
      (l : Ladder K) (side : Side) (p : Option ℕ) → best_of (set_best l side p) side ≡ p
  set_best-best_of l side p = ground arith

  pub set_level-other :
      (l : Ladder K) (p : ℕ) (e : OrdersAtPrice) (q : ℕ)
      → p ≢ q
      → level_at (set_level l p e) q ≡ level_at l q
  set_level-other l p e q h = ground arith

  pub link_after-linked :
      (l : Ladder K) (new best last : ℕ)
      → prev_levels l best ≡ some last
      → next_levels l last ≡ some best
      → new ≢ last
      → link_after l new best best ≡ some (linked_after l last new best)
  unfolding link_after
  link_after-linked l new best last p n other =
      let there =
        ap (λ (e : OrdersAtPrice). e.next_entry)
          (set_level-other l new (record (level_at l new) { prev_entry = some last }) last other)
        ∙ n in
      chain-some (if best == best then prev_levels l best else some best) _
        (rw ((==_iff best best).1 refl) p) (chain-some _ _ there refl)

  link_before-test :
      (l : Ladder K) (new best target before : ℕ)
      → goes_before
          (level_at (linked_before l before new target) new)
          (level_at (linked_before l before new target) best)
        ≡ goes_before (level_at l new) (level_at l best)
  link_before-test l new best target before =
      goes_before-SameKey (level_at l new) (level_at l best) _ _
        (linked_before-SameKey l before new target new)
        (linked_before-SameKey l before new target best)

  link_before-prev :
      (l : Ladder K) (new target before : ℕ)
      → prev_levels l target ≡ some before
      → new ≢ target
      → prev_levels
          (set_level l new (record (level_at l new) {
            prev_entry = (level_at l target).prev_entry;
            next_entry = some target;
          }))
          target
        ≡ some before
  link_before-prev l new target before p other =
      ap (λ (e : OrdersAtPrice). e.prev_entry) (set_level-other l new _ target other) ∙ p

  pub link_before-linked :
      (l : Ladder K) (new best target before : ℕ)
      → prev_levels l target ≡ some before
      → new ≢ target
      → goes_before (level_at l new) (level_at l best) ≡ false
      → link_before l new best target ≡ some (linked_before l before new target)
  unfolding link_before
  link_before-linked l new best target before p other worse =
      rw
        (
          link_before-prev l new target before p other,
          link_before-test l new best target before ∙ worse,
          link_before,
        )
        refl

  pub link_before-best :
      (l : Ladder K) (new best before : ℕ)
      → prev_levels l best ≡ some before
      → new ≢ best
      → goes_before (level_at l new) (level_at l best) ≡ true
      → link_before l new best best
        ≡ some (set_best (linked_best l before new best) (level_at l new).side (some new))
  unfolding link_before
  link_before-best l new best before p other better =
      rw
        (
          link_before-prev l new best before p other,
          link_before-test l new best best before ∙ better,
          link_before,
        )
        (ap (λ side. some (set_best (linked_best l before new best) side (some new)))
          (linked_before-SameKey l before new best new).0)

  pub set_best-Chain :
      (l : Ladder K) (side : Side) (p : Option ℕ) (q : ℕ) (xs : List ℕ) (r : ℕ)
      → Chain (next_levels l) (prev_levels l) q xs r
      → Chain (next_levels (set_best l side p)) (prev_levels (set_best l side p)) q xs r
  set_best-Chain l side p q xs r c =
      subst
        (λ (f : ℕ → OrdersAtPrice). Chain (λ x. (f x).next_entry) (λ x. (f x).prev_entry) q xs r)
        (sym (fun_ext (set_best-next l side p))) c

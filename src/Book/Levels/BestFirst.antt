-- ===== src/Book/Levels/BestFirst.antt =====
-- AddOrdersAtPrice: the levels of a side stay in the order of their prices, the best one first.
use vots.Base.{
  ℕ, ◌≤◌, ◌≡◌, ◌≢◌, refl, sym, subst, ◌∙◌, ◌⊎◌, inl, inr, true, false, some, List, [], ◌∷◌, ◌++◌,
  arith, Bool-cases, length,
}
use vots.Base.Int.{eq_ℤ}
use vots.Types.{Side}
use vots.Book.{Ladder, OrdersAtPrice, level_at}
use vots.Book.Levels.{goes_after, add_orders_at_price}
use vots.Book.Levels.Linking.{SameKey}
use vots.Book.Levels.Finding.{front_of, back_of, front-back}
use vots.Book.Levels.Linked.{Levels}
use vots.Book.Levels.Insertion.{add_orders_at_price-Inserted}
use vots.Book.Rings.{IsIn, IsIn-left, IsIn-right, IsIn-append}

goes_after_total :
    (e f : OrdersAtPrice)
    → (e.side ≡ Side.buy) ⊎ (e.side ≡ Side.sell)
    → f.side ≡ e.side
    → eq_ℤ e.price f.price ≡ false
    → goes_after e f ≡ false
    → goes_after f e ≡ true
unfolding goes_after
goes_after_total e f valid same apart h = ground arith

goes_after_trans :
    (e f g : OrdersAtPrice)
    → (g.side ≡ Side.buy) ⊎ (g.side ≡ Side.sell)
    → e.side ≡ g.side
    → f.side ≡ g.side
    → goes_after e f ≡ true
    → goes_after f g ≡ true
    → goes_after e g ≡ true
unfolding goes_after
goes_after_trans e f g valid same same' h k = ground arith

goes_after-SameKey :
    (e f e' f' : OrdersAtPrice) → SameKey e e' → SameKey f f' → goes_after e' f' ≡ goes_after e f
unfolding goes_after
goes_after-SameKey e f e' f' k j = rw (k.0, k.1, j.1) refl

module _ {K : Type 0} where
  -- Each level goes behind all that stand before it.
  abbrev pub IsBestFirst : Ladder K → List ℕ → Type 0
  IsBestFirst l [] = Unit
  IsBestFirst l (p ∷ ps) =
      ((q : ℕ) → IsIn q ps → goes_after (level_at l q) (level_at l p) ≡ true) × IsBestFirst l ps

  IsBestFirst-SameKey :
      (l l' : Ladder K) (ps : List ℕ)
      → ((x : ℕ) → SameKey (level_at l x) (level_at l' x))
      → IsBestFirst l ps
      → IsBestFirst l' ps
  IsBestFirst-SameKey l l' [] same b = tt
  IsBestFirst-SameKey l l' (p ∷ ps) same b = (
    (λ q i. goes_after-SameKey _ _ (level_at l' q) (level_at l' p) (same q) (same p) ∙ b.0 q i),
    IsBestFirst-SameKey l l' ps same b.1,
  )

  IsBestFirst-insert :
      (l : Ladder K) (new : ℕ) (ps : List ℕ)
      → ((level_at l new).side ≡ Side.buy) ⊎ ((level_at l new).side ≡ Side.sell)
      → ((x : ℕ) → IsIn x ps → (level_at l x).side ≡ (level_at l new).side)
      → ((x : ℕ) → IsIn x ps → eq_ℤ (level_at l new).price (level_at l x).price ≡ false)
      → IsBestFirst l ps
      → let key = level_at l new in IsBestFirst l (front_of l key ps ++ new ∷ back_of l key ps)
  IsBestFirst-insert l new [] valid same apart b = ((λ q i. elim i [ ]), tt)
  IsBestFirst-insert l new (p ∷ ps) valid same apart b =
      let key = level_at l new in
      elim (Bool-cases (goes_after key (level_at l p))) [
        | inr before ↦
            let first =
              goes_after_total key (level_at l p) valid (same p (inl refl)) (apart p (inl refl))
                before in
            rw before (
              (λ q i. elim i [
                | inl e ↦ subst (λ z. goes_after (level_at l z) key ≡ true) (sym e) first
                | inr k ↦
                    goes_after_trans (level_at l q) (level_at l p) key valid (same q (inr k))
                      (same p (inl refl)) (b.0 q k) first
              ]),
              b,
            )
        | inl after ↦
            let split = front-back l key ps in
            rw after (
              (λ q i. elim (IsIn-append q (front_of l key ps) (new ∷ back_of l key ps) i) [
                | inl k ↦ b.0 q (
                    subst (IsIn q) (sym split)
                      (IsIn-left q (front_of l key ps) (back_of l key ps) k))
                | inr (inl e) ↦
                    subst (λ z. goes_after (level_at l z) (level_at l p) ≡ true) (sym e) after
                | inr (inr k) ↦ b.0 q (
                    subst (IsIn q) (sym split)
                      (IsIn-right q (front_of l key ps) (back_of l key ps) k))
              ]),
              IsBestFirst-insert l new ps valid (λ x i. same x (inr i)) (λ x i. apart x (inr i))
                  b.1,
            )
      ]

  -- AddOrdersAtPrice succeeds for a new level of a side whose levels form a ring from the best price
  -- to the worst, at a price that none of them has, with no more levels than blocks in their pool:
  -- the side's levels are then the old ones, in their sequence, with the new one among them, and
  -- again from the best price to the worst, starting at the side's best level.
  pub add_orders_at_price-IsBestFirst :
      (l : Ladder K) (new : ℕ) (ps : List ℕ)
      → ((level_at l new).side ≡ Side.buy) ⊎ ((level_at l new).side ≡ Side.sell)
      → Levels l (level_at l new).side ps
      → IsBestFirst l ps
      → ((x : ℕ) → IsIn x ps → (level_at l x).side ≡ (level_at l new).side)
      → ((x : ℕ) → IsIn x ps → new ≢ x)
      → ((x : ℕ) → IsIn x ps → eq_ℤ (level_at l new).price (level_at l x).price ≡ false)
      → length ps ≤ l.orders_at_price_pool.size
      → (l' : Ladder K) × (add_orders_at_price l new ≡ some l')
        × (xs : List ℕ) × (ys : List ℕ) × (ps ≡ xs ++ ys)
        × Levels l' (level_at l new).side (xs ++ new ∷ ys)
        × IsBestFirst l' (xs ++ new ∷ ys)
  add_orders_at_price-IsBestFirst l new ps valid levels sorted same other apart room =
      let key = level_at l new in
      let (l', done, inserted) =
        add_orders_at_price-Inserted l new ps valid levels other apart room in
      (
        l',
        done,
        front_of l key ps,
        back_of l key ps,
        front-back l key ps,
        inserted.levels,
        IsBestFirst-SameKey l l' (front_of l key ps ++ new ∷ back_of l key ps) inserted.same_keys
            (IsBestFirst-insert l new ps valid same apart sorted),
      )

-- ===== src/Book/Rings.antt =====
-- Circular doubly linked lists, as the order books keep them for levels and for orders: a ring is
-- read through the two links of each of its members.
pub mod Removal
use vots.Base.{ℕ, ◌≡◌, ◌≢◌, refl, sym, ◌∙◌, ◌⊎◌, inl, inr, Option, some, List, [], ◌∷◌, ◌++◌}

-- Membership, and lists without repetition.
abbrev pub IsIn : ℕ → List ℕ → Type 0
IsIn x [] = ⊥
IsIn x (y ∷ ys) = (x ≡ y) ⊎ IsIn x ys

abbrev pub IsDistinct : List ℕ → Type 0
IsDistinct [] = Unit
IsDistinct (x ∷ xs) = ((y : ℕ) → IsIn y xs → x ≢ y) × IsDistinct xs

-- The links of both directions, from `p` through the list and on to `q`.
abbrev pub Chain : (next prev : ℕ → Option ℕ) → ℕ → List ℕ → ℕ → Type 0
Chain next prev p [] q = (next p ≡ some q) × (prev q ≡ some p)
Chain next prev p (x ∷ xs) q = (next p ≡ some x) × (prev x ≡ some p) × Chain next prev x xs q

abbrev pub last_of : ℕ → List ℕ → ℕ
last_of p [] = p
last_of p (x ∷ xs) = last_of x xs

pub last_of-IsIn : (p : ℕ) (xs : List ℕ) → IsIn (last_of p xs) (p ∷ xs)
last_of-IsIn p [] = inl refl
last_of-IsIn p (x ∷ xs) = inr (last_of-IsIn x xs)

pub IsIn-left : (x : ℕ) (xs ys : List ℕ) → IsIn x xs → IsIn x (xs ++ ys)
IsIn-left x [] ys h = elim h [ ]
IsIn-left x (y ∷ xs) ys (inl e) = inl e
IsIn-left x (y ∷ xs) ys (inr h) = inr (IsIn-left x xs ys h)

pub IsIn-right : (x : ℕ) (xs ys : List ℕ) → IsIn x ys → IsIn x (xs ++ ys)
IsIn-right x [] ys h = h
IsIn-right x (y ∷ xs) ys h = inr (IsIn-right x xs ys h)

pub IsIn-append : (x : ℕ) (xs ys : List ℕ) → IsIn x (xs ++ ys) → IsIn x xs ⊎ IsIn x ys
IsIn-append x [] ys h = inr h
IsIn-append x (y ∷ xs) ys (inl e) = inl (inl e)
IsIn-append x (y ∷ xs) ys (inr h) = elim (IsIn-append x xs ys h) [
  | inl k ↦ inl (inr k)
  | inr k ↦ inr k
]

-- The ends of a chain.
pub Chain-end :
    (n v : ℕ → Option ℕ) (p : ℕ) (xs : List ℕ) (q : ℕ)
    → Chain n v p xs q
    → (n (last_of p xs) ≡ some q) × (v q ≡ some (last_of p xs))
Chain-end n v p [] q c = c
Chain-end n v p (x ∷ xs) q c = Chain-end n v x xs q c.2

pub Chain-split :
    (n v : ℕ → Option ℕ) (p : ℕ) (xs : List ℕ) (x : ℕ) (ys : List ℕ) (q : ℕ)
    → Chain n v p (xs ++ x ∷ ys) q
    → Chain n v p xs x × Chain n v x ys q
Chain-split n v p [] x ys q c = ((c.0, c.1), c.2)
Chain-split n v p (y ∷ xs) x ys q c =
    let (front, back) = Chain-split n v y xs x ys q c.2 in ((c.0, c.1, front), back)

pub Chain-join :
    (n v : ℕ → Option ℕ) (p : ℕ) (xs : List ℕ) (x : ℕ) (ys : List ℕ) (q : ℕ)
    → Chain n v p xs x
    → Chain n v x ys q
    → Chain n v p (xs ++ x ∷ ys) q
Chain-join n v p [] x ys q c k = (c.0, c.1, k)
Chain-join n v p (y ∷ xs) x ys q c k = (c.0, c.1, Chain-join n v y xs x ys q c.2 k)

-- A chain whose inner links stay, and whose end is set to another order.
pub Chain-turn :
    (n v n' v' : ℕ → Option ℕ) (p : ℕ) (xs : List ℕ) (q r : ℕ)
    → IsDistinct (p ∷ xs)
    → ((x : ℕ) → IsIn x (p ∷ xs) → last_of p xs ≢ x → n' x ≡ n x)
    → ((x : ℕ) → IsIn x xs → v' x ≡ v x)
    → n' (last_of p xs) ≡ some r
    → v' r ≡ some (last_of p xs)
    → Chain n v p xs q
    → Chain n' v' p xs r
Chain-turn n v n' v' p [] q r d next prev e k c = (e, k)
Chain-turn n v n' v' p (x ∷ xs) q r d next prev e k c = (
  next p (inl refl) (λ same. d.0 (last_of x xs) (last_of-IsIn x xs) (sym same)) ∙ c.0,
  prev x (inl refl) ∙ c.1,
  Chain-turn n v n' v' x xs q r d.1 (λ y i. next y (inr i)) (λ y i. prev y (inr i)) e k c.2,
)

pub IsDistinct-append :
    (xs : List ℕ) (p : ℕ)
    → IsDistinct xs
    → ((x : ℕ) → IsIn x xs → p ≢ x)
    → IsDistinct (xs ++ (p ∷ []))
IsDistinct-append [] p d h = ((λ y i. elim i [ ]), tt)
IsDistinct-append (x ∷ xs) p d h = (
  (λ y i. elim (IsIn-append y xs (p ∷ []) i) [
    | inl k ↦ d.0 y k
    | inr (inl same) ↦ λ e. h x (inl refl) (sym (e ∙ same))
    | inr (inr k) ↦ elim k [ ]
  ]),
  IsDistinct-append xs p d.1 (λ y i. h y (inr i)),
)

-- Two parts of a list without repetition.
pub record AreApart (xs ys : List ℕ) : Type 0 where
  pub left : IsDistinct xs
  pub right : IsDistinct ys
  pub apart : (x y : ℕ) → IsIn x xs → IsIn y ys → x ≢ y

pub IsDistinct-AreApart : (xs ys : List ℕ) → IsDistinct (xs ++ ys) → AreApart xs ys
IsDistinct-AreApart [] ys d = record { left = tt; right = d; apart = λ x y i j. elim i [ ] }
IsDistinct-AreApart (z ∷ xs) ys d =
    let a = IsDistinct-AreApart xs ys d.1 in
    record {
      left = ((λ y i. d.0 y (IsIn-left y xs ys i)), a.left);
      right = a.right;
      apart = λ x y i j. elim i [
        | inl same ↦ λ e. d.0 y (IsIn-right y xs ys j) (sym same ∙ e)
        | inr k ↦ a.apart x y k j
      ];
    }

pub IsDistinct-skip :
    (xs : List ℕ) (x : ℕ) (ys : List ℕ) → IsDistinct (xs ++ x ∷ ys) → IsDistinct (xs ++ ys)
IsDistinct-skip [] x ys d = d.1
IsDistinct-skip (z ∷ xs) x ys d = (
  (λ y i. elim (IsIn-append y xs ys i) [
    | inl k ↦ d.0 y (IsIn-left y xs (x ∷ ys) k)
    | inr k ↦ d.0 y (IsIn-right y xs (x ∷ ys) (inr k))
  ]),
  IsDistinct-skip xs x ys d.1,
)

pub IsDistinct-insert :
    (xs : List ℕ) (p : ℕ) (ys : List ℕ)
    → IsDistinct (xs ++ ys)
    → ((x : ℕ) → IsIn x (xs ++ ys) → p ≢ x)
    → IsDistinct (xs ++ p ∷ ys)
IsDistinct-insert [] p ys d h = (h, d)
IsDistinct-insert (x ∷ xs) p ys d h = (
  (λ y i. elim (IsIn-append y xs (p ∷ ys) i) [
    | inl k ↦ d.0 y (IsIn-left y xs ys k)
    | inr (inl same) ↦ λ e. h x (inl refl) (sym (e ∙ same))
    | inr (inr k) ↦ d.0 y (IsIn-right y xs ys k)
  ]),
  IsDistinct-insert xs p ys d.1 (λ y i. h y (inr i)),
)

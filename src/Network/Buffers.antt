-- ===== src/Network/Buffers.antt =====
-- What a buffer holds after a copy.
use vots.Base.{
  ℕ, zero, suc, ◌+◌, ◌≤◌, ◌<◌, ◌≡◌, refl, ap, ap₂, ◌∙◌, List, [], ◌∷◌, ◌++◌, update, update_self,
  update_ne, arith, length,
}
use vots.Network.{memcpy, contents}

contents-add :
    (buffer : ℕ → ℕ) (from n m : ℕ)
    → contents buffer from (n + m) ≡ contents buffer from n ++ contents buffer (from + n) m
contents-add buffer from zero m =
    ap (λ k. contents buffer from k) (omega arith) ∙ ap (λ k. contents buffer k m) (omega arith)
contents-add buffer from (suc n) m =
    ap (contents buffer from) {y = suc (n + m)} (omega arith)
    ∙ ap (λ l. buffer from ∷ l)
        (contents-add buffer (from + 1) n m
          ∙ ap (λ k. contents buffer (from + 1) n ++ contents buffer k m) (omega arith))

-- A copy leaves what is before it.
memcpy-before :
    (bs : List ℕ) (buffer : ℕ → ℕ) (at i : ℕ) → i < at → memcpy buffer at bs i ≡ buffer i
memcpy-before [] buffer at i h = refl
memcpy-before (b ∷ bs) buffer at i h =
    memcpy-before bs (update buffer at b) (at + 1) i (omega arith)
    ∙ update_ne buffer at b i (omega arith)

contents-memcpy_before :
    (n : ℕ) (bs : List ℕ) (buffer : ℕ → ℕ) (from at : ℕ)
    → from + n ≤ at
    → contents (memcpy buffer at bs) from n ≡ contents buffer from n
contents-memcpy_before zero bs buffer from at h = refl
contents-memcpy_before (suc n) bs buffer from at h =
    ap₂ ◌∷◌ (memcpy-before bs buffer at from (omega arith))
      (contents-memcpy_before n bs buffer (from + 1) at (omega arith))

contents-memcpy :
    (bs : List ℕ) (buffer : ℕ → ℕ) (at : ℕ) → contents (memcpy buffer at bs) at (length bs) ≡ bs
contents-memcpy [] buffer at = refl
contents-memcpy (b ∷ bs) buffer at =
    ap₂ ◌∷◌
      (memcpy-before bs (update buffer at b) (at + 1) at (omega arith) ∙ update_self buffer at b)
      (contents-memcpy bs (update buffer at b) (at + 1))

-- A copy behind the valid bytes appends to them.
pub memcpy-append :
    (buffer : ℕ → ℕ) (n : ℕ) (bs : List ℕ)
    → contents (memcpy buffer n bs) 0 (n + length bs) ≡ contents buffer 0 n ++ bs
memcpy-append buffer n bs =
    contents-add (memcpy buffer n bs) 0 n (length bs)
    ∙ ap₂ ◌++◌ (contents-memcpy_before n bs buffer 0 n (omega arith)) (
        ap (λ k. contents (memcpy buffer n bs) k (length bs)) (omega arith)
        ∙ contents-memcpy bs buffer n)

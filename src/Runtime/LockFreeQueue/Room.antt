-- ===== src/Runtime/LockFreeQueue/Room.antt =====
-- Writing several elements to a queue that has room for them.
use vots.Base.{
  ℕ, suc, ◌+◌, ◌≤◌, ◌≡◌, ap, ◌∙◌, List, [], ◌∷◌, ◌++◌, append_assoc, arith, length, length-append,
}
use vots.Runtime.LockFreeQueue.{LockFreeQueue, push}
use vots.Runtime.LockFreeQueue.Refine.{IsValid, unread, unread-push, length-unread, capacity-push}

-- A queue that is valid and has room for `n` more elements.
abbrev pub HasRoom {ℓ} : {T : Type ℓ} → LockFreeQueue T → ℕ → Type 0
HasRoom q n = IsValid q × (length (unread q) + n ≤ q.capacity)

-- A queue that has received a list of elements.
abbrev pub Received {ℓ} : {T : Type ℓ} → LockFreeQueue T → List T → LockFreeQueue T → Type ℓ
Received q xs q' = (unread q' ≡ unread q ++ xs) × IsValid q'

module _ {ℓ} {T : Type ℓ} (q : LockFreeQueue T) (x : T) where
  pub HasRoom-push : (n : ℕ) → HasRoom q (suc n) → HasRoom (push q x) n
  HasRoom-push n h =
      let (e, v) = unread-push q x h.0 (omega (arith, length-unread q)) in
      (v, omega (arith, ap length e, length-append (unread q) (x ∷ []), capacity-push q x))

  pub Received-push :
      (n : ℕ) (xs : List T) (q' : LockFreeQueue T)
      → HasRoom q (suc n)
      → Received (push q x) xs q'
      → Received q (x ∷ xs) q'
  Received-push n xs q' h r =
      let (e, v) = unread-push q x h.0 (omega (arith, length-unread q)) in
      (r.0 ∙ (ap (λ l. l ++ xs) e ∙ append_assoc (unread q) (x ∷ []) xs), r.1)

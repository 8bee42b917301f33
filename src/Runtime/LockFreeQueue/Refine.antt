-- ===== src/Runtime/LockFreeQueue/Refine.antt =====
-- The queue against a list of its unread elements, oldest first.
use native.Mathlib.Nat.{add-mod_right, mod-add-mod, mod-eq_of_lt, mod-eq-sub-mod}
use vots.Base.{
  ℕ, zero, suc, ◌+◌, ◌-◌, ◌%◌, ◌^◌, ◌≤◌, ◌<◌, ◌≡◌, ◌≢◌, refl, sym, ap, ap₂, ◌∙◌, false, none, some,
  List, [], ◌∷◌, ◌++◌, ◌==◌, update, update_self, update_ne, arith, dec_lt, length,
}
use vots.Runtime.LockFreeQueue.{LockFreeQueue, make, get_next_to_read, update_read_index, push}

module _ {ℓ} {T : Type ℓ} where
  -- The `n` elements from index `h` on, going round at `cap`.
  abbrev pub read_from : (ℕ → T) → ℕ → ℕ → ℕ → List T
  read_from store cap h zero = []
  read_from store cap h (suc n) = store h ∷ read_from store cap ((h + 1) % cap) n

  abbrev pub unread : LockFreeQueue T → List T
  unread q = read_from q.store q.capacity q.next_read_index q.num_elements

  -- The indices are in range, the write index lies the number of elements ahead of the read index,
  -- and no element has been overwritten.
  pub record IsValid (q : LockFreeQueue T) : Type 0 where
    pub read_in : q.next_read_index < q.capacity
    pub ahead : q.next_write_index ≡ (q.next_read_index + q.num_elements) % q.capacity
    pub fits : q.num_elements ≤ q.capacity
    pub small : q.capacity + 1 < 2 ^ 64

-- Fewer steps than the capacity do not lead back to the start.
pub step_round-ne : (cap h k : ℕ) → h < cap → 0 < k → k < cap → (h + k) % cap ≢ h
step_round-ne cap h k hh pos hk = elim (dec_lt (h + k) cap) [
  | yes p ↦ omega (arith, mod-eq_of_lt p)
  | no p ↦ omega (
    arith,
    mod-eq-sub-mod {n = h + k} {m = cap} (omega arith),
    mod-eq_of_lt {n = h + k - cap} {m = cap} (omega arith),
  )
]

module _ {ℓ} {T : Type ℓ} (store : ℕ → T) (cap : ℕ) where
  -- A write just behind the last unread element appends it.
  read_from-update :
      (elem : T) (n h i : ℕ)
      → h < cap
      → n < cap
      → i ≡ (h + n) % cap
      → read_from (update store i elem) cap h (suc n) ≡ read_from store cap h n ++ (elem ∷ [])
  read_from-update elem zero h i hh hn e =
      let same : i ≡ h = e ∙ (ap (λ t. t % cap) (omega arith) ∙ mod-eq_of_lt hh) in
      rw same (ap (λ x. x ∷ []) (update_self store h elem))
  read_from-update elem (suc n) h i hh hn e =
      ap₂ ◌∷◌
        (update_ne store i elem h
          (λ p. step_round-ne cap h (suc n) hh (omega arith) hn (sym e ∙ p)))
        (read_from-update elem n ((h + 1) % cap) i (omega arith) (omega arith) (e ∙ shift))
    where
      shift : (h + suc n) % cap ≡ ((h + 1) % cap + n) % cap
      shift = rw mod-add-mod (ap (λ t. t % cap) (omega arith))

  pub read_from-cons :
      (h n : ℕ)
      → n ≢ 0
      → read_from store cap h n ≡ store h ∷ read_from store cap ((h + 1) % cap) (n - 1)
  read_from-cons h zero p = absurd (p refl)
  read_from-cons h (suc n) p = ap (λ k. read_from store cap h (suc k)) (omega arith)

cons-injective {ℓ} : {A : Type ℓ} {a b : A} {xs ys : List A} → a ∷ xs ≡ b ∷ ys → (a ≡ b) × (xs ≡ ys)
cons-injective e = (cc, cc)

module _ {ℓ} {T : Type ℓ} where
  pub make-IsValid : (n : ℕ) (default : T) → 0 < n → n + 1 < 2 ^ 64 → IsValid (make n default)
  unfolding make
  make-IsValid n default pos h = omega arith

  -- A committed write to a valid queue that is not full appends its element to the unread ones, and
  -- the queue stays valid.
  pub unread-push :
      (q : LockFreeQueue T) (elem : T)
      → IsValid q
      → q.num_elements < q.capacity
      → (unread (push q elem) ≡ unread q ++ (elem ∷ [])) × IsValid (push q elem)
  unfolding push
  unread-push q elem v room = (
    ap (read_from (update store next_write_index elem) cap next_read_index) wrap
        ∙ read_from-update store cap elem num next_read_index next_write_index v.read_in room
            v.ahead,
    record {
      read_in = v.read_in;
      ahead = rw (v.ahead, wrap, mod-add-mod) (ap (λ t. t % cap) (omega arith));
      fits = omega arith;
      small = v.small;
    },
  )
    where
      open q use {store, capacity as cap, next_read_index, next_write_index, num_elements as num}

      wrap : (num + 1) % 2 ^ 64 ≡ suc num
      wrap = omega arith

  -- A read from a valid queue returns its oldest unread element, or nothing if there is none; then
  -- the commit takes exactly that element away, and the queue stays valid.
  pub unread-read :
      (q : LockFreeQueue T) (x : T) (xs : List T)
      → IsValid q
      → unread q ≡ x ∷ xs
      → (get_next_to_read q ≡ some x)
        × (r : LockFreeQueue T) × (update_read_index q ≡ some r)
        × (unread r ≡ xs)
        × IsValid r
  unfolding get_next_to_read update_read_index
  unread-read q x xs v e = (
    rw some_left (ap some (cons-injective (sym split ∙ e)).0),
    record q { next_read_index = (q.next_read_index + 1) % cap; num_elements = num - 1 },
    rw some_left,
    (cons-injective (sym split ∙ e)).1,
    record {
      read_in = omega arith;
      ahead = rw mod-add-mod (v.ahead ∙ ap (λ t. t % cap) (omega (arith, some_unread)));
      fits = omega arith;
      small = v.small;
    },
  )
    where
      open q use {store, capacity as cap, next_read_index, num_elements as num}

      some_unread : num ≢ 0
      some_unread z = cc (sym (ap (read_from store cap next_read_index) z) ∙ e)

      some_left : (num == 0) ≡ false
      some_left = ground (arith, some_unread)

      split :
          unread q
          ≡ store next_read_index ∷ read_from store cap ((next_read_index + 1) % cap) (num - 1)
      split = read_from-cons store cap next_read_index num some_unread

  -- A committed write to a valid queue that is full overwrites its oldest unread element: the next
  -- read returns the new element in place of the oldest one.
  pub push-full :
      (q : LockFreeQueue T) (elem : T)
      → IsValid q
      → q.num_elements ≡ q.capacity
      → get_next_to_read (push q elem) ≡ some elem
  unfolding get_next_to_read push
  push-full q elem v full = ground (arith, same)
    where
      open q use {capacity as cap, next_read_index, next_write_index}

      same : next_write_index ≡ next_read_index
      same = v.ahead ∙ rw full (add-mod_right next_read_index cap ∙ mod-eq_of_lt v.read_in)

length-read_from {ℓ} :
    {T : Type ℓ} (store : ℕ → T) (cap h n : ℕ) → length (read_from store cap h n) ≡ n
length-read_from store cap h zero = refl
length-read_from store cap h (suc n) = ap suc (length-read_from store cap ((h + 1) % cap) n)

pub length-unread {ℓ} : {T : Type ℓ} (q : LockFreeQueue T) → length (unread q) ≡ q.num_elements
length-unread q = length-read_from q.store q.capacity q.next_read_index q.num_elements

pub capacity-push {ℓ} :
    {T : Type ℓ} (q : LockFreeQueue T) (elem : T) → (push q elem).capacity ≡ q.capacity
unfolding push
capacity-push q elem = refl

-- A queue without unread elements has nothing to read.
pub unread-nil {ℓ} : {T : Type ℓ} (q : LockFreeQueue T) → unread q ≡ [] → get_next_to_read q ≡ none
unfolding get_next_to_read
unread-nil q e = rw (sym (length-unread q) ∙ ap length e)

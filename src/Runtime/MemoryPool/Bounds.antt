-- ===== src/Runtime/MemoryPool/Bounds.antt =====
-- What a call of the pool changes, and that it keeps the pool valid.
use vots.Base.{
  ℕ, zero, suc, ◌≡◌, ◌<◌, refl, true, false, some, arith, update, Option-cases, inl, inr,
}
use vots.Runtime.MemoryPool.{
  MemoryPool, ObjectBlock, IsValid, make, after_index, next_free, update_next_free_index,
  take_block, allocate, deallocate,
}

module _ {ℓ} {T : Type ℓ} where
  pub make-IsValid : (n : ℕ) (default : T) → 0 < n → IsValid (make n default)
  unfolding make
  make-IsValid n default h = record { in_range = h; free = refl }

  -- Where the search ends, a free block stands in range.
  pub next_free_bounds :
      (fuel : ℕ) (store : ℕ → ObjectBlock T) (size initial i k : ℕ)
      → i < size
      → next_free fuel store size initial i ≡ some k
      → (k < size) × ((store k).is_free ≡ true)
  unfolding next_free
  next_free_bounds zero store size initial i k h e = ground arith
  next_free_bounds (suc fuel) store size initial i k h e =
      ground (arith, next_free_bounds fuel store size initial (after_index size i) k)

  -- What a successful allocation of `elem` at `i` has done to the pool.
  pub record Allocated (p : MemoryPool T) (elem : T) (i : ℕ) (q : MemoryPool T) : Type ℓ where
    pub in_range : i < p.size
    pub was_free : (p.store i).is_free ≡ true
    pub written : q.store ≡ update p.store i (record { object = elem; is_free = false })
    pub same_size : q.size ≡ p.size

  -- A successful allocation from a valid pool hands out a block in range that was free, writes the object
  -- there, marks it in use, changes no other block, and leaves a valid pool.
  pub allocate-Allocated :
      (p q : MemoryPool T) (elem : T) (i : ℕ)
      → IsValid p
      → allocate p elem ≡ some (i, q)
      → Allocated p elem i q × IsValid q
  unfolding allocate update_next_free_index
  allocate-Allocated p q elem i v e =
      elim (Option-cases
        (next_free p.size (take_block p elem).store p.size p.next_free_index p.next_free_index)) [
          | inl none_left ↦ ground arith
          | inr (k, found) ↦ ground (
            arith,
            next_free_bounds p.size (take_block p elem).store p.size p.next_free_index
                p.next_free_index k,
          )
        ]

  -- What a successful deallocation of the block `i` has done to the pool.
  pub record Deallocated (p : MemoryPool T) (i : ℕ) (q : MemoryPool T) : Type ℓ where
    pub in_range : i < p.size
    pub was_used : (p.store i).is_free ≡ false
    pub written :
        q.store ≡ update p.store i (record { object = (p.store i).object; is_free = true })
    pub same_size : q.size ≡ p.size

  -- A deallocation from a valid pool that succeeds was of a block in range that was in use; it marks
  -- that block free, changes no other block, and leaves a valid pool.
  pub deallocate-Deallocated :
      (p q : MemoryPool T) (i : ℕ)
      → IsValid p
      → deallocate p i ≡ some q
      → Deallocated p i q × IsValid q
  unfolding deallocate
  deallocate-Deallocated p q i v e = ground arith

  pub deallocate_used :
      (p : MemoryPool T) (i : ℕ)
      → i < p.size
      → (p.store i).is_free ≡ false
      → (q : MemoryPool T) × (deallocate p i ≡ some q)
  unfolding deallocate
  deallocate_used p i h u = (
    record p { store = update p.store i (record { object = (p.store i).object; is_free = true }) },
    ground arith,
  )

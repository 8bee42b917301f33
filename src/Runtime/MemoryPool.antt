-- ===== src/Runtime/MemoryPool.antt =====
-- src/include/runtime/memory_pool.hpp: a pool of blocks that are marked free or in use.
-- A pointer into the pool is the index of its block; the store is a function that is read below
-- `size` only. A failed ASSERT ends the process and is `none`.
pub mod Bounds
pub mod Capacity
use mathlib.Core.Option
use vots.Base.{
  ℕ, zero, suc, ◌+◌, ◌≡◌, ◌<◌, Bool, true, false, Option, none, some, if◌then◌else◌, ◌==◌, ltb,
  update,
}

pub record ObjectBlock {ℓ} (T : Type ℓ) : Type ℓ where
  pub object : T
  pub is_free : Bool

pub record MemoryPool {ℓ} (T : Type ℓ) : Type ℓ where
  pub store : ℕ → ObjectBlock T
  pub size : ℕ
  pub next_free_index : ℕ

-- `++next_free_index_`, which goes back to 0 at the end of the store.
abbrev pub after_index : ℕ → ℕ → ℕ
after_index size i = if (i + 1) == size then 0 else i + 1

module _ {ℓ} {T : Type ℓ} where
  -- The constructor: `num_elems` free blocks, each holding a default object.
  unfoldable pub make : ℕ → T → MemoryPool T
  make num_elems default = record {
    store = λ _. record { object = default; is_free = true };
    size = num_elems;
    next_free_index = 0;
  }

  -- The loop of `UpdateNextFreeIndex`, on fuel: `size` rounds lead back to the initial index, where
  -- the assertion fails.
  unfoldable pub next_free : ℕ → (ℕ → ObjectBlock T) → ℕ → ℕ → ℕ → Option ℕ
  next_free zero store size initial i = none
  next_free (suc fuel) store size initial i =
      let rest = next_free fuel store size initial (after_index size i) in
      if (store i).is_free then some i else if initial == after_index size i then none else rest

  unfoldable pub update_next_free_index : MemoryPool T → Option (MemoryPool T)
  update_next_free_index p =
      Option.map (λ i. record p { next_free_index = i })
        (next_free p.size p.store p.size p.next_free_index p.next_free_index)

  -- The block is constructed in place and marked in use.
  abbrev pub take_block : MemoryPool T → T → MemoryPool T
  take_block p elem = record p {
    store = update p.store p.next_free_index (record { object = elem; is_free = false });
  }

  -- `Allocate`: the pointer to the new object, and the pool.
  unfoldable pub allocate : MemoryPool T → T → Option (ℕ × MemoryPool T)
  allocate p elem =
      if (p.store p.next_free_index).is_free
      then Option.map (λ q. (p.next_free_index, q)) (update_next_free_index (take_block p elem))
      else none

  unfoldable pub deallocate : MemoryPool T → ℕ → Option (MemoryPool T)
  deallocate p elem =
      if ltb elem p.size
      then if (p.store elem).is_free
        then none
        else some (record p {
          store = update p.store elem (record { object = (p.store elem).object; is_free = true });
        })
      else none

  -- The next index is in range, and its block is free.
  pub record IsValid (p : MemoryPool T) : Type 0 where
    pub in_range : p.next_free_index < p.size
    pub free : (p.store p.next_free_index).is_free ≡ true

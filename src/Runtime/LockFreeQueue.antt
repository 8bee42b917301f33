-- ===== src/Runtime/LockFreeQueue.antt =====
-- src/include/runtime/lock_free_queue.hpp: the single-producer single-consumer queue over a fixed
-- store. A call is taken as one step.
-- `store_` is read at indices below `capacity` only. A failed ASSERT ends the process and is `none`.
pub mod Refine
pub mod Room
pub mod Threads
use vots.Base.{
  ℕ, zero, suc, ◌+◌, ◌-◌, ◌%◌, ◌^◌, ◌≡◌, Bool, true, false, Option, none, some, List, [], ◌∷◌,
  if◌then◌else◌, ◌==◌, update,
}

pub record LockFreeQueue {ℓ} (T : Type ℓ) : Type ℓ where
  pub store : ℕ → T
  pub capacity : ℕ
  pub next_write_index : ℕ
  pub next_read_index : ℕ
  pub num_elements : ℕ

module _ {ℓ} {T : Type ℓ} where
  unfoldable pub make : ℕ → T → LockFreeQueue T
  make num_elems default = record {
    store = λ _. default;
    capacity = num_elems;
    next_write_index = 0;
    next_read_index = 0;
    num_elements = 0;
  }

  -- The assignment `*GetNextToWriteTo() = elem`.
  unfoldable pub write_next : LockFreeQueue T → T → LockFreeQueue T
  write_next q elem = record q { store = update q.store q.next_write_index elem }

  unfoldable pub update_write_index : LockFreeQueue T → LockFreeQueue T
  update_write_index q = record q {
    next_write_index = (q.next_write_index + 1) % q.capacity;
    num_elements = (q.num_elements + 1) % 2 ^ 64;
  }

  -- The object that `GetNextToRead` points to; `none` is its nullptr.
  unfoldable pub get_next_to_read : LockFreeQueue T → Option T
  get_next_to_read q = if q.num_elements == 0 then none else some (q.store q.next_read_index)

  unfoldable pub update_read_index : LockFreeQueue T → Option (LockFreeQueue T)
  update_read_index q =
      if q.num_elements == 0
      then none
      else some (record q {
        next_read_index = (q.next_read_index + 1) % q.capacity;
        num_elements = q.num_elements - 1;
      })

  -- How every producer of the program uses the queue: write to the next slot, then commit it.
  unfoldable pub push : LockFreeQueue T → T → LockFreeQueue T
  unfolding write_next update_write_index
  push q elem = update_write_index (write_next q elem)

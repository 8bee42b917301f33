-- ===== src/Tests/Runtime.antt =====
-- Runs of src/include/runtime and of the conversions in src/include/common/types.hpp.
use vots.Base.{ℕ, zero, suc, ◌≡◌, refl, arith, true, false, Option, none, some, [], ◌∷◌, ◌++◌}
use vots.Types.{AlgoType, string_to_algo_type, algo_type_to_string, algo_type-round_trip}
use vots.Runtime.MemoryPool
use vots.Runtime.MemoryPool.{MemoryPool, allocate, deallocate}
use vots.Runtime.MemoryPool.Bounds.{
  Allocated, allocate-Allocated, Deallocated, deallocate-Deallocated,
}
use vots.Runtime.MemoryPool.Capacity.{allocate_total}
use vots.Runtime.LockFreeQueue
use vots.Runtime.LockFreeQueue.{LockFreeQueue, push, get_next_to_read, update_read_index}
use vots.Runtime.LockFreeQueue.Refine
use vots.Runtime.LockFreeQueue.Refine.{unread, unread-push, push-full}

algo_type-round_trip_example :
    string_to_algo_type (algo_type_to_string AlgoType.taker) ≡ AlgoType.taker
algo_type-round_trip_example = algo_type-round_trip AlgoType.taker

-- A pool of three blocks, and the same after one allocation.
abbrev pool : MemoryPool ℕ
pool = MemoryPool.make 3 0

pool-IsValid : MemoryPool.IsValid pool
unfolding MemoryPool.make
pool-IsValid = record { in_range = omega arith; free = refl }

abbrev pool_used : MemoryPool ℕ
pool_used = record {
  store = λ j. elim j [
    | zero ↦ record { object = 7; is_free = false }
    | suc _ ↦ record { object = 0; is_free = true }
  ];
  size = 3;
  next_free_index = 1;
}

pool_used-IsValid : MemoryPool.IsValid pool_used
pool_used-IsValid = record { in_range = omega arith; free = refl }

-- The queue [5, 6] of two slots, and the empty one.
abbrev queue : LockFreeQueue ℕ
queue = push (push (LockFreeQueue.make 2 0) 5) 6

abbrev empty_queue : LockFreeQueue ℕ
empty_queue = LockFreeQueue.make 2 0

empty_queue-IsValid : Refine.IsValid empty_queue
empty_queue-IsValid = Refine.make-IsValid 2 0 (omega arith) (omega arith)

queue-IsValid : Refine.IsValid queue
unfolding LockFreeQueue.make push
queue-IsValid = record {
  read_in = omega arith;
  ahead = refl;
  fits = omega arith;
  small = omega arith;
}

unread-push_example :
    (unread (push empty_queue 5) ≡ unread empty_queue ++ (5 ∷ []))
    × Refine.IsValid (push empty_queue 5)
unfolding LockFreeQueue.make
unread-push_example = unread-push empty_queue 5 empty_queue-IsValid (omega arith)

push-full_example : get_next_to_read (push queue 9) ≡ some 9
unfolding LockFreeQueue.make push
push-full_example = push-full queue 9 queue-IsValid refl

-- What an allocation of 8 has led to, from whatever it returns.
abbrev pool_or : Option (ℕ × MemoryPool ℕ) → MemoryPool ℕ
pool_or none = pool
pool_or (some r) = r.1

abbrev pool_freed : Option (MemoryPool ℕ) → MemoryPool ℕ
pool_freed none = pool
pool_freed (some r) = r

allocate-Allocated_example :
    Allocated pool_used 8 1 (pool_or (allocate pool_used 8))
    × MemoryPool.IsValid (pool_or (allocate pool_used 8))
unfolding allocate MemoryPool.update_next_free_index MemoryPool.next_free
allocate-Allocated_example =
    allocate-Allocated pool_used (pool_or (allocate pool_used 8)) 8 1 pool_used-IsValid refl

deallocate-Deallocated_example :
    Deallocated pool_used 0 (pool_freed (deallocate pool_used 0))
    × MemoryPool.IsValid (pool_freed (deallocate pool_used 0))
unfolding deallocate
deallocate-Deallocated_example =
    deallocate-Deallocated pool_used (pool_freed (deallocate pool_used 0)) 0 pool_used-IsValid refl

allocate_total_example : (q : MemoryPool ℕ) × (allocate pool_used 8 ≡ some (1, q))
allocate_total_example =
    allocate_total pool_used 8 2 pool_used-IsValid (omega arith) (omega arith) refl

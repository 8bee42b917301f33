-- ===== src/Runtime/LockFreeQueue/Threads.antt =====
-- src/include/runtime/lock_free_queue.hpp, run by two threads: every access to a member is a step of
-- its own, and the steps of the producer and of the consumer interleave in any order.
-- The accesses are sequentially consistent, as those of `std::atomic` are by default. Each index is
-- written and read by one thread only, and its update is one step.
pub mod Order
pub mod Delivery
use vots.Base.{ℕ, ◌+◌, ◌-◌, ◌%◌, ◌^◌, ◌<◌, ◌≡◌, ◌≢◌, some, List, [], ◌∷◌, ◌++◌}
use vots.Runtime.LockFreeQueue.{LockFreeQueue, make, write_next, get_next_to_read}

-- Where the producer stands between GetNextToWriteTo and the end of UpdateWriteIndex.
pub data Producer : Type 0 where
  idle written advanced : Producer

-- Where the consumer stands between GetNextToRead and the end of UpdateReadIndex.
pub data Consumer : Type 0 where
  idle found taken advanced : Consumer

-- `sent` and `received` record what the threads wrote to and read from the store.
pub record Threads {ℓ} (T : Type ℓ) : Type ℓ where
  pub queue : LockFreeQueue T
  pub producer : Producer
  pub consumer : Consumer
  pub sent : List T
  pub received : List T

module _ {ℓ} {T : Type ℓ} where
  -- The two halves of UpdateWriteIndex, and of UpdateReadIndex.
  abbrev pub advance_write : LockFreeQueue T → LockFreeQueue T
  advance_write q = record q { next_write_index = (q.next_write_index + 1) % q.capacity }

  abbrev pub count_up : LockFreeQueue T → LockFreeQueue T
  count_up q = record q { num_elements = (q.num_elements + 1) % 2 ^ 64 }

  abbrev pub advance_read : LockFreeQueue T → LockFreeQueue T
  advance_read q = record q { next_read_index = (q.next_read_index + 1) % q.capacity }

  abbrev pub count_down : LockFreeQueue T → LockFreeQueue T
  count_down q = record q { num_elements = q.num_elements - 1 }

  pub data Step (s : Threads T) : Threads T → Type ℓ where
    write :
        (elem : T)
        → s.producer ≡ Producer.idle
        → Step s (record s {
          queue = write_next s.queue elem;
          producer = Producer.written;
          sent = s.sent ++ (elem ∷ []);
        })
    move_write :
        s.producer ≡ Producer.written
        → Step s (record s { queue = advance_write s.queue; producer = Producer.advanced })
    commit :
        s.producer ≡ Producer.advanced
        → Step s (record s { queue = count_up s.queue; producer = Producer.idle })
    find :
        (x : T)
        → s.consumer ≡ Consumer.idle
        → get_next_to_read s.queue ≡ some x
        → Step s (record s { consumer = Consumer.found })
    take_out :
        s.consumer ≡ Consumer.found
        → Step s (record s {
          consumer = Consumer.taken;
          received = s.received ++ (s.queue.store s.queue.next_read_index ∷ []);
        })
    move_read :
        s.consumer ≡ Consumer.taken
        → Step s (record s { queue = advance_read s.queue; consumer = Consumer.advanced })
    release :
        s.consumer ≡ Consumer.advanced
        → s.queue.num_elements ≢ 0
        → Step s (record s { queue = count_down s.queue; consumer = Consumer.idle })

  -- A write happens when the queue is not full: nothing in the queue checks that.
  abbrev pub HasSpace : {s t : Threads T} → Step s t → Type 0
  HasSpace {s} (write elem e) = s.queue.num_elements < s.queue.capacity
  HasSpace _ = Unit

  abbrev pub start_of : ℕ → T → Threads T
  start_of n default = record {
    queue = make n default;
    producer = Producer.idle;
    consumer = Consumer.idle;
    sent = [];
    received = [];
  }

  pub data Reach (n : ℕ) (default : T) : Threads T → Type ℓ where
    started : Reach n default (start_of n default)
    later : {s t : Threads T} → Reach n default s → (m : Step s t) → HasSpace m → Reach n default t

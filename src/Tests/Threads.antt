-- ===== src/Tests/Threads.antt =====
-- Two threads at a queue of src/include/runtime/lock_free_queue.hpp.
use vots.Base.{ℕ, ◌≤◌, ◌≡◌, refl, [], ◌∷◌, ◌++◌, arith, length, drop}
use vots.Runtime.LockFreeQueue.{make, write_next, get_next_to_read}
use vots.Runtime.LockFreeQueue.Refine.{IsValid, unread}
use vots.Runtime.LockFreeQueue.Threads.{
  Threads, Reach, started, later, write, move_write, commit, find, take_out, move_read, release,
}
use vots.Runtime.LockFreeQueue.Threads.Delivery.{received_in_order, between_calls}

-- The second write starts before the first element is read, and is committed while it is.
reading : (s : Threads ℕ) × Reach 2 0 s
unfolding make write_next get_next_to_read
reading = (
  _,
  later
      (later
        (later
          (later
            (later
              (later (later (later started (write 7 refl) (omega arith)) (move_write refl) tt)
                (commit refl) tt)
              (write 8 refl) (omega arith))
            (find 7 refl refl) tt)
          (take_out refl) tt)
        (move_write refl) tt)
      (move_read refl) tt,
)

quiet : (s : Threads ℕ) × Reach 2 0 s
unfolding make write_next get_next_to_read reading
quiet = (_, later (later reading.1 (commit refl) tt) (release refl (omega arith)) tt)

received_in_order_example :
    (reading.0.sent ≡ reading.0.received ++ drop (length reading.0.received) reading.0.sent)
    × (length (drop (length reading.0.received) reading.0.sent) ≤ reading.0.queue.capacity)
    × (1 ≤ reading.0.queue.num_elements)
unfolding reading
received_in_order_example = received_in_order 2 0 reading.0 (omega arith) (omega arith) reading.1

between_calls_example :
    (quiet.0.sent ≡ quiet.0.received ++ unread quiet.0.queue) × IsValid quiet.0.queue
unfolding quiet reading
between_calls_example = between_calls 2 0 quiet.0 (omega arith) (omega arith) quiet.1 refl refl

delivered : (quiet.0.sent ≡ 7 ∷ 8 ∷ []) × (quiet.0.received ≡ 7 ∷ [])
unfolding quiet reading
delivered = (refl, refl)

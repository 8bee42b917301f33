-- ===== src/Runtime/LockFreeQueue/Threads/Delivery.antt =====
-- What the consumer has received in every reachable state.
use native.Mathlib.Nat.{mod-add-mod}
use vots.Base.{
  ℕ, zero, suc, ◌+◌, ◌%◌, ◌^◌, ◌≤◌, ◌<◌, ◌≡◌, refl, sym, ap, ◌∙◌, some, List, [], ◌∷◌, ◌++◌, arith,
  none-ne-some, some_inj, length, get_elem?, drop, take-append-drop, length-drop,
}
use vots.Runtime.LockFreeQueue.Refine.{IsValid, unread, read_from}
use vots.Runtime.LockFreeQueue.Threads.{Producer, Consumer, Threads, Reach}
use vots.Runtime.LockFreeQueue.Threads.Order.{LieFrom, Reach-Inv, seen}

module _ {ℓ} {T : Type ℓ} where
  drop-get_elem? :
      (k : ℕ) (xs : List T) (x : T) → get_elem? xs k ≡ some x → drop k xs ≡ x ∷ drop (suc k) xs
  drop-get_elem? k [] x h = absurd (none-ne-some x h)
  drop-get_elem? zero (y ∷ xs) x h = ap (λ z. z ∷ xs) (some_inj h)
  drop-get_elem? (suc k) (y ∷ xs) x h = drop-get_elem? k xs x h

  drop-length : (k : ℕ) (xs : List T) → length xs ≤ k → drop k xs ≡ []
  drop-length zero [] h = refl
  drop-length zero (x ∷ xs) h = absurd (omega arith)
  drop-length (suc k) [] h = refl
  drop-length (suc k) (x ∷ xs) h = drop-length k xs (omega arith)

  -- Elements that lie in their slots are read in order.
  read_from-LieFrom :
      (cap : ℕ) (sent : List T) (store : ℕ → T) (n k h : ℕ)
      → h ≡ k % cap
      → length sent ≡ k + n
      → LieFrom cap k sent store
      → read_from store cap h n ≡ drop k sent
  read_from-LieFrom cap sent store zero k h at len lie =
      sym (drop-length k sent (omega (arith, len)))
  read_from-LieFrom cap sent store (suc n) k h at len lie =
      ap (λ l. store h ∷ l)
        (read_from-LieFrom cap sent store n (suc k) ((h + 1) % cap)
          (ap (λ i. (i + 1) % cap) at ∙ (mod-add-mod k cap 1 ∙ ap (λ i. i % cap) (omega arith)))
          (omega (arith, len)) (λ j from below. lie j (omega (arith, from)) below))
      ∙ sym (
          drop-get_elem? k sent (store h)
            (lie k (omega arith) (omega (arith, len)) ∙ ap (λ i. some (store i)) (sym at)))

  -- However the steps of the two threads interleave, as long as no write starts at a full queue:
  -- what the consumer has received is what the producer has sent, in the same order and from the
  -- start, but for the elements still under way, of which there are at most as many as the capacity;
  -- and from the moment that the consumer has found an element until it releases it, the count is
  -- not zero, so the assertion of UpdateReadIndex holds.
  pub received_in_order :
      (n : ℕ) (default : T) (s : Threads T)
      → 0 < n
      → n + 1 < 2 ^ 64
      → Reach n default s
      → (s.sent ≡ s.received ++ drop (length s.received) s.sent)
        × (length (drop (length s.received) s.sent) ≤ s.queue.capacity)
        × (seen s.consumer ≤ s.queue.num_elements)
  received_in_order n default s pos small r =
      let v = Reach-Inv n default s pos small r in
      (
        sym (take-append-drop (length s.received) s.sent)
            ∙ ap (λ l. l ++ drop (length s.received) s.sent) (sym v.in_order),
        omega (arith, length-drop (length s.received) s.sent, v.balance, v.fits),
        v.held,
      )

  -- However the steps of the two threads interleave, as long as no write starts at a full queue
  -- (the code does not test for it, and then loses elements): whenever both threads are between
  -- their calls, the queue is a valid one, and all that was sent is what was received, followed by
  -- the unread elements of the queue, as if each call had been one step.
  pub between_calls :
      (n : ℕ) (default : T) (s : Threads T)
      → 0 < n
      → n + 1 < 2 ^ 64
      → Reach n default s
      → s.producer ≡ Producer.idle
      → s.consumer ≡ Consumer.idle
      → (s.sent ≡ s.received ++ unread s.queue) × IsValid s.queue
  between_calls n default s pos small r e f =
      let v = Reach-Inv n default s pos small r in
      let even = rw (e, f) at v.balance in
      let at : s.queue.next_read_index ≡ length s.received % s.queue.capacity =
        rw f at v.read_at ∙ ap (λ k. k % s.queue.capacity) (omega arith) in
      let there : LieFrom s.queue.capacity (length s.received) s.sent s.queue.store =
        λ k from below. (rw f at v.lie) k (omega (arith, from)) below in
      let same : unread s.queue ≡ drop (length s.received) s.sent =
        read_from-LieFrom s.queue.capacity s.sent s.queue.store s.queue.num_elements
          (length s.received) s.queue.next_read_index at (omega (arith, even)) there in
      (
        (received_in_order n default s pos small r).0 ∙ ap (λ l. s.received ++ l) (sym same),
        record {
          read_in = omega (arith, at, v.some_room);
          ahead =
              rw e at v.write_at
              ∙ sym (
                  ap (λ k. (k + s.queue.num_elements) % s.queue.capacity) at
                  ∙ (mod-add-mod (length s.received) s.queue.capacity s.queue.num_elements
                      ∙ ap (λ k. k % s.queue.capacity) (omega (arith, even))));
          fits = omega (arith, v.fits);
          small = v.small;
        },
      )

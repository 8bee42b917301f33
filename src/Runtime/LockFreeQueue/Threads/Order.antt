-- ===== src/Runtime/LockFreeQueue/Threads/Order.antt =====
-- What holds between any two steps of the two threads.
use native.Mathlib.Nat.{mod-add-mod, mod-eq_of_lt}
use vots.Base.{
  ℕ, zero, suc, ◌+◌, ◌-◌, ◌%◌, ◌^◌, ◌≤◌, ◌<◌, ◌≡◌, ◌≢◌, refl, sym, ap, subst, ◌∙◌, inl, inr, some,
  List, [], ◌∷◌, ◌++◌, ◌==◌, update, update_self, update_ne, arith, Bool-cases, none-ne-some,
  some_inj, length, length-append, get_elem?, take, dec_lt,
}
use vots.Runtime.LockFreeQueue.{LockFreeQueue, make, write_next, get_next_to_read}
use vots.Runtime.LockFreeQueue.Refine.{step_round-ne}
use vots.Runtime.LockFreeQueue.Threads.{
  Producer, Consumer, Threads, Step, write, move_write, commit, find, take_out, move_read, release,
  HasSpace, Reach, started, later,
}

-- Elements written and not yet counted; index steps still to come.
abbrev uncounted : Producer → ℕ
uncounted Producer.idle = 0
uncounted _ = 1

abbrev unmoved : Producer → ℕ
unmoved Producer.written = 1
unmoved _ = 0

-- An element that the consumer has found and not released; has taken and not released; has taken and
-- not passed.
abbrev pub seen : Consumer → ℕ
seen Consumer.idle = 0
seen _ = 1

abbrev unreleased : Consumer → ℕ
unreleased Consumer.taken = 1
unreleased Consumer.advanced = 1
unreleased _ = 0

abbrev unpassed : Consumer → ℕ
unpassed Consumer.taken = 1
unpassed _ = 0

-- Two numbers less than `cap` apart have different slots.
slot-ne : (cap k n : ℕ) → 0 < cap → k < n → n - k < cap → n % cap ≢ k % cap
slot-ne cap k n pos less near e =
    step_round-ne cap (k % cap) (n - k) (omega arith) (omega arith) near
      (mod-add-mod k cap (n - k) ∙ (ap (λ i. i % cap) (omega arith) ∙ e))

unreleased-seen : (c : Consumer) → unreleased c ≤ seen c
unreleased-seen Consumer.idle = omega arith
unreleased-seen Consumer.found = omega arith
unreleased-seen Consumer.taken = omega arith
unreleased-seen Consumer.advanced = omega arith

module _ {ℓ} {T : Type ℓ} where
  -- From number `n` on, the elements of the list lie in their slots.
  abbrev pub LieFrom : ℕ → ℕ → List T → (ℕ → T) → Type ℓ
  LieFrom cap n sent store =
      (k : ℕ) → n ≤ k → k < length sent → get_elem? sent k ≡ some (store (k % cap))

  pub record Inv (s : Threads T) : Type ℓ where
    pub some_room : 0 < s.queue.capacity
    pub small : s.queue.capacity + 1 < 2 ^ 64
    pub write_at :
        s.queue.next_write_index ≡ (length s.sent - unmoved s.producer) % s.queue.capacity
    pub read_at :
        s.queue.next_read_index ≡ (length s.received - unpassed s.consumer) % s.queue.capacity
    pub begun : unreleased s.consumer ≤ length s.received
    pub balance :
        s.queue.num_elements + uncounted s.producer + length s.received
        ≡ length s.sent + unreleased s.consumer
    pub held : seen s.consumer ≤ s.queue.num_elements
    pub fits : s.queue.num_elements + uncounted s.producer ≤ s.queue.capacity
    pub in_order : s.received ≡ take (length s.received) s.sent
    pub lie :
        LieFrom s.queue.capacity (length s.received - unreleased s.consumer) s.sent s.queue.store

  get_elem?-append_left :
      (xs ys : List T) (k : ℕ) → k < length xs → get_elem? (xs ++ ys) k ≡ get_elem? xs k
  get_elem?-append_left [] ys k h = elim h [ ]
  get_elem?-append_left (x ∷ xs) ys zero h = refl
  get_elem?-append_left (x ∷ xs) ys (suc k) h = get_elem?-append_left xs ys k (omega arith)

  get_elem?-append_length : (xs : List T) (x : T) → get_elem? (xs ++ (x ∷ [])) (length xs) ≡ some x
  get_elem?-append_length [] x = refl
  get_elem?-append_length (y ∷ xs) x = get_elem?-append_length xs x

  take-append_left : (n : ℕ) (xs ys : List T) → n ≤ length xs → take n (xs ++ ys) ≡ take n xs
  take-append_left zero xs ys h = refl
  take-append_left (suc n) [] ys h = elim h [ ]
  take-append_left (suc n) (x ∷ xs) ys h = ap (λ l. x ∷ l) (take-append_left n xs ys (omega arith))

  take-get_elem? :
      (n : ℕ) (xs : List T) (x : T)
      → get_elem? xs n ≡ some x
      → take n xs ++ (x ∷ []) ≡ take (suc n) xs
  take-get_elem? n [] x h = absurd (none-ne-some x h)
  take-get_elem? zero (y ∷ xs) x h = rw (some_inj h) refl
  take-get_elem? (suc n) (y ∷ xs) x h = ap (λ l. y ∷ l) (take-get_elem? n xs x h)

  write-LieFrom :
      (cap n : ℕ) (sent : List T) (store : ℕ → T) (elem : T)
      → 0 < cap
      → length sent < n + cap
      → LieFrom cap n sent store
      → LieFrom cap n (sent ++ (elem ∷ [])) (update store (length sent % cap) elem)
  write-LieFrom cap n sent store elem pos near lie k from below = elim (dec_lt k (length sent)) [
    | yes old ↦
        get_elem?-append_left sent (elem ∷ []) k old
        ∙ (lie k from old
            ∙ ap some (
                sym (
                  update_ne store (length sent % cap) elem (k % cap)
                    (slot-ne cap k (length sent) pos old (omega arith)))))
    | no new ↦
        let same : k ≡ length sent = omega (arith, length-append sent (elem ∷ [])) in
        rw same (
          get_elem?-append_length sent elem
          ∙ ap some (sym (update_self store (length sent % cap) elem)))
  ]

  Inv-write :
      (s : Threads T) (elem : T)
      → Inv s
      → s.producer ≡ Producer.idle
      → s.queue.num_elements < s.queue.capacity
      → Inv (record s {
        queue = write_next s.queue elem;
        producer = Producer.written;
        sent = s.sent ++ (elem ∷ []);
      })
  unfolding write_next
  Inv-write s elem v e room =
      let longer = length-append s.sent (elem ∷ []) in
      let at : s.queue.next_write_index ≡ length s.sent % s.queue.capacity =
        rw e at v.write_at ∙ ap (λ n. n % s.queue.capacity) (omega arith) in
      let even = rw e at v.balance in
      record {
        some_room = v.some_room;
        small = v.small;
        write_at = at ∙ ap (λ n. n % s.queue.capacity) (omega (arith, longer));
        read_at = v.read_at;
        begun = v.begun;
        balance = omega (arith, longer, even);
        held = v.held;
        fits = omega (arith, room);
        in_order =
            v.in_order
            ∙ sym (
                take-append_left (length s.received) s.sent (elem ∷ [])
                  (omega (arith, even, v.held, unreleased-seen s.consumer)));
        lie =
            subst
              (λ i.
                LieFrom s.queue.capacity (length s.received - unreleased s.consumer)
                  (s.sent ++ (elem ∷ [])) (update s.queue.store i elem))
              (sym at)
              (write-LieFrom s.queue.capacity (length s.received - unreleased s.consumer) s.sent
                s.queue.store elem v.some_room (omega (arith, even, v.begun, room)) v.lie);
      }

  get_next_to_read-some :
      (q : LockFreeQueue T) (x : T) → get_next_to_read q ≡ some x → 1 ≤ q.num_elements
  unfolding get_next_to_read
  get_next_to_read-some q x e = elim (Bool-cases (q.num_elements == 0)) [
    | inl empty ↦ absurd (none-ne-some x (rw empty at e))
    | inr left ↦ ground arith
  ]

  Inv-Step : (s t : Threads T) (m : Step s t) → Inv s → HasSpace m → Inv t
  Inv-Step s t (write elem e) v room = Inv-write s elem v e room
  Inv-Step s t (move_write e) v room =
      let even = rw e at v.balance in
      record {
        some_room = v.some_room;
        small = v.small;
        write_at =
            ap (λ n. (n + 1) % s.queue.capacity) (rw e at v.write_at)
            ∙ (mod-add-mod (length s.sent - 1) s.queue.capacity 1
                ∙ ap (λ n. n % s.queue.capacity) (omega (arith, even, v.begun)));
        read_at = v.read_at;
        begun = v.begun;
        balance = even;
        held = v.held;
        fits = rw e at v.fits;
        in_order = v.in_order;
        lie = v.lie;
      }
  Inv-Step s t (commit e) v room =
      let even = rw e at v.balance in
      let within = rw e at v.fits in
      let wrap : (s.queue.num_elements + 1) % 2 ^ 64 ≡ s.queue.num_elements + 1 =
        omega (arith, within, v.small) in
      record {
        some_room = v.some_room;
        small = v.small;
        write_at = rw e at v.write_at;
        read_at = v.read_at;
        begun = v.begun;
        balance = omega (arith, even, wrap);
        held = omega (arith, v.held, wrap);
        fits = omega (arith, within, wrap);
        in_order = v.in_order;
        lie = v.lie;
      }
  Inv-Step s t (find x e there) v room = record {
    some_room = v.some_room;
    small = v.small;
    write_at = v.write_at;
    read_at = rw e at v.read_at;
    begun = rw e at v.begun;
    balance = rw e at v.balance;
    held = get_next_to_read-some s.queue x there;
    fits = v.fits;
    in_order = v.in_order;
    lie = rw e at v.lie;
  }
  Inv-Step s t (take_out e) v room =
      let even = rw e at v.balance in
      let at = rw e at v.read_at in
      let x = s.queue.store s.queue.next_read_index in
      let longer = length-append s.received (x ∷ []) in
      let one_more : suc (length s.received) ≡ length (s.received ++ (x ∷ [])) =
        omega (arith, longer) in
      let there =
        v.lie (length s.received) (omega arith)
          (omega (arith, even, subst (λ c. seen c ≤ s.queue.num_elements) e v.held)) in
      record {
        some_room = v.some_room;
        small = v.small;
        write_at = v.write_at;
        read_at = at ∙ ap (λ n. n % s.queue.capacity) (omega (arith, longer));
        begun = omega (arith, longer);
        balance = omega (arith, even, longer);
        held = rw e at v.held;
        fits = v.fits;
        in_order =
            ap (λ l. l ++ (x ∷ [])) v.in_order
            ∙ (take-get_elem? (length s.received) s.sent x (
                  there
                  ∙ ap (λ i. some (s.queue.store i))
                      (sym (at ∙ ap (λ n. n % s.queue.capacity) (omega arith))))
                ∙ ap (λ n. take n s.sent) one_more);
        lie = λ k from below. v.lie k (omega (arith, longer, from)) below;
      }
  Inv-Step s t (move_read e) v room =
      let even = rw e at v.balance in
      let begun = rw e at v.begun in
      record {
        some_room = v.some_room;
        small = v.small;
        write_at = v.write_at;
        read_at =
            ap (λ n. (n + 1) % s.queue.capacity) (rw e at v.read_at)
            ∙ (mod-add-mod (length s.received - 1) s.queue.capacity 1
                ∙ ap (λ n. n % s.queue.capacity) (omega (arith, begun)));
        begun = begun;
        balance = even;
        held = rw e at v.held;
        fits = v.fits;
        in_order = v.in_order;
        lie = rw e at v.lie;
      }
  Inv-Step s t (release e left) v room =
      let even = rw e at v.balance in
      let held = rw e at v.held in
      record {
        some_room = v.some_room;
        small = v.small;
        write_at = v.write_at;
        read_at = rw e at v.read_at;
        begun = omega arith;
        balance = omega (arith, even, held);
        held = omega arith;
        fits = omega (arith, v.fits);
        in_order = v.in_order;
        lie = λ k from below. v.lie k (omega (arith, from)) below;
      }

  pub Reach-Inv :
      (n : ℕ) (default : T) (s : Threads T) → 0 < n → n + 1 < 2 ^ 64 → Reach n default s → Inv s
  unfolding make
  Reach-Inv n default _ pos small started = record {
    some_room = pos;
    small = small;
    write_at = sym (mod-eq_of_lt pos);
    read_at = sym (mod-eq_of_lt pos);
    begun = omega arith;
    balance = omega arith;
    held = omega arith;
    fits = omega arith;
    in_order = refl;
    lie = λ k from below. absurd (elim below [ ]);
  }
  Reach-Inv n default t pos small (later {s} r m room) =
      Inv-Step s t m (Reach-Inv n default s pos small r) room

-- ===== src/Runtime/MemoryPool/Capacity.antt =====
-- When an allocation succeeds: the pool must keep one block free behind it.
use vots.Base.{
  ℕ, zero, suc, ◌+◌, ◌-◌, ◌≡◌, ◌≢◌, ◌≤◌, ◌<◌, inl, inr, ap, true, false, none, some, arith, ◌==◌,
  leb, if◌then◌else◌, Bool-cases, Option-cases,
}
use vots.Runtime.MemoryPool.{
  MemoryPool, ObjectBlock, IsValid, after_index, next_free, update_next_free_index, take_block,
  allocate,
}
use vots.Runtime.MemoryPool.Bounds.{next_free_bounds}

-- The rounds from index `i` until the search is back at the initial index.
abbrev rounds_left : ℕ → ℕ → ℕ → ℕ
rounds_left size initial i = if leb initial i then size - i + initial else initial - i

-- How one step of the search moves, in terms of the rounds left.
record Stepped (size initial i : ℕ) : Type 0 where
  below : after_index size i < size
  last : after_index size i ≡ initial → rounds_left size initial i ≡ 1
  fewer :
      after_index size i ≢ initial
      → rounds_left size initial (after_index size i) + 1 ≡ rounds_left size initial i

after_index-Stepped : (size initial i : ℕ) → initial < size → i < size → Stepped size initial i
after_index-Stepped size initial i hn hi = record {
  below = ground arith;
  last = λ e. ground arith;
  fewer = λ ne. ground arith;
}

rounds_left_pos : (size initial j : ℕ) → initial < size → j < size → 0 < rounds_left size initial j
rounds_left_pos size initial j hn hj = ground arith

rounds_left-injective :
    (size initial i j : ℕ)
    → initial < size
    → i < size
    → j < size
    → rounds_left size initial i ≡ rounds_left size initial j
    → i ≡ j
rounds_left-injective size initial i j hn hi hj e = ground arith

eq_of_beq : (a b : ℕ) → (a == b) ≡ true → b ≡ a
eq_of_beq a b h = ground arith

ne_of_beq : (a b : ℕ) → (a == b) ≡ false → b ≢ a
ne_of_beq a b h = ground arith

module _ {ℓ} {T : Type ℓ} (store : ℕ → ObjectBlock T) (size initial : ℕ) (j : ℕ) where
  used-ne-free : (i : ℕ) → (store i).is_free ≡ false → (store j).is_free ≡ true → i ≢ j
  used-ne-free i u f e = cc (ap (λ k. (store k).is_free) e)

  -- With fuel for the rounds left, the search finds a free block that lies ahead of it.
  next_free_total :
      (fuel i : ℕ)
      → initial < size
      → i < size
      → j < size
      → (store j).is_free ≡ true
      → rounds_left size initial j ≤ rounds_left size initial i
      → rounds_left size initial i ≤ fuel
      → (k : ℕ) × (next_free fuel store size initial i ≡ some k)
  unfolding next_free
  next_free_total zero i hn hi hj f ahead enough =
      absurd (omega (arith, rounds_left_pos size initial i hn hi))
  next_free_total (suc fuel) i hn hi hj f ahead enough = elim (Bool-cases (store i).is_free) [
    | inl e ↦ (i, rw e)
    | inr e ↦
        let apart : rounds_left size initial i ≢ rounds_left size initial j =
          λ q. used-ne-free i e f (rounds_left-injective size initial i j hn hi hj q) in
        let s = after_index-Stepped size initial i hn hi in
        elim (Bool-cases (initial == after_index size i)) [
          | inl back ↦
              let once = s.last (eq_of_beq _ _ back) in
              absurd (omega (arith, rounds_left_pos size initial j hn hj))
          | inr on ↦
              let fewer = s.fewer (ne_of_beq _ _ on) in
              rw (e, on)
                (next_free_total fuel (after_index size i) hn s.below hj f (omega arith)
                  (omega arith))
        ]
  ]

-- If no block is free, the search finds none.
used_everywhere {ℓ} :
    {T : Type ℓ} (store : ℕ → ObjectBlock T) (size initial fuel i k : ℕ)
    → i < size
    → ((j : ℕ) → j < size → (store j).is_free ≡ false)
    → next_free fuel store size initial i ≢ some k
used_everywhere store size initial fuel i k hi all e =
    let b = next_free_bounds fuel store size initial i k hi e in cc (all k b.0)

-- An allocation from a valid pool succeeds if some block other than the next one is free: the
-- search has enough fuel to reach it.
pub allocate_total {ℓ} :
    {T : Type ℓ} (p : MemoryPool T) (elem : T) (j : ℕ)
    → IsValid p
    → j < p.size
    → j ≢ p.next_free_index
    → (p.store j).is_free ≡ true
    → (q : MemoryPool T) × (allocate p elem ≡ some (p.next_free_index, q))
unfolding allocate update_next_free_index
allocate_total p elem j v hj ne f =
    let nfi = p.next_free_index in
    let found =
      next_free_total (take_block p elem).store p.size nfi j p.size nfi v.in_range v.in_range hj
        (ground arith) (ground arith) (ground arith) in
    (record (take_block p elem) { next_free_index = found.0 }, ground (arith, found.1))

-- A valid pool whose other blocks are all in use cannot allocate its last block: one block of a
-- pool always stays unused.
pub allocate_last {ℓ} :
    {T : Type ℓ} (p : MemoryPool T) (elem : T)
    → IsValid p
    → ((j : ℕ) → j < p.size → j ≢ p.next_free_index → (p.store j).is_free ≡ false)
    → allocate p elem ≡ none
unfolding allocate update_next_free_index
allocate_last {T} p elem v all =
    elim (Option-cases (next_free p.size (take_block p elem).store p.size nfi nfi)) [
      | inl e ↦ ground arith
      | inr (k, e) ↦
          absurd
            (used_everywhere (take_block p elem).store p.size nfi p.size nfi k v.in_range used e)
    ]
  where
    open p use {next_free_index as nfi}

    used : (j : ℕ) → j < p.size → ((take_block p elem).store j).is_free ≡ false
    used j h = elim (Bool-cases (nfi == j)) [
      | inl e ↦ ground arith
      | inr e ↦ ground (arith, all j h)
    ]

-- ===== src/Book/Queue/Counting.antt =====
-- ToString of the order books: the printer of a level, which adds up the orders at its price.
use vots.Base.{
  ℕ, zero, suc, ◌+◌, ◌^◌, ◌%◌, ◌≤◌, ◌≡◌, ◌≢◌, refl, sym, ◌∙◌, inl, inr, Option, none, some, List,
  [], ◌∷◌, if◌then◌else◌, ◌>>=◌, length, arith, ne-beq, ==_iff,
}
use vots.Base.Int.{ℤ}
use vots.Book.{Ladder, order_at, level_at}
use vots.Book.Levels.{points_to}
use vots.Book.Queue.{nexts, prevs, Queue, in_ring}
use vots.Book.Rings.{IsIn, Chain}

-- A printed level: the numbers in its text.
pub record PrintedLevel : Type 0 where
  pub price : ℤ
  pub prev_price : ℤ
  pub next_price : ℤ
  pub qty : ℕ
  pub num_orders : ℕ

wrapped : (o q t : ℕ) → ((q + o) % 2 ^ 32 + t) % 2 ^ 32 ≡ (q + (o + t)) % 2 ^ 32
wrapped o q t = omega arith

same_counts :
    {q q' n n' : ℕ} → q ≡ q' → n ≡ n' → ◌≡◌ {A = Option (ℕ × ℕ)} (some (q, n)) (some (q', n'))
same_counts e k = rw (e, k) refl

module _ {K : Type 0} where
  -- The first loop of the printer from one of the orders, on fuel; `qty` is a 32-bit word. The second
  -- one goes through the same orders and only appends their texts.
  unfoldable pub count_orders : ℕ → Ladder K → ℕ → ℕ → ℕ → ℕ → Option (ℕ × ℕ)
  count_orders zero l first itr qty num = none
  count_orders (suc fuel) l first itr qty num =
      let sum = (qty + (order_at l itr).qty) % 2 ^ 32 in
      let next = (order_at l itr).next_order in
      let rest = next >>= λ n. count_orders fuel l first n sum (num + 1) in
      if points_to next first then some (sum, num + 1) else rest

  -- The text also names the prices of the levels before and after, whose pointers are followed.
  unfoldable pub print_level : Ladder K → ℕ → Option PrintedLevel
  unfolding count_orders
  print_level l itr = do
    first ← (level_at l itr).first_order
    counted ← count_orders l.order_pool.size l first first 0 0
    before ← (level_at l itr).prev_entry
    after ← (level_at l itr).next_entry
    some (record {
      price = (level_at l itr).price;
      prev_price = (level_at l before).price;
      next_price = (level_at l after).price;
      qty = counted.0;
      num_orders = counted.1;
    })

  abbrev pub total_qty : Ladder K → List ℕ → ℕ
  total_qty l [] = 0
  total_qty l (x ∷ xs) = (order_at l x).qty + total_qty l xs

  -- What is printed of a level between two others, with the orders `xs`.
  abbrev pub printed : Ladder K → ℕ → ℕ → ℕ → List ℕ → PrintedLevel
  printed l before level after xs = record {
    price = (level_at l level).price;
    prev_price = (level_at l before).price;
    next_price = (level_at l after).price;
    qty = total_qty l xs % 2 ^ 32;
    num_orders = length xs;
  }

  count_orders-all :
      (fuel : ℕ) (l : Ladder K) (first itr qty num : ℕ) (rest : List ℕ)
      → Chain (nexts l) (prevs l) itr rest first
      → ((x : ℕ) → IsIn x rest → first ≢ x)
      → length (itr ∷ rest) ≤ fuel
      → count_orders fuel l first itr qty num
        ≡ some ((qty + total_qty l (itr ∷ rest)) % 2 ^ 32, num + length (itr ∷ rest))
  unfolding count_orders
  count_orders-all zero l first itr qty num rest c d f = absurd (omega (arith, f))
  count_orders-all (suc fuel) l first itr qty num [] c d f =
      rw (c.0, (==_iff first first).1 refl) (same_counts (ground arith) refl)
  count_orders-all (suc fuel) l first itr qty num (x ∷ xs) c d f =
      let o = (order_at l itr).qty in
      let rest =
        count_orders-all fuel l first x ((qty + o) % 2 ^ 32) (num + 1) xs c.2 (λ y i. d y (inr i))
          (omega (arith, f)) in
      rw (c.0, ne-beq x first (λ e. d x (inl refl) (sym e)), rest)
        (same_counts (wrapped o qty (total_qty l (x ∷ xs))) (omega arith))

  pub print_level-all :
      (l : Ladder K) (before level after : ℕ) (xs : List ℕ)
      → Queue l level xs
      → (level_at l level).prev_entry ≡ some before
      → (level_at l level).next_entry ≡ some after
      → length xs ≤ l.order_pool.size
      → print_level l level ≡ some (printed l before level after xs)
  unfolding print_level
  print_level-all l before level after _ (in_ring first rest starts c d) prev next room =
      let counted =
        count_orders-all l.order_pool.size l first first 0 0 rest c d.0 room
        ∙ same_counts {q' = total_qty l (first ∷ rest) % 2 ^ 32} {n' = length (first ∷ rest)}
            (ground arith) (omega arith) in
      rw (starts, counted, prev, next) refl

-- ===== src/Book/Orders.antt =====
-- AddOrder, RemoveOrder and GetNextPriority: the circular list of the orders at a price. The tables
-- from identifiers to orders are kept by the two books themselves.
use vots.Base.{ℕ, ◌+◌, ◌%◌, ◌^◌, Option, none, some, if◌then◌else◌, ◌>>=◌}
use vots.Base.Int.{ℤ}
use vots.Runtime.MemoryPool.{allocate, deallocate}
use vots.Book.{Ladder, order_at, level_at, set_order, set_level, get_orders_at_price}
use vots.Book.Levels.{points_to, add_orders_at_price, remove_orders_at_price}

module _ {K : Type 0} where
  -- The insertion behind the last order of a level.
  unfoldable pub append_order : Ladder K → ℕ → ℕ → Option (Ladder K)
  append_order l first order = do
    last ← (order_at l first).prev_order
    let l₁ = set_order l last (record (order_at l last) { next_order = some order })
    let l₂ =
        set_order l₁ order
          (record (order_at l₁ order) { prev_order = (order_at l₁ first).prev_order })
    let l₃ = set_order l₂ order (record (order_at l₂ order) { next_order = some first })
    some (set_order l₃ first (record (order_at l₃ first) { prev_order = some order }))

  -- AddOrder, but for the table of orders.
  unfoldable pub add_order : Ladder K → ℕ → Option (Ladder K)
  unfolding append_order
  add_order l order = elim (get_orders_at_price l (order_at l order).price) [
    | none ↦ do
      let l₁ =
          set_order l order
            (record (order_at l order) { prev_order = some order; next_order = some order })
      new ← allocate l₁.orders_at_price_pool (record {
        side = (order_at l₁ order).side;
        price = (order_at l₁ order).price;
        first_order = some order;
        prev_entry = none;
        next_entry = none;
      })
      add_orders_at_price (record l₁ { orders_at_price_pool = new.1 }) new.0
    | some level ↦ do first ← (level_at l level).first_order; append_order l first order
  ]

  -- "remove the link": an order that is not the only one at its price.
  unfoldable pub unlink_order : Ladder K → Option ℕ → ℕ → Option (Ladder K)
  unlink_order l level order = do
    order_before ← (order_at l order).prev_order
    order_after ← (order_at l order).next_order
    let l₁ =
        set_order l order_before
          (record (order_at l order_before) { next_order = some order_after })
    let l₂ =
        set_order l₁ order_after
          (record (order_at l₁ order_after) { prev_order = some order_before })
    at ← level
    let l₃ =
        if points_to (level_at l₂ at).first_order order
        then set_level l₂ at (record (level_at l₂ at) { first_order = some order_after })
        else l₂
    some (set_order l₃ order (record (order_at l₃ order) { prev_order = none; next_order = none }))

  -- RemoveOrder, but for the table of orders.
  unfoldable pub remove_order : Ladder K → ℕ → Option (Ladder K)
  unfolding unlink_order
  remove_order l order = do
    let o = order_at l order
    l' ←
        if points_to o.prev_order order
        then remove_orders_at_price l o.side o.price
        else unlink_order l (get_orders_at_price l o.price) order
    pool ← deallocate l'.order_pool order
    some (record l' { order_pool = pool })

  unfoldable pub get_next_priority : Ladder K → ℤ → Option ℕ
  get_next_priority l price = elim (get_orders_at_price l price) [
    | none ↦ some 1
    | some level ↦ do
      first ← (level_at l level).first_order
      last ← (order_at l first).prev_order
      some (((order_at l last).priority + 1) % 2 ^ 64)
  ]

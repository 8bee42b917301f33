-- ===== src/Book/Levels.antt =====
-- AddOrdersAtPrice and RemoveOrdersAtPrice: the circular list of price levels of a side.
pub mod Linking
pub mod Finding
pub mod Places
pub mod Linked
pub mod Insertion
pub mod BestFirst
pub mod Unlinking
pub mod Printing
use vots.Base.{
  ℕ, zero, suc, Bool, true, false, Option, none, some, if◌then◌else◌, ◌&&◌, ◌||◌, ◌==◌, not, update,
  ◌>>=◌,
}
use vots.Base.Int.{ℤ, ltb_ℤ}
use vots.Types.{Side, side_eq}
use vots.Runtime.MemoryPool.{deallocate}
use vots.Book.{
  Ladder, OrdersAtPrice, level_at, set_level, price_to_index, get_orders_at_price, best_of,
  set_best,
}

-- The test that the source repeats: the new level comes after the target.
unfoldable pub goes_after : OrdersAtPrice → OrdersAtPrice → Bool
goes_after new target =
    (side_eq new.side Side.sell && ltb_ℤ target.price new.price)
    || (side_eq new.side Side.buy && ltb_ℤ new.price target.price)

-- The new level is better than the best one.
unfoldable pub goes_before : OrdersAtPrice → OrdersAtPrice → Bool
goes_before new best =
    (side_eq new.side Side.buy && ltb_ℤ best.price new.price)
    || (side_eq new.side Side.sell && ltb_ℤ new.price best.price)

-- A comparison of a pointer that may be null with one that is not.
abbrev pub points_to : Option ℕ → ℕ → Bool
points_to none p = false
points_to (some q) p = q == p

module _ {K : Type 0} where
  -- The `while` of AddOrdersAtPrice, on fuel: the target and `add_after` where it ends.
  unfoldable pub find_target : ℕ → Ladder K → OrdersAtPrice → ℕ → ℕ → Bool → Option (ℕ × Bool)
  unfolding goes_after
  find_target zero l new best target add_after = none
  find_target (suc fuel) l new best target add_after =
      let rest = (level_at l target).next_entry >>= λ next. find_target fuel l new best next true in
      if add_after && not (target == best)
      then if goes_after new (level_at l target) then rest else some (target, false)
      else some (target, add_after)

  -- The target from which the search starts, and `add_after` there.
  unfoldable pub start_target : Ladder K → OrdersAtPrice → ℕ → Option (ℕ × Bool)
  unfolding goes_after
  start_target l new best =
      if goes_after new (level_at l best)
      then ((level_at l best).next_entry >>= λ next. some (next, goes_after new (level_at l next)))
      else some (best, false)

  -- "add new_orders_at_price after target"
  unfoldable pub link_after : Ladder K → ℕ → ℕ → ℕ → Option (Ladder K)
  link_after l new best found = do
    target ← if found == best then (level_at l best).prev_entry else some found
    let l₁ = set_level l new (record (level_at l new) { prev_entry = some target })
    after ← (level_at l₁ target).next_entry
    let l₂ = set_level l₁ after (record (level_at l₁ after) { prev_entry = some new })
    let l₃ =
        set_level l₂ new (record (level_at l₂ new) { next_entry = (level_at l₂ target).next_entry })
    some (set_level l₃ target (record (level_at l₃ target) { next_entry = some new }))

  -- "add new_orders_at_price before target", which may become the best level.
  unfoldable pub link_before : Ladder K → ℕ → ℕ → ℕ → Option (Ladder K)
  unfolding goes_before
  link_before l new best target = do
    let l₁ = set_level l new (record (level_at l new) {
      prev_entry = (level_at l target).prev_entry;
      next_entry = some target;
    })
    before ← (level_at l₁ target).prev_entry
    let l₂ = set_level l₁ before (record (level_at l₁ before) { next_entry = some new })
    let l₃ = set_level l₂ target (record (level_at l₂ target) { prev_entry = some new })
    some (
        if goes_before (level_at l₃ new) (level_at l₃ best)
        then set_best
            (set_level l₃ target (record (level_at l₃ target) {
              next_entry =
                  if points_to (level_at l₃ target).next_entry best
                  then some new
                  else (level_at l₃ target).next_entry;
            }))
            (level_at l₃ new).side (some new)
        else l₃)

  unfoldable pub add_orders_at_price : Ladder K → ℕ → Option (Ladder K)
  unfolding start_target find_target link_after link_before
  add_orders_at_price l new =
      let level = level_at l new in
      let l' = record l {
        price_orders_at_price =
            update l.price_orders_at_price (price_to_index level.price) (some new);
      } in
      elim (best_of l' level.side) [
        | none ↦ some (
            set_level (set_best l' level.side (some new)) new
              (record level { prev_entry = some new; next_entry = some new }))
        | some best ↦ do
          start ← start_target l' level best
          found ← find_target l.orders_at_price_pool.size l' level best start.0 start.1
          if found.1 then link_after l' new best found.0 else link_before l' new best found.0
      ]

  -- The unlinking of a level that is not the only one of its side.
  unfoldable pub unlink_level : Ladder K → Side → ℕ → Option (Ladder K)
  unlink_level l side level = do
    before ← (level_at l level).prev_entry
    let l₁ =
        set_level l before
          (record (level_at l before) { next_entry = (level_at l level).next_entry })
    after ← (level_at l₁ level).next_entry
    let l₂ =
        set_level l₁ after
          (record (level_at l₁ after) { prev_entry = (level_at l₁ level).prev_entry })
    let l₃ =
        if points_to (best_of l side) level
        then set_best l₂ side (level_at l₂ level).next_entry
        else l₂
    some (set_level l₃ level (record (level_at l₃ level) { prev_entry = none; next_entry = none }))

  unfoldable pub remove_orders_at_price : Ladder K → Side → ℤ → Option (Ladder K)
  unfolding unlink_level
  remove_orders_at_price l side price = do
    level ← get_orders_at_price l price
    l' ←
        if points_to (level_at l level).next_entry level
        then some (set_best l side none)
        else unlink_level l side level
    pool ← deallocate l'.orders_at_price_pool level
    some (record l' {
      price_orders_at_price = update l'.price_orders_at_price (price_to_index price) none;
      orders_at_price_pool = pool;
    })

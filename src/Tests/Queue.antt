-- ===== src/Tests/Queue.antt =====
-- The orders at one price, in src/include/matching_engine/exchange_order_book.hpp.
use vots.Base.{ℕ, ◌≡◌, refl, false, none, some, [], ◌∷◌, arith, if◌then◌else◌, ◌==◌}
use vots.Base.Int.{pos}
use vots.Types.{Side}
use vots.Book.{Ladder, Order, OrdersAtPrice, order_at, get_orders_at_price}
use vots.Book.Orders.{add_order, remove_order}
use vots.Book.Queue.{Queue, in_ring}
use vots.Book.Queue.Append.{SameData, add_order-Queue}
use vots.Book.Queue.Unlink.{remove_order-Queue}

abbrev level : OrdersAtPrice
level = record {
  side = Side.buy;
  price = pos 100;
  first_order = some 4;
  prev_entry = some 0;
  next_entry = some 0;
}

abbrev order : ℕ → ℕ → Order ℕ
order prev next = record {
  ids = prev;
  side = Side.buy;
  price = pos 100;
  qty = 10;
  priority = 1;
  prev_order = some prev;
  next_order = some next;
}

-- The orders 4, 5 and 6 have come in this sequence.
abbrev ladder : Ladder ℕ
ladder = record {
  orders_at_price_pool = record {
    store = λ _. record { object = level; is_free = false };
    size = 2;
    next_free_index = 1;
  };
  bids_by_price = some 0;
  asks_by_price = none;
  price_orders_at_price = λ _. some 0;
  order_pool = record {
    store = λ i. record {
      object =
          if i == 4
          then order 6 5
          else if i == 5
          then order 4 6
          else if i == 6
          then order 5 4
          else order 0 0;
      is_free = false;
    };
    size = 9;
    next_free_index = 8;
  };
}

three : Queue ladder 0 (4 ∷ 5 ∷ 6 ∷ [])
three =
    in_ring 4 (5 ∷ 6 ∷ []) refl (refl, refl, (refl, refl, (refl, refl)))
      ((λ y i. omega (arith, i)), ((λ y i. omega (arith, i)), ((λ y i. elim i [ ]), tt)))

add_order-Queue_example :
    (l : Ladder ℕ) × (add_order ladder 7 ≡ some l)
    × Queue l 0 (4 ∷ 5 ∷ 6 ∷ 7 ∷ [])
    × ((x : ℕ) → SameData (order_at ladder x) (order_at l x))
unfolding get_orders_at_price
add_order-Queue_example =
    add_order-Queue ladder 0 7 (4 ∷ 5 ∷ 6 ∷ []) refl three (λ x i. omega (arith, i))

remove_order-Queue_example :
    (l : Ladder ℕ) × (remove_order ladder 5 ≡ some l) × Queue l 0 (4 ∷ 6 ∷ [])
unfolding get_orders_at_price
remove_order-Queue_example =
    remove_order-Queue ladder 0 5 (4 ∷ []) (6 ∷ []) refl (omega arith) refl three (λ e. cc)

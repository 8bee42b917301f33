-- ===== src/Tests/Levels.antt =====
-- The levels of a side, in src/include/matching_engine/exchange_order_book.hpp.
use vots.Base.{
  ℕ, ◌≡◌, refl, sym, subst, ◌⊎◌, inl, inr, ◌≤◌, length, ◌+◌, true, false, none, some, List, [], ◌∷◌,
  ◌++◌, arith, if◌then◌else◌, ◌==◌,
}
use vots.Base.Int.{ℤ, pos}
use vots.Types.{Side}
use vots.Book.{Ladder, OrdersAtPrice, get_orders_at_price}
use vots.Book.Levels.{add_orders_at_price, remove_orders_at_price, goes_after}
use vots.Book.Levels.Linked.{Levels, in_ring}
use vots.Book.Levels.BestFirst.{IsBestFirst, add_orders_at_price-IsBestFirst}
use vots.Book.Levels.Printing.{print_side, print_side-checks, IsInOrder, HaveQueues, all_printed}
use vots.Book.Queue.{Queue}
use vots.Book.Queue.Counting.{print_level}
use vots.Book.Levels.Unlinking.{remove_orders_at_price-Levels}

abbrev level : ℤ → ℕ → OrdersAtPrice
level price other = record {
  side = Side.buy;
  price = price;
  first_order = some 0;
  prev_entry = some other;
  next_entry = some other;
}

-- Bids at 100 and 90, and a level at 95 that is not linked yet.
abbrev bids : Ladder ℕ
bids = record {
  orders_at_price_pool = record {
    store = λ i. record {
      object =
          if i == 0
          then level (pos 100) 1
          else if i == 1
          then level (pos 90) 0
          else level (pos 95) 2;
      is_free = false;
    };
    size = 4;
    next_free_index = 3;
  };
  bids_by_price = some 0;
  asks_by_price = none;
  price_orders_at_price = λ _. none;
  order_pool = record {
    store = λ _. record {
      object = record {
        ids = 0;
        side = Side.buy;
        price = pos 100;
        qty = 1;
        priority = 1;
        prev_order = some 0;
        next_order = some 0;
      };
      is_free = false;
    };
    size = 2;
    next_free_index = 1;
  };
}

add_orders_at_price-IsBestFirst_example :
    (l : Ladder ℕ) × (add_orders_at_price bids 2 ≡ some l)
    × (xs : List ℕ) × (ys : List ℕ) × (0 ∷ 1 ∷ [] ≡ xs ++ ys)
    × Levels l Side.buy (xs ++ 2 ∷ ys)
    × IsBestFirst l (xs ++ 2 ∷ ys)
unfolding goes_after
add_orders_at_price-IsBestFirst_example =
    add_orders_at_price-IsBestFirst bids 2 (0 ∷ 1 ∷ []) (inl refl)
      (in_ring 0 (1 ∷ []) refl (refl, refl, (refl, refl))
        ((λ y i. omega (arith, i)), ((λ y i. elim i [ ]), tt)))
      ((λ q i. ground (arith, i)), ((λ q i. elim i [ ]), tt)) (λ x i. ground (arith, i))
      (λ x i. omega (arith, i)) (λ x i. ground (arith, i)) (omega arith)

-- The level at 95 in the table, linked with the one at 100.
abbrev two_bids : Ladder ℕ
two_bids = record bids {
  orders_at_price_pool = record bids.orders_at_price_pool {
    store = λ i. record {
      object = if i == 0 then level (pos 100) 1 else level (pos 95) 0;
      is_free = false;
    };
  };
  price_orders_at_price = λ _. some 0;
}

remove_orders_at_price-Levels_example :
    (l : Ladder ℕ) × (remove_orders_at_price two_bids Side.buy (pos 100) ≡ some l)
    × Levels l Side.buy (1 ∷ [])
unfolding get_orders_at_price
remove_orders_at_price-Levels_example =
    remove_orders_at_price-Levels two_bids Side.buy (pos 100) 0 [] (1 ∷ []) refl (omega arith) refl
      (in_ring 0 (1 ∷ []) refl (refl, refl, (refl, refl))
        ((λ y i. omega (arith, i)), ((λ y i. elim i [ ]), tt)))
      (λ e. cc)

-- One order in each level, 0 in that at 100 and 1 in that at 90.
abbrev filled : Ladder ℕ
filled = record bids {
  orders_at_price_pool = record bids.orders_at_price_pool {
    store = λ i. record {
      object =
          if i == 0
          then record (level (pos 100) 1) { first_order = some 0 }
          else record (level (pos 90) 0) { first_order = some 1 };
      is_free = false;
    };
  };
  order_pool = record bids.order_pool {
    store = λ i. record {
      object = record {
        ids = 0;
        side = Side.buy;
        price = pos 100;
        qty = i + 5;
        priority = 1;
        prev_order = some i;
        next_order = some i;
      };
      is_free = false;
    };
  };
}

abbrev single : ℕ → List ℕ
single x = x ∷ []

filled-HaveQueues : HaveQueues filled single (0 ∷ 1 ∷ [])
filled-HaveQueues x (inl e) =
    subst (λ z. Queue filled z (single z) × (length (single z) ≤ 2)) (sym e)
      (Queue.in_ring 0 [] refl (refl, refl) ((λ y i. elim i [ ]), tt), omega arith)
filled-HaveQueues x (inr (inl e)) =
    subst (λ z. Queue filled z (single z) × (length (single z) ≤ 2)) (sym e)
      (Queue.in_ring 1 [] refl (refl, refl) ((λ y i. elim i [ ]), tt), omega arith)
filled-HaveQueues x (inr (inr k)) = elim k [ ]

print_side-checks_example :
    (IsInOrder filled Side.buy 0 (1 ∷ [])
      × (print_side filled true Side.buy ≡ some (all_printed filled single 0 1 0 (1 ∷ []))))
    ⊎ ((¬ IsInOrder filled Side.buy 0 (1 ∷ [])) × (print_side filled true Side.buy ≡ none))
print_side-checks_example =
    print_side-checks filled Side.buy 0 (1 ∷ []) single (inl refl)
      (in_ring 0 (1 ∷ []) refl (refl, refl, (refl, refl))
        ((λ y i. omega (arith, i)), ((λ y i. elim i [ ]), tt)))
      (λ x i. ground (arith, i)) filled-HaveQueues (omega arith)

-- The bids at 100 and 90 pass the check; at 90 and 100 they do not.
abbrev turned : Ladder ℕ
turned = record filled { bids_by_price = some 1 }

bids_pass :
    print_side filled true Side.buy
    ≡ some (
        record {
          price = pos 100;
          prev_price = pos 90;
          next_price = pos 90;
          qty = 5;
          num_orders = 1;
        }
        ∷ record {
          price = pos 90;
          prev_price = pos 100;
          next_price = pos 100;
          qty = 6;
          num_orders = 1;
        }
        ∷ [])
unfolding print_side print_level
bids_pass = refl

turned_fail : print_side turned true Side.buy ≡ none
unfolding print_side print_level
turned_fail = refl

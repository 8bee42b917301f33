-- ===== src/Trading/OrderBook/Following.antt =====
-- The best bid and offer against the levels and orders of the book.
use vots.Base.{
  ℕ, Bool, zero, suc, ◌+◌, ◌%◌, ◌^◌, ◌≡◌, ◌≢◌, refl, sym, ap, subst, ◌∙◌, ◌⊎◌, inl, inr, true,
  false, Option, none, some, List, [], ◌∷◌, ◌==◌, Bool-cases, Option-cases, >>=-eq-some, some_inj,
  none-ne-some, arith, ==_iff,
}
use vots.Base.Int.{ℤ, ◌≤ℤ◌}
use vots.Types.{Side, price_invalid, qty_invalid}
use vots.Messages.{MeMarketUpdate, MarketUpdateType}
use vots.Book.{Ladder, order_at, level_at}
use vots.Book.Queue.Counting.{total_qty}
use vots.Trading.OrderBook.{
  TradingOrderBook, sum_qty, best_price_qty, bid_updated, ask_updated, Callback, is_trade,
  on_market_update,
}
use vots.Trading.OrderBook.Best.{Refreshed, reread, kept, bid_of, ask_of, on_market_update-Flagged}

-- The orders from a link on until the first order of the queue.
pub data Walk (l : Ladder ℕ) (first : ℕ) : Option ℕ → List ℕ → Type 0 where
  back : Walk l first (some first) []
  onward :
      (order : ℕ) (xs : List ℕ)
      → order ≢ first
      → Walk l first (order_at l order).next_order xs
      → Walk l first (some order) (order ∷ xs)

-- The price and the quantity of the best level of a side: both invalid without a level, else the
-- level's price and the sum of the quantities of all its orders, modulo 2^32.
pub data IsBest (l : Ladder ℕ) : Option ℕ → ℤ × ℕ → Type 0 where
  absent : IsBest l none (price_invalid, qty_invalid)
  present :
      (level first : ℕ) (xs : List ℕ) (qty : ℕ)
      → (level_at l level).first_order ≡ some first
      → Walk l first (order_at l first).next_order xs
      → qty % 2 ^ 32 ≡ total_qty l (first ∷ xs) % 2 ^ 32
      → IsBest l (some level) ((level_at l level).price, qty)

-- The update is for a buy order at the best bid or above it, as the book was before.
abbrev pub TouchesBid : TradingOrderBook → MeMarketUpdate → Type 0
TouchesBid b u =
    (best : ℕ) × (b.ladder.bids_by_price ≡ some best)
    × (u.side ≡ Side.buy)
    × ((level_at b.ladder best).price ≤ℤ u.price)

-- The update is for a sell order at the best offer or below it.
abbrev pub TouchesAsk : TradingOrderBook → MeMarketUpdate → Type 0
TouchesAsk b u =
    (best : ℕ) × (b.ladder.asks_by_price ≡ some best)
    × (u.side ≡ Side.sell)
    × (u.price ≤ℤ (level_at b.ladder best).price)

-- A side is the best one of the new book when it is touched, and else as before.
abbrev pub FollowedSide : Type 0 → Ladder ℕ → Option ℕ → (old new : ℤ × ℕ) → Type 0
FollowedSide Touched l best old new = (Touched × IsBest l best new) ⊎ ((¬ Touched) × (new ≡ old))

pub record Followed (b b' : TradingOrderBook) (u : MeMarketUpdate) : Type 0 where
  pub bid :
      FollowedSide (TouchesBid b u) b'.ladder b'.ladder.bids_by_price (bid_of b.bbo) (bid_of b'.bbo)
  pub ask :
      FollowedSide (TouchesAsk b u) b'.ladder b'.ladder.asks_by_price (ask_of b.bbo) (ask_of b'.bbo)

next_sum :
    (q o t r : ℕ)
    → r % 2 ^ 32 ≡ ((q + o) % 2 ^ 32 + t) % 2 ^ 32
    → r % 2 ^ 32 ≡ (q + (o + t)) % 2 ^ 32
next_sum q o t r h = omega (arith, h)

sum_qty-Walk :
    (fuel : ℕ) (l : Ladder ℕ) (first : ℕ) (order : Option ℕ) (qty r : ℕ)
    → sum_qty fuel l first order qty ≡ some r
    → (xs : List ℕ) × Walk l first order xs × (r % 2 ^ 32 ≡ (qty + total_qty l xs) % 2 ^ 32)
unfolding sum_qty
sum_qty-Walk zero l first order qty r e = absurd (none-ne-some r e)
sum_qty-Walk (suc fuel) l first none qty r e = absurd (none-ne-some r e)
sum_qty-Walk (suc fuel) l first (some order) qty r e = elim (Bool-cases (order == first)) [
  | inl same ↦ (
    [],
    subst (λ o. Walk l first (some o) []) (sym ((==_iff order first).0 same)) back,
    ap (λ n. n % 2 ^ 32) (sym (some_inj (rw same at e)) ∙ omega arith),
  )
  | inr other ↦
      let (xs, walk, sum) =
        sum_qty-Walk fuel l first (order_at l order).next_order
          ((qty + (order_at l order).qty) % 2 ^ 32) r (rw other at e) in
      (
        order ∷ xs,
        onward order xs (λ same. absurd (cc (rw ((==_iff order first).1 same) at other))) walk,
        next_sum qty (order_at l order).qty (total_qty l xs) r sum,
      )
]

best_price_qty-IsBest :
    (l : Ladder ℕ) (best : Option ℕ) (x : ℤ × ℕ) → best_price_qty l best ≡ some x → IsBest l best x
unfolding best_price_qty
best_price_qty-IsBest l none x e = subst (IsBest l none) (some_inj e) absent
best_price_qty-IsBest l (some level) x e =
    let (first, starts, e₁) = >>=-eq-some (level_at l level).first_order _ e in
    let (qty, summed, e₂) =
      >>=-eq-some
        (sum_qty l.order_pool.size l first (order_at l first).next_order (order_at l first).qty) _
        e₁ in
    let (xs, walk, sum) =
      sum_qty-Walk l.order_pool.size l first (order_at l first).next_order (order_at l first).qty
        qty summed in
    subst (IsBest l (some level)) (some_inj e₂) (present level first xs qty starts walk sum)

bid_updated-touches :
    (b : TradingOrderBook) (u : MeMarketUpdate) → bid_updated b u ≡ true → TouchesBid b u
unfolding bid_updated
bid_updated-touches b u e = elim (Option-cases b.ladder.bids_by_price) [
  | inl empty ↦ absurd (cc (rw empty at e))
  | inr (best, found) ↦ (best, found, ground (arith, rw found at e), ground (arith, rw found at e))
]

touches-bid_updated :
    (b : TradingOrderBook) (u : MeMarketUpdate) → TouchesBid b u → bid_updated b u ≡ true
unfolding bid_updated
touches-bid_updated b u (best, found, side, price) = rw found (ground arith)

ask_updated-touches :
    (b : TradingOrderBook) (u : MeMarketUpdate) → ask_updated b u ≡ true → TouchesAsk b u
unfolding ask_updated
ask_updated-touches b u e = elim (Option-cases b.ladder.asks_by_price) [
  | inl empty ↦ absurd (cc (rw empty at e))
  | inr (best, found) ↦ (best, found, ground (arith, rw found at e), ground (arith, rw found at e))
]

touches-ask_updated :
    (b : TradingOrderBook) (u : MeMarketUpdate) → TouchesAsk b u → ask_updated b u ≡ true
unfolding ask_updated
touches-ask_updated b u (best, found, side, price) = rw found (ground arith)

Refreshed-followed :
    (Touched : Type 0) (l : Ladder ℕ) (best : Option ℕ) (old new : ℤ × ℕ) (flag : Bool)
    → (flag ≡ true → Touched)
    → (Touched → flag ≡ true)
    → Refreshed l best old new flag
    → FollowedSide Touched l best old new
Refreshed-followed Touched l best old new _ there only (reread read) =
    inl (there refl, best_price_qty-IsBest l best new read)
Refreshed-followed Touched l best old new _ there only (kept same) =
    inr ((λ t. absurd (cc (only t))), same)

not_trade : (t : MarketUpdateType) → t ≢ MarketUpdateType.trade → is_trade t ≡ false
not_trade t h = ground arith

-- After an update that is no trade, the best bid is that of the changed book (the price of its best
-- level, and the sum of the quantities of the level's orders modulo 2^32, or both invalid without a
-- level) exactly if before the change there was a best bid and the update was for a buy order at its
-- price or above; else it is as before. The best offer likewise, for a sell order at its price or
-- below.
pub on_market_update-Followed :
    (b b' : TradingOrderBook) (u : MeMarketUpdate) (call : Callback)
    → u.type ≢ MarketUpdateType.trade
    → on_market_update b u ≡ some (b', call)
    → Followed b b' u
on_market_update-Followed b b' u call other e =
    let f = on_market_update-Flagged b b' u call (not_trade u.type other) e in
    record {
      bid =
          Refreshed-followed (TouchesBid b u) b'.ladder b'.ladder.bids_by_price (bid_of b.bbo)
            (bid_of b'.bbo) (bid_updated b u) (bid_updated-touches b u) (touches-bid_updated b u)
            f.bid;
      ask =
          Refreshed-followed (TouchesAsk b u) b'.ladder b'.ladder.asks_by_price (ask_of b.bbo)
            (ask_of b'.bbo) (ask_updated b u) (ask_updated-touches b u) (touches-ask_updated b u)
            f.ask;
    }

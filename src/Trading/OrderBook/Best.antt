-- ===== src/Trading/OrderBook/Best.antt =====
-- How the best bid and offer follow the flags of OnMarketUpdate.
use vots.Base.{
  ℕ, ◌≡◌, refl, sym, ap, subst, ◌∙◌, inl, inr, Bool, true, false, Option, none, some, if◌then◌else◌,
  ◌>>=◌, ltb, Bool-cases, >>=-eq-some, some_inj, none-ne-some,
}
use vots.Base.Int.{ℤ}
use vots.Messages.{MeMarketUpdate, MarketUpdateType}
use vots.Types.{me_max_order_ids}
use vots.Runtime.MemoryPool.{allocate}
use vots.Book.{Ladder}
use vots.Book.Orders.{add_order, remove_order}
use vots.Trading.{Bbo}
use vots.Trading.OrderBook.{
  TradingOrderBook, best_price_qty, set_bid, set_ask, update_bbo, Callback, bid_updated,
  ask_updated, set_oid, order_of, apply_add, apply_modify, apply_cancel, apply_clear, free_orders,
  free_side, apply_update, is_trade, on_market_update,
}

-- A side of the best bid and offer, as it is after a step: read from the book, or as before.
pub data Refreshed (l : Ladder ℕ) (best : Option ℕ) (old new : ℤ × ℕ) : Bool → Type 0 where
  reread : best_price_qty l best ≡ some new → Refreshed l best old new true
  kept : new ≡ old → Refreshed l best old new false

abbrev pub bid_of : Bbo → ℤ × ℕ
bid_of b = (b.bid_price, b.bid_qty)

abbrev pub ask_of : Bbo → ℤ × ℕ
ask_of b = (b.ask_price, b.ask_qty)

-- What a step that is no trade does to the best bid and offer, by the flags of the code.
pub record Flagged (b b' : TradingOrderBook) (u : MeMarketUpdate) : Type 0 where
  pub bid :
      Refreshed b'.ladder b'.ladder.bids_by_price (bid_of b.bbo) (bid_of b'.bbo) (bid_updated b u)
  pub ask :
      Refreshed b'.ladder b'.ladder.asks_by_price (ask_of b.bbo) (ask_of b'.bbo) (ask_updated b u)

-- One side of UpdateBbo.
side_Refreshed :
    (l : Ladder ℕ) (best : Option ℕ) (flag : Bool) (bbo after : Bbo)
    → (set : Bbo → ℤ × ℕ → Bbo) (get : Bbo → ℤ × ℕ) → ((x : ℤ × ℕ) → get (set bbo x) ≡ x)
    → (if flag then (best_price_qty l best >>= λ x. some (set bbo x)) else some bbo) ≡ some after
    → Refreshed l best (get bbo) (get after) flag
side_Refreshed l best true bbo after set get law e =
    let (x, found, same) = >>=-eq-some (best_price_qty l best) _ e in
    reread (found ∙ ap some (sym (law x) ∙ ap get (some_inj same)))
side_Refreshed l best false bbo after set get law e = kept (ap get (sym (some_inj e)))

-- One side of UpdateBbo leaves the other alone.
side_other :
    (l : Ladder ℕ) (best : Option ℕ) (flag : Bool) (bbo after : Bbo)
    → (set : Bbo → ℤ × ℕ → Bbo) (get : Bbo → ℤ × ℕ) → ((x : ℤ × ℕ) → get (set bbo x) ≡ get bbo)
    → (if flag then (best_price_qty l best >>= λ x. some (set bbo x)) else some bbo) ≡ some after
    → get after ≡ get bbo
side_other l best true bbo after set get law e =
    let (x, found, same) = >>=-eq-some (best_price_qty l best) _ e in
    ap get (sym (some_inj same)) ∙ law x
side_other l best false bbo after set get law e = ap get (sym (some_inj e))

update_bbo-Refreshed :
    (b b' : TradingOrderBook) (bid ask : Bool)
    → update_bbo b bid ask ≡ some b'
    → (b'.ladder ≡ b.ladder)
      × Refreshed b.ladder b.ladder.bids_by_price (bid_of b.bbo) (bid_of b'.bbo) bid
      × Refreshed b.ladder b.ladder.asks_by_price (ask_of b.bbo) (ask_of b'.bbo) ask
unfolding update_bbo
update_bbo-Refreshed b b' bid ask e =
    let (first, e₁, rest) =
      >>=-eq-some
        (if bid
          then (best_price_qty b.ladder b.ladder.bids_by_price >>= λ best.
              some (set_bid b.bbo best))
          else some b.bbo)
        _ e in
    let (second, e₂, last) =
      >>=-eq-some
        (if ask
          then (best_price_qty b.ladder b.ladder.asks_by_price >>= λ best.
              some (set_ask first best))
          else some first)
        _ rest in
    let same = some_inj last in
    let bids =
      side_Refreshed b.ladder b.ladder.bids_by_price bid b.bbo first set_bid bid_of (λ x. refl)
        e₁ in
    let asks =
      side_Refreshed b.ladder b.ladder.asks_by_price ask first second set_ask ask_of (λ x. refl)
        e₂ in
    let bid_kept =
      side_other b.ladder b.ladder.asks_by_price ask first second set_ask bid_of (λ x. refl) e₂ in
    let ask_kept =
      side_other b.ladder b.ladder.bids_by_price bid b.bbo first set_bid ask_of (λ x. refl) e₁ in
    (
      ap (λ (x : TradingOrderBook). x.ladder) (sym same),
      subst (λ x. Refreshed b.ladder b.ladder.bids_by_price (bid_of b.bbo) x bid)
          (sym bid_kept ∙ ap (λ (x : TradingOrderBook). bid_of x.bbo) same) bids,
      subst (λ x. Refreshed b.ladder b.ladder.asks_by_price x (ask_of b'.bbo) ask) ask_kept
          (subst (λ x. Refreshed b.ladder b.ladder.asks_by_price (ask_of first) x ask)
            (ap (λ (x : TradingOrderBook). ask_of x.bbo) same) asks),
    )

-- The changes of the book leave the best bid and offer to UpdateBbo.
set_oid-bbo :
    (b b' : TradingOrderBook) (oid : ℕ) (order : Option ℕ)
    → set_oid b oid order ≡ some b'
    → b'.bbo ≡ b.bbo
unfolding set_oid
set_oid-bbo b b' oid order e = elim (Bool-cases (ltb oid me_max_order_ids)) [
  | inl known ↦ ap (λ (x : TradingOrderBook). x.bbo) (sym (some_inj (rw known at e)))
  | inr unknown ↦ absurd (none-ne-some b' (rw unknown at e))
]

apply_add-bbo :
    (b b' : TradingOrderBook) (u : MeMarketUpdate) → apply_add b u ≡ some b' → b'.bbo ≡ b.bbo
unfolding apply_add
apply_add-bbo b b' u e =
    let (new, e₁, e₂) = >>=-eq-some (allocate b.ladder.order_pool _) _ e in
    let (l, e₃, e₄) = >>=-eq-some (add_order (record b.ladder { order_pool = new.1 }) new.0) _ e₂ in
    set_oid-bbo (record b { ladder = l }) b' u.order_id (some new.0) e₄

apply_modify-bbo :
    (b b' : TradingOrderBook) (u : MeMarketUpdate) → apply_modify b u ≡ some b' → b'.bbo ≡ b.bbo
unfolding apply_modify
apply_modify-bbo b b' u e =
    let (order, e₁, e₂) = >>=-eq-some (order_of b u.order_id) _ e in
    ap (λ (x : TradingOrderBook). x.bbo) (sym (some_inj e₂))

apply_cancel-bbo :
    (b b' : TradingOrderBook) (u : MeMarketUpdate) → apply_cancel b u ≡ some b' → b'.bbo ≡ b.bbo
unfolding apply_cancel
apply_cancel-bbo b b' u e =
    let (order, e₁, e₂) = >>=-eq-some (order_of b u.order_id) _ e in
    let (l, e₃, e₄) = >>=-eq-some (remove_order b.ladder order) _ e₂ in
    set_oid-bbo (record b { ladder = l }) b' _ none e₄

apply_clear-bbo : (b b' : TradingOrderBook) → apply_clear b ≡ some b' → b'.bbo ≡ b.bbo
unfolding apply_clear
apply_clear-bbo b b' e =
    let (orders, e₁, e₂) =
      >>=-eq-some (free_orders me_max_order_ids 0 b.oid_to_order b.ladder.order_pool) _ e in
    let (bids, e₃, e₄) =
      >>=-eq-some (free_side b.ladder.bids_by_price b.ladder.orders_at_price_pool) _ e₂ in
    let (levels, e₅, e₆) = >>=-eq-some (free_side b.ladder.asks_by_price bids) _ e₄ in
    ap (λ (x : TradingOrderBook). x.bbo) (sym (some_inj e₆))

apply_update-bbo :
    (t : MarketUpdateType) (b b' : TradingOrderBook) (u : MeMarketUpdate)
    → apply_update t b u ≡ some b'
    → b'.bbo ≡ b.bbo
unfolding apply_update
apply_update-bbo MarketUpdateType.add b b' u e = apply_add-bbo b b' u e
apply_update-bbo MarketUpdateType.modify b b' u e = apply_modify-bbo b b' u e
apply_update-bbo MarketUpdateType.cancel b b' u e = apply_cancel-bbo b b' u e
apply_update-bbo MarketUpdateType.clear b b' u e = apply_clear-bbo b b' e
apply_update-bbo MarketUpdateType.invalid b b' u e =
    ap (λ (x : TradingOrderBook). x.bbo) (sym (some_inj e))
apply_update-bbo MarketUpdateType.trade b b' u e =
    ap (λ (x : TradingOrderBook). x.bbo) (sym (some_inj e))
apply_update-bbo MarketUpdateType.snapshot_start b b' u e =
    ap (λ (x : TradingOrderBook). x.bbo) (sym (some_inj e))
apply_update-bbo MarketUpdateType.snapshot_end b b' u e =
    ap (λ (x : TradingOrderBook). x.bbo) (sym (some_inj e))

-- The two flags decide which side is read again.
pub on_market_update-Flagged :
    (b b' : TradingOrderBook) (u : MeMarketUpdate) (call : Callback)
    → is_trade u.type ≡ false
    → on_market_update b u ≡ some (b', call)
    → Flagged b b' u
unfolding on_market_update
on_market_update-Flagged b b' u call other e =
    let (changed, e₁, e₂) = >>=-eq-some (apply_update u.type b u) _ (rw other at e) in
    let (updated, e₃, e₄) =
      >>=-eq-some (update_bbo changed (bid_updated b u) (ask_updated b u)) _ e₂ in
    let same = ap (λ (x : TradingOrderBook × Callback). x.0) (some_inj e₄) in
    let kept_bbo = apply_update-bbo u.type b changed u e₁ in
    let (ladder, bid, ask) =
      update_bbo-Refreshed changed updated (bid_updated b u) (ask_updated b u) e₃ in
    subst (λ x. Flagged b x u) same
      (record {
        bid = rw ladder (
            subst
              (λ x.
                Refreshed changed.ladder changed.ladder.bids_by_price (bid_of x)
                  (bid_of updated.bbo) (bid_updated b u))
              kept_bbo bid);
        ask = rw ladder (
            subst
              (λ x.
                Refreshed changed.ladder changed.ladder.asks_by_price (ask_of x)
                  (ask_of updated.bbo) (ask_updated b u))
              kept_bbo ask);
      })

-- ===== src/Exchange/OrderBook/Filling.antt =====
-- Match makes a fill of the first order at the best price.
use vots.Base.{
  ℕ, ◌+◌, ◌-◌, ◌≡◌, refl, sym, ap, subst, subst₂, ◌∙◌, inl, inr, Option, none, some, List, [], ◌∷◌,
  append_assoc, append-nil, ◌==◌, >>=-eq-some, Bool-cases, arith, sum_by, ==_iff,
}
use vots.Base.Int.{ℤ}
use vots.Messages.{MeMarketUpdate}
use vots.Book.{order_at, level_at}
use vots.Book.Orders.{remove_order}
use vots.Exchange.OrderBook.{
  ExchangeOrderBook, ExchangeOrder, OrderIds, Incoming, Sent, update_of, set_client_order,
  remove_order_of, fill_responses, fill_qty, fill_book, completion_update, partial_update,
  match_order, send_market_update,
}
use vots.Exchange.OrderBook.Trading.{
  traded, rested, other_best, Accepts, taker_report, maker_report, trade_of, Reduced, Remains, gone,
  reduced, Sends, Sends-trans, Fill,
}

pub set_client_order-Sends :
    (b b' : ExchangeOrderBook) (client_id order_id : ℕ) (order : Option ℕ)
    → set_client_order b client_id order_id order ≡ some b'
    → Sends b [] b'
unfolding set_client_order
set_client_order-Sends b b' client_id order_id order e = ground (arith, append-nil b.sent)

pub set_client_order-entry :
    (b b' : ExchangeOrderBook) (client_id order_id : ℕ) (order : Option ℕ)
    → set_client_order b client_id order_id order ≡ some b'
    → b'.cid_oid_to_order client_id order_id ≡ order
unfolding set_client_order
set_client_order-entry b b' client_id order_id order e = ground arith

pub remove_order_of-Sends :
    (b b' : ExchangeOrderBook) (order : ℕ) → remove_order_of b order ≡ some b' → Sends b [] b'
unfolding remove_order_of
remove_order_of-Sends b b' order e = ground (arith, append-nil b.sent)

pub set_client_order-ladder :
    (b b' : ExchangeOrderBook) (client_id order_id : ℕ) (order : Option ℕ)
    → set_client_order b client_id order_id order ≡ some b'
    → b'.ladder ≡ b.ladder
unfolding set_client_order
set_client_order-ladder b b' client_id order_id order e = ground arith

remove_order_of-entry :
    (b b' : ExchangeOrderBook) (order : ℕ)
    → remove_order_of b order ≡ some b'
    → let ids = (order_at b.ladder order).ids in
      (remove_order b.ladder order ≡ some b'.ladder)
      × (b'.cid_oid_to_order ids.client_id ids.client_order_id ≡ none)
unfolding remove_order_of
remove_order_of-entry b b' order e =
    let ids = (order_at b.ladder order).ids in
    let (l, removed, e₁) = >>=-eq-some (remove_order b.ladder order) _ e in
    let c = record b { ladder = l } in
    (
      removed
          ∙ ap some (sym (set_client_order-ladder c b' ids.client_id ids.client_order_id none e₁)),
      set_client_order-entry c b' ids.client_id ids.client_order_id none e₁,
    )

pub some-pair-injective :
    {A : Type 0} {m n : ℕ} {a b : A}
    → ◌≡◌ {A = Option (ℕ × A)} (some (m, a)) (some (n, b))
    → (m ≡ n) × (a ≡ b)
some-pair-injective e = (cc, cc)

-- The messages of a match are sent one behind the other.
sent_in_order :
    (b : ExchangeOrderBook) (incoming : Incoming) (itr qty : ℕ) (u : MeMarketUpdate)
    → let order = order_at b.ladder itr in
      let fill = fill_qty b itr qty in
      Sends b
        (taker_report incoming order fill (qty - fill)
          ∷ maker_report incoming order fill (order.qty - fill)
          ∷ trade_of incoming order fill
          ∷ update_of u
          ∷ [])
        (send_market_update (fill_book b incoming itr qty) u)
unfolding fill_book fill_responses
sent_in_order b incoming itr qty u = record {
  added = append_assoc b.sent _ (update_of u ∷ []);
  same_next_id = refl;
  same_ticker = refl;
}

fill_book-Reduced :
    (b : ExchangeOrderBook) (incoming : Incoming) (itr qty : ℕ)
    → Reduced b.ladder itr
        ((order_at b.ladder itr).qty - fill_qty b itr qty)
        (fill_book b incoming itr qty).ladder
unfolding fill_book
fill_book-Reduced b incoming itr qty = record {
  less = ground arith;
  others = λ x apart. ground arith;
}

module _ (b : ExchangeOrderBook) (incoming : Incoming) (limit : ℤ) (level itr qty : ℕ)
    (best : other_best b.ladder incoming.side ≡ some level)
    (first : (level_at b.ladder level).first_order ≡ some itr)
    (accepted : Accepts incoming.side limit (order_at b.ladder itr).price) where
  open_fill :
      (u : MeMarketUpdate) (c : ExchangeOrderBook)
      → let order = order_at b.ladder itr in
        let fill = fill_qty b itr qty in
        Remains incoming itr b c (order.qty - fill) u
        → Sends (send_market_update (fill_book b incoming itr qty) u) [] c
        → (events : List Sent) × Fill incoming limit b qty events (qty - fill) c
  open_fill u c remains sends =
      let order = order_at b.ladder itr in
      let fill = fill_qty b itr qty in
      (
        _,
        record {
          level = level;
          itr = itr;
          fill = fill;
          kept = order.qty - fill;
          update = u;
          best = best;
          first = first;
          accepted = accepted;
          smaller = ground arith;
          taken = ground arith;
          given = ground arith;
          told = refl;
          remains = remains;
          sends =
              subst (λ l. Sends b l c) (append-nil _)
                (Sends-trans b (send_market_update (fill_book b incoming itr qty) u) c _ []
                  (sent_in_order b incoming itr qty u) sends);
        },
      )

  -- A match that returns is a fill of the first order at the best price.
  pub match_order-Fill :
      (left : ℕ) (b' : ExchangeOrderBook)
      → match_order b incoming itr qty ≡ some (left, b')
      → (events : List Sent) × Fill incoming limit b qty events left b'
  unfolding match_order
  match_order-Fill left b' e =
      let order = order_at b.ladder itr in
      let fill = fill_qty b itr qty in
      let filled = fill_book b incoming itr qty in
      elim (Bool-cases ((order.qty - fill) == 0)) [
        | inl done ↦
            let u = completion_update incoming order in
            let (c, removed, same) =
              >>=-eq-some (remove_order_of (send_market_update filled u) itr)
                (λ d. some (qty - fill, d)) (rw done at e) in
            let (p, q) = some-pair-injective same in
            let less = fill_book-Reduced b incoming itr qty in
            let ids = ap (λ (o : ExchangeOrder). o.ids) less.less in
            let (unlinked, no_entry) =
              remove_order_of-entry (send_market_update filled u) c itr removed in
            let entry =
              subst (λ (i : OrderIds). c.cid_oid_to_order i.client_id i.client_order_id ≡ none) ids
                no_entry in
            let zero = (==_iff (order.qty - fill) 0).0 done in
            subst₂ (λ l d. (events : List Sent) × Fill incoming limit b qty events l d) p q
              (open_fill u c
                (subst (λ k. Remains incoming itr b c k u) (sym zero)
                  (gone filled.ladder (subst (λ k. Reduced b.ladder itr k filled.ladder) zero less)
                    unlinked entry))
                (remove_order_of-Sends (send_market_update filled u) c itr removed))
        | inr partial ↦
            let u = partial_update incoming order (order.qty - fill) in
            let (p, q) = some-pair-injective (rw partial at e) in
            subst₂ (λ l d. (events : List Sent) × Fill incoming limit b qty events l d) p q
              (open_fill u (send_market_update filled u)
                (reduced (order.qty - fill)
                  (λ z. absurd (cc (rw ((==_iff (order.qty - fill) 0).1 z) at partial)))
                  (fill_book-Reduced b incoming itr qty))
                (record { added = sym (append-nil _); same_next_id = refl; same_ticker = refl }))
      ]

Remains-sums :
    {incoming : Incoming} {itr kept : ℕ} {b b' : ExchangeOrderBook} {u : MeMarketUpdate}
    → Remains incoming itr b b' kept u
    → (traded (update_of u) ≡ 0) × (rested (update_of u) ≡ 0)
Remains-sums (gone l r e n) = (refl, refl)
Remains-sums (reduced k n r) = (refl, refl)

-- The fill adds up.
pub Fill-sums :
    {incoming : Incoming} {limit : ℤ} {b b' : ExchangeOrderBook} {qty left : ℕ} {events : List Sent}
    → Fill incoming limit b qty events left b'
    → (sum_by traded events + left ≡ qty) × (sum_by rested events ≡ 0)
Fill-sums f =
    let no_more = Remains-sums f.remains in
    rw f.told (omega (arith, f.taken, no_more.0), omega (arith, no_more.1))

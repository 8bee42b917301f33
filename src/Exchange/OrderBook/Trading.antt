-- ===== src/Exchange/OrderBook/Trading.antt =====
-- What a match of an incoming order with a resting one is, field by field.
use vots.Base.{
  ℕ, ◌+◌, ◌≡◌, ◌≢◌, refl, ap, ◌∙◌, ◌⊎◌, true, false, Option, none, some, List, [], ◌∷◌, ◌++◌,
  append_assoc, arith,
}
use vots.Base.Int.{ℤ, ◌≤ℤ◌}
use vots.Types.{Side, order_id_invalid, priority_invalid}
use vots.Messages.{MeMarketUpdate, MarketUpdateType, ClientResponseType}
use vots.Book.{Ladder, order_at, level_at}
use vots.Book.Orders.{remove_order}
use vots.Exchange.OrderBook.{
  ExchangeOrderBook, ExchangeOrder, OrderIds, Incoming, Sent, response, update_of, too_far,
  opposite_best,
}

-- The quantity of a trade that is announced.
abbrev pub traded : Sent → ℕ
traded (response r) = 0
traded (update_of u) = elim u.type [ MarketUpdateType.trade ↦ u.qty | _ ↦ 0 ]

-- The quantity of an order that is announced as resting in the book.
abbrev pub rested : Sent → ℕ
rested (response r) = 0
rested (update_of u) = elim u.type [ MarketUpdateType.add ↦ u.qty | _ ↦ 0 ]

-- The best level that an order of a side can trade with: the offers for a buyer, the bids for a
-- seller.
abbrev pub other_best : Ladder OrderIds → Side → Option ℕ
other_best l Side.buy = l.asks_by_price
other_best l Side.sell = l.bids_by_price
other_best l Side.invalid = none
other_best l Side.max = none

-- A buyer pays its limit at most, a seller takes its limit at least.
abbrev pub Accepts : Side → (limit price : ℤ) → Type 0
Accepts Side.buy limit price = price ≤ℤ limit
Accepts Side.sell limit price = limit ≤ℤ price
Accepts Side.invalid limit price = ⊥
Accepts Side.max limit price = ⊥

pub opposite_best-other_best :
    (l : Ladder OrderIds) (side : Side) → opposite_best l side ≡ other_best l side
opposite_best-other_best l Side.buy = refl
opposite_best-other_best l Side.sell = refl
opposite_best-other_best l Side.invalid = refl
opposite_best-other_best l Side.max = refl

pub near-Accepts :
    (l : Ladder OrderIds) (side : Side) (level : ℕ) (limit price : ℤ)
    → other_best l side ≡ some level
    → too_far side limit price ≡ false
    → Accepts side limit price
near-Accepts l Side.buy level limit price best near = ground arith
near-Accepts l Side.sell level limit price best near = ground arith
near-Accepts l Side.invalid level limit price best near = absurd (cc)
near-Accepts l Side.max level limit price best near = absurd (cc)

pub far-Accepts :
    (side : Side) (limit price : ℤ) → too_far side limit price ≡ true → ¬ Accepts side limit price
far-Accepts Side.buy limit price far a = ground arith
far-Accepts Side.sell limit price far a = ground arith
far-Accepts Side.invalid limit price far a = a
far-Accepts Side.max limit price far a = a

-- The report of a fill to the owner of the incoming order, and to that of the resting one.
abbrev pub taker_report : Incoming → ExchangeOrder → (fill left : ℕ) → Sent
taker_report incoming order fill left = response (record {
  type = ClientResponseType.filled;
  client_id = incoming.client_id;
  ticker_id = incoming.ticker_id;
  client_order_id = incoming.client_order_id;
  market_order_id = incoming.market_order_id;
  side = incoming.side;
  price = order.price;
  exec_qty = fill;
  leaves_qty = left;
})

abbrev pub maker_report : Incoming → ExchangeOrder → (fill kept : ℕ) → Sent
maker_report incoming order fill kept = response (record {
  type = ClientResponseType.filled;
  client_id = order.ids.client_id;
  ticker_id = incoming.ticker_id;
  client_order_id = order.ids.client_order_id;
  market_order_id = order.ids.market_order_id;
  side = order.side;
  price = order.price;
  exec_qty = fill;
  leaves_qty = kept;
})

-- The trade that is published.
abbrev pub trade_of : Incoming → ExchangeOrder → (fill : ℕ) → Sent
trade_of incoming order fill = update_of (record {
  type = MarketUpdateType.trade;
  order_id = order_id_invalid;
  ticker_id = incoming.ticker_id;
  side = incoming.side;
  price = order.price;
  qty = fill;
  priority = priority_invalid;
})

-- The updates upon a complete and upon a partial execution.
abbrev pub gone_update : Incoming → ExchangeOrder → MeMarketUpdate
gone_update incoming order = record {
  type = MarketUpdateType.cancel;
  order_id = order.ids.market_order_id;
  ticker_id = incoming.ticker_id;
  side = order.side;
  price = order.price;
  qty = order.qty;
  priority = priority_invalid;
}

abbrev pub reduced_update : Incoming → ExchangeOrder → (kept : ℕ) → MeMarketUpdate
reduced_update incoming order kept = record {
  type = MarketUpdateType.modify;
  order_id = order.ids.market_order_id;
  ticker_id = incoming.ticker_id;
  side = order.side;
  price = order.price;
  qty = kept;
  priority = order.priority;
}

-- Of the orders only one has changed, and only in its quantity.
pub record Reduced (l : Ladder OrderIds) (itr kept : ℕ) (l' : Ladder OrderIds) : Type 0 where
  pub less : order_at l' itr ≡ record (order_at l itr) { qty = kept }
  pub others : (x : ℕ) → itr ≢ x → order_at l' x ≡ order_at l x

-- What becomes of a resting order of which `kept` is left: without a rest it is removed from the
-- lists, leaves the table and is announced as gone; with one it stays, changed in its quantity only,
-- and that is announced.
pub data Remains (incoming : Incoming) (itr : ℕ) (b b' : ExchangeOrderBook)
    : (kept : ℕ) → MeMarketUpdate → Type 0 where
  gone :
      (l : Ladder OrderIds)
      → Reduced b.ladder itr 0 l
      → remove_order l itr ≡ some b'.ladder
      → b'.cid_oid_to_order
          (order_at b.ladder itr).ids.client_id
          (order_at b.ladder itr).ids.client_order_id
        ≡ none
      → Remains incoming itr b b' 0 (gone_update incoming (order_at b.ladder itr))
  reduced :
      (kept : ℕ)
      → kept ≢ 0
      → Reduced b.ladder itr kept b'.ladder
      → Remains incoming itr b b' kept (reduced_update incoming (order_at b.ladder itr) kept)

-- What an operation on the book leaves alone, and the messages that it adds.
pub record Sends (b : ExchangeOrderBook) (events : List Sent) (b' : ExchangeOrderBook)
    : Type 0 where
  pub added : b'.sent ≡ b.sent ++ events
  pub same_next_id : b'.next_market_order_id ≡ b.next_market_order_id
  pub same_ticker : b'.ticker_id ≡ b.ticker_id

pub Sends-trans :
    (b c d : ExchangeOrderBook) (xs ys : List Sent)
    → Sends b xs c
    → Sends c ys d
    → Sends b (xs ++ ys) d
Sends-trans b c d xs ys h k = record {
  added = k.added ∙ (ap (λ l. l ++ ys) h.added ∙ append_assoc b.sent xs ys);
  same_next_id = k.same_next_id ∙ h.same_next_id;
  same_ticker = k.same_ticker ∙ h.same_ticker;
}

-- One match: the first order at the best price of the other side, which the limit accepts, trades
-- the smaller of the two quantities; both owners are told, the trade is published, and the resting
-- order is reduced or gone.
pub record Fill (incoming : Incoming) (limit : ℤ) (b : ExchangeOrderBook) (qty : ℕ)
    (events : List Sent) (left : ℕ) (b' : ExchangeOrderBook) : Type 0 where
  pub level : ℕ
  pub itr : ℕ
  pub fill : ℕ
  pub kept : ℕ
  pub update : MeMarketUpdate
  pub best : other_best b.ladder incoming.side ≡ some level
  pub first : (level_at b.ladder level).first_order ≡ some itr
  pub accepted : Accepts incoming.side limit (order_at b.ladder itr).price
  pub smaller : (fill ≡ qty) ⊎ (fill ≡ (order_at b.ladder itr).qty)
  pub taken : fill + left ≡ qty
  pub given : fill + kept ≡ (order_at b.ladder itr).qty
  pub told :
      events
      ≡ taker_report incoming (order_at b.ladder itr) fill left
        ∷ maker_report incoming (order_at b.ladder itr) fill kept
        ∷ trade_of incoming (order_at b.ladder itr) fill
        ∷ update_of update
        ∷ []
  pub remains : Remains incoming itr b b' kept update
  pub sends : Sends b events b'

-- ===== src/Exchange/OrderBook/Adding.antt =====
-- What Add is to do with an incoming order: it is accepted, traded, and what is left rests.
use vots.Base.{ℕ, ◌+◌, ◌%◌, ◌^◌, ◌≡◌, ◌≢◌, some, List, [], ◌∷◌, ◌++◌, sum_by}
use vots.Base.Int.{ℤ}
use vots.Types.{Side}
use vots.Messages.{MarketUpdateType, ClientResponseType}
use vots.Book.{order_at}
use vots.Exchange.OrderBook.{ExchangeOrderBook, Sent, response, update_of}
use vots.Exchange.OrderBook.Trading.{traded, rested}
use vots.Exchange.OrderBook.Matching.{Trades, Stopped}

-- The acceptance of an order.
abbrev pub acceptance : ℕ → ℕ → ℕ → Side → ℤ → ℕ → ℕ → Sent
acceptance client_id client_order_id ticker_id side price qty id = response (record {
  type = ClientResponseType.accepted;
  client_id = client_id;
  ticker_id = ticker_id;
  client_order_id = client_order_id;
  market_order_id = id;
  side = side;
  price = price;
  exec_qty = 0;
  leaves_qty = qty;
})

-- The book with the order accepted under its next market id, which goes up by one.
abbrev pub accepted_book : ExchangeOrderBook → Sent → ExchangeOrderBook
accepted_book b message = record b {
  next_market_order_id = (b.next_market_order_id + 1) % 2 ^ 64;
  sent = b.sent ++ (message ∷ []);
}

-- The order rests in the book: the table of its client leads to it, and the message announces it.
pub record Rests (client_id client_order_id ticker_id : ℕ) (side : Side) (price : ℤ) (qty id : ℕ)
    (message : Sent) (b' : ExchangeOrderBook) : Type 0 where
  pub place : ℕ
  pub priority : ℕ
  pub listed : b'.cid_oid_to_order client_id client_order_id ≡ some place
  pub same_ids : (order_at b'.ladder place).ids ≡ record {
    ticker_id = ticker_id;
    client_id = client_id;
    client_order_id = client_order_id;
    market_order_id = id;
  }
  pub same_side : (order_at b'.ladder place).side ≡ side
  pub same_price : (order_at b'.ladder place).price ≡ price
  pub same_qty : (order_at b'.ladder place).qty ≡ qty
  pub same_priority : (order_at b'.ladder place).priority ≡ priority
  pub announced :
      message
      ≡ update_of (record {
        type = MarketUpdateType.add;
        order_id = id;
        ticker_id = ticker_id;
        side = side;
        price = price;
        qty = qty;
        priority = priority;
      })

-- What is left of an order either is nothing, or rests.
pub data Leaves (client_id client_order_id ticker_id : ℕ) (side : Side) (price : ℤ) (id : ℕ)
    (c b' : ExchangeOrderBook) : ℕ → List Sent → Type 0 where
  nothing : b' ≡ c → Leaves client_id client_order_id ticker_id side price id c b' 0 []
  rest :
      (left : ℕ) (message : Sent)
      → left ≢ 0
      → Rests client_id client_order_id ticker_id side price left id message b'
      → Leaves client_id client_order_id ticker_id side price id c b' left (message ∷ [])

-- What Add has done, with the book between matching and resting.
pub record Added (b : ExchangeOrderBook) (client_id client_order_id ticker_id : ℕ) (side : Side)
    (price : ℤ) (qty : ℕ) (b' : ExchangeOrderBook) : Type 0 where
  pub between : ExchangeOrderBook
  pub fills : List Sent
  pub rests : List Sent
  pub left : ℕ
  pub trades :
      Trades
        (record {
          ticker_id = ticker_id;
          client_id = client_id;
          side = side;
          client_order_id = client_order_id;
          market_order_id = b.next_market_order_id % 2 ^ 32;
        })
        price
        (accepted_book b
          (acceptance client_id client_order_id ticker_id side price qty b.next_market_order_id))
        qty
        fills
        left
        between
  pub stopped :
      Stopped
        (record {
          ticker_id = ticker_id;
          client_id = client_id;
          side = side;
          client_order_id = client_order_id;
          market_order_id = b.next_market_order_id % 2 ^ 32;
        })
        price
        left
        between
  pub leaves :
      Leaves client_id client_order_id ticker_id side price b.next_market_order_id between b' left
        rests
  pub sent_all :
      b'.sent
      ≡ b.sent
        ++ (acceptance client_id client_order_id ticker_id side price qty b.next_market_order_id
            ∷ (fills ++ rests))
  pub next_id : b'.next_market_order_id ≡ (b.next_market_order_id + 1) % 2 ^ 64
  pub conserved : sum_by traded (fills ++ rests) + sum_by rested (fills ++ rests) ≡ qty

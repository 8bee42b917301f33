-- ===== src/Exchange/OrderBook/Matching.antt =====
-- What CheckForMatch does with an incoming order: a sequence of fills, and where it stops.
use vots.Base.{
  ℕ, zero, suc, ◌+◌, ◌%◌, ◌^◌, ◌≡◌, refl, sym, subst₂, ◌∙◌, ◌⊎◌, inl, inr, Option, none, some, List,
  [], ◌++◌, append-nil, if◌then◌else◌, ◌==◌, ◌>>=◌, >>=-eq-some, none-ne-some, Bool-cases,
  Option-cases, arith, sum_by, sum_by-append,
}
use vots.Base.Int.{ℤ}
use vots.Types.{Side}
use vots.Book.{order_at, level_at}
use vots.Exchange.OrderBook.{
  ExchangeOrderBook, Incoming, Sent, match_order, match_loop, check_for_match, opposite_best,
  too_far,
}
use vots.Exchange.OrderBook.Trading.{
  traded, rested, other_best, Accepts, opposite_best-other_best, near-Accepts, far-Accepts, Sends,
  Sends-trans, Fill,
}
use vots.Exchange.OrderBook.Filling.{match_order-Fill, Fill-sums, some-pair-injective}

-- Fills one after the other, each with what the one before has left.
pub data Trades (incoming : Incoming) (limit : ℤ)
    : ExchangeOrderBook → ℕ → List Sent → ℕ → ExchangeOrderBook → Type 0 where
  none_left : (b : ExchangeOrderBook) (qty : ℕ) → Trades incoming limit b qty [] qty b
  one_more :
      {b c d : ExchangeOrderBook} {qty left leaves : ℕ} {events more : List Sent}
      → Fill incoming limit b qty events left c
      → Trades incoming limit c left more leaves d
      → Trades incoming limit b qty (events ++ more) leaves d

-- Why the matching ended: nothing is left, the other side is empty, or the limit does not accept the
-- price of the first order there.
abbrev pub Stopped : Incoming → ℤ → ℕ → ExchangeOrderBook → Type 0
Stopped incoming limit leaves b =
    (leaves ≡ 0)
    ⊎ (other_best b.ladder incoming.side ≡ none)
    ⊎ ((level itr : ℕ) × (other_best b.ladder incoming.side ≡ some level)
        × ((level_at b.ladder level).first_order ≡ some itr)
        × (¬ Accepts incoming.side limit (order_at b.ladder itr).price))

-- What the loop returns.
pub record Result (b : ExchangeOrderBook) (incoming : Incoming) (limit : ℤ) (qty leaves : ℕ)
    (b' : ExchangeOrderBook) : Type 0 where
  pub events : List Sent
  pub trades : Trades incoming limit b qty events leaves b'
  pub stopped : Stopped incoming limit leaves b'
  pub sends : Sends b events b'
  pub conserved : sum_by traded events + leaves ≡ qty
  pub none_rested : sum_by rested events ≡ 0

ended :
    (b b' : ExchangeOrderBook) (incoming : Incoming) (limit : ℤ) (qty leaves : ℕ)
    → ◌≡◌ {A = Option (ℕ × ExchangeOrderBook)} (some (qty, b)) (some (leaves, b'))
    → Stopped incoming limit qty b
    → Result b incoming limit qty leaves b'
ended b b' incoming limit qty leaves e s =
    let (p, q) = some-pair-injective e in
    subst₂ (λ l d. Result b incoming limit qty l d) p q
      (record {
        events = [];
        trades = none_left b qty;
        stopped = s;
        sends = record { added = sym (append-nil b.sent); same_next_id = refl; same_ticker = refl };
        conserved = omega arith;
        none_rested = refl;
      })

Result-more :
    {b c d : ExchangeOrderBook} {incoming : Incoming} {limit : ℤ} {qty left leaves : ℕ}
    {events : List Sent}
    → Fill incoming limit b qty events left c
    → Result c incoming limit left leaves d
    → Result b incoming limit qty leaves d
Result-more {b} {c} {d} {events = events} f r =
    let sums = Fill-sums f in
    record {
      events = events ++ r.events;
      trades = one_more f r.trades;
      stopped = r.stopped;
      sends = Sends-trans b c d events r.events f.sends r.sends;
      conserved = omega (arith, sum_by-append traded events r.events, sums.0, r.conserved);
      none_rested = omega (arith, sum_by-append rested events r.events, sums.1, r.none_rested);
    }

match_loop-Result :
    (fuel : ℕ) (b b' : ExchangeOrderBook) (incoming : Incoming) (limit : ℤ) (qty leaves : ℕ)
    → match_loop fuel b incoming limit qty ≡ some (leaves, b')
    → Result b incoming limit qty leaves b'
unfolding match_loop
match_loop-Result zero b b' incoming limit qty leaves e = absurd (none-ne-some (leaves, b') e)
match_loop-Result (suc fuel) b b' incoming limit qty leaves e = elim (Bool-cases (qty == 0)) [
  | inl empty ↦ ended b b' incoming limit qty leaves (rw empty at e) (inl (ground arith))
  | inr more ↦ elim (Option-cases (opposite_best b.ladder incoming.side)) [
    | inl no_level ↦
        ended b b' incoming limit qty leaves (rw (more, no_level) at e)
          (inr (inl (sym (opposite_best-other_best b.ladder incoming.side) ∙ no_level)))
    | inr (level, found) ↦
        let best = sym (opposite_best-other_best b.ladder incoming.side) ∙ found in
        let (itr, first, e') =
          >>=-eq-some (level_at b.ladder level).first_order (body level) (rw (more, found) at e) in
        let price = (order_at b.ladder itr).price in
        elim (Bool-cases (too_far incoming.side limit price)) [
          | inl far ↦
              ended b b' incoming limit qty leaves (rw far at e')
                (inr (inr (level, itr, best, first, far-Accepts incoming.side limit price far)))
          | inr near ↦
              let accepted = near-Accepts b.ladder incoming.side level limit price best near in
              let (r, matched, rest) =
                >>=-eq-some (match_order b incoming itr qty)
                  (λ r. match_loop fuel r.1 incoming limit r.0) (rw near at e') in
              let (events, f) =
                match_order-Fill b incoming limit level itr qty best first accepted r.0 r.1
                  matched in
              Result-more f (match_loop-Result fuel r.1 b' incoming limit r.0 leaves rest)
        ]
  ]
]
  where
    body : ℕ → ℕ → Option (ℕ × ExchangeOrderBook)
    body level itr =
        if too_far incoming.side limit (order_at b.ladder itr).price
        then some (qty, b)
        else (match_order b incoming itr qty >>= λ r. match_loop fuel r.1 incoming limit r.0)

-- Whenever CheckForMatch of a quantity returns, it has made a sequence of fills: each trades with the
-- first order at the best price of the other side, at that order's price, which the limit accepts
-- (a buyer pays at most its limit, a seller takes at least its limit), the smaller of the two
-- quantities; reports it to the owner of either order and publishes the trade; and reduces the
-- resting order, or removes it and its table entry and says so. The fills and what is left make up
-- the quantity, nothing is announced as resting, the messages are added behind those sent before,
-- and it stopped because nothing is left, the other side is empty, or the limit does not accept its
-- best price.
pub check_for_match-Result :
    (b b' : ExchangeOrderBook) (client_id client_order_id ticker_id : ℕ) (side : Side) (price : ℤ)
    (qty id leaves : ℕ)
    → check_for_match b client_id client_order_id ticker_id side price qty id ≡ some (leaves, b')
    → Result b
        (record {
          ticker_id = ticker_id;
          client_id = client_id;
          side = side;
          client_order_id = client_order_id;
          market_order_id = id % 2 ^ 32;
        })
        price
        qty
        leaves
        b'
unfolding check_for_match
check_for_match-Result b b' client_id client_order_id ticker_id side price qty id leaves e =
    match_loop-Result _ b b' _ price qty leaves e

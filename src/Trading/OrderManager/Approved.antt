-- ===== src/Trading/OrderManager/Approved.antt =====
-- What the requests are that an order manager hands over when an algorithm moves its orders.
use vots.Base.{
  ℕ, ◌+◌, ◌≤◌, ◌≡◌, refl, sym, ap, ◌∙◌, inl, inr, Option, some, List, [], ◌++◌, ltb, Bool-cases,
  >>=-eq-some, none-ne-some, append_assoc, append-nil, arith, length, length-append, All,
  All-append,
}
use vots.Base.Int.{ℤ}
use vots.Types.{Side, me_max_tickers}
use vots.Messages.{MeClientRequest, ClientRequestType}
use vots.Trading.RiskManager.{RiskCheckResult}
use vots.Trading.OrderManager.{OrderManager, new_order, cancel_order, move_order, move_orders}
use vots.Trading.OrderManager.Requests.{Case, kept, entered, withdrawn, move_order-Case}

module _ (check : ℕ → Side → ℕ → Option RiskCheckResult) (ticker_id : ℕ) where
  -- A cancellation, or a new order for the ticker that the risk check allows.
  pub data Approved (r : MeClientRequest) : Type 0 where
    cancels : r.type ≡ ClientRequestType.cancel → Approved r
    enters :
        r.type ≡ ClientRequestType.new
        → r.ticker_id ≡ ticker_id
        → check ticker_id r.side r.qty ≡ some RiskCheckResult.allowed
        → Approved r

  -- At most `n` requests were added, all of them approved.
  pub record Handed (n : ℕ) (m m' : OrderManager) : Type 0 where
    pub requests : List MeClientRequest
    pub sent_more : m'.sent ≡ m.sent ++ requests
    pub few : length requests ≤ n
    pub approved : All Approved requests

  pub Handed-none : (n : ℕ) (m : OrderManager) → Handed n m m
  Handed-none n m = record {
    requests = [];
    sent_more = sym (append-nil _);
    few = omega arith;
    approved = tt;
  }

  Handed-then : (k j : ℕ) {a b c : OrderManager} → Handed k a b → Handed j b c → Handed (k + j) a c
  Handed-then k j {a} h i = record {
    requests = h.requests ++ i.requests;
    sent_more =
        i.sent_more
        ∙ (ap (λ l. l ++ i.requests) h.sent_more ∙ append_assoc a.sent h.requests i.requests);
    few = omega (arith, h.few, i.few, length-append h.requests i.requests);
    approved = All-append Approved h.requests i.requests h.approved i.approved;
  }

  Case-Handed :
      (m : OrderManager) (price : ℤ) (side : Side) (qty : ℕ) (m' : OrderManager)
      → Case check m ticker_id price side qty m'
      → Handed 1 m m'
  unfolding new_order cancel_order
  Case-Handed m price side qty _ (kept why) = Handed-none 1 m
  Case-Handed m price side qty _ (entered free priced allowed) = record {
    requests = _;
    sent_more = refl;
    few = omega arith;
    approved = (enters refl refl allowed, tt);
  }
  Case-Handed m price side qty _ (withdrawn live other) = record {
    requests = _;
    sent_more = refl;
    few = omega arith;
    approved = (cancels refl, tt);
  }

  -- MoveOrders hands over at most two requests, each a cancellation or a new order for its ticker
  -- that the risk check allows.
  pub move_orders-Handed :
      (m m' : OrderManager) (bid ask : ℤ) (clip : ℕ)
      → move_orders check m ticker_id bid ask clip ≡ some m'
      → Handed 2 m m'
  unfolding move_orders
  move_orders-Handed m m' bid ask clip h = elim (Bool-cases (ltb ticker_id me_max_tickers)) [
    | inr unknown ↦ absurd (none-ne-some m' (rw unknown at h))
    | inl known ↦
        let (m₁, first, second) =
          >>=-eq-some (move_order check m ticker_id bid Side.buy clip) _ (rw known at h) in
        Handed-then 1 1
          (Case-Handed m bid Side.buy clip m₁
            (move_order-Case check m m₁ ticker_id bid Side.buy clip first))
          (Case-Handed m₁ ask Side.sell clip m'
            (move_order-Case check m₁ m' ticker_id ask Side.sell clip second))
  ]

-- ===== src/Trading/OrderManager/Requests.antt =====
-- The requests that the order manager sends, over whatever the exchange answers.
use vots.Base.{
  ℕ, zero, suc, ◌+◌, ◌%◌, ◌^◌, ◌≡◌, ◌≢◌, refl, sym, ap, subst, ◌∙◌, ◌⊎◌, inl, inr, true, false,
  Option, some, List, [], ◌∷◌, ◌++◌, ◌>>=◌, ltb, Bool-cases, >>=-eq-some, some_inj, none-ne-some,
  append_assoc, append-nil, arith,
}
use vots.Base.Int.{ℤ, eq_ℤ, eq_ℤ-eq}
use vots.Types.{Side, price_invalid, me_max_tickers}
use vots.Messages.{MeClientRequest, ClientRequestType, MeClientResponse}
use vots.Trading.RiskManager.{RiskCheckResult}
use vots.Trading.OrderManager.{
  OrderManager, OmOrderState, make_manager, slot, on_order_update, new_order, cancel_order,
  is_allowed, try_new, move_in, move_order, move_orders,
}

abbrev if_new : ClientRequestType → ℕ → List ℕ → List ℕ
if_new ClientRequestType.new id ids = id ∷ ids
if_new ClientRequestType.cancel id ids = ids
if_new ClientRequestType.invalid id ids = ids

-- The order numbers of the new orders among the requests.
abbrev pub new_ids : List MeClientRequest → List ℕ
new_ids [] = []
new_ids (r ∷ rs) = if_new r.type r.order_id (new_ids rs)

-- `k` numbers from `n` on, in 64 bits, and the number behind them.
abbrev pub numbers_from : ℕ → ℕ → List ℕ
numbers_from n zero = []
numbers_from n (suc k) = n ∷ numbers_from ((n + 1) % 2 ^ 64) k

abbrev pub number_behind : ℕ → ℕ → ℕ
number_behind n zero = n
number_behind n (suc k) = number_behind ((n + 1) % 2 ^ 64) k

-- The order of the slot is not there: it was never sent, or it is done.
abbrev pub IsFree : OrderManager → ℕ → Side → Type 0
IsFree m ticker_id side =
    ((slot m ticker_id side).order_state ≡ OmOrderState.invalid)
    ⊎ ((slot m ticker_id side).order_state ≡ OmOrderState.dead)

-- Why MoveOrder does nothing.
pub data Idle (check : ℕ → Side → ℕ → Option RiskCheckResult) (m : OrderManager) (ticker_id : ℕ)
    (price : ℤ) (side : Side) (qty : ℕ) : Type 0 where
  no_price : IsFree m ticker_id side → price ≡ price_invalid → Idle check m ticker_id price side qty
  refused :
      {result : RiskCheckResult}
      → IsFree m ticker_id side
      → check ticker_id side qty ≡ some result
      → result ≢ RiskCheckResult.allowed
      → Idle check m ticker_id price side qty
  pending :
      ((slot m ticker_id side).order_state ≡ OmOrderState.pending_new)
        ⊎ ((slot m ticker_id side).order_state ≡ OmOrderState.pending_cancel)
      → Idle check m ticker_id price side qty
  in_place :
      (slot m ticker_id side).order_state ≡ OmOrderState.live
      → (slot m ticker_id side).price ≡ price
      → Idle check m ticker_id price side qty

-- What one case of MoveOrder does: nothing, a new order into a free slot, or a cancellation of the
-- live order that is there.
pub data Case (check : ℕ → Side → ℕ → Option RiskCheckResult) (m : OrderManager) (ticker_id : ℕ)
    (price : ℤ) (side : Side) (qty : ℕ) : OrderManager → Type 0 where
  kept : Idle check m ticker_id price side qty → Case check m ticker_id price side qty m
  entered :
      IsFree m ticker_id side
      → eq_ℤ price price_invalid ≡ false
      → check ticker_id side qty ≡ some RiskCheckResult.allowed
      → Case check m ticker_id price side qty (new_order m ticker_id price side qty)
  withdrawn :
      (slot m ticker_id side).order_state ≡ OmOrderState.live
      → eq_ℤ (slot m ticker_id side).price price ≡ false
      → Case check m ticker_id price side qty (cancel_order m ticker_id side)

is_allowed-other : (r : RiskCheckResult) → is_allowed r ≡ false → r ≢ RiskCheckResult.allowed
is_allowed-other r h e = absurd (cc (rw e at h))

is_allowed-allowed : (r : RiskCheckResult) → is_allowed r ≡ true → r ≡ RiskCheckResult.allowed
is_allowed-allowed RiskCheckResult.allowed h = refl
is_allowed-allowed RiskCheckResult.invalid h = absurd (cc)
is_allowed-allowed RiskCheckResult.order_too_large h = absurd (cc)
is_allowed-allowed RiskCheckResult.position_too_large h = absurd (cc)
is_allowed-allowed RiskCheckResult.loss_too_large h = absurd (cc)

module _ (check : ℕ → Side → ℕ → Option RiskCheckResult) where
  try_new-Case :
      (m m' : OrderManager) (ticker_id : ℕ) (price : ℤ) (side : Side) (qty : ℕ)
      → ((slot m ticker_id side).order_state ≡ OmOrderState.invalid)
        ⊎ ((slot m ticker_id side).order_state ≡ OmOrderState.dead)
      → try_new check m ticker_id price side qty ≡ some m'
      → Case check m ticker_id price side qty m'
  unfolding try_new
  try_new-Case m m' ticker_id price side qty free e = elim (Bool-cases (eq_ℤ price price_invalid)) [
    | inl unpriced ↦
        subst (Case check m ticker_id price side qty) (some_inj (rw unpriced at e))
          (kept (no_price free (eq_ℤ-eq price price_invalid unpriced)))
    | inr priced ↦
        let (result, found, rest) = >>=-eq-some (check ticker_id side qty) _ (rw priced at e) in
        elim (Bool-cases (is_allowed result)) [
          | inl allowed ↦
              subst (Case check m ticker_id price side qty) (some_inj (rw allowed at rest))
                (entered free priced (found ∙ ap some (is_allowed-allowed result allowed)))
          | inr not_allowed ↦
              subst (Case check m ticker_id price side qty) (some_inj (rw not_allowed at rest))
                (kept (refused free found (is_allowed-other result not_allowed)))
        ]
  ]

  move_in-Case :
      (state : OmOrderState) (m m' : OrderManager) (ticker_id : ℕ) (price : ℤ) (side : Side)
      (qty : ℕ)
      → (slot m ticker_id side).order_state ≡ state
      → move_in check state m ticker_id price side qty ≡ some m'
      → Case check m ticker_id price side qty m'
  unfolding move_in
  move_in-Case OmOrderState.invalid m m' ticker_id price side qty s e =
      try_new-Case m m' ticker_id price side qty (inl s) e
  move_in-Case OmOrderState.dead m m' ticker_id price side qty s e =
      try_new-Case m m' ticker_id price side qty (inr s) e
  move_in-Case OmOrderState.pending_new m m' ticker_id price side qty s e =
      subst (Case check m ticker_id price side qty) (some_inj e) (kept (pending (inl s)))
  move_in-Case OmOrderState.pending_cancel m m' ticker_id price side qty s e =
      subst (Case check m ticker_id price side qty) (some_inj e) (kept (pending (inr s)))
  move_in-Case OmOrderState.live m m' ticker_id price side qty s e =
      elim (Bool-cases (eq_ℤ (slot m ticker_id side).price price)) [
        | inl same ↦
            subst (Case check m ticker_id price side qty) (some_inj (rw same at e))
              (kept (in_place s (eq_ℤ-eq _ price same)))
        | inr other ↦
            subst (Case check m ticker_id price side qty) (some_inj (rw other at e))
              (withdrawn s other)
      ]

  -- MoveOrder by its cases.
  pub move_order-Case :
      (m m' : OrderManager) (ticker_id : ℕ) (price : ℤ) (side : Side) (qty : ℕ)
      → move_order check m ticker_id price side qty ≡ some m'
      → Case check m ticker_id price side qty m'
  unfolding move_order
  move_order-Case m m' ticker_id price side qty e =
      move_in-Case (slot m ticker_id side).order_state m m' ticker_id price side qty refl e

-- What happens to an order manager: an algorithm moves its orders, with the risk check of that
-- moment, or a response arrives.
pub data Event : Type 0 where
  moved : (ℕ → Side → ℕ → Option RiskCheckResult) → ℕ → ℤ → ℤ → ℕ → Event
  responded : MeClientResponse → Event

abbrev pub handle : OrderManager → Event → Option OrderManager
handle m (moved check ticker_id bid ask clip) = move_orders check m ticker_id bid ask clip
handle m (responded r) = on_order_update m r

abbrev pub run : OrderManager → List Event → Option OrderManager
run m [] = some m
run m (e ∷ es) = handle m e >>= λ m'. run m' es

-- The numbers that were given to new orders on the way from one state to another.
pub record Numbered (m m' : OrderManager) : Type 0 where
  pub count : ℕ
  pub added : List MeClientRequest
  pub requests : m'.sent ≡ m.sent ++ added
  pub ids : new_ids added ≡ numbers_from m.next_order_id count
  pub next : m'.next_order_id ≡ number_behind m.next_order_id count

if_new-append :
    (t : ClientRequestType) (id : ℕ) (a b : List ℕ) → if_new t id (a ++ b) ≡ if_new t id a ++ b
if_new-append ClientRequestType.new id a b = refl
if_new-append ClientRequestType.cancel id a b = refl
if_new-append ClientRequestType.invalid id a b = refl

new_ids-append : (a b : List MeClientRequest) → new_ids (a ++ b) ≡ new_ids a ++ new_ids b
new_ids-append [] b = refl
new_ids-append (r ∷ rs) b =
    ap (if_new r.type r.order_id) (new_ids-append rs b)
    ∙ if_new-append r.type r.order_id (new_ids rs) (new_ids b)

from_zero : (j : ℕ) → j ≡ 0 + j
from_zero j = omega arith

from_suc : (k j : ℕ) → suc (k + j) ≡ suc k + j
from_suc k j = omega arith

numbers_from-append :
    (n k j : ℕ) → numbers_from n k ++ numbers_from (number_behind n k) j ≡ numbers_from n (k + j)
numbers_from-append n zero j = ap (numbers_from n) (from_zero j)
numbers_from-append n (suc k) j =
    ap (λ l. n ∷ l) (numbers_from-append ((n + 1) % 2 ^ 64) k j)
    ∙ ap (numbers_from n) (from_suc k j)

number_behind-add : (n k j : ℕ) → number_behind (number_behind n k) j ≡ number_behind n (k + j)
number_behind-add n zero j = ap (number_behind n) (from_zero j)
number_behind-add n (suc k) j =
    number_behind-add ((n + 1) % 2 ^ 64) k j ∙ ap (number_behind n) (from_suc k j)

Numbered-none :
    (m m' : OrderManager) → m'.sent ≡ m.sent → m'.next_order_id ≡ m.next_order_id → Numbered m m'
Numbered-none m m' same next = record {
  count = 0;
  added = [];
  requests = same ∙ sym (append-nil _);
  ids = refl;
  next = next;
}

Numbered-then : {a b c : OrderManager} → Numbered a b → Numbered b c → Numbered a c
Numbered-then {a} p q = record {
  count = p.count + q.count;
  added = p.added ++ q.added;
  requests = q.requests ∙ (ap (λ l. l ++ q.added) p.requests ∙ append_assoc a.sent p.added q.added);
  ids =
      new_ids-append p.added q.added
      ∙ (ap (λ l. l ++ new_ids q.added) p.ids
          ∙ (ap (λ l. numbers_from a.next_order_id p.count ++ l)
                (q.ids ∙ ap (λ n. numbers_from n q.count) p.next)
              ∙ numbers_from-append a.next_order_id p.count q.count));
  next =
      q.next
      ∙ (ap (λ n. number_behind n q.count) p.next
          ∙ number_behind-add a.next_order_id p.count q.count);
}

module _ (check : ℕ → Side → ℕ → Option RiskCheckResult) where
  Case-Numbered :
      (m : OrderManager) (ticker_id : ℕ) (price : ℤ) (side : Side) (qty : ℕ) (m' : OrderManager)
      → Case check m ticker_id price side qty m'
      → Numbered m m'
  unfolding new_order cancel_order
  Case-Numbered m ticker_id price side qty _ (kept why) = Numbered-none m m refl refl
  Case-Numbered m ticker_id price side qty _ (entered free priced allowed) = record {
    count = 1;
    added = _;
    requests = refl;
    ids = refl;
    next = refl;
  }
  Case-Numbered m ticker_id price side qty _ (withdrawn live other) = record {
    count = 0;
    added = _;
    requests = refl;
    ids = refl;
    next = refl;
  }

handle-Numbered : (m m' : OrderManager) (e : Event) → handle m e ≡ some m' → Numbered m m'
unfolding move_orders on_order_update
handle-Numbered m m' (moved check ticker_id bid ask clip) h =
    elim (Bool-cases (ltb ticker_id me_max_tickers)) [
      | inr unknown ↦ absurd (none-ne-some m' (rw unknown at h))
      | inl known ↦
          let (m₁, first, second) =
            >>=-eq-some (move_order check m ticker_id bid Side.buy clip) _ (rw known at h) in
          Numbered-then
            (Case-Numbered check m ticker_id bid Side.buy clip m₁
              (move_order-Case check m m₁ ticker_id bid Side.buy clip first))
            (Case-Numbered check m₁ ticker_id ask Side.sell clip m'
              (move_order-Case check m₁ m' ticker_id ask Side.sell clip second))
    ]
handle-Numbered m m' (responded r) h = elim (Bool-cases (ltb r.ticker_id me_max_tickers)) [
  | inr unknown ↦ absurd (none-ne-some m' (rw unknown at h))
  | inl known ↦
      let same = some_inj (rw known at h) in
      Numbered-none m m' (ap (λ (x : OrderManager). x.sent) (sym same))
        (ap (λ (x : OrderManager). x.next_order_id) (sym same))
]

run-Numbered : (es : List Event) (m m' : OrderManager) → run m es ≡ some m' → Numbered m m'
run-Numbered [] m m' h = subst (Numbered m) (some_inj h) (Numbered-none m m refl refl)
run-Numbered (e ∷ es) m m' h =
    let (m₁, first, rest) = >>=-eq-some (handle m e) _ h in
    Numbered-then (handle-Numbered m m₁ e first) (run-Numbered es m₁ m' rest)

-- Whatever an algorithm asks for and whatever the exchange answers, the new orders that a fresh
-- order manager sends carry the numbers 1, 2, 3 and so on, modulo 2^64, in the order of sending, and
-- the manager's next number is the one behind them.
pub run-numbered :
    (client_id : ℕ) (es : List Event) (m : OrderManager)
    → run (make_manager client_id) es ≡ some m
    → (k : ℕ) × (new_ids m.sent ≡ numbers_from 1 k) × (m.next_order_id ≡ number_behind 1 k)
run-numbered client_id es m h =
    let n = run-Numbered es (make_manager client_id) m h in
    (n.count, ap new_ids n.requests ∙ n.ids, n.next)

-- ===== src/Trading/Engine/Effects.antt =====
-- What a market update makes the trading engine send, and what responses make of its state.
use vots.Base.{
  ℕ, ◌^◌, ◌≤◌, ◌<◌, ◌≡◌, refl, sym, ap, subst, ◌⊎◌, inl, inr, Bool, some, List, [], ◌∷◌, ltb,
  Bool-cases, >>=-eq-some, some_inj, none-ne-some, append-nil, arith, length, All, All-map,
}
use vots.Types.{AlgoType, me_max_tickers}
use vots.Messages.{MeClientRequest, ClientRequestType, MeMarketUpdate}
use vots.Runtime.LockFreeQueue.Room.{HasRoom, HasRoom-push, Received, Received-push}
use vots.Trading.{Bbo}
use vots.Trading.RiskManager.{check_pre_trade_risk}
use vots.Trading.RiskManager.Limits.{WithinLimits, check_pre_trade_risk-allowed}
use vots.Trading.OrderManager.{OrderManager}
use vots.Trading.OrderManager.Approved.{Approved, cancels, enters, Handed, Handed-none}
use vots.Trading.OrderBook.{
  TradingOrderBook, Callback, on_trade_update, on_order_book_update, on_market_update, is_trade,
  apply_update, update_bbo, bid_updated, ask_updated,
}
use vots.Trading.PositionKeeper.{DoubleOps, keep_bbo}
use vots.Trading.Algorithms.{FeatureOps, TradeEngineCfg, feature_book_update, feature_trade_update}
use vots.Trading.Algorithms.Handing.{maker_book_update-Handed, taker_trade_update-Handed}
use vots.Trading.Engine.{
  EngineState, send_client_request, send_requests, hand_over, risk_check, algo_on_order_book_update,
  algo_on_trade_update, engine_book_update, engine_trade_update, engine_callback,
  engine_market_update,
}

-- Requests that were sent, and positions that were kept meanwhile.
abbrev Sends :
    {Double : Type 0} → EngineState Double → List MeClientRequest → EngineState Double → Type 0
Sends s rs s' =
    Received s.outgoing_ogw_requests rs s'.outgoing_ogw_requests
    × (s'.position_keeper ≡ s.position_keeper)

send_requests-Sends :
    {Double : Type 0}
    → (s : EngineState Double) (rs : List MeClientRequest)
    → HasRoom s.outgoing_ogw_requests (length rs)
    → Sends s rs (send_requests s rs)
unfolding send_requests
send_requests-Sends s [] h = ((sym (append-nil _), h.0), refl)
send_requests-Sends s (r ∷ rs) h =
    let q = s.outgoing_ogw_requests in
    let n = length rs in
    let (received, same) =
      send_requests-Sends (send_client_request s r) rs (HasRoom-push q r n h) in
    (Received-push q r n rs _ h received, same)

-- The call that a book makes for an update.
abbrev Calls : MeMarketUpdate → Callback → Type 0
Calls u c = (c ≡ on_trade_update u) ⊎ (c ≡ on_order_book_update u.ticker_id u.price u.side)

on_market_update-Calls :
    (b : TradingOrderBook) (u : MeMarketUpdate) (step : TradingOrderBook × Callback)
    → on_market_update b u ≡ some step
    → Calls u step.1
unfolding on_market_update
on_market_update-Calls b u step e = elim (Bool-cases (is_trade u.type)) [
  | inl trade ↦ inl (ap (λ x. x.1) (sym (some_inj (rw trade at e))))
  | inr other ↦
      let (changed, e₁, e₂) = >>=-eq-some (apply_update u.type b u) _ (rw other at e) in
      let (updated, e₃, e₄) =
        >>=-eq-some (update_bbo changed (bid_updated b u) (ask_updated b u)) _ e₂ in
      inr (ap (λ x. x.1) (sym (some_inj e₄)))
]

module _ {Double : Type 0} (p : DoubleOps Double) (d : FeatureOps Double)
    (lt_double : Double → Double → Bool) (cfgs : ℕ → TradeEngineCfg Double) where
  -- What leaves the engine: at most two requests, approved by the risk check with the positions
  -- that the engine has then.
  abbrev SendsApproved : EngineState Double → ℕ → EngineState Double → Type 0
  SendsApproved s ticker_id s' =
      (rs : List MeClientRequest) × Received s.outgoing_ogw_requests rs s'.outgoing_ogw_requests
      × (length rs ≤ 2)
      × All (Approved (risk_check p d lt_double cfgs s') ticker_id) rs

  hand_over-SendsApproved :
      (s : EngineState Double) (m : OrderManager) (ticker_id : ℕ)
      → HasRoom s.outgoing_ogw_requests 2
      → Handed
          (risk_check p d lt_double cfgs s)
          ticker_id
          2
          (record s.order_manager { sent = [] })
          m
      → SendsApproved s ticker_id (hand_over s m)
  unfolding hand_over
  hand_over-SendsApproved s m ticker_id room h =
      let s₁ = record s { order_manager = record m { sent = [] } } in
      let (received, same) =
        send_requests-Sends s₁ h.requests (room.0, omega (arith, room.1, h.few)) in
      subst (λ rs. SendsApproved s ticker_id (send_requests s₁ rs)) (sym h.sent_more)
        (
          h.requests,
          received,
          h.few,
          subst
              (λ positions.
                All
                  (Approved (check_pre_trade_risk lt_double positions (λ t. (cfgs t).risk_cfg))
                    ticker_id)
                  h.requests)
              (sym same) h.approved,
        )

  -- An order manager whose last requests have been handed over.
  abbrev cleared : EngineState Double → OrderManager
  cleared s = record s.order_manager { sent = [] }

  Handed-same :
      (s : EngineState Double) (ticker_id : ℕ) (m : OrderManager)
      → some (cleared s) ≡ some m
      → Handed (risk_check p d lt_double cfgs s) ticker_id 2 (cleared s) m
  Handed-same s ticker_id m e =
      let check = risk_check p d lt_double cfgs s in
      subst (Handed check ticker_id 2 (cleared s)) (some_inj e)
        (Handed-none check ticker_id 2 (cleared s))

  algo_on_order_book_update-Handed :
      (a : AlgoType) (s : EngineState Double) (ticker_id : ℕ) (bbo : Bbo) (m : OrderManager)
      → algo_on_order_book_update p d lt_double cfgs a s ticker_id bbo ≡ some m
      → Handed (risk_check p d lt_double cfgs s) ticker_id 2 (cleared s) m
  unfolding algo_on_order_book_update
  algo_on_order_book_update-Handed AlgoType.maker s ticker_id bbo m e =
      maker_book_update-Handed d (risk_check p d lt_double cfgs s) cfgs (cleared s) m
        s.feature_engine ticker_id bbo e
  algo_on_order_book_update-Handed AlgoType.taker s ticker_id bbo m e = Handed-same s ticker_id m e
  algo_on_order_book_update-Handed AlgoType.random s ticker_id bbo m e = Handed-same s ticker_id m e
  algo_on_order_book_update-Handed AlgoType.invalid s ticker_id bbo m e =
      Handed-same s ticker_id m e
  algo_on_order_book_update-Handed AlgoType.max s ticker_id bbo m e = Handed-same s ticker_id m e

  algo_on_trade_update-Handed :
      (a : AlgoType) (s : EngineState Double) (u : MeMarketUpdate) (bbo : Bbo) (m : OrderManager)
      → algo_on_trade_update p d lt_double cfgs a s u bbo ≡ some m
      → Handed (risk_check p d lt_double cfgs s) u.ticker_id 2 (cleared s) m
  unfolding algo_on_trade_update
  algo_on_trade_update-Handed AlgoType.taker s u bbo m e =
      taker_trade_update-Handed d (risk_check p d lt_double cfgs s) cfgs (cleared s) m
        s.feature_engine u bbo e
  algo_on_trade_update-Handed AlgoType.maker s u bbo m e = Handed-same s u.ticker_id m e
  algo_on_trade_update-Handed AlgoType.random s u bbo m e = Handed-same s u.ticker_id m e
  algo_on_trade_update-Handed AlgoType.invalid s u bbo m e = Handed-same s u.ticker_id m e
  algo_on_trade_update-Handed AlgoType.max s u bbo m e = Handed-same s u.ticker_id m e

  engine_book_update-SendsApproved :
      (s s' : EngineState Double) (ticker_id : ℕ)
      → engine_book_update p d lt_double cfgs s ticker_id ≡ some s'
      → HasRoom s.outgoing_ogw_requests 2
      → SendsApproved s ticker_id s'
  unfolding engine_book_update
  engine_book_update-SendsApproved s s' ticker_id e room =
      let bbo = (s.ticker_order_book ticker_id).bbo in
      let (positions, e₁, e₂) = >>=-eq-some (keep_bbo p s.position_keeper ticker_id bbo) _ e in
      let (features, e₃, e₄) = >>=-eq-some (feature_book_update d s.feature_engine bbo) _ e₂ in
      let s₁ = record s { position_keeper = positions; feature_engine = features } in
      let (m, e₅, e₆) =
        >>=-eq-some (algo_on_order_book_update p d lt_double cfgs s.algo_type s₁ ticker_id bbo) _
          e₄ in
      subst (SendsApproved s ticker_id) (some_inj e₆) (
        hand_over-SendsApproved s₁ m ticker_id room
          (algo_on_order_book_update-Handed s.algo_type s₁ ticker_id bbo m e₅))

  engine_trade_update-SendsApproved :
      (s s' : EngineState Double) (u : MeMarketUpdate)
      → engine_trade_update p d lt_double cfgs s u ≡ some s'
      → HasRoom s.outgoing_ogw_requests 2
      → SendsApproved s u.ticker_id s'
  unfolding engine_trade_update
  engine_trade_update-SendsApproved s s' u e room =
      let bbo = (s.ticker_order_book u.ticker_id).bbo in
      let s₁ = record s { feature_engine = feature_trade_update d s.feature_engine u bbo } in
      let (m, e₁, e₂) =
        >>=-eq-some (algo_on_trade_update p d lt_double cfgs s.algo_type s₁ u bbo) _ e in
      subst (SendsApproved s u.ticker_id) (some_inj e₂) (
        hand_over-SendsApproved s₁ m u.ticker_id room
          (algo_on_trade_update-Handed s.algo_type s₁ u bbo m e₁))

  -- What is within the limits of its ticker, or a cancellation.
  abbrev pub IsSafe : EngineState Double → ℕ → MeClientRequest → Type 0
  IsSafe s ticker_id r =
      (r.type ≡ ClientRequestType.cancel)
      ⊎ ((r.type ≡ ClientRequestType.new)
          × (r.ticker_id ≡ ticker_id)
          × WithinLimits lt_double (s.position_keeper ticker_id) (cfgs ticker_id).risk_cfg r.side
              r.qty)

  Approved-IsSafe :
      (s : EngineState Double) (ticker_id : ℕ)
      → (cfgs ticker_id).risk_cfg.max_order_size < 2 ^ 31
      → (cfgs ticker_id).risk_cfg.max_position < 2 ^ 31
      → (r : MeClientRequest) → Approved (risk_check p d lt_double cfgs s) ticker_id r
      → IsSafe s ticker_id r
  Approved-IsSafe s ticker_id small near r (cancels e) = inl e
  Approved-IsSafe s ticker_id small near r (enters e same allowed) = inr (
    e,
    same,
    check_pre_trade_risk-allowed lt_double s.position_keeper (λ t. (cfgs t).risk_cfg) ticker_id
        r.side r.qty small near allowed,
  )

  engine_callback-SendsApproved :
      (s s' : EngineState Double) (u : MeMarketUpdate) (c : Callback)
      → Calls u c
      → engine_callback p d lt_double cfgs s c ≡ some s'
      → HasRoom s.outgoing_ogw_requests 2
      → SendsApproved s u.ticker_id s'
  unfolding engine_callback
  engine_callback-SendsApproved s s' u c (inl traded) e room =
      engine_trade_update-SendsApproved s s' u (rw traded at e) room
  engine_callback-SendsApproved s s' u c (inr changed) e room =
      engine_book_update-SendsApproved s s' u.ticker_id (rw changed at e) room

  -- When the engine has handled a market update, with room for two requests on its queue, the queue
  -- has received at most two requests. Each is a cancellation, or a new order for the ticker of the
  -- update that is within the limits of the ticker (order size, resulting position, loss), at the
  -- positions that the engine then has. The limits on size and position are below 2^31.
  pub engine_market_update-IsSafe :
      (s s' : EngineState Double) (u : MeMarketUpdate)
      → (cfgs u.ticker_id).risk_cfg.max_order_size < 2 ^ 31
      → (cfgs u.ticker_id).risk_cfg.max_position < 2 ^ 31
      → engine_market_update p d lt_double cfgs s u ≡ some s'
      → HasRoom s.outgoing_ogw_requests 2
      → (rs : List MeClientRequest) × Received s.outgoing_ogw_requests rs s'.outgoing_ogw_requests
        × (length rs ≤ 2)
        × All (IsSafe s' u.ticker_id) rs
  unfolding engine_market_update
  engine_market_update-IsSafe s s' u small near e room =
      elim (Bool-cases (ltb u.ticker_id me_max_tickers)) [
        | inr unknown ↦ absurd (none-ne-some s' (rw unknown at e))
        | inl known ↦
            let (step, moved, called) =
              >>=-eq-some (on_market_update (s.ticker_order_book u.ticker_id) u) _
                (rw known at e) in
            let (rs, received, few, approved) =
              engine_callback-SendsApproved _ s' u step.1
                (on_market_update-Calls (s.ticker_order_book u.ticker_id) u step moved) called
                room in
            (
              rs,
              received,
              few,
              All-map _ (IsSafe s' u.ticker_id) (Approved-IsSafe s' u.ticker_id small near) rs
                  approved,
            )
      ]

-- ===== src/Trading/Engine/Draining.antt =====
-- The loops of the trading engine against the handlers applied to what the queues hold.
use vots.Base.{
  ℕ, suc, ◌≡◌, refl, subst, ap, Bool, Option, some, List, [], ◌∷◌, ◌>>=◌, >>=-eq-some, some_inj,
  length,
}
use vots.Messages.{MeClientResponse, MeMarketUpdate}
use vots.Runtime.LockFreeQueue.{LockFreeQueue}
use vots.Runtime.LockFreeQueue.Refine.{IsValid, unread, unread-read, unread-nil, length-unread}
use vots.Trading.PositionKeeper.{DoubleOps}
use vots.Trading.Algorithms.{FeatureOps, TradeEngineCfg}
use vots.Trading.Engine.{
  EngineState, TradingEngine, engine_order_update, engine_market_update, drain_responses,
  drain_updates, run_round,
}

-- A queue that has been read to its end.
abbrev pub Drained {ℓ} : {T : Type ℓ} → LockFreeQueue T → Type ℓ
Drained q = (unread q ≡ []) × IsValid q

-- A state handled step by step.
abbrev pub handle_all : {S T : Type 0} → (S → T → Option S) → S → List T → Option S
handle_all f s [] = some s
handle_all f s (x ∷ xs) = f s x >>= λ s'. handle_all f s' xs

module _ {Double : Type 0} (p : DoubleOps Double) (d : FeatureOps Double)
    (lt_double : Double → Double → Bool) (cfgs : ℕ → TradeEngineCfg Double) where
  drain_responses-all :
      (rs : List MeClientResponse) (e : TradingEngine Double) (s : EngineState Double)
      → IsValid e.incoming_ogw_responses
      → unread e.incoming_ogw_responses ≡ rs
      → handle_all (engine_order_update p d lt_double cfgs) e.state rs ≡ some s
      → (q : LockFreeQueue MeClientResponse) × (drain_responses p d lt_double cfgs
            (suc (length rs))
            e
          ≡ some (record e { state = s; incoming_ogw_responses = q }))
        × Drained q
  unfolding drain_responses
  drain_responses-all [] e s v u h = (
    e.incoming_ogw_responses,
    rw (unread-nil e.incoming_ogw_responses u, drain_responses)
        (ap (λ x. some (record e { state = x })) (some_inj h)),
    (u, v),
  )
  drain_responses-all (r ∷ rs) e s v u h =
      let (s₁, first, rest) = >>=-eq-some (engine_order_update p d lt_double cfgs e.state r) _ h in
      let (read, q, moved, u', v') = unread-read e.incoming_ogw_responses r rs v u in
      let (q', done, drained) =
        drain_responses-all rs (record e { state = s₁; incoming_ogw_responses = q }) s v' u' rest in
      (q', rw (read, first, moved, drain_responses) done, drained)

  drain_updates-all :
      (us : List MeMarketUpdate) (e : TradingEngine Double) (s : EngineState Double)
      → IsValid e.incoming_md_updates
      → unread e.incoming_md_updates ≡ us
      → handle_all (engine_market_update p d lt_double cfgs) e.state us ≡ some s
      → (q : LockFreeQueue MeMarketUpdate) × (drain_updates p d lt_double cfgs (suc (length us)) e
          ≡ some (record e { state = s; incoming_md_updates = q }))
        × Drained q
  unfolding drain_updates
  drain_updates-all [] e s v u h = (
    e.incoming_md_updates,
    rw (unread-nil e.incoming_md_updates u, drain_updates)
        (ap (λ x. some (record e { state = x })) (some_inj h)),
    (u, v),
  )
  drain_updates-all (r ∷ us) e s v u h =
      let (s₁, first, rest) = >>=-eq-some (engine_market_update p d lt_double cfgs e.state r) _ h in
      let (read, q, moved, u', v') = unread-read e.incoming_md_updates r us v u in
      let (q', done, drained) =
        drain_updates-all us (record e { state = s₁; incoming_md_updates = q }) s v' u' rest in
      (q', rw (read, first, moved, drain_updates) done, drained)

  -- One round of the engine's loop terminates whenever its handlers do, and does what they do: it
  -- handles every response that its queue holds, oldest first, then every market update, oldest
  -- first, and both queues are empty at its end.
  pub run_round-drains :
      (e : TradingEngine Double) (answered s : EngineState Double)
      → IsValid e.incoming_ogw_responses
      → IsValid e.incoming_md_updates
      → handle_all
          (engine_order_update p d lt_double cfgs)
          e.state
          (unread e.incoming_ogw_responses)
        ≡ some answered
      → handle_all (engine_market_update p d lt_double cfgs) answered (unread e.incoming_md_updates)
        ≡ some s
      → (e' : TradingEngine Double) × (run_round p d lt_double cfgs e ≡ some e')
        × (e'.state ≡ s)
        × Drained e'.incoming_ogw_responses
        × Drained e'.incoming_md_updates
  unfolding run_round
  run_round-drains e answered s v w h k =
      let (q, first, drained) =
        drain_responses-all (unread e.incoming_ogw_responses) e answered v refl h in
      let e₁ = record e { state = answered; incoming_ogw_responses = q } in
      let (r, second, drained') = drain_updates-all (unread e.incoming_md_updates) e₁ s w refl k in
      let first' =
        subst (λ n. drain_responses p d lt_double cfgs (suc n) e ≡ some e₁)
          (length-unread e.incoming_ogw_responses) first in
      let second' =
        subst
          (λ n.
            drain_updates p d lt_double cfgs (suc n) e₁
            ≡ some (record e₁ { state = s; incoming_md_updates = r }))
          (length-unread e.incoming_md_updates) second in
      (record e₁ { state = s; incoming_md_updates = r }, rw first' second', refl, drained, drained')

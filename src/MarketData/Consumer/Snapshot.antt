-- ===== src/MarketData/Consumer/Snapshot.antt =====
-- A snapshot from end to end: what the synthesizer publishes ends the recovery of a consumer.
use vots.Base.{
  ℕ, ◌+◌, ◌%◌, ◌^◌, ◌<◌, ◌≡◌, refl, sym, ap, subst, ◌∙◌, true, false, List, [], ◌∷◌, ◌++◌, arith,
  All, length,
}
use vots.Messages.{MeMarketUpdate, MarketUpdateType, default_market_update}
use vots.MarketData.SnapshotSynthesizer.{
  SnapshotSynthesizer, tickers_from, number_from, boundary, snapshot_of,
}
use vots.MarketData.Consumer.{
  MarketDataConsumer, Queued, is_start, is_end, last_or, check_snapshot_sync,
}
use vots.MarketData.Consumer.Recovery.{Consecutive, first_or}
use vots.MarketData.Consumer.Stream.{queued_of, check_snapshot_sync_ends}

number_from-Consecutive :
    (us : List MeMarketUpdate) (n : ℕ)
    → n + length us < 2 ^ 64
    → Consecutive n (queued_of (number_from n us))
unfolding number_from
number_from-Consecutive [] n h = tt
number_from-Consecutive (u ∷ us) n h = (
  refl,
  subst (λ k. Consecutive k (queued_of (number_from (n + 1) us))) (omega arith)
      (number_from-Consecutive us (n + 1) (omega arith)),
)

last_or-number_from :
    (us : List MeMarketUpdate) (u last : MeMarketUpdate) (n : ℕ)
    → last_or u (queued_of (number_from n (us ++ (last ∷ [])))) ≡ last
unfolding number_from
last_or-number_from [] u last n = refl
last_or-number_from (v ∷ us) u last n = last_or-number_from us v last (n + 1)

-- The updates of a snapshot, without their numbers.
abbrev pub contents : ℕ → ℕ → SnapshotSynthesizer → List MeMarketUpdate
contents tickers ids s =
    boundary MarketUpdateType.snapshot_start s.last_inc_seq_num
    ∷ (tickers_from s ids 0 tickers
        ++ (boundary MarketUpdateType.snapshot_end s.last_inc_seq_num ∷ []))

snapshot_last :
    (tickers ids : ℕ) (s : SnapshotSynthesizer) (u : MeMarketUpdate)
    → last_or u (queued_of (number_from 0 (contents tickers ids s)))
      ≡ boundary MarketUpdateType.snapshot_end s.last_inc_seq_num
unfolding number_from
snapshot_last tickers ids s u = last_or-number_from (tickers_from s ids 0 tickers) _ _ 1

-- A recovering consumer that has queued exactly a snapshot that the synthesizer publishes, and of the
-- incremental stream some updates that the snapshot holds already and then those that follow it
-- without a gap, ends its recovery. The snapshot has fewer than 2^64 messages.
pub snapshot_of_recovers :
    (tickers ids : ℕ) (s : SnapshotSynthesizer) (c : MarketDataConsumer) (old fresh : Queued)
    → length (contents tickers ids s) < 2 ^ 64
    → c.snapshot_queued_msgs ≡ queued_of (snapshot_of tickers ids s)
    → c.incremental_queued_msgs ≡ old ++ fresh
    → All (λ x. x.0 < (s.last_inc_seq_num + 1) % 2 ^ 64) old
    → Consecutive ((s.last_inc_seq_num + 1) % 2 ^ 64) fresh
    → (check_snapshot_sync c).in_recovery ≡ false
unfolding snapshot_of number_from
snapshot_of_recovers tickers ids s c old fresh small same parts older numbers =
    let last =
      ap (last_or default_market_update) same ∙ snapshot_last tickers ids s default_market_update in
    let next = ap (λ (u : MeMarketUpdate). (u.order_id + 1) % 2 ^ 64) (sym last) in
    check_snapshot_sync_ends c old fresh
      (subst (Consecutive 0) (sym same)
        (number_from-Consecutive (contents tickers ids s) 0 (omega arith)))
      (subst (λ q. is_start (first_or default_market_update q) ≡ true) (sym same) refl)
      (ap is_end last) parts (subst (λ n. All (λ x. x.0 < n) old) next older)
      (subst (λ n. Consecutive n fresh) next numbers)

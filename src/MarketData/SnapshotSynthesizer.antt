-- ===== src/MarketData/SnapshotSynthesizer.antt =====
-- src/market_data/snapshot_synthesizer.cpp: the resting orders by ticker and order id, from which
-- snapshots are published.
use vots.Base.{
  ℕ, zero, suc, ◌+◌, ◌%◌, ◌^◌, Option, none, some, List, [], ◌∷◌, ◌++◌, if◌then◌else◌, ◌==◌, ◌&&◌,
  ltb, update, ◌>>=◌,
}
use vots.Types.{side_eq, me_max_tickers, me_max_order_ids}
use vots.Messages.{MeMarketUpdate, MarketUpdateType, MdpMarketUpdate, default_market_update}
use vots.Runtime.MemoryPool.{MemoryPool, allocate, deallocate}

pub record SnapshotSynthesizer : Type 0 where
  pub ticker_orders : ℕ → ℕ → Option ℕ
  pub order_pool : MemoryPool MeMarketUpdate
  pub last_inc_seq_num : ℕ

abbrev pub order_at : SnapshotSynthesizer → ℕ → MeMarketUpdate
order_at s p = (s.order_pool.store p).object

abbrev pub set_entry : SnapshotSynthesizer → ℕ → ℕ → Option ℕ → SnapshotSynthesizer
set_entry s ticker id entry = record s {
  ticker_orders = update s.ticker_orders ticker (update (s.ticker_orders ticker) id entry);
}

-- `orders->at(order_id)`, which ends the process out of range.
abbrev pub find_order : SnapshotSynthesizer → MeMarketUpdate → Option (Option ℕ)
find_order s u =
    if ltb u.order_id me_max_order_ids then some (s.ticker_orders u.ticker_id u.order_id) else none

-- The ASSERTs on an order that must exist and match.
unfoldable pub expect_order : SnapshotSynthesizer → MeMarketUpdate → Option ℕ
expect_order s u = do
  found ← find_order s u
  order ← found
  if (order_at s order).order_id == u.order_id && side_eq (order_at s order).side u.side
      then some order
      else none

unfoldable pub apply_add : SnapshotSynthesizer → MeMarketUpdate → Option SnapshotSynthesizer
apply_add s u = do
  found ← find_order s u
  elim found [
    | some order ↦ none
    | none ↦ do
      new ← allocate s.order_pool u
      some (set_entry (record s { order_pool = new.1 }) u.ticker_id u.order_id (some new.0))
  ]

unfoldable pub apply_modify : SnapshotSynthesizer → MeMarketUpdate → Option SnapshotSynthesizer
unfolding expect_order
apply_modify s u = do
  order ← expect_order s u
  some (record s {
    order_pool = record s.order_pool {
      store = update s.order_pool.store order (record (s.order_pool.store order) {
        object = record (order_at s order) { qty = u.qty; price = u.price };
      });
    };
  })

unfoldable pub apply_cancel : SnapshotSynthesizer → MeMarketUpdate → Option SnapshotSynthesizer
unfolding expect_order
apply_cancel s u = do
  order ← expect_order s u
  pool ← deallocate s.order_pool order
  some (set_entry (record s { order_pool = pool }) u.ticker_id u.order_id none)

-- The switch of AddToSnapshot.
unfoldable pub apply_update : SnapshotSynthesizer → MeMarketUpdate → Option SnapshotSynthesizer
unfolding apply_add apply_modify apply_cancel
apply_update s u = elim u.type [
  | MarketUpdateType.add ↦ apply_add s u
  | MarketUpdateType.modify ↦ apply_modify s u
  | MarketUpdateType.cancel ↦ apply_cancel s u
  | _ ↦ some s
]

unfoldable pub add_to_snapshot : SnapshotSynthesizer → MdpMarketUpdate → Option SnapshotSynthesizer
unfolding apply_update
add_to_snapshot s m =
    if ltb m.me_market_update.ticker_id me_max_tickers
    then (apply_update s m.me_market_update >>= λ s'.
        if m.seq_num == ((s.last_inc_seq_num + 1) % 2 ^ 64)
        then some (record s' { last_inc_seq_num = m.seq_num })
        else none)
    else none

-- The orders of a ticker from an id on, for so many ids.
unfoldable pub orders_of : SnapshotSynthesizer → ℕ → ℕ → ℕ → List MeMarketUpdate
orders_of s ticker id zero = []
orders_of s ticker id (suc n) =
    let rest = orders_of s ticker (id + 1) n in
    elim (s.ticker_orders ticker id) [ none ↦ rest | some order ↦ order_at s order ∷ rest ]

-- A ticker is cleared and then listed.
unfoldable pub tickers_from : SnapshotSynthesizer → ℕ → ℕ → ℕ → List MeMarketUpdate
unfolding orders_of
tickers_from s ids ticker zero = []
tickers_from s ids ticker (suc n) =
    (record default_market_update { type = MarketUpdateType.clear; ticker_id = ticker }
      ∷ orders_of s ticker 0 ids)
    ++ tickers_from s ids (ticker + 1) n

-- Numbering by `snapshot_size++`.
unfoldable pub number_from : ℕ → List MeMarketUpdate → List MdpMarketUpdate
number_from n [] = []
number_from n (u ∷ us) = record { seq_num = n; me_market_update = u } ∷ number_from (n + 1) us

abbrev pub boundary : MarketUpdateType → ℕ → MeMarketUpdate
boundary type last = record default_market_update { type = type; order_id = last }

-- The messages of PublishSnapshot, for so many tickers and order ids.
unfoldable pub snapshot_of : ℕ → ℕ → SnapshotSynthesizer → List MdpMarketUpdate
unfolding tickers_from number_from
snapshot_of tickers ids s = number_from 0 (
    boundary MarketUpdateType.snapshot_start s.last_inc_seq_num
    ∷ (tickers_from s ids 0 tickers
        ++ (boundary MarketUpdateType.snapshot_end s.last_inc_seq_num ∷ [])))

unfoldable pub publish_snapshot : SnapshotSynthesizer → List MdpMarketUpdate
publish_snapshot s = snapshot_of me_max_tickers me_max_order_ids s

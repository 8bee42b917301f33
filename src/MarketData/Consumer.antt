-- ===== src/MarketData/Consumer.antt =====
-- src/market_data/market_data_consumer.cpp: the incremental stream is passed on while it has no gap;
-- after a gap both streams are queued until a snapshot and what follows it are complete.
-- A `std::map` by sequence number is a list in the order of its keys. The sockets are left out:
-- which stream a message came from is an argument.
pub mod Recovery
pub mod Stream
pub mod Snapshot
use vots.Base.{
  ℕ, zero, suc, ◌+◌, ◌%◌, ◌^◌, Bool, true, false, not, Option, none, some, List, [], ◌∷◌, ◌++◌,
  if◌then◌else◌, ◌==◌, ◌&&◌, ◌||◌, ltb,
}
use vots.Messages.{MeMarketUpdate, MarketUpdateType, MdpMarketUpdate}
use vots.Runtime.LockFreeQueue.{LockFreeQueue, push}

abbrev pub Queued : Type 0
Queued = List (ℕ × MeMarketUpdate)

pub record MarketDataConsumer : Type 0 where
  pub next_exp_inc_seq_num : ℕ
  pub incoming_md_updates : LockFreeQueue MeMarketUpdate
  pub in_recovery : Bool
  pub snapshot_queued_msgs : Queued
  pub incremental_queued_msgs : Queued

-- `queued[seq] = update`.
unfoldable pub insert : ℕ → MeMarketUpdate → Queued → Queued
insert k u [] = (k, u) ∷ []
insert k u ((j, v) ∷ m) =
    if ltb k j then (k, u) ∷ ((j, v) ∷ m) else if k == j then (k, u) ∷ m else (j, v) ∷ insert k u m

unfoldable pub contains : ℕ → Queued → Bool
contains k [] = false
contains k ((j, v) ∷ m) = k == j || contains k m

abbrev pub is_start : MeMarketUpdate → Bool
is_start u = elim u.type [ MarketUpdateType.snapshot_start ↦ true | _ ↦ false ]

abbrev pub is_end : MeMarketUpdate → Bool
is_end u = elim u.type [ MarketUpdateType.snapshot_end ↦ true | _ ↦ false ]

-- `final_events.push_back`, for what is no boundary of a snapshot.
abbrev pub event : MeMarketUpdate → List MeMarketUpdate → List MeMarketUpdate
event u rest = if is_start u || is_end u then rest else u ∷ rest

-- The loop over the queued snapshot: its events, if the numbers have no gap.
unfoldable pub scan_snapshot : ℕ → Queued → Option (List MeMarketUpdate)
scan_snapshot next [] = some []
scan_snapshot next ((seq, u) ∷ m) =
    let rest = scan_snapshot ((next + 1) % 2 ^ 64) m in
    if seq == next then elim rest [ none ↦ none | some events ↦ some (event u events) ] else none

-- The result of the loop over the queued incremental messages.
pub record Scan : Type 0 where
  pub complete : Bool
  pub events : List MeMarketUpdate
  pub next_exp : ℕ

unfoldable pub scan_incremental : ℕ → Queued → Scan
scan_incremental next [] = record { complete = true; events = []; next_exp = next }
scan_incremental next ((seq, u) ∷ m) =
    let skipped = scan_incremental next m in
    let taken = scan_incremental ((next + 1) % 2 ^ 64) m in
    if ltb seq next
    then skipped
    else if not (seq == next)
    then record { complete = false; events = []; next_exp = next }
    else record taken { events = event u taken.events }

abbrev pub last_or : MeMarketUpdate → Queued → MeMarketUpdate
last_or u [] = u
last_or u ((seq, v) ∷ m) = last_or v m

unfoldable pub push_all :
    LockFreeQueue MeMarketUpdate → List MeMarketUpdate → LockFreeQueue MeMarketUpdate
push_all q [] = q
push_all q (u ∷ us) = push_all (push q u) us

-- The part of CheckSnapshotSync behind a complete snapshot that ends with `last`.
unfoldable pub finish_sync :
    MarketDataConsumer → List MeMarketUpdate → MeMarketUpdate → MarketDataConsumer
unfolding scan_incremental push_all
finish_sync c snapshot_events last =
    let scan = scan_incremental ((last.order_id + 1) % 2 ^ 64) c.incremental_queued_msgs in
    if scan.complete
    then record {
      next_exp_inc_seq_num = scan.next_exp;
      incoming_md_updates = push_all c.incoming_md_updates (snapshot_events ++ scan.events);
      in_recovery = false;
      snapshot_queued_msgs = [];
      incremental_queued_msgs = [];
    }
    else record c { next_exp_inc_seq_num = scan.next_exp; snapshot_queued_msgs = [] }

unfoldable pub check_from : MarketDataConsumer → Queued → MarketDataConsumer
unfolding finish_sync scan_snapshot
check_from c [] = c
check_from c ((seq, first) ∷ m) =
    if not (is_start first)
    then record c { snapshot_queued_msgs = [] }
    else elim (scan_snapshot 0 ((seq, first) ∷ m)) [
      | none ↦ record c { snapshot_queued_msgs = [] }
      | some events ↦
          if not (is_end (last_or first m)) then c else finish_sync c events (last_or first m)
    ]

unfoldable pub check_snapshot_sync : MarketDataConsumer → MarketDataConsumer
unfolding check_from
check_snapshot_sync c = check_from c c.snapshot_queued_msgs

unfoldable pub queue_message : MarketDataConsumer → Bool → MdpMarketUpdate → MarketDataConsumer
unfolding insert contains
queue_message c is_snapshot m =
    if is_snapshot
    then (let queued =
          if contains m.seq_num c.snapshot_queued_msgs then [] else c.snapshot_queued_msgs in
        check_snapshot_sync
          (record c { snapshot_queued_msgs = insert m.seq_num m.me_market_update queued }))
    else check_snapshot_sync (record c {
      incremental_queued_msgs = insert m.seq_num m.me_market_update c.incremental_queued_msgs;
    })

-- StartSnapshotSync, but for the sockets.
abbrev pub start_snapshot_sync : MarketDataConsumer → MarketDataConsumer
start_snapshot_sync c = record c { snapshot_queued_msgs = []; incremental_queued_msgs = [] }

-- The loop's body in RecvCallback.
unfoldable pub receive : MarketDataConsumer → Bool → MdpMarketUpdate → MarketDataConsumer
receive c is_snapshot m =
    if c.in_recovery
    then queue_message c is_snapshot m
    else if not (m.seq_num == c.next_exp_inc_seq_num)
    then queue_message (start_snapshot_sync (record c { in_recovery = true })) is_snapshot m
    else if is_snapshot
    then c
    else record c {
      next_exp_inc_seq_num = (c.next_exp_inc_seq_num + 1) % 2 ^ 64;
      incoming_md_updates = push c.incoming_md_updates m.me_market_update;
    }

unfoldable pub receive_all : MarketDataConsumer → Bool → List MdpMarketUpdate → MarketDataConsumer
receive_all c is_snapshot [] = c
receive_all c is_snapshot (m ∷ ms) = receive_all (receive c is_snapshot m) is_snapshot ms

-- RecvCallback on the messages of a buffer: those of the snapshot stream are dropped while the
-- consumer is not in recovery.
unfoldable pub recv_callback : MarketDataConsumer → Bool → List MdpMarketUpdate → MarketDataConsumer
unfolding receive_all receive
recv_callback c is_snapshot ms =
    if is_snapshot && not c.in_recovery then c else receive_all c is_snapshot ms

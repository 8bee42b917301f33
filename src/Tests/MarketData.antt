-- ===== src/Tests/MarketData.antt =====
-- Runs of src/market_data/market_data_consumer.cpp.
use vots.Base.{
  ℕ, ◌≡◌, ◌<◌, refl, arith, true, false, none, some, List, [], ◌∷◌, ◌++◌, if◌then◌else◌, ◌==◌,
}
use vots.Base.Int.{pos}
use vots.Types.{Side}
use vots.Messages.{MeMarketUpdate, MdpMarketUpdate, MarketUpdateType, default_market_update}
use vots.Runtime.LockFreeQueue
use vots.Runtime.LockFreeQueue.{LockFreeQueue, push}
use vots.MarketData.Publisher.{MarketDataPublisher, publish_updates}
use vots.MarketData.Publisher.Numbering.{Numbered, publish_updates-Numbered}
use vots.Runtime.LockFreeQueue.Refine
use vots.Runtime.LockFreeQueue.Refine.{unread}
use vots.Runtime.LockFreeQueue.Room.{HasRoom}
use vots.MarketData.Consumer.{
  MarketDataConsumer, Queued, check_snapshot_sync, recv_callback, receive,
}
use vots.MarketData.Consumer.Recovery.{Synced, check_snapshot_sync-Synced}
use vots.Runtime.MemoryPool
use vots.MarketData.SnapshotSynthesizer.{SnapshotSynthesizer, snapshot_of}
use vots.MarketData.Consumer.Snapshot.{snapshot_of_recovers}
use vots.MarketData.Consumer.Stream.{
  queued_of, updates_of, recv_callback-in_order, check_snapshot_sync_ends, receive_gap,
}

abbrev update_with : MarketUpdateType → ℕ → MeMarketUpdate
update_with t id = record default_market_update {
  type = t;
  order_id = id;
  side = Side.buy;
  price = pos 100;
  qty = 10;
}

abbrev updates : LockFreeQueue MeMarketUpdate
updates = LockFreeQueue.make 8 default_market_update

updates-IsValid : Refine.IsValid updates
updates-IsValid = Refine.make-IsValid 8 default_market_update (omega arith) (omega arith)

updates-HasRoom : (n : ℕ) → n < 8 → HasRoom updates n
unfolding LockFreeQueue.make
updates-HasRoom n h = (updates-IsValid, omega arith)

abbrev live : MarketDataConsumer
live = record {
  next_exp_inc_seq_num = 1;
  incoming_md_updates = updates;
  in_recovery = false;
  snapshot_queued_msgs = [];
  incremental_queued_msgs = [];
}

abbrev message : ℕ → MdpMarketUpdate
message n = record { seq_num = n; me_market_update = update_with MarketUpdateType.add n }

recv_callback-in_order_example :
    ((recv_callback live false (message 1 ∷ message 2 ∷ [])).in_recovery ≡ false)
    × (unread (recv_callback live false (message 1 ∷ message 2 ∷ [])).incoming_md_updates
        ≡ unread updates ++ updates_of (message 1 ∷ message 2 ∷ []))
recv_callback-in_order_example =
    recv_callback-in_order live (message 1 ∷ message 2 ∷ []) refl (refl, (refl, tt))
      (updates-HasRoom 2 (omega arith))

receive_gap_example : receive live false (message 4) ≡ record live {
  in_recovery = true;
  snapshot_queued_msgs = [];
  incremental_queued_msgs = (4, update_with MarketUpdateType.add 4) ∷ [];
}
receive_gap_example = receive_gap live (message 4) refl (omega arith)

-- A snapshot of one order, which holds the updates up to number 4, and the updates 4 and 5.
abbrev snapshot : Queued
snapshot =
    (0, update_with MarketUpdateType.snapshot_start 4)
    ∷ (1, update_with MarketUpdateType.add 2)
    ∷ (2, update_with MarketUpdateType.snapshot_end 4)
    ∷ []

abbrev old_update : Queued
old_update = (4, update_with MarketUpdateType.add 4) ∷ []

abbrev new_update : Queued
new_update = (5, update_with MarketUpdateType.cancel 2) ∷ []

abbrev recovering : MarketDataConsumer
recovering = record live {
  in_recovery = true;
  snapshot_queued_msgs = snapshot;
  incremental_queued_msgs = old_update ++ new_update;
}

check_snapshot_sync-Synced_example : Synced recovering (check_snapshot_sync recovering)
check_snapshot_sync-Synced_example =
    check_snapshot_sync-Synced recovering refl
      (omega arith, omega arith, (omega arith, omega arith, tt)) (updates-HasRoom 5 (omega arith))
      (check_snapshot_sync_ends recovering old_update new_update (refl, (refl, (refl, tt))) refl
        refl refl (omega arith, tt) (refl, tt))

-- The synthesizer behind that snapshot, with one ticker and four order ids.
abbrev synthesizer : SnapshotSynthesizer
synthesizer = record {
  ticker_orders = λ ticker id. if id == 2 then some 0 else none;
  order_pool = MemoryPool.make 4 (update_with MarketUpdateType.add 2);
  last_inc_seq_num = 4;
}

abbrev recovering_from : MarketDataConsumer
recovering_from = record recovering {
  snapshot_queued_msgs = queued_of (snapshot_of 1 4 synthesizer);
}

snapshot_of_recovers_example : (check_snapshot_sync recovering_from).in_recovery ≡ false
unfolding MemoryPool.make snapshot_of
snapshot_of_recovers_example =
    snapshot_of_recovers 1 4 synthesizer recovering_from old_update new_update (omega arith) refl
      refl (omega arith, tt) (refl, tt)

-- A publisher with two updates to send.
abbrev publisher : MarketDataPublisher
publisher = record {
  next_inc_seq_num = 1;
  outgoing_md_updates =
      push (push updates (update_with MarketUpdateType.add 2))
        (update_with MarketUpdateType.cancel 2);
  snapshot_md_updates = LockFreeQueue.make 8 (message 0);
  sent = [];
}

abbrev to_publish : List MeMarketUpdate
to_publish = update_with MarketUpdateType.add 2 ∷ update_with MarketUpdateType.cancel 2 ∷ []

publisher-IsValid : Refine.IsValid publisher.outgoing_md_updates
unfolding LockFreeQueue.make push
publisher-IsValid = record {
  read_in = omega arith;
  ahead = refl;
  fits = omega arith;
  small = omega arith;
}

publish_updates-Numbered_example :
    (p' : MarketDataPublisher) × (publish_updates 2 publisher ≡ some p')
    × Numbered publisher to_publish p'
unfolding LockFreeQueue.make push
publish_updates-Numbered_example =
    publish_updates-Numbered to_publish publisher publisher-IsValid refl
      (Refine.make-IsValid 8 (message 0) (omega arith) (omega arith), omega arith)

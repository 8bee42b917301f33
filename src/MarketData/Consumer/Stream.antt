-- ===== src/MarketData/Consumer/Stream.antt =====
-- The consumer on streams without a gap, and at a gap.
use vots.Base.{
  ℕ, ◌+◌, ◌%◌, ◌^◌, ◌<◌, ◌≡◌, ◌≢◌, refl, sym, ap, subst, ◌∙◌, true, false, some, List, [], ◌∷◌,
  ◌++◌, All, length, append-nil, ne-beq, ==_iff,
}
use vots.Messages.{MeMarketUpdate, MdpMarketUpdate, default_market_update}
use vots.Runtime.LockFreeQueue.{push}
use vots.Runtime.LockFreeQueue.Refine.{unread}
use vots.Runtime.LockFreeQueue.Room.{HasRoom, HasRoom-push, Received, Received-push}
use vots.MarketData.Consumer.{
  MarketDataConsumer, Queued, is_start, is_end, scan_snapshot, scan_incremental, last_or,
  check_from, check_snapshot_sync, receive, receive_all, recv_callback, queue_message,
}
use vots.MarketData.Consumer.Recovery.{
  event-events_of, Consecutive, events_of, first_or, after_snapshot, scan_hit, scan_skip,
  check_from-whole, finish_sync-whole,
}

-- The messages of a buffer with their numbers.
abbrev pub queued_of : List MdpMarketUpdate → Queued
queued_of [] = []
queued_of (m ∷ ms) = (m.seq_num, m.me_market_update) ∷ queued_of ms

abbrev pub updates_of : List MdpMarketUpdate → List MeMarketUpdate
updates_of [] = []
updates_of (m ∷ ms) = m.me_market_update ∷ updates_of ms

-- One message with the expected number.
receive_expected :
    (c : MarketDataConsumer) (m : MdpMarketUpdate)
    → c.in_recovery ≡ false
    → m.seq_num ≡ c.next_exp_inc_seq_num
    → receive c false m ≡ record c {
      next_exp_inc_seq_num = (c.next_exp_inc_seq_num + 1) % 2 ^ 64;
      incoming_md_updates = push c.incoming_md_updates m.me_market_update;
    }
unfolding receive
receive_expected c m live e = rw (live, (==_iff m.seq_num c.next_exp_inc_seq_num).1 e) refl

-- The consumer after a part of the incremental stream.
abbrev pub Passed : MarketDataConsumer → List MdpMarketUpdate → MarketDataConsumer → Type 0
Passed c ms c' =
    (c'.in_recovery ≡ false) × Received c.incoming_md_updates (updates_of ms) c'.incoming_md_updates

receive_all-Passed :
    (ms : List MdpMarketUpdate) (c : MarketDataConsumer)
    → c.in_recovery ≡ false
    → Consecutive c.next_exp_inc_seq_num (queued_of ms)
    → HasRoom c.incoming_md_updates (length ms)
    → Passed c ms (receive_all c false ms)
unfolding receive_all
receive_all-Passed [] c live numbers room = (live, (sym (append-nil _), room.0))
receive_all-Passed (m ∷ ms) c live numbers room =
    let step = receive_expected c m live numbers.0 in
    let next = record c {
      next_exp_inc_seq_num = (c.next_exp_inc_seq_num + 1) % 2 ^ 64;
      incoming_md_updates = push c.incoming_md_updates m.me_market_update;
    } in
    let rest =
      receive_all-Passed ms next live numbers.1
        (HasRoom-push c.incoming_md_updates m.me_market_update (length ms) room) in
    subst (λ x. Passed c (m ∷ ms) (receive_all x false ms)) (sym step)
      (
        rest.0,
        Received-push c.incoming_md_updates m.me_market_update (length ms) (updates_of ms) _ room
            rest.1,
      )

-- While the incremental stream has no gap, RecvCallback hands every update of a buffer to the
-- trading engine's queue, in the order of the stream, and the consumer stays out of recovery.
-- The queue has room for the buffer's messages.
pub recv_callback-in_order :
    (c : MarketDataConsumer) (ms : List MdpMarketUpdate)
    → c.in_recovery ≡ false
    → Consecutive c.next_exp_inc_seq_num (queued_of ms)
    → HasRoom c.incoming_md_updates (length ms)
    → ((recv_callback c false ms).in_recovery ≡ false)
      × (unread (recv_callback c false ms).incoming_md_updates
          ≡ unread c.incoming_md_updates ++ updates_of ms)
unfolding recv_callback
recv_callback-in_order c ms live numbers room =
    let p = receive_all-Passed ms c live numbers room in (p.0, p.1.0)

-- The scans of whole queues.
scan_snapshot_whole :
    (m : Queued) (n : ℕ) → Consecutive n m → scan_snapshot n m ≡ some (events_of m)
unfolding scan_snapshot
scan_snapshot_whole [] n c = refl
scan_snapshot_whole ((k, u) ∷ m) n c =
    rw ((==_iff k n).1 c.0, scan_snapshot_whole m ((n + 1) % 2 ^ 64) c.1)
      (ap some (event-events_of k u m (events_of m) refl))

scan_incremental_whole :
    (m : Queued) (n : ℕ) → Consecutive n m → (scan_incremental n m).complete ≡ true
unfolding scan_incremental
scan_incremental_whole [] n c = refl
scan_incremental_whole ((k, u) ∷ m) n c =
    rw (scan_hit n k u m c.0) (scan_incremental_whole m ((n + 1) % 2 ^ 64) c.1)

scan_incremental_fresh :
    (old fresh : Queued) (n : ℕ)
    → All (λ x. x.0 < n) old
    → Consecutive n fresh
    → (scan_incremental n (old ++ fresh)).complete ≡ true
scan_incremental_fresh [] fresh n older c = scan_incremental_whole fresh n c
scan_incremental_fresh ((k, u) ∷ old) fresh n older c =
    rw (scan_skip n k u (old ++ fresh) older.0) (scan_incremental_fresh old fresh n older.1 c)

-- A recovery ends as soon as the queues allow it: the queued snapshot is numbered from 0 without a
-- gap, from its START to its END, and the incremental messages are older ones followed by a part
-- that goes on without a gap behind the snapshot.
pub check_snapshot_sync_ends :
    (c : MarketDataConsumer) (old fresh : Queued)
    → Consecutive 0 c.snapshot_queued_msgs
    → is_start (first_or default_market_update c.snapshot_queued_msgs) ≡ true
    → is_end (last_or default_market_update c.snapshot_queued_msgs) ≡ true
    → c.incremental_queued_msgs ≡ old ++ fresh
    → All (λ x. x.0 < after_snapshot c) old
    → Consecutive (after_snapshot c) fresh
    → (check_snapshot_sync c).in_recovery ≡ false
unfolding check_snapshot_sync
check_snapshot_sync_ends c old fresh numbered starts ends parts older numbers =
    ends_from c c.snapshot_queued_msgs old fresh numbered starts ends parts older numbers
  where
    ends_from :
        (c : MarketDataConsumer) (m old fresh : Queued)
        → Consecutive 0 m
        → is_start (first_or default_market_update m) ≡ true
        → is_end (last_or default_market_update m) ≡ true
        → c.incremental_queued_msgs ≡ old ++ fresh
        → All (λ x. x.0 < ((last_or default_market_update m).order_id + 1) % 2 ^ 64) old
        → Consecutive (((last_or default_market_update m).order_id + 1) % 2 ^ 64) fresh
        → (check_from c m).in_recovery ≡ false
    ends_from c [] old fresh numbered starts ends parts older numbers = absurd (cc)
    ends_from c ((k, u) ∷ m) old fresh numbered starts ends parts older numbers =
        let found = scan_snapshot_whole ((k, u) ∷ m) 0 numbered in
        let es = events_of ((k, u) ∷ m) in
        let n = ((last_or u m).order_id + 1) % 2 ^ 64 in
        let whole =
          subst (λ q. (scan_incremental n q).complete ≡ true) (sym parts)
            (scan_incremental_fresh old fresh n older numbers) in
        ap (λ (x : MarketDataConsumer). x.in_recovery)
          (check_from-whole c k u m es starts found ends
            ∙ finish_sync-whole c es (last_or u m) whole)

-- At a gap nothing is passed on: the consumer enters recovery, expects the same number as before,
-- and the message is the only one queued.
pub receive_gap :
    (c : MarketDataConsumer) (m : MdpMarketUpdate)
    → c.in_recovery ≡ false
    → m.seq_num ≢ c.next_exp_inc_seq_num
    → receive c false m ≡ record c {
      in_recovery = true;
      snapshot_queued_msgs = [];
      incremental_queued_msgs = (m.seq_num, m.me_market_update) ∷ [];
    }
unfolding receive queue_message check_snapshot_sync check_from
receive_gap c m live other = rw (live, ne-beq m.seq_num c.next_exp_inc_seq_num other) refl

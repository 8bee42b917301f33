-- ===== src/MarketData/Publisher.antt =====
-- src/market_data/market_data_publisher.cpp: updates of the matching engine go out under sequence
-- numbers on the incremental stream, and to the snapshot synthesizer's queue.
pub mod Numbering
use vots.Base.{ℕ, zero, suc, ◌+◌, ◌%◌, ◌^◌, Option, none, some, List, [], ◌∷◌, ◌++◌, ◌>>=◌}
use vots.Messages.{MeMarketUpdate, MdpMarketUpdate}
use vots.Runtime.LockFreeQueue.{LockFreeQueue, push, get_next_to_read, update_read_index}

-- `sent` holds the messages on the incremental stream.
pub record MarketDataPublisher : Type 0 where
  pub next_inc_seq_num : ℕ
  pub outgoing_md_updates : LockFreeQueue MeMarketUpdate
  pub snapshot_md_updates : LockFreeQueue MdpMarketUpdate
  pub sent : List MdpMarketUpdate

-- One update: the number and the update are sent, the read is committed, and both are queued for
-- the snapshot.
unfoldable pub publish_update : MarketDataPublisher → MeMarketUpdate → Option MarketDataPublisher
publish_update p market_update =
    let m : MdpMarketUpdate = record {
      seq_num = p.next_inc_seq_num;
      me_market_update = market_update;
    } in
    update_read_index p.outgoing_md_updates >>= λ q. some (record {
      next_inc_seq_num = (p.next_inc_seq_num + 1) % 2 ^ 64;
      outgoing_md_updates = q;
      snapshot_md_updates = push p.snapshot_md_updates m;
      sent = p.sent ++ (m ∷ []);
    })

-- The loop of Run over the updates at hand, on fuel for their number.
unfoldable pub publish_updates : ℕ → MarketDataPublisher → Option MarketDataPublisher
publish_updates zero p = some p
publish_updates (suc fuel) p = elim (get_next_to_read p.outgoing_md_updates) [
  | none ↦ some p
  | some market_update ↦ publish_update p market_update >>= λ p'. publish_updates fuel p'
]

-- ===== src/MarketData/Publisher/Numbering.antt =====
-- The numbers under which the publisher sends its updates.
use vots.Base.{
  ℕ, suc, ◌+◌, ◌%◌, ◌^◌, ◌≡◌, refl, sym, ◌∙◌, some, List, [], ◌∷◌, ◌++◌, append-nil, append_assoc,
  length,
}
use vots.Messages.{MeMarketUpdate, MdpMarketUpdate}
use vots.Runtime.LockFreeQueue.{LockFreeQueue, push, get_next_to_read, update_read_index}
use vots.Runtime.LockFreeQueue.Refine.{IsValid, unread, unread-read}
use vots.Runtime.LockFreeQueue.Room.{HasRoom, HasRoom-push, Received, Received-push}
use vots.MarketData.Publisher.{MarketDataPublisher, publish_update, publish_updates}

-- The updates under consecutive numbers from `n` on.
abbrev pub numbered_updates : ℕ → List MeMarketUpdate → List MdpMarketUpdate
numbered_updates n [] = []
numbered_updates n (u ∷ us) =
    record { seq_num = n; me_market_update = u } ∷ numbered_updates ((n + 1) % 2 ^ 64) us

-- What publishing a list of updates does.
pub record Numbered (p : MarketDataPublisher) (us : List MeMarketUpdate) (p' : MarketDataPublisher)
    : Type 0 where
  pub on_stream : p'.sent ≡ p.sent ++ numbered_updates p.next_inc_seq_num us
  pub for_snapshot :
      Received p.snapshot_md_updates (numbered_updates p.next_inc_seq_num us) p'.snapshot_md_updates
  pub all_read : unread p'.outgoing_md_updates ≡ []

-- The publisher behind one update, of which the read is committed in `q`.
abbrev published :
    MarketDataPublisher → MeMarketUpdate → LockFreeQueue MeMarketUpdate → MarketDataPublisher
published p u q = record {
  next_inc_seq_num = (p.next_inc_seq_num + 1) % 2 ^ 64;
  outgoing_md_updates = q;
  snapshot_md_updates =
      push p.snapshot_md_updates (record { seq_num = p.next_inc_seq_num; me_market_update = u });
  sent = p.sent ++ (record { seq_num = p.next_inc_seq_num; me_market_update = u } ∷ []);
}

publish_updates_step :
    (p : MarketDataPublisher) (u : MeMarketUpdate) (q : LockFreeQueue MeMarketUpdate) (fuel : ℕ)
    → get_next_to_read p.outgoing_md_updates ≡ some u
    → update_read_index p.outgoing_md_updates ≡ some q
    → publish_updates (suc fuel) p ≡ publish_updates fuel (published p u q)
unfolding publish_updates publish_update
publish_updates_step p u q fuel next committed = rw (next, publish_updates, committed) refl

-- The publisher sends the updates that its queue holds on the incremental stream, in their order and
-- under consecutive numbers from its next number on, queues the same messages for the snapshot, and
-- leaves none unread. The loop has a round for each update; the queue is valid and that for the
-- snapshot has room.
pub publish_updates-Numbered :
    (us : List MeMarketUpdate) (p : MarketDataPublisher)
    → IsValid p.outgoing_md_updates
    → unread p.outgoing_md_updates ≡ us
    → HasRoom p.snapshot_md_updates (length us)
    → (p' : MarketDataPublisher) × (publish_updates (length us) p ≡ some p') × Numbered p us p'
unfolding publish_updates
publish_updates-Numbered [] p v e room = (
  p,
  refl,
  record {
    on_stream = sym (append-nil _);
    for_snapshot = (sym (append-nil _), room.0);
    all_read = e;
  },
)
publish_updates-Numbered (u ∷ us) p v e room =
    let m : MdpMarketUpdate = record { seq_num = p.next_inc_seq_num; me_market_update = u } in
    let (next, q, committed, left, valid) = unread-read p.outgoing_md_updates u us v e in
    let (p', ran, n) =
      publish_updates-Numbered us (published p u q) valid left
        (HasRoom-push p.snapshot_md_updates m (length us) room) in
    (
      p',
      publish_updates_step p u q (length us) next committed ∙ ran,
      record {
        on_stream = n.on_stream ∙ append_assoc p.sent (m ∷ []) _;
        for_snapshot = Received-push p.snapshot_md_updates m (length us) _ _ room n.for_snapshot;
        all_read = n.all_read;
      },
    )

-- ===== src/MarketData/Consumer/Recovery.antt =====
-- What CheckSnapshotSync passes on when it ends a recovery.
use vots.Base.{
  ℕ, ◌+◌, ◌%◌, ◌^◌, ◌≤◌, ◌<◌, ◌≡◌, refl, sym, ap, subst, ◌∙◌, inl, inr, true, false, some, List, [],
  ◌∷◌, ◌++◌, ◌==◌, Bool-cases, Option-cases, arith, All, length, length-append, append-nil,
  some_inj, none-ne-some, lt→ltb, lt→ltb_false, ne-beq, ℕ_discrete, dec_lt, ==_iff,
}
use vots.Messages.{MeMarketUpdate, MarketUpdateType, default_market_update}
use vots.Runtime.LockFreeQueue.{LockFreeQueue, push}
use vots.Runtime.LockFreeQueue.Room.{HasRoom, HasRoom-push, Received, Received-push}
use vots.MarketData.Consumer.{
  MarketDataConsumer, Queued, is_start, is_end, event, scan_snapshot, Scan, scan_incremental,
  last_or, push_all, finish_sync, check_from, check_snapshot_sync,
}

-- The numbers go up by one from `n`.
abbrev pub Consecutive : ℕ → Queued → Type 0
Consecutive n [] = Unit {0}
Consecutive n ((k, u) ∷ m) = (k ≡ n) × Consecutive ((n + 1) % 2 ^ 64) m

-- The number behind the last.
abbrev pub behind : ℕ → Queued → ℕ
behind n [] = n
behind n (x ∷ m) = behind ((n + 1) % 2 ^ 64) m

-- A `std::map` whose keys are 64-bit numbers from `n` on, in their order.
abbrev pub Above : ℕ → Queued → Type 0
Above n [] = Unit {0}
Above n ((k, u) ∷ m) = (n ≤ k) × (k < 2 ^ 64) × Above (k + 1) m

-- Some updates with one more before them, unless its type is a boundary of a snapshot.
abbrev pub unless_boundary :
    MarketUpdateType → MeMarketUpdate → List MeMarketUpdate → List MeMarketUpdate
unless_boundary MarketUpdateType.snapshot_start u us = us
unless_boundary MarketUpdateType.snapshot_end u us = us
unless_boundary MarketUpdateType.invalid u us = u ∷ us
unless_boundary MarketUpdateType.clear u us = u ∷ us
unless_boundary MarketUpdateType.add u us = u ∷ us
unless_boundary MarketUpdateType.modify u us = u ∷ us
unless_boundary MarketUpdateType.cancel u us = u ∷ us
unless_boundary MarketUpdateType.trade u us = u ∷ us

-- The updates of a queue that are no boundary of a snapshot.
abbrev pub events_of : Queued → List MeMarketUpdate
events_of [] = []
events_of ((k, u) ∷ m) = unless_boundary u.type u (events_of m)

event-unless_boundary :
    (u : MeMarketUpdate) (us : List MeMarketUpdate) → event u us ≡ unless_boundary u.type u us
event-unless_boundary u us = by_type u.type refl
  where
    by_type : (t : MarketUpdateType) → u.type ≡ t → event u us ≡ unless_boundary u.type u us
    by_type MarketUpdateType.snapshot_start e = rw e refl
    by_type MarketUpdateType.snapshot_end e = rw e refl
    by_type MarketUpdateType.invalid e = rw e refl
    by_type MarketUpdateType.clear e = rw e refl
    by_type MarketUpdateType.add e = rw e refl
    by_type MarketUpdateType.modify e = rw e refl
    by_type MarketUpdateType.cancel e = rw e refl
    by_type MarketUpdateType.trade e = rw e refl

-- The same for the events of a queue behind the update.
pub event-events_of :
    (k : ℕ) (u : MeMarketUpdate) (m : Queued) (us : List MeMarketUpdate)
    → us ≡ events_of m
    → event u us ≡ events_of ((k, u) ∷ m)
event-events_of k u m us e = ap (event u) e ∙ event-unless_boundary u (events_of m)

scan_snapshot-Consecutive :
    (m : Queued) (n : ℕ) (events : List MeMarketUpdate)
    → scan_snapshot n m ≡ some events
    → Consecutive n m × (events ≡ events_of m)
unfolding scan_snapshot
scan_snapshot-Consecutive [] n events e = (tt, ground arith)
scan_snapshot-Consecutive ((k, u) ∷ m) n events e = elim (Bool-cases (k == n)) [
  | inr gap ↦ absurd (none-ne-some events (rw gap at e))
  | inl hit ↦ elim (Option-cases (scan_snapshot ((n + 1) % 2 ^ 64) m)) [
    | inl later ↦ absurd (none-ne-some events (rw (hit, later) at e))
    | inr (es, later) ↦
        let (c, same) = scan_snapshot-Consecutive m ((n + 1) % 2 ^ 64) es later in
        (
          ((==_iff k n).0 hit, c),
          sym (some_inj (rw (hit, later) at e)) ∙ event-events_of k u m es same,
        )
  ]
]

-- The three steps of the scan.
pub scan_hit :
    (n k : ℕ) (u : MeMarketUpdate) (m : Queued)
    → k ≡ n
    → scan_incremental n ((k, u) ∷ m) ≡ record (scan_incremental ((n + 1) % 2 ^ 64) m) {
      events = event u (scan_incremental ((n + 1) % 2 ^ 64) m).events;
    }
unfolding scan_incremental
scan_hit n k u m e = rw (lt→ltb_false k n (omega arith), (==_iff k n).1 e)

pub scan_skip :
    (n k : ℕ) (u : MeMarketUpdate) (m : Queued)
    → k < n
    → scan_incremental n ((k, u) ∷ m) ≡ scan_incremental n m
unfolding scan_incremental
scan_skip n k u m h = rw (lt→ltb k n h)

scan_gap :
    (n k : ℕ) (u : MeMarketUpdate) (m : Queued)
    → n < k
    → (scan_incremental n ((k, u) ∷ m)).complete ≡ false
unfolding scan_incremental
scan_gap n k u m h = rw (lt→ltb_false k n (omega arith), ne-beq k n (omega arith))

Above-wrap : (n : ℕ) (m : Queued) → Above (n + 1) m → Above ((n + 1) % 2 ^ 64) m
Above-wrap n [] a = tt
Above-wrap n ((k, u) ∷ m) a = (omega arith, a.1, a.2)

-- What a scan that takes every message returns.
abbrev Took : ℕ → Queued → Scan → Type 0
Took n m scan = Consecutive n m × (scan.events ≡ events_of m) × (scan.next_exp ≡ behind n m)

-- From the expected number on the scan takes all, or finds a gap.
scan-Took :
    (m : Queued) (n : ℕ)
    → Above n m
    → (scan_incremental n m).complete ≡ true
    → Took n m (scan_incremental n m)
unfolding scan_incremental
scan-Took [] n a e = (tt, refl, refl)
scan-Took ((k, u) ∷ m) n a e = elim (ℕ_discrete k n) [
  | yes same ↦
      let step = scan_hit n k u m same in
      let a' = Above-wrap n m (subst (λ j. Above (j + 1) m) same a.2) in
      let (c, events, next) =
        scan-Took m ((n + 1) % 2 ^ 64) a' (ap (λ (x : Scan). x.complete) (sym step) ∙ e) in
      subst (Took n ((k, u) ∷ m)) (sym step) ((same, c), event-events_of k u m _ events, next)
  | no other ↦ absurd (cc (scan_gap n k u m (omega arith)))
]

-- The queued messages before the snapshot's end, which are dropped, and those behind it.
pub record Split (n : ℕ) (m : Queued) (events : List MeMarketUpdate) (next : ℕ) : Type 0 where
  pub old : Queued
  pub fresh : Queued
  pub parts : m ≡ old ++ fresh
  pub all_old : All (λ x. x.0 < n) old
  pub in_sequence : Consecutive n fresh
  pub applied : events ≡ events_of fresh
  pub next_number : next ≡ behind n fresh

scan-Split :
    (m : Queued) (n lo : ℕ)
    → Above lo m
    → (scan_incremental n m).complete ≡ true
    → Split n m (scan_incremental n m).events (scan_incremental n m).next_exp
unfolding scan_incremental
scan-Split [] n lo a e = record {
  old = [];
  fresh = [];
  parts = refl;
  all_old = tt;
  in_sequence = tt;
  applied = refl;
  next_number = refl;
}
scan-Split ((k, u) ∷ m) n lo a e = elim (dec_lt k n) [
  | yes before ↦
      let step = scan_skip n k u m before in
      let s = scan-Split m n (k + 1) a.2 (ap (λ (x : Scan). x.complete) (sym step) ∙ e) in
      record {
        old = (k, u) ∷ s.old;
        fresh = s.fresh;
        parts = ap (λ l. (k, u) ∷ l) s.parts;
        all_old = (before, s.all_old);
        in_sequence = s.in_sequence;
        applied = ap (λ (x : Scan). x.events) step ∙ s.applied;
        next_number = ap (λ (x : Scan). x.next_exp) step ∙ s.next_number;
      }
  | no from_here ↦
      let t = scan-Took ((k, u) ∷ m) n (omega arith, a.1, a.2) e in
      record {
        old = [];
        fresh = (k, u) ∷ m;
        parts = refl;
        all_old = tt;
        in_sequence = t.0;
        applied = t.1;
        next_number = t.2;
      }
]

push_all-Received :
    (us : List MeMarketUpdate) (q : LockFreeQueue MeMarketUpdate)
    → HasRoom q (length us)
    → Received q us (push_all q us)
unfolding push_all
push_all-Received [] q room = (sym (append-nil _), room.0)
push_all-Received (u ∷ us) q room =
    Received-push q u (length us) us _ room
      (push_all-Received us (push q u) (HasRoom-push q u (length us) room))

-- A queue with room for some elements has room for fewer.
HasRoom-less : {T : Type 0} (q : LockFreeQueue T) (n m : ℕ) → n ≤ m → HasRoom q m → HasRoom q n
HasRoom-less q n m h room = (room.0, omega (arith, room.1))

length-unless_boundary :
    (t : MarketUpdateType) (u : MeMarketUpdate) (us : List MeMarketUpdate) (n : ℕ)
    → length us ≤ n
    → length (unless_boundary t u us) ≤ n + 1
length-unless_boundary t u us n h = ground arith

length-events_of : (m : Queued) → length (events_of m) ≤ length m
length-events_of [] = omega arith
length-events_of ((k, u) ∷ m) =
    omega (arith, length-unless_boundary u.type u (events_of m) (length m) (length-events_of m))

abbrev pub first_or : MeMarketUpdate → Queued → MeMarketUpdate
first_or u [] = u
first_or u ((k, v) ∷ m) = v

abbrev pub latest : MeMarketUpdate → Queued → MeMarketUpdate
latest u [] = u
latest u ((k, v) ∷ m) = latest v m

last_or-latest : (u : MeMarketUpdate) (m : Queued) → last_or u m ≡ latest u m
last_or-latest u [] = refl
last_or-latest u ((k, v) ∷ m) = last_or-latest v m

is_start-type : (u : MeMarketUpdate) → is_start u ≡ true → u.type ≡ MarketUpdateType.snapshot_start
is_start-type u h = ground arith

is_end-type : (u : MeMarketUpdate) → is_end u ≡ true → u.type ≡ MarketUpdateType.snapshot_end
is_end-type u h = ground arith

-- The number of the first incremental message that the queued snapshot does not contain.
abbrev pub after_snapshot : MarketDataConsumer → ℕ
after_snapshot c = ((latest default_market_update c.snapshot_queued_msgs).order_id + 1) % 2 ^ 64

-- A recovery that has ended.
pub record Synced (c c' : MarketDataConsumer) : Type 0 where
  pub events : List MeMarketUpdate
  pub numbered : Consecutive 0 c.snapshot_queued_msgs
  pub starts :
      (first_or default_market_update c.snapshot_queued_msgs).type ≡ MarketUpdateType.snapshot_start
  pub ends :
      (latest default_market_update c.snapshot_queued_msgs).type ≡ MarketUpdateType.snapshot_end
  pub split : Split (after_snapshot c) c.incremental_queued_msgs events c'.next_exp_inc_seq_num
  pub received :
      Received c.incoming_md_updates
        (events_of c.snapshot_queued_msgs ++ events)
        c'.incoming_md_updates
  pub no_snapshot : c'.snapshot_queued_msgs ≡ []
  pub no_incremental : c'.incremental_queued_msgs ≡ []

-- The part of CheckSnapshotSync behind the snapshot, when it finds no gap.
pub finish_sync-whole :
    (c : MarketDataConsumer) (se : List MeMarketUpdate) (last : MeMarketUpdate)
    → (scan_incremental ((last.order_id + 1) % 2 ^ 64) c.incremental_queued_msgs).complete ≡ true
    → finish_sync c se last ≡ record {
      next_exp_inc_seq_num =
          (scan_incremental ((last.order_id + 1) % 2 ^ 64) c.incremental_queued_msgs).next_exp;
      incoming_md_updates = push_all c.incoming_md_updates (
          se ++ (scan_incremental ((last.order_id + 1) % 2 ^ 64) c.incremental_queued_msgs).events);
      in_recovery = false;
      snapshot_queued_msgs = [];
      incremental_queued_msgs = [];
    }
unfolding finish_sync
finish_sync-whole c se last whole = rw whole

finish_sync-complete :
    (c : MarketDataConsumer) (se : List MeMarketUpdate) (last : MeMarketUpdate)
    → c.in_recovery ≡ true
    → (finish_sync c se last).in_recovery ≡ false
    → (scan_incremental ((last.order_id + 1) % 2 ^ 64) c.incremental_queued_msgs).complete ≡ true
unfolding finish_sync
finish_sync-complete c se last recovering done =
    elim (Bool-cases
      (scan_incremental ((last.order_id + 1) % 2 ^ 64) c.incremental_queued_msgs).complete) [
        | inl whole ↦ whole
        | inr gap ↦ absurd (cc (rw gap at done))
      ]

-- The events of a scan fit where its messages do.
Split-length :
    {n : ℕ} {m : Queued} {events : List MeMarketUpdate} {next : ℕ}
    → Split n m events next
    → length events ≤ length m
Split-length s = omega (
  arith,
  ap length s.applied,
  length-events_of s.fresh,
  ap length s.parts,
  length-append s.old s.fresh,
)

pub check_from-whole :
    (c : MarketDataConsumer) (seq : ℕ) (first : MeMarketUpdate) (m : Queued)
    (es : List MeMarketUpdate)
    → is_start first ≡ true
    → scan_snapshot 0 ((seq, first) ∷ m) ≡ some es
    → is_end (last_or first m) ≡ true
    → check_from c ((seq, first) ∷ m) ≡ finish_sync c es (last_or first m)
unfolding check_from
check_from-whole c seq first m es starts found ends = rw (starts, found, ends) refl

-- What ends a recovery, by the parts of the check.
check_from-steps :
    (c : MarketDataConsumer) (m : Queued)
    → c.in_recovery ≡ true
    → (check_from c m).in_recovery ≡ false
    → (scan_snapshot 0 m ≡ some (events_of m))
      × (is_start (first_or default_market_update m) ≡ true)
      × (is_end (last_or default_market_update m) ≡ true)
      × (check_from c m ≡ finish_sync c (events_of m) (last_or default_market_update m))
unfolding check_from
check_from-steps c [] recovering done = absurd (cc)
check_from-steps c ((seq, first) ∷ m) recovering done = elim (Bool-cases (is_start first)) [
  | inr other ↦ absurd (cc (rw other at done))
  | inl starts ↦ elim (Option-cases (scan_snapshot 0 ((seq, first) ∷ m))) [
    | inl gap ↦ absurd (cc (rw (starts, gap) at done))
    | inr (es, found) ↦ elim (Bool-cases (is_end (last_or first m))) [
      | inr unended ↦ absurd (cc (rw (starts, found, unended) at done))
      | inl ends ↦
          let same = (scan_snapshot-Consecutive ((seq, first) ∷ m) 0 es found).1 in
          (
            found ∙ ap some same,
            starts,
            ends,
            check_from-whole c seq first m es starts found ends
                ∙ ap (λ x. finish_sync c x (last_or first m)) same,
          )
    ]
  ]
]

-- When a recovery ends, the queued snapshot was whole: its numbers go from 0 without a gap, from its
-- START to its END. The incremental queue was a part before the snapshot's last number, which is
-- dropped, and behind it a part without a gap, from the number that follows. Exactly the events of
-- the snapshot and then those of the second part have been passed on, the number that the consumer
-- expects is the one behind them, and both queues are empty. The incremental queue is a map, in the
-- order of its 64-bit keys, and the queue to the trading engine has room for both.
pub check_snapshot_sync-Synced :
    (c : MarketDataConsumer)
    → c.in_recovery ≡ true
    → Above 0 c.incremental_queued_msgs
    → HasRoom c.incoming_md_updates
        (length c.snapshot_queued_msgs + length c.incremental_queued_msgs)
    → (check_snapshot_sync c).in_recovery ≡ false
    → Synced c (check_snapshot_sync c)
unfolding check_snapshot_sync
check_snapshot_sync-Synced c recovering above room done =
    let m = c.snapshot_queued_msgs in
    let last = last_or default_market_update m in
    let (found, starts, ends, same) = check_from-steps c m recovering done in
    let complete =
      finish_sync-complete c (events_of m) last recovering
        (ap (λ (x : MarketDataConsumer). x.in_recovery) (sym same) ∙ done) in
    let split =
      scan-Split c.incremental_queued_msgs ((last.order_id + 1) % 2 ^ 64) 0 above complete in
    let same_last = last_or-latest default_market_update m in
    let events =
      (scan_incremental ((last.order_id + 1) % 2 ^ 64) c.incremental_queued_msgs).events in
    let enough =
      HasRoom-less c.incoming_md_updates (length (events_of m ++ events)) _
        (omega (arith, length-append (events_of m) events, length-events_of m, Split-length split))
        room in
    subst (Synced c) (sym (same ∙ finish_sync-whole c (events_of m) last complete)) (record {
      events = events;
      numbered = (scan_snapshot-Consecutive m 0 (events_of m) found).0;
      starts = is_start-type (first_or default_market_update m) starts;
      ends =
          subst (λ (u : MeMarketUpdate). u.type ≡ MarketUpdateType.snapshot_end) same_last
            (is_end-type last ends);
      split =
          subst
            (λ (u : MeMarketUpdate).
              Split ((u.order_id + 1) % 2 ^ 64) c.incremental_queued_msgs events
                (scan_incremental ((last.order_id + 1) % 2 ^ 64)
                  c.incremental_queued_msgs).next_exp)
            same_last split;
      received = push_all-Received (events_of m ++ events) c.incoming_md_updates enough;
      no_snapshot = refl;
      no_incremental = refl;
    })

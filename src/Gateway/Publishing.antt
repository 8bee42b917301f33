-- ===== src/Gateway/Publishing.antt =====
-- What SequenceAndPublish writes to the matching engine's queue.
use mathlib.Core.List.{Perm}
use mathlib.Core.List as Lists
use mathlib.Core.List.Perm
use native.Mathlib.Bridge.{from_ℕ}
use vots.Base.{
  suc, ◌≡◌, refl, sym, ap, subst, inl, inr, Bool-cases, ◌∙◌, true, false, List, [], ◌∷◌, map,
  append-nil, length, arith,
}
use vots.Messages.{MeClientRequest}
use vots.Runtime.LockFreeQueue.{LockFreeQueue, push}
use vots.Runtime.LockFreeQueue.Room.{HasRoom, HasRoom-push, Received, Received-push}
use vots.Gateway.FifoSequencer.{
  FifoSequencer, RecvTimeClientRequest, IsSorted, Sorter, publish, sequence_and_publish, is_nil,
}

abbrev pub requests_of : List RecvTimeClientRequest → List MeClientRequest
requests_of = map λ r. r.request

publish-Received :
    (rs : List RecvTimeClientRequest) (q : LockFreeQueue MeClientRequest)
    → HasRoom q (length rs)
    → Received q (requests_of rs) (publish q rs)
unfolding publish
publish-Received [] q room = (sym (append-nil _), room.0)
publish-Received (r ∷ rs) q room =
    Received-push q r.request (length rs) (requests_of rs) _ room
      (publish-Received rs (push q r.request) (HasRoom-push q r.request (length rs) room))

from_ℕ-length {ℓ} : {A : Type ℓ} (xs : List A) → from_ℕ (Lists.length xs) ≡ length xs
from_ℕ-length [] = refl
from_ℕ-length (x ∷ xs) = ap suc (from_ℕ-length xs)

length-perm {ℓ} : {A : Type ℓ} {xs ys : List A} → Perm xs ys → length xs ≡ length ys
length-perm {xs} {ys} p = sym (from_ℕ-length xs) ∙ (ap from_ℕ (Perm.length-eq p) ∙ from_ℕ-length ys)

-- The pending requests `rs` have been published.
pub record Published (s : FifoSequencer) (s' : FifoSequencer) : Type 0 where
  pub order : List RecvTimeClientRequest
  pub rearranged : Perm order s.pending
  pub sorted : IsSorted order
  pub written : Received s.incoming_requests (requests_of order) s'.incoming_requests
  pub none_left : s'.pending ≡ []

publish_all :
    (sorter : Sorter) (s : FifoSequencer)
    → is_nil s.pending ≡ false
    → sequence_and_publish sorter s ≡ record {
      incoming_requests = publish s.incoming_requests (sorter.sort s.pending);
      pending = [];
    }
unfolding sequence_and_publish
publish_all sorter s e = rw e

publish_nothing :
    (sorter : Sorter) (s : FifoSequencer)
    → is_nil s.pending ≡ true
    → sequence_and_publish sorter s ≡ s
unfolding sequence_and_publish
publish_nothing sorter s e = rw e

nil_of : (rs : List RecvTimeClientRequest) → is_nil rs ≡ true → rs ≡ []
nil_of [] e = refl
nil_of (r ∷ rs) e = cc

-- SequenceAndPublish writes every pending request to the queue exactly once, in an order in which
-- the receive times do not fall, behind what the queue held, and leaves none pending. The condition
-- is that the queue has room for the pending requests.
pub sequence_and_publish-Published :
    (sorter : Sorter) (s : FifoSequencer)
    → HasRoom s.incoming_requests (length s.pending)
    → Published s (sequence_and_publish sorter s)
sequence_and_publish-Published sorter s room = elim (Bool-cases (is_nil s.pending)) [
  | inl empty ↦
      let e = nil_of s.pending empty in
      subst (Published s) (sym (publish_nothing sorter s empty)) (record {
        order = [];
        rearranged = subst (Perm []) (sym e) (Perm.refl []);
        sorted = tt;
        written = (sym (append-nil _), room.0);
        none_left = e;
      })
  | inr some_pending ↦ subst (Published s) (sym (publish_all sorter s some_pending)) (record {
    order = sorter.sort s.pending;
    rearranged = sorter.rearranged s.pending;
    sorted = sorter.sorted s.pending;
    written =
        publish-Received (sorter.sort s.pending) s.incoming_requests
          (room.0, omega (arith, room.1, length-perm (sorter.rearranged s.pending)));
    none_left = refl;
  })
]

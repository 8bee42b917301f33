-- ===== src/Gateway/FifoSequencer.antt =====
-- src/include/order_gateway/fifo_sequencer.hpp: pending requests are sorted by their receive time and
-- written to the matching engine's queue.
-- `std::sort` may order requests with equal times in any way: the sorter is a parameter, of which
-- the standard promises a sorted rearrangement.
use mathlib.Core.List.{Perm}
use vots.Base.{
  ℕ, Bool, true, false, Option, none, some, List, [], ◌∷◌, ◌++◌, if◌then◌else◌, ltb, length, All,
}
use vots.Base.Int.{ℤ, ◌≤ℤ◌}
use vots.Messages.{MeClientRequest}
use vots.Runtime.LockFreeQueue.{LockFreeQueue, push}

abbrev pub me_max_pending_requests : ℕ
me_max_pending_requests = 1024

pub record RecvTimeClientRequest : Type 0 where
  pub recv_time : ℤ
  pub request : MeClientRequest

-- The first `pending_size_` entries of the array are `pending`.
pub record FifoSequencer : Type 0 where
  pub incoming_requests : LockFreeQueue MeClientRequest
  pub pending : List RecvTimeClientRequest

-- AddClientRequest. A full array is FATAL.
unfoldable pub add_client_request : FifoSequencer → ℤ → MeClientRequest → Option FifoSequencer
add_client_request s rx_time request =
    if ltb (length s.pending) me_max_pending_requests
    then some (record s {
      pending = s.pending ++ (record { recv_time = rx_time; request = request } ∷ []);
    })
    else none

-- Writing requests to the queue one after the other.
unfoldable pub publish :
    LockFreeQueue MeClientRequest → List RecvTimeClientRequest → LockFreeQueue MeClientRequest
publish q [] = q
publish q (r ∷ rs) = publish (push q r.request) rs

-- Receive times do not fall along the list.
abbrev pub NotBefore : ℤ → List RecvTimeClientRequest → Type 0
NotBefore t rs = All (λ r. t ≤ℤ r.recv_time) rs

abbrev pub IsSorted : List RecvTimeClientRequest → Type 0
IsSorted [] = Unit {0}
IsSorted (r ∷ rs) = NotBefore r.recv_time rs × IsSorted rs

-- What the C++ standard says of `std::sort` by `operator<` on the receive times.
pub record Sorter : Type 0 where
  pub sort : List RecvTimeClientRequest → List RecvTimeClientRequest
  pub sorted : (rs : List RecvTimeClientRequest) → IsSorted (sort rs)
  pub rearranged : (rs : List RecvTimeClientRequest) → Perm (sort rs) rs

abbrev pub is_nil {ℓ} : {A : Type ℓ} → List A → Bool
is_nil [] = true
is_nil (x ∷ xs) = false

unfoldable pub sequence_and_publish : Sorter → FifoSequencer → FifoSequencer
unfolding publish
sequence_and_publish sorter s = if is_nil s.pending then s else record s {
  incoming_requests = publish s.incoming_requests (sorter.sort s.pending);
  pending = [];
}

-- ===== src/Tests/Gateway/Sorting.antt =====
-- A sorter for src/include/order_gateway/fifo_sequencer.hpp in place of `std::sort`, and a run with
-- three requests that arrive out of order.
use mathlib.Core.List.Perm
use mathlib.Core.List.{Perm}
use vots.Base.{ℕ, ◌+◌, inl, inr, arith, Bool, List, [], ◌∷◌, if◌then◌else◌, Bool-cases, leb, leb→le}
use vots.Base.Int.{ℤ, pos, pos_part, neg_part, ◌≤ℤ◌}
use vots.Types.{Side}
use vots.Messages.{ClientRequestType}
use vots.Runtime.LockFreeQueue
use vots.Runtime.LockFreeQueue.{LockFreeQueue}
use vots.Runtime.LockFreeQueue.Refine
use vots.Gateway.FifoSequencer.{
  FifoSequencer, RecvTimeClientRequest, NotBefore, IsSorted, Sorter, sequence_and_publish,
}
use vots.Gateway.Publishing.{Published, sequence_and_publish-Published}

abbrev earlier : RecvTimeClientRequest → RecvTimeClientRequest → Bool
earlier a b =
    leb (pos_part a.recv_time + neg_part b.recv_time) (pos_part b.recv_time + neg_part a.recv_time)

abbrev insert : RecvTimeClientRequest → List RecvTimeClientRequest → List RecvTimeClientRequest
insert r [] = r ∷ []
insert r (x ∷ xs) = if earlier r x then r ∷ (x ∷ xs) else x ∷ insert r xs

abbrev sort : List RecvTimeClientRequest → List RecvTimeClientRequest
sort [] = []
sort (r ∷ rs) = insert r (sort rs)

NotBefore-less :
    (a b : ℤ) (rs : List RecvTimeClientRequest) → a ≤ℤ b → NotBefore b rs → NotBefore a rs
NotBefore-less a b [] h n = tt
NotBefore-less a b (r ∷ rs) h n = (omega (arith, h, n.0), NotBefore-less a b rs h n.1)

NotBefore-insert :
    (t : ℤ) (r : RecvTimeClientRequest) (rs : List RecvTimeClientRequest)
    → t ≤ℤ r.recv_time
    → NotBefore t rs
    → NotBefore t (insert r rs)
NotBefore-insert t r [] h n = (h, tt)
NotBefore-insert t r (x ∷ xs) h n = elim (Bool-cases (earlier r x)) [
  | inl e ↦ rw e (h, n)
  | inr e ↦ rw e (n.0, NotBefore-insert t r xs h n.1)
]

insert-IsSorted :
    (r : RecvTimeClientRequest) (rs : List RecvTimeClientRequest)
    → IsSorted rs
    → IsSorted (insert r rs)
insert-IsSorted r [] s = (tt, tt)
insert-IsSorted r (x ∷ xs) s = elim (Bool-cases (earlier r x)) [
  | inl e ↦ rw e ((leb→le _ _ e, NotBefore-less r.recv_time x.recv_time xs (leb→le _ _ e) s.0), s)
  | inr e ↦ rw e (NotBefore-insert x.recv_time r xs (ground arith) s.0, insert-IsSorted r xs s.1)
]

sort-IsSorted : (rs : List RecvTimeClientRequest) → IsSorted (sort rs)
sort-IsSorted [] = tt
sort-IsSorted (r ∷ rs) = insert-IsSorted r (sort rs) (sort-IsSorted rs)

insert-Perm :
    (r : RecvTimeClientRequest) (rs : List RecvTimeClientRequest) → Perm (insert r rs) (r ∷ rs)
insert-Perm r [] = Perm.refl _
insert-Perm r (x ∷ xs) = elim (Bool-cases (earlier r x)) [
  | inl e ↦ rw e (Perm.refl _)
  | inr e ↦ rw e (Perm.trans (Perm.cons x (insert-Perm r xs)) (Perm.swap r x xs))
]

sort-Perm : (rs : List RecvTimeClientRequest) → Perm (sort rs) rs
sort-Perm [] = Perm.refl []
sort-Perm (r ∷ rs) = Perm.trans (insert-Perm r (sort rs)) (Perm.cons r (sort-Perm rs))

abbrev sorter : Sorter
sorter = record { sort = sort; sorted = sort-IsSorted; rearranged = sort-Perm }

abbrev received : ℕ → ℕ → RecvTimeClientRequest
received time id = record {
  recv_time = pos time;
  request = record {
    type = ClientRequestType.new;
    client_id = 1;
    ticker_id = 0;
    order_id = id;
    side = Side.buy;
    price = pos 100;
    qty = 10;
  };
}

abbrev waiting : FifoSequencer
waiting = record {
  incoming_requests = LockFreeQueue.make 8 (received 0 0).request;
  pending = received 30 1 ∷ received 10 2 ∷ received 20 3 ∷ [];
}

waiting-IsValid : Refine.IsValid waiting.incoming_requests
waiting-IsValid = Refine.make-IsValid 8 (received 0 0).request (omega arith) (omega arith)

sequence_and_publish-Published_example : Published waiting (sequence_and_publish sorter waiting)
unfolding LockFreeQueue.make
sequence_and_publish-Published_example =
    sequence_and_publish-Published sorter waiting (waiting-IsValid, omega arith)

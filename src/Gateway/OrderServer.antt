-- ===== src/Gateway/OrderServer.antt =====
-- src/include/order_gateway/order_server.hpp and src/order_gateway/order_server.cpp: requests come
-- in on the clients' connections, and responses go out on them.
-- A connection is a number. The bytes of a message are cut out in `Framing`; here a message is read.
-- The tables by client are read at identifiers below 256 only: the source does not check the
-- identifier that a request bears, and out of range what happens is undefined, and is `none`.
use vots.Base.{
  ℕ, ◌+◌, ◌%◌, ◌^◌, Bool, false, Option, none, some, List, [], ◌∷◌, map, if◌then◌else◌, ◌==◌, ltb,
  update, ◌>>=◌,
}
use vots.Base.Int.{ℤ}
use vots.Types.{me_max_num_clients}
use vots.Messages.{OmClientRequest, MeClientRequest, MeClientResponse, OmClientResponse}
use vots.Runtime.LockFreeQueue.{LockFreeQueue}
use vots.Gateway.Framing.{cut}
use vots.Gateway.FifoSequencer.{FifoSequencer, add_client_request, Sorter, sequence_and_publish}

pub record OrderServer : Type 0 where
  pub cid_next_outgoing_seq_num : ℕ → ℕ
  pub cid_next_exp_seq_num : ℕ → ℕ
  pub cid_tcp_socket : ℕ → Option ℕ
  pub fifo_sequencer : FifoSequencer

-- What was written to a connection: a sequence number, and then a response.
pub record Outgoing : Type 0 where
  pub socket : ℕ
  pub message : OmClientResponse

unfoldable pub make_server : LockFreeQueue MeClientRequest → OrderServer
make_server client_requests = record {
  cid_next_outgoing_seq_num = λ _. 1;
  cid_next_exp_seq_num = λ _. 1;
  cid_tcp_socket = λ _. none;
  fifo_sequencer = record { incoming_requests = client_requests; pending = [] };
}

-- The first request of a client binds the client to its connection.
unfoldable pub bind_socket : OrderServer → ℕ → ℕ → OrderServer
bind_socket s client_id socket = elim (s.cid_tcp_socket client_id) [
  | none ↦ record s { cid_tcp_socket = update s.cid_tcp_socket client_id (some socket) }
  | some _ ↦ s
]

abbrev pub is_socket : Option ℕ → ℕ → Bool
is_socket none socket = false
is_socket (some s) socket = s == socket

-- The loop's body in RecvCallback. A request on another connection than the client's, and one out
-- of sequence, is dropped.
unfoldable pub receive : OrderServer → ℕ → ℤ → OmClientRequest → Option OrderServer
receive s socket rx_time r =
    let cid = r.me_client_request.client_id in
    let s₁ = bind_socket s cid socket in
    if ltb cid me_max_num_clients
    then (if is_socket (s₁.cid_tcp_socket cid) socket
        then (if r.seq_num == s₁.cid_next_exp_seq_num cid
            then (add_client_request s₁.fifo_sequencer rx_time r.me_client_request >>= λ fifo.
                some (record s₁ {
                  cid_next_exp_seq_num =
                      update s₁.cid_next_exp_seq_num cid
                        ((s₁.cid_next_exp_seq_num cid + 1) % 2 ^ 64);
                  fifo_sequencer = fifo;
                }))
            else some s₁)
        else some s₁)
    else none

unfoldable pub receive_all : OrderServer → ℕ → ℤ → List OmClientRequest → Option OrderServer
receive_all s socket rx_time [] = some s
receive_all s socket rx_time (r ∷ rs) =
    receive s socket rx_time r >>= λ s'. receive_all s' socket rx_time rs

-- RecvCallback on a connection's inbound bytes, with what stays in the buffer. `decode` reads the
-- bytes of a packed OMClientRequest, of which there are `size`.
unfoldable pub recv_callback :
    ℕ → (List ℕ → OmClientRequest) → OrderServer → ℕ → ℤ → List ℕ → Option (OrderServer × List ℕ)
recv_callback size decode s socket rx_time inbound =
    let c = cut size inbound in
    receive_all s socket rx_time (map decode c.messages) >>= λ s'. some (s', c.rest)

-- RecvFinishedCallback.
unfoldable pub recv_finished_callback : Sorter → OrderServer → OrderServer
recv_finished_callback sorter s = record s {
  fifo_sequencer = sequence_and_publish sorter s.fifo_sequencer;
}

-- One response in the loop of Run: to the client's connection, under the client's next number.
unfoldable pub send_response : OrderServer → MeClientResponse → Option (OrderServer × Outgoing)
send_response s r =
    if ltb r.client_id me_max_num_clients
    then (s.cid_tcp_socket r.client_id >>= λ socket. some (
      record s {
        cid_next_outgoing_seq_num =
            update s.cid_next_outgoing_seq_num r.client_id
              ((s.cid_next_outgoing_seq_num r.client_id + 1) % 2 ^ 64);
      },
      record {
        socket = socket;
        message = record {
          seq_num = s.cid_next_outgoing_seq_num r.client_id;
          me_client_response = r;
        };
      },
    ))
    else none

unfoldable pub send_responses :
    OrderServer → List MeClientResponse → Option (OrderServer × List Outgoing)
send_responses s [] = some (s, [])
send_responses s (r ∷ rs) = do
  one ← send_response s r
  more ← send_responses one.0 rs
  some (more.0, one.1 ∷ more.1)

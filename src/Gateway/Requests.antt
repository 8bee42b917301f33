-- ===== src/Gateway/Requests.antt =====
-- Requests from end to end: what a gateway client sends reaches the sequencer.
use vots.Base.{
  ℕ, suc, ◌+◌, ◌%◌, ◌^◌, ◌≤◌, ◌<◌, ◌≡◌, ◌⊎◌, inl, inr, refl, sym, ap, subst, ◌∙◌, none, some, List,
  [], ◌∷◌, ◌++◌, map, append-nil, append_assoc, length, length-append, arith, update, update_self,
  All,
}
use vots.Base.Int.{ℤ}
use vots.Types.{me_max_num_clients}
use vots.Messages.{MeClientRequest, OmClientRequest}
use vots.Gateway.FifoSequencer.{
  FifoSequencer, RecvTimeClientRequest, add_client_request, me_max_pending_requests,
}
use vots.Gateway.OrderServer.{OrderServer, bind_socket, receive, receive_all}
use vots.Gateway.GatewayClient
use vots.Gateway.GatewayClient.{GatewayClient}

-- The requests under consecutive numbers from `n` on.
abbrev pub numbered : ℕ → List MeClientRequest → List OmClientRequest
numbered n [] = []
numbered n (r ∷ rs) = record { seq_num = n; me_client_request = r } ∷ numbered ((n + 1) % 2 ^ 64) rs

-- The pending entries of requests that were received at one time.
abbrev pub received_at : ℤ → List MeClientRequest → List RecvTimeClientRequest
received_at t = map (λ r. record { recv_time = t; request = r })

-- A client sends its requests under consecutive numbers.
send_requests-numbered :
    (rs : List MeClientRequest) (c : GatewayClient)
    → (GatewayClient.send_requests c rs).1 ≡ numbered c.next_outgoing_seq_num rs
unfolding GatewayClient.send_requests
send_requests-numbered [] c = refl
send_requests-numbered (r ∷ rs) c =
    ap (λ l. record { seq_num = c.next_outgoing_seq_num; me_client_request = r } ∷ l)
      (send_requests-numbered rs
        (record c { next_outgoing_seq_num = (c.next_outgoing_seq_num + 1) % 2 ^ 64 }))

-- The server is ready for the client's next request on the connection.
pub record IsReady (s : OrderServer) (cid socket n room : ℕ) : Type 0 where
  pub known : cid < me_max_num_clients
  pub bound : (s.cid_tcp_socket cid ≡ none) ⊎ (s.cid_tcp_socket cid ≡ some socket)
  pub expects : s.cid_next_exp_seq_num cid ≡ n
  pub fits : length s.fifo_sequencer.pending + room ≤ me_max_pending_requests

bind_socket_lem :
    (s : OrderServer) (cid socket : ℕ)
    → (s.cid_tcp_socket cid ≡ none) ⊎ (s.cid_tcp_socket cid ≡ some socket)
    → ((bind_socket s cid socket).cid_tcp_socket cid ≡ some socket)
      × ((bind_socket s cid socket).cid_next_exp_seq_num ≡ s.cid_next_exp_seq_num)
      × ((bind_socket s cid socket).fifo_sequencer ≡ s.fifo_sequencer)
unfolding bind_socket
bind_socket_lem s cid socket (inl e) =
    rw (e, bind_socket) (update_self s.cid_tcp_socket cid (some socket), refl, refl)
bind_socket_lem s cid socket (inr e) = rw (e, bind_socket) (e, refl, refl)

-- The server once it has taken the request.
abbrev taken : OrderServer → ℕ → ℤ → MeClientRequest → OrderServer
taken s socket t r =
    let s₁ = bind_socket s r.client_id socket in
    record s₁ {
      cid_next_exp_seq_num =
          update s₁.cid_next_exp_seq_num r.client_id
            ((s₁.cid_next_exp_seq_num r.client_id + 1) % 2 ^ 64);
      fifo_sequencer = record s₁.fifo_sequencer {
        pending = s₁.fifo_sequencer.pending ++ (record { recv_time = t; request = r } ∷ []);
      };
    }

receive-taken :
    (s : OrderServer) (socket n room : ℕ) (t : ℤ) (r : MeClientRequest)
    → IsReady s r.client_id socket n (suc room)
    → (receive s socket t (record { seq_num = n; me_client_request = r })
        ≡ some (taken s socket t r))
      × ((taken s socket t r).fifo_sequencer.pending
          ≡ s.fifo_sequencer.pending ++ (record { recv_time = t; request = r } ∷ []))
      × IsReady (taken s socket t r) r.client_id socket ((n + 1) % 2 ^ 64) room
unfolding receive add_client_request
receive-taken s socket n room t r v = (
  ground (arith, bound, expects, fifo),
  ap (λ (f : FifoSequencer). f.pending ++ (record { recv_time = t; request = r } ∷ [])) fifo,
  record {
    known = v.known;
    bound = inr bound;
    expects = ground (arith, expects);
    fits = omega (
      arith,
      ap (λ (f : FifoSequencer). length f.pending) fifo,
      length-append s₁.fifo_sequencer.pending (record { recv_time = t; request = r } ∷ []),
    );
  },
)
  where
    s₁ : OrderServer
    s₁ = bind_socket s r.client_id socket

    bound : s₁.cid_tcp_socket r.client_id ≡ some socket
    bound = (bind_socket_lem s r.client_id socket v.bound).0

    expects : s₁.cid_next_exp_seq_num r.client_id ≡ n
    expects = ap (λ f. f r.client_id) (bind_socket_lem s r.client_id socket v.bound).1 ∙ v.expects

    fifo : s₁.fifo_sequencer ≡ s.fifo_sequencer
    fifo = (bind_socket_lem s r.client_id socket v.bound).2

receive_all-numbered :
    (rs : List MeClientRequest) (s : OrderServer) (cid socket n : ℕ) (t : ℤ)
    → IsReady s cid socket n (length rs)
    → All (λ r. r.client_id ≡ cid) rs
    → (s' : OrderServer) × (receive_all s socket t (numbered n rs) ≡ some s')
      × (s'.fifo_sequencer.pending ≡ s.fifo_sequencer.pending ++ received_at t rs)
unfolding receive_all
receive_all-numbered [] s cid socket n t v own = (s, refl, sym (append-nil _))
receive_all-numbered (r ∷ rs) s cid socket n t v own =
    let v' = subst (λ c. IsReady s c socket n (suc (length rs))) (sym own.0) v in
    let (one, queued, ready) = receive-taken s socket n (length rs) t r v' in
    let (s', all, rest) =
      receive_all-numbered rs (taken s socket t r) cid socket ((n + 1) % 2 ^ 64) t
        (subst (λ c. IsReady (taken s socket t r) c socket ((n + 1) % 2 ^ 64) (length rs)) own.0
          ready)
        own.1 in
    (
      s',
      rw one all,
      rest
          ∙ (ap (λ l. l ++ received_at t rs) queued
              ∙ append_assoc s.fifo_sequencer.pending (record { recv_time = t; request = r } ∷ [])
                  (received_at t rs)),
    )

-- What a gateway client sends, the order server takes: when the server expects the client's next
-- number, has not bound the client to another connection and has room for the requests, then all the
-- requests that the client sends are pending in the order in which they were sent.
pub requests_arrive :
    (c : GatewayClient) (s : OrderServer) (rs : List MeClientRequest) (socket : ℕ) (t : ℤ)
    → IsReady s c.client_id socket c.next_outgoing_seq_num (length rs)
    → All (λ r. r.client_id ≡ c.client_id) rs
    → (s' : OrderServer) × (receive_all s socket t (GatewayClient.send_requests c rs).1 ≡ some s')
      × (s'.fifo_sequencer.pending ≡ s.fifo_sequencer.pending ++ received_at t rs)
requests_arrive c s rs socket t v own =
    rw (send_requests-numbered rs c)
      (receive_all-numbered rs s c.client_id socket c.next_outgoing_seq_num t v own)

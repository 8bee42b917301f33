-- ===== src/Gateway/Responses.antt =====
-- Responses from end to end: what the order server sends reaches the client it is for.
use vots.Base.{
  ℕ, suc, ◌+◌, ◌%◌, ◌^◌, ◌≡◌, ◌≢◌, inl, inr, sym, ap, subst, ◌∙◌, some, List, [], ◌∷◌, append-nil,
  if◌then◌else◌, ◌==◌, length, arith, update, update_self, >>=-eq-some, some_inj, Bool-cases,
  Option-cases, ==_iff, beq-ne, ne-beq, update_ne,
}
use vots.Messages.{MeClientResponse, OmClientResponse}
use vots.Runtime.LockFreeQueue.{push}
use vots.Runtime.LockFreeQueue.Room.{HasRoom, HasRoom-push, Received, Received-push}
use vots.Gateway.OrderServer.{OrderServer, Outgoing, send_response, send_responses}
use vots.Gateway.GatewayClient
use vots.Gateway.GatewayClient.{GatewayClient}

-- The responses that are for a client, and the messages on a connection.
abbrev pub responses_for : ℕ → List MeClientResponse → List MeClientResponse
responses_for cid [] = []
responses_for cid (r ∷ rs) =
    if r.client_id == cid then r ∷ responses_for cid rs else responses_for cid rs

abbrev pub messages_on : ℕ → List Outgoing → List OmClientResponse
messages_on socket [] = []
messages_on socket (o ∷ os) =
    if o.socket == socket then o.message ∷ messages_on socket os else messages_on socket os

-- The connection belongs to the client alone.
pub record Owns (s : OrderServer) (cid socket : ℕ) : Type 0 where
  pub mine : s.cid_tcp_socket cid ≡ some socket
  pub alone : (other : ℕ) → s.cid_tcp_socket other ≡ some socket → other ≡ cid

-- The server once it has sent a response, and what it sent.
abbrev numbered_on : OrderServer → MeClientResponse → OrderServer
numbered_on s r = record s {
  cid_next_outgoing_seq_num =
      update s.cid_next_outgoing_seq_num r.client_id
        ((s.cid_next_outgoing_seq_num r.client_id + 1) % 2 ^ 64);
}

abbrev sent_as : OrderServer → MeClientResponse → ℕ → Outgoing
sent_as s r socket = record {
  socket = socket;
  message = record { seq_num = s.cid_next_outgoing_seq_num r.client_id; me_client_response = r };
}

send_response-inv :
    (s : OrderServer) (r : MeClientResponse) (one : OrderServer × Outgoing)
    → send_response s r ≡ some one
    → (socket : ℕ) × (s.cid_tcp_socket r.client_id ≡ some socket)
      × (one.0 ≡ numbered_on s r)
      × (one.1 ≡ sent_as s r socket)
unfolding send_response
send_response-inv s r one e = elim (Option-cases (s.cid_tcp_socket r.client_id)) [
  | inl unbound ↦ absurd (ground arith)
  | inr (socket, bound) ↦ (socket, bound, ground arith, ground arith)
]

-- The client once it has taken a response.
abbrev received : GatewayClient → MeClientResponse → GatewayClient
received c r = record c {
  next_exp_seq_num = (c.next_exp_seq_num + 1) % 2 ^ 64;
  incoming_responses = push c.incoming_responses r;
}

receive-received :
    (c : GatewayClient) (r : MeClientResponse) (n : ℕ)
    → r.client_id ≡ c.client_id
    → c.next_exp_seq_num ≡ n
    → GatewayClient.receive c (record { seq_num = n; me_client_response = r }) ≡ received c r
unfolding GatewayClient.receive
receive-received c r n own next = ground arith

-- The claim of `responses_arrive` for one list of responses.
abbrev Arrive : List MeClientResponse → Type 0
Arrive rs =
    (s s' : OrderServer) (c : GatewayClient) (socket : ℕ) (out : List Outgoing)
    → Owns s c.client_id socket
    → c.next_exp_seq_num ≡ s.cid_next_outgoing_seq_num c.client_id
    → HasRoom c.incoming_responses (length (responses_for c.client_id rs))
    → send_responses s rs ≡ some (s', out)
    → Received c.incoming_responses (responses_for c.client_id rs)
        (GatewayClient.receive_all c (messages_on socket out)).incoming_responses

module _ (r : MeClientResponse) (rs : List MeClientResponse) (ih : Arrive rs) (s s' : OrderServer)
    (c : GatewayClient) (socket : ℕ) (os : List Outgoing) (own : Owns s c.client_id socket)
    (next : c.next_exp_seq_num ≡ s.cid_next_outgoing_seq_num c.client_id)
    (rest : send_responses (numbered_on s r) rs ≡ some (s', os)) where
  arrive_own :
      r.client_id ≡ c.client_id
      → HasRoom c.incoming_responses (suc (length (responses_for c.client_id rs)))
      → Received c.incoming_responses
          (r ∷ responses_for c.client_id rs)
          (GatewayClient.receive_all c
            ((sent_as s r socket).message ∷ messages_on socket os)).incoming_responses
  unfolding GatewayClient.receive_all
  arrive_own same room =
      subst
        (λ k.
          Received c.incoming_responses (r ∷ responses_for c.client_id rs)
            (GatewayClient.receive_all k (messages_on socket os)).incoming_responses)
        (sym (receive-received c r seq same expected))
        (Received-push c.incoming_responses r (length (responses_for c.client_id rs))
          (responses_for c.client_id rs) _ room
          (ih (numbered_on s r) s' (received c r) socket os
            (record { mine = own.mine; alone = own.alone }) next'
            (HasRoom-push c.incoming_responses r (length (responses_for c.client_id rs)) room)
            rest))
    where
      seq : ℕ
      seq = s.cid_next_outgoing_seq_num r.client_id

      expected : c.next_exp_seq_num ≡ seq
      expected = next ∙ ap s.cid_next_outgoing_seq_num (sym same)

      next' :
          (c.next_exp_seq_num + 1) % 2 ^ 64
          ≡ (numbered_on s r).cid_next_outgoing_seq_num c.client_id
      next' =
          subst
            (λ k. (c.next_exp_seq_num + 1) % 2 ^ 64 ≡ (numbered_on s r).cid_next_outgoing_seq_num k)
            same
            (ap (λ n. (n + 1) % 2 ^ 64) expected
              ∙ sym (update_self s.cid_next_outgoing_seq_num r.client_id ((seq + 1) % 2 ^ 64)))

  arrive_other :
      r.client_id ≢ c.client_id
      → HasRoom c.incoming_responses (length (responses_for c.client_id rs))
      → Received c.incoming_responses
          (responses_for c.client_id rs)
          (GatewayClient.receive_all c (messages_on socket os)).incoming_responses
  arrive_other other room =
      ih (numbered_on s r) s' c socket os (record { mine = own.mine; alone = own.alone })
        (next ∙ sym (update_ne s.cid_next_outgoing_seq_num r.client_id _ c.client_id other)) room
        rest

-- What the server sends, the gateway client takes: if the connection belongs to the client alone, the
-- client expects the server's next number for it, and its queue has room, then whenever the server
-- has sent a list of responses, the client has queued exactly the responses that are for it, in
-- their order.
pub responses_arrive :
    (rs : List MeClientResponse) (s s' : OrderServer) (c : GatewayClient) (socket : ℕ)
    (out : List Outgoing)
    → Owns s c.client_id socket
    → c.next_exp_seq_num ≡ s.cid_next_outgoing_seq_num c.client_id
    → HasRoom c.incoming_responses (length (responses_for c.client_id rs))
    → send_responses s rs ≡ some (s', out)
    → Received c.incoming_responses
        (responses_for c.client_id rs)
        (GatewayClient.receive_all c (messages_on socket out)).incoming_responses
unfolding send_responses GatewayClient.receive_all
responses_arrive [] s s' c socket out own next room e =
    let none_out : [] ≡ out = ground arith in
    subst
      (λ o.
        Received c.incoming_responses []
          (GatewayClient.receive_all c (messages_on socket o)).incoming_responses)
      none_out (sym (append-nil _), room.0)
responses_arrive (r ∷ rs) s s' c socket out own next room e =
    let (one, sent, e₁) = >>=-eq-some (send_response s r) _ e in
    let (more, rest, e₂) = >>=-eq-some (send_responses one.0 rs) _ e₁ in
    let (own_socket, bound, same_server, same_out) = send_response-inv s r one sent in
    let rest' = ap (λ q. send_responses q rs) (sym same_server) ∙ rest in
    let split : sent_as s r own_socket ∷ more.1 ≡ out =
      ap (λ o. o ∷ more.1) (sym same_out) ∙ ap (λ p. p.1) (some_inj e₂) in
    subst
      (λ o.
        Received c.incoming_responses (responses_for c.client_id (r ∷ rs))
          (GatewayClient.receive_all c (messages_on socket o)).incoming_responses)
      split
      (elim (Bool-cases (r.client_id == c.client_id)) [
        | inl hit ↦
            let same = (==_iff _ _).0 hit in
            let here = (==_iff _ _).1 (owned own_socket bound same) in
            rw (hit, here)
              (arrive_own r rs (responses_arrive rs) s more.0 c socket more.1 own next rest' same
                (rw hit at room))
        | inr miss ↦
            let other = beq-ne _ _ miss in
            let elsewhere = ne-beq own_socket socket (apart own_socket bound other) in
            rw (miss, elsewhere)
              (arrive_other r rs (responses_arrive rs) s more.0 c socket more.1 own next rest' other
                (rw miss at room))
      ])
  where
    owned : (k : ℕ) → s.cid_tcp_socket r.client_id ≡ some k → r.client_id ≡ c.client_id → k ≡ socket
    owned k bound same = some_inj (sym bound ∙ (ap s.cid_tcp_socket same ∙ own.mine))

    apart : (k : ℕ) → s.cid_tcp_socket r.client_id ≡ some k → r.client_id ≢ c.client_id → k ≢ socket
    apart k bound other e = other (own.alone r.client_id (bound ∙ ap some e))

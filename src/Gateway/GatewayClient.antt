-- ===== src/Gateway/GatewayClient.antt =====
-- src/order_gateway/gateway_client.cpp: a participant's end of the connection.
use vots.Base.{ℕ, ◌+◌, ◌%◌, ◌^◌, List, [], ◌∷◌, map, if◌then◌else◌, ◌==◌, not}
use vots.Messages.{MeClientRequest, OmClientRequest, MeClientResponse, OmClientResponse}
use vots.Runtime.LockFreeQueue.{LockFreeQueue, push}
use vots.Gateway.Framing.{cut}

pub record GatewayClient : Type 0 where
  pub client_id : ℕ
  pub next_outgoing_seq_num : ℕ
  pub next_exp_seq_num : ℕ
  pub incoming_responses : LockFreeQueue MeClientResponse

unfoldable pub make_client : ℕ → LockFreeQueue MeClientResponse → GatewayClient
make_client client_id client_responses = record {
  client_id = client_id;
  next_outgoing_seq_num = 1;
  next_exp_seq_num = 1;
  incoming_responses = client_responses;
}

-- The loop's body in RecvCallback: a response for another client or out of sequence is dropped.
unfoldable pub receive : GatewayClient → OmClientResponse → GatewayClient
receive c r =
    if not (r.me_client_response.client_id == c.client_id)
    then c
    else if not (r.seq_num == c.next_exp_seq_num)
    then c
    else record c {
      next_exp_seq_num = (c.next_exp_seq_num + 1) % 2 ^ 64;
      incoming_responses = push c.incoming_responses r.me_client_response;
    }

unfoldable pub receive_all : GatewayClient → List OmClientResponse → GatewayClient
receive_all c [] = c
receive_all c (r ∷ rs) = receive_all (receive c r) rs

-- RecvCallback on the inbound bytes, with what stays in the buffer; see `OrderServer`.
unfoldable pub recv_callback :
    ℕ → (List ℕ → OmClientResponse) → GatewayClient → List ℕ → GatewayClient × List ℕ
unfolding receive_all receive
recv_callback size decode c inbound =
    let k = cut size inbound in (receive_all c (map decode k.messages), k.rest)

-- The loop of Run that sends requests: each under the next number.
unfoldable pub send_requests :
    GatewayClient → List MeClientRequest → GatewayClient × List OmClientRequest
send_requests c [] = (c, [])
send_requests c (r ∷ rs) =
    let rest =
      send_requests (record c { next_outgoing_seq_num = (c.next_outgoing_seq_num + 1) % 2 ^ 64 })
        rs in
    (rest.0, record { seq_num = c.next_outgoing_seq_num; me_client_request = r } ∷ rest.1)

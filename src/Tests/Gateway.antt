-- ===== src/Tests/Gateway.antt =====
-- Runs of src/order_gateway: two requests from client 1, and responses to clients 1 and 2.
mod Sorting
use vots.Base.{
  ℕ, zero, suc, ◌+◌, ◌≡◌, ◌<◌, refl, sym, arith, Bool, true, false, Option, none, some, List, [],
  ◌∷◌, ◌++◌, All, length, inl, inr, ltb, update, if◌then◌else◌, ◌==◌,
}
use vots.Base.Int.{ℤ, pos}
use vots.Types.{Side}
use vots.Messages.{MeClientRequest, ClientRequestType, MeClientResponse, ClientResponseType}
use vots.Runtime.LockFreeQueue
use vots.Runtime.LockFreeQueue.{LockFreeQueue}
use vots.Runtime.LockFreeQueue.Refine
use vots.Runtime.LockFreeQueue.Room.{HasRoom, Received}
use vots.Gateway.FifoSequencer.{FifoSequencer}
use vots.Gateway.OrderServer.{
  OrderServer, Outgoing, make_server, receive_all, send_response, send_responses,
}
use vots.Gateway.GatewayClient
use vots.Gateway.GatewayClient.{GatewayClient, make_client}
use vots.Gateway.Framing.{cut, continued, cut-append}
use vots.Gateway.Requests.{IsReady, received_at, requests_arrive}
use vots.Gateway.Responses.{responses_for, messages_on, Owns, responses_arrive}

-- Ten bytes arrive in two reads; a message has four.
cut-append_example :
    cut 4 ((1 ∷ 2 ∷ 3 ∷ 4 ∷ 5 ∷ []) ++ (6 ∷ 7 ∷ 8 ∷ 9 ∷ 10 ∷ []))
    ≡ continued 4 (cut 4 (1 ∷ 2 ∷ 3 ∷ 4 ∷ 5 ∷ [])) (6 ∷ 7 ∷ 8 ∷ 9 ∷ 10 ∷ [])
cut-append_example = cut-append 4 (1 ∷ 2 ∷ 3 ∷ 4 ∷ 5 ∷ []) (6 ∷ 7 ∷ 8 ∷ 9 ∷ 10 ∷ []) (omega arith)

abbrev request_of : ℕ → MeClientRequest
request_of id = record {
  type = ClientRequestType.new;
  client_id = 1;
  ticker_id = 0;
  order_id = id;
  side = Side.buy;
  price = pos 100;
  qty = 10;
}

abbrev response_to : ℕ → MeClientResponse
response_to client = record {
  type = ClientResponseType.accepted;
  client_id = client;
  ticker_id = 0;
  client_order_id = 5;
  market_order_id = 6;
  side = Side.buy;
  price = pos 100;
  exec_qty = 0;
  leaves_qty = 10;
}

abbrev requests : LockFreeQueue MeClientRequest
requests = LockFreeQueue.make 8 (request_of 0)

abbrev responses : LockFreeQueue MeClientResponse
responses = LockFreeQueue.make 8 (response_to 0)

abbrev client : GatewayClient
client = make_client 1 responses

abbrev server : OrderServer
server = make_server requests

requests_arrive_example :
    (s' : OrderServer) × (receive_all server 3
        (pos 50)
        (GatewayClient.send_requests client (request_of 5 ∷ request_of 6 ∷ [])).1
      ≡ some s')
    × (s'.fifo_sequencer.pending
        ≡ server.fifo_sequencer.pending ++ received_at (pos 50) (request_of 5 ∷ request_of 6 ∷ []))
unfolding make_client make_server
requests_arrive_example =
    requests_arrive client server (request_of 5 ∷ request_of 6 ∷ []) 3 (pos 50)
      (record { known = omega arith; bound = inl refl; expects = refl; fits = omega arith })
      (refl, (refl, tt))

-- Connections 3 and 4 belong to clients 1 and 2.
abbrev connected : OrderServer
connected = record server {
  cid_tcp_socket = λ c. if c == 1 then some 3 else if c == 2 then some 4 else none;
}

abbrev outgoing : List MeClientResponse
outgoing = response_to 1 ∷ response_to 2 ∷ response_to 1 ∷ []

abbrev sent_or : Option (OrderServer × List Outgoing) → OrderServer × List Outgoing
sent_or none = (server, [])
sent_or (some r) = r

owner : (other : ℕ) → connected.cid_tcp_socket other ≡ some 3 → other ≡ 1
owner other e = ground arith

responses-HasRoom : HasRoom responses 2
unfolding LockFreeQueue.make
responses-HasRoom = (Refine.make-IsValid 8 (response_to 0) (omega arith) (omega arith), omega arith)

responses_arrive_example :
    Received responses
      (responses_for 1 outgoing)
      (GatewayClient.receive_all client
        (messages_on 3 (sent_or (send_responses connected outgoing)).1)).incoming_responses
unfolding make_client make_server send_responses send_response
responses_arrive_example =
    responses_arrive outgoing connected (sent_or (send_responses connected outgoing)).0 client 3
      (sent_or (send_responses connected outgoing)).1 (record { mine = refl; alone = owner }) refl
      responses-HasRoom refl

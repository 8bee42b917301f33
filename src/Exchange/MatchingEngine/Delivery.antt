-- ===== src/Exchange/MatchingEngine/Delivery.antt =====
-- What a request puts on the queues of the engine.
use vots.Base.{◌≡◌, refl, sym, some, List, [], ◌∷◌, append-nil, update, length, lt→ltb, ◌<◌}
use vots.Types.{me_max_tickers}
use vots.Messages.{MeClientRequest, MeClientResponse, MeMarketUpdate}
use vots.Runtime.LockFreeQueue.Room.{HasRoom, HasRoom-push, Received, Received-push}
use vots.Exchange.OrderBook.{ExchangeOrderBook, Sent, response, update_of}
use vots.Exchange.MatchingEngine.{MatchingEngine, send, send_all, handle, process_client_request}

abbrev pub responses : List Sent → List MeClientResponse
responses [] = []
responses (response r ∷ ms) = r ∷ responses ms
responses (update_of u ∷ ms) = responses ms

abbrev pub updates : List Sent → List MeMarketUpdate
updates [] = []
updates (response r ∷ ms) = updates ms
updates (update_of u ∷ ms) = u ∷ updates ms

-- What `send_all` does to an engine.
pub record Delivered (e : MatchingEngine) (ms : List Sent) (e' : MatchingEngine) : Type 0 where
  pub to_clients : Received e.outgoing_ogw_responses (responses ms) e'.outgoing_ogw_responses
  pub to_market : Received e.outgoing_md_updates (updates ms) e'.outgoing_md_updates
  pub same_books : e'.ticker_order_book ≡ e.ticker_order_book
  pub same_requests : e'.incoming_requests ≡ e.incoming_requests

send_all-Delivered :
    (e : MatchingEngine) (ms : List Sent)
    → HasRoom e.outgoing_ogw_responses (length (responses ms))
    → HasRoom e.outgoing_md_updates (length (updates ms))
    → Delivered e ms (send_all e ms)
unfolding send_all
send_all-Delivered e [] r u = record {
  to_clients = (sym (append-nil _), r.0);
  to_market = (sym (append-nil _), u.0);
  same_books = refl;
  same_requests = refl;
}
send_all-Delivered e (response x ∷ ms) r u =
    let q = e.outgoing_ogw_responses in
    let n = length (responses ms) in
    let d = send_all-Delivered (send e (response x)) ms (HasRoom-push q x n r) u in
    record {
      to_clients = Received-push q x n (responses ms) _ r d.to_clients;
      to_market = d.to_market;
      same_books = d.same_books;
      same_requests = d.same_requests;
    }
send_all-Delivered e (update_of x ∷ ms) r u =
    let q = e.outgoing_md_updates in
    let n = length (updates ms) in
    let d = send_all-Delivered (send e (update_of x)) ms r (HasRoom-push q x n u) in
    record {
      to_clients = d.to_clients;
      to_market = Received-push q x n (updates ms) _ u d.to_market;
      same_books = d.same_books;
      same_requests = d.same_requests;
    }

-- A request for a known ticker that the ticker's book handles is processed; with room on both queues
-- the clients' and the market's queue receive exactly the responses and the updates that the book
-- sent, in the order in which it sent them; and of the books only that of the ticker is replaced.
pub process_client_request_delivers :
    (e : MatchingEngine) (r : MeClientRequest) (b : ExchangeOrderBook)
    → r.ticker_id < me_max_tickers
    → handle (record (e.ticker_order_book r.ticker_id) { sent = [] }) r ≡ some b
    → HasRoom e.outgoing_ogw_responses (length (responses b.sent))
    → HasRoom e.outgoing_md_updates (length (updates b.sent))
    → (e' : MatchingEngine) × (process_client_request e r ≡ some e')
      × Received e.outgoing_ogw_responses (responses b.sent) e'.outgoing_ogw_responses
      × Received e.outgoing_md_updates (updates b.sent) e'.outgoing_md_updates
      × (e'.ticker_order_book ≡ update e.ticker_order_book r.ticker_id (record b { sent = [] }))
unfolding process_client_request
process_client_request_delivers e r b known handled room_r room_u =
    let e₁ = record e {
      ticker_order_book = update e.ticker_order_book r.ticker_id (record b { sent = [] });
    } in
    let d = send_all-Delivered e₁ b.sent room_r room_u in
    (send_all e₁ b.sent, rw (lt→ltb _ _ known, handled), d.to_clients, d.to_market, d.same_books)

-- ===== src/Exchange/MatchingEngine.antt =====
-- src/include/matching_engine/matching_engine.hpp: requests come off a queue, go to the book of their
-- ticker, and what the book sends goes to two queues.
-- The book collects what it sends, and the engine writes it to the queues when the book is done: the
-- book reads neither queue, so only the other threads could tell the difference in time.
-- The volatile flag that ends the loop is left to the caller: `run_round` is one round.
pub mod Delivery
use vots.Base.{
  ℕ, suc, Bool, true, false, Option, none, some, List, [], ◌∷◌, if◌then◌else◌, ltb, update, ◌>>=◌,
}
use vots.Types.{me_max_tickers}
use vots.Messages.{MeClientRequest, ClientRequestType, MeClientResponse, MeMarketUpdate}
use vots.Runtime.LockFreeQueue.{LockFreeQueue, push, get_next_to_read, update_read_index}
use vots.Exchange.OrderBook.{ExchangeOrderBook, Sent, response, update_of, add, cancel}

pub record MatchingEngine : Type 0 where
  pub ticker_order_book : ℕ → ExchangeOrderBook
  pub incoming_requests : LockFreeQueue MeClientRequest
  pub outgoing_ogw_responses : LockFreeQueue MeClientResponse
  pub outgoing_md_updates : LockFreeQueue MeMarketUpdate

-- SendClientResponse and SendMarketUpdate.
unfoldable pub send : MatchingEngine → Sent → MatchingEngine
send e (response r) = record e { outgoing_ogw_responses = push e.outgoing_ogw_responses r }
send e (update_of u) = record e { outgoing_md_updates = push e.outgoing_md_updates u }

unfoldable pub send_all : MatchingEngine → List Sent → MatchingEngine
unfolding send
send_all e [] = e
send_all e (m ∷ ms) = send_all (send e m) ms

-- The call of the book. A request that is neither new nor a cancel is FATAL.
unfoldable pub handle : ExchangeOrderBook → MeClientRequest → Option ExchangeOrderBook
handle b r = elim r.type [
  | ClientRequestType.new ↦ add b r.client_id r.order_id r.ticker_id r.side r.price r.qty
  | ClientRequestType.cancel ↦ cancel b r.client_id r.order_id r.ticker_id
  | ClientRequestType.invalid ↦ none
]

-- ProcessClientRequest. The ticker is not checked by the source: out of range, what happens is
-- undefined, and is `none` here.
unfoldable pub process_client_request : MatchingEngine → MeClientRequest → Option MatchingEngine
unfolding send_all handle
process_client_request e r =
    if ltb r.ticker_id me_max_tickers
    then (handle (record (e.ticker_order_book r.ticker_id) { sent = [] }) r >>= λ b. some (
        send_all
          (record e {
            ticker_order_book = update e.ticker_order_book r.ticker_id (record b { sent = [] });
          })
          b.sent))
    else none

-- One round of the loop of Run.
unfoldable pub run_round : MatchingEngine → Option MatchingEngine
unfolding process_client_request
run_round e = elim (get_next_to_read e.incoming_requests) [
  | none ↦ some e
  | some r ↦ do
    e' ← process_client_request e r
    q ← update_read_index e'.incoming_requests
    some (record e' { incoming_requests = q })
]

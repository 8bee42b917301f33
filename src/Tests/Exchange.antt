-- ===== src/Tests/Exchange.antt =====
-- Runs of src/matching_engine: client 2 sells 10 at 101, then client 1 buys 4 at 102.
use vots.Base.{ℕ, ◌%◌, ◌^◌, ◌≡◌, refl, arith, Option, none, some, [], update, length}
use vots.Base.Int.{pos}
use vots.Types.{Side}
use vots.Messages.{MeClientRequest, ClientRequestType, default_market_update}
use vots.Runtime.LockFreeQueue
use vots.Runtime.LockFreeQueue.{LockFreeQueue}
use vots.Runtime.LockFreeQueue.Refine
use vots.Runtime.LockFreeQueue.Room.{HasRoom, Received}
use vots.Runtime.MemoryPool
use vots.Book
use vots.Book.Orders
use vots.Book.Levels
use vots.Exchange.OrderBook.{
  ExchangeOrderBook, make_book, add, accept, match_loop, match_order, fill_book, fill_responses,
  rest_order, add_order_of, remove_order_of, set_client_order, accepted_response, check_for_match,
}
use vots.Exchange.OrderBook.Matching.{Result, check_for_match-Result}
use vots.Exchange.MatchingEngine.{MatchingEngine, handle, process_client_request}
use vots.Exchange.MatchingEngine.Delivery.{responses, updates, process_client_request_delivers}

abbrev empty_book : ExchangeOrderBook
empty_book = make_book 0 (λ _ _. none) (λ _. none)

abbrev book_or : Option ExchangeOrderBook → ExchangeOrderBook
book_or none = empty_book
book_or (some b) = b

abbrev matched_or : Option (ℕ × ExchangeOrderBook) → ℕ × ExchangeOrderBook
matched_or none = (0, empty_book)
matched_or (some r) = r

-- The book that the offer of client 2 has led to.
abbrev offered : ExchangeOrderBook
offered = book_or (add empty_book 2 7 0 Side.sell (pos 101) 10)

bought :
    check_for_match offered 1 5 0 Side.buy (pos 102) 14 2
    ≡ some (matched_or (check_for_match offered 1 5 0 Side.buy (pos 102) 14 2))
unfolding make_book add check_for_match accept match_loop match_order fill_book fill_responses
    rest_order add_order_of remove_order_of set_client_order MemoryPool.make MemoryPool.allocate
    MemoryPool.update_next_free_index MemoryPool.next_free MemoryPool.deallocate
    Book.get_orders_at_price Book.price_to_index Orders.get_next_priority Orders.add_order
    Orders.append_order Orders.remove_order Orders.unlink_order Levels.add_orders_at_price
    Levels.remove_orders_at_price Levels.start_target Levels.find_target Levels.link_after
    Levels.link_before Levels.unlink_level
bought = refl

check_for_match-Result_example :
    Result offered
      (record {
        ticker_id = 0;
        client_id = 1;
        side = Side.buy;
        client_order_id = 5;
        market_order_id = 2 % 2 ^ 32;
      })
      (pos 102)
      14
      (matched_or (check_for_match offered 1 5 0 Side.buy (pos 102) 14 2)).0
      (matched_or (check_for_match offered 1 5 0 Side.buy (pos 102) 14 2)).1
check_for_match-Result_example =
    check_for_match-Result offered
      (matched_or (check_for_match offered 1 5 0 Side.buy (pos 102) 14 2)).1 1 5 0 Side.buy
      (pos 102) 14 2 (matched_or (check_for_match offered 1 5 0 Side.buy (pos 102) 14 2)).0 bought

abbrev sale : MeClientRequest
sale = record {
  type = ClientRequestType.new;
  client_id = 2;
  ticker_id = 0;
  order_id = 7;
  side = Side.sell;
  price = pos 101;
  qty = 10;
}

abbrev engine : MatchingEngine
engine = record {
  ticker_order_book = λ _. empty_book;
  incoming_requests = LockFreeQueue.make 8 sale;
  outgoing_ogw_responses = LockFreeQueue.make 8 (accepted_response 0 0 0 Side.buy (pos 0) 0 0);
  outgoing_md_updates = LockFreeQueue.make 8 default_market_update;
}

handled :
    handle (record empty_book { sent = [] }) sale
    ≡ some (book_or (handle (record empty_book { sent = [] }) sale))
unfolding handle make_book add check_for_match accept match_loop match_order fill_book
    fill_responses rest_order add_order_of remove_order_of set_client_order MemoryPool.make
    MemoryPool.allocate MemoryPool.update_next_free_index MemoryPool.next_free MemoryPool.deallocate
    Book.get_orders_at_price Book.price_to_index Orders.get_next_priority Orders.add_order
    Orders.append_order Orders.remove_order Orders.unlink_order Levels.add_orders_at_price
    Levels.remove_orders_at_price Levels.start_target Levels.find_target Levels.link_after
    Levels.link_before Levels.unlink_level
handled = refl

responses-HasRoom :
    HasRoom engine.outgoing_ogw_responses
      (length (responses (book_or (handle (record empty_book { sent = [] }) sale)).sent))
unfolding LockFreeQueue.make handle make_book add check_for_match accept match_loop match_order
    fill_book fill_responses rest_order add_order_of remove_order_of set_client_order
    MemoryPool.make MemoryPool.allocate MemoryPool.update_next_free_index MemoryPool.next_free
    MemoryPool.deallocate Book.get_orders_at_price Book.price_to_index Orders.get_next_priority
    Orders.add_order Orders.append_order Orders.remove_order Orders.unlink_order
    Levels.add_orders_at_price Levels.remove_orders_at_price Levels.start_target Levels.find_target
    Levels.link_after Levels.link_before Levels.unlink_level
responses-HasRoom = (Refine.make-IsValid 8 _ (omega arith) (omega arith), omega arith)

updates-HasRoom :
    HasRoom engine.outgoing_md_updates
      (length (updates (book_or (handle (record empty_book { sent = [] }) sale)).sent))
unfolding LockFreeQueue.make handle make_book add check_for_match accept match_loop match_order
    fill_book fill_responses rest_order add_order_of remove_order_of set_client_order
    MemoryPool.make MemoryPool.allocate MemoryPool.update_next_free_index MemoryPool.next_free
    MemoryPool.deallocate Book.get_orders_at_price Book.price_to_index Orders.get_next_priority
    Orders.add_order Orders.append_order Orders.remove_order Orders.unlink_order
    Levels.add_orders_at_price Levels.remove_orders_at_price Levels.start_target Levels.find_target
    Levels.link_after Levels.link_before Levels.unlink_level
updates-HasRoom = (Refine.make-IsValid 8 _ (omega arith) (omega arith), omega arith)

abbrev sold : ExchangeOrderBook
sold = book_or (handle (record empty_book { sent = [] }) sale)

process_client_request_delivers_example :
    (e' : MatchingEngine) × (process_client_request engine sale ≡ some e')
    × Received engine.outgoing_ogw_responses (responses sold.sent) e'.outgoing_ogw_responses
    × Received engine.outgoing_md_updates (updates sold.sent) e'.outgoing_md_updates
    × (e'.ticker_order_book ≡ update engine.ticker_order_book 0 (record sold { sent = [] }))
process_client_request_delivers_example =
    process_client_request_delivers engine sale sold (omega arith) handled responses-HasRoom
      updates-HasRoom

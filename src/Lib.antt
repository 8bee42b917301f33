-- ===== src/Lib.antt =====
-- vots, an exchange and the clients that trade on it, in C++.
--
-- An exchange process and several client processes talk over TCP (orders) and multicast (market
-- data). In the exchange the order server takes the clients' requests off their connections, the
-- FIFO sequencer orders them by their receive time, and the matching engine hands each to the limit
-- order book of its ticker. What a book answers goes over one queue back to the order server and
-- over another to the market data publisher, which numbers the updates, sends them, and passes them
-- to the snapshot synthesizer. A client's gateway sends requests and takes responses; its market
-- data consumer follows the numbered updates and recovers from gaps by a snapshot; its trading engine
-- keeps a copy of each book, positions and orders. Threads share nothing but queues.
--
-- The files and the code they model, from the repository's root (h stands for src/include):
--   Types, Messages            h/common/types.hpp, h/order_gateway/client_request.hpp and
--                              client_response.hpp, h/market_data/market_update.hpp
--   Runtime/MemoryPool         h/runtime/memory_pool.hpp: Allocate, Deallocate
--   Runtime/LockFreeQueue      h/runtime/lock_free_queue.hpp: `push` is GetNextToWriteTo, the
--                              assignment, and UpdateWriteIndex
--   Runtime/LockFreeQueue/Threads
--                              the same file as run by two threads: a step for each access to a
--                              member, in any interleaving in which no write starts at a full queue
--   Logging                    h/logging/logger.hpp: PushValue, Log (`log`), FlushQueue
--   Network                    h/network and src/network: the buffers of TCPSocket and McastSocket,
--                              and the sockets that TCPServer tracks (`poll`)
--   Book                       the linked lists of both order books: AddOrdersAtPrice,
--                              RemoveOrdersAtPrice, AddOrder, RemoveOrder, GetNextPriority
--   Exchange/OrderBook         h/matching_engine/exchange_order_book.hpp and
--                              src/matching_engine/exchange_order_book.cpp: Add, Cancel,
--                              CheckForMatch (`check_for_match`, `match_loop`), Match (`match_order`)
--   Exchange/MatchingEngine    h/matching_engine/matching_engine.hpp: ProcessClientRequest
--   Gateway/FifoSequencer      h/order_gateway/fifo_sequencer.hpp
--   Gateway/OrderServer        h/order_gateway/order_server.hpp: RecvCallback, Run
--   Gateway/GatewayClient      src/order_gateway/gateway_client.cpp: RecvCallback, Run
--   Gateway/Framing            the loops of the three RecvCallbacks that cut bytes into messages
--   MarketData/Publisher, MarketData/SnapshotSynthesizer, MarketData/Consumer
--                              the files of src/market_data
--   Trading/Algorithms         h/trading_engine/feature_engine.hpp, market_maker.hpp and
--                              liquidity_taker.hpp
--   Trading/RiskManager, Trading/OrderManager, Trading/PositionKeeper, Trading/OrderBook
--                              the headers of these names in h/trading_engine, and
--                              src/trading_engine/order_manager.cpp and trading_order_book.cpp
--   Trading/Engine             h/trading_engine/trading_engine.hpp and
--                              src/trading_engine/trading_engine.cpp: OnOrderBookUpdate,
--                              OnTradeUpdate, OnOrderUpdate, SendClientRequest, Run
--   Base                       lists, integers, options and tables that these share
--   Tests                      runs of the code on small inputs, and the theorems applied to them
--
-- State is passed explicitly: an operation takes a component's record and returns the next one.
-- `none` stands for the end of the process (a failed ASSERT, FATAL, an `.at` out of range) and for
-- undefined behaviour (a null pointer, signed overflow, an index out of an array). The assertions
-- are those of a debug build; a release build leaves them out. A pointer to an object of a pool is
-- the index of its block. Unsigned numbers are natural numbers with their wrap-around written out;
-- prices are integers. Tables are functions.
--
-- Loops over linked data run on fuel: the search for a level has as much as the pool of levels has
-- blocks, the matching loop one round more than the pool of orders has blocks (each round but the
-- last takes an order out of the book or uses up the quantity), the sum over the orders of a level
-- as much as their pool has blocks, the search for a free block one round for each block, and the
-- cutting of a buffer one for each byte. Running out of fuel is `none`.
--
-- Parameters: `std::sort`, of which a sorted rearrangement is assumed; the decoding of a packed
-- message from its bytes; `double` with the operations that positions, limits and features use; what
-- the standard library prints for a number; and what the operating system returns: the bytes that
-- arrive, the events of `epoll_wait`, and the connections of `accept`.
--
-- The loops of the trading engine and of the logger that empty a queue have one round more than the
-- queue has elements.
--
-- Not modelled: the calls of the operating system that create, connect and close sockets, threads,
-- the clock, measurements, and the programs' start-up, which have no state of their own; the
-- texts that messages and books are printed as, which are only logged; of ToString of a book the
-- walk over levels and orders and its check are modelled (Book.Levels.Printing). The indices of a queue
-- are each written by one thread only, so an update of one is a single step.
pub mod Base
pub mod Types
pub mod Runtime
pub mod Logging
pub mod Network
pub mod Messages
pub mod Book
pub mod Exchange
pub mod Gateway
pub mod MarketData
pub mod Trading
pub mod Tests

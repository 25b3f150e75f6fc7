-- ===== src/Lib.antt =====
-- Multi_Instrument_Orderbook: a matching engine with price levels, order books, a slab pool of
-- orders and a binary protocol.
--
-- An order enters through a connection: bytes are framed (`Framer`), decoded (`Codec`) and handled
-- by a dispatcher, which takes a slot of the pool and submits the order to the matcher of the
-- instrument's book. The matcher trades it with the best resting orders and puts the rest into the
-- book; full makers go back to the pool. Replies go out through the session.
--
-- Files, and the code that each is about:
--   Prelude     tests, lists, membership counts, integers and words for all files
--   Types       include/ordbk/core/types.hpp, include/ordbk/orderbook/order.hpp and trade.hpp
--   Level       `PriceLevel` of include/ordbk/orderbook/orderbook.hpp; `Links` holds the fields
--               `level_prev` and `level_next` of all orders, so aliasing is seen
--   OrderedMap  `std::map` as the book uses it: entries sorted by a key order
--   HashMap     `std::unordered_map` as the book uses it
--   OrderBook   src/orderbook/orderbook.cpp: `add_resting`, `cancel_and_get`, `find` (find_order),
--               `best_bid` and `best_ask` (best), `bid_qty_at` and `ask_qty_at` (qty_at),
--               `peek_top`, `pop_top`, `clear_and_drain`; View has the abstract book, a queue of
--               slots per price and side, and `Models`, which relates the two
--   Pool        include/ordbk/utils/pool.hpp: `acquire`, `release`, `acquire_or_abort`
--   Latency     include/ordbk/utils/latency.hpp: `record` (record_ns), `snapshot`
--   Matcher     include/ordbk/matching/matcher.hpp and src/matching/matcher.cpp: `match`
--               (match_loop), `submit`, `cancel`, `cancel_all`; Plan has the trades in price-time
--               priority, Liquidity and Supply what a fill-or-kill order can reach, Uncrossed the
--               book without a bid at or above an ask, Entries and Indexed the index by order id,
--               Outside the slots that a submission leaves alone
--   Protocol    include/ordbk/protocol/protocol.hpp and messages.hpp
--   Codec       src/protocol/codec.cpp: writers, readers, `encode`, `decode_header`, `decode_body`
--   Framer      src/protocol/framer.cpp: `feed`, `next`; `drain` is the loop of
--               `Dispatcher::pump` in src/gateway/dispatcher.cpp without its handlers
--   Session     src/protocol/session.cpp: `emit`, `take_outbound`, `on_bytes`
--   Spsc        include/ordbk/utils/spsc_ring_buffer.hpp: `push`, `pop`, `empty` (is_empty),
--               `approx_size`; Threads has the single loads and stores of the two threads as steps
--   Contract    src/instruments/contract.cpp: `to_string`, `occ_symbol`, `from_occ`
--   Chain       src/instruments/chain.cpp: `add`, `remove` (remove_id), `find` (find_id) and the lists
--               by date
--   Registry    src/instruments/instrument_registry.cpp: `add` (add_spec), `freeze`, `find` (find_spec
--               and find_symbol), `option_chain`, `option_underlyings`
--   Engine      src/matching/engine.cpp: a slot with book and matcher for each instrument, `submit`,
--               `cancel`, `expire_instrument`, `book`, `latency_snapshot`; Books has the books of
--               all instruments over the one pool
--   Dispatcher  src/gateway/dispatcher.cpp: `pump` and its handlers, `classify`; Talk has what a
--               session may say in each of its states, Faults the reasons of a rejection, Market
--               the books of all instruments and the pool together, before and after an order
--   Shards      src/matching/sharded_engine.cpp: the constructor (new_sharded), `submit`, `cancel`,
--               `run_shard` as turns of a worker (turn), `wait_idle`, the destructor's loop
--               (stop_all) and `book`; Threads has the runs of a producer and all workers
--   Tcp         src/gateway/tcp.cpp: `send_all`, `listen_on`, `connect_to`
--   Client      src/gateway/client.cpp: `send`, `recv`
--   Server      src/gateway/server.cpp: `start`, `stop`, `accept_loop`, `session_loop`; `stop` is
--               its steps up to the end of its lock (halt), a session that is accepted behind them
--               (accept_late) and the ends of the threads it joins (end_all); Iterations has the
--               ways through the last as a relation
--   Sweeper     src/matching/sweeper.cpp: `register_instrument`, `unregister`, `sweep`
-- A folder of a file's name has its lemmas and theorems; modules named Tests apply the theorems.
--
-- Every engine works on the pool and the links that its state holds. The dispatcher passes a message
-- of a session on to the engine, the engine to the matcher of the instrument, and the answers go
-- back through the session.
--
-- An order pointer is the index of its slot in the pool. Words wrap at 2 ^ 64 as written out in
-- Prelude/Words; ids and quantities are numbers below the bound that a theorem asks for. `none` is a
-- fault: a null pointer or an index out of range that the code reads through.
--
-- Fuel: the loop of `match` takes the pool's capacity and one more rounds, enough since each round
-- fills the taker or removes a resting order and the pool has lent out the taker too; a walk over a
-- level takes one step for each order; the loop over the inbound messages takes one round for each
-- message and one more, and no more rounds than bytes wait; a number printed in decimal takes one
-- step for each of at most twenty digits; `send_all` takes one call for each byte.
--
-- The sharded engine has an engine for each worker thread, over one pool; a command comes to it
-- through the ring. The server runs a session for each connection and lets the dispatcher answer;
-- the client reads the answers from its own framer.
--
-- Not modelled: the interleaving of two sessions of the server inside the engine, which has no lock;
-- that the joins of the server's `stop` return (the threads' ends are an argument), and other threads
-- between its exchange of `running_` and the end of its lock, which are taken to come before it; the
-- main program, tests and benchmarks. System calls are parameters: `send` by what it
-- returns, `recv_some` by the chunks that it gives. A mutex or an atomic operation makes a call one
-- step, a command is one step of its worker and a pass of `wait_idle` over the counters is
-- one step of its caller; memory is sequentially consistent. Clock readings
-- are arguments.
pub mod Prelude
pub mod Types
pub mod Level
pub mod OrderedMap
pub mod HashMap
pub mod OrderBook
pub mod Pool
pub mod Latency
pub mod Matcher
pub mod Protocol
pub mod Codec
pub mod Framer
pub mod Session
pub mod Shards
pub mod Tcp
pub mod Client
pub mod Server
pub mod Spsc
pub mod Contract
pub mod Sweeper
pub mod Chain
pub mod Registry
pub mod Engine
pub mod Dispatcher

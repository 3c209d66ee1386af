-- ===== src/Lib.antt =====
-- A verification library for lobook, a limit order book in C++ with a matching engine behind a
-- single-producer, single-consumer queue.
--
-- The program's parts. An order message (src/engine/order_message.h) goes through a queue
-- (src/engine/spsc_queue.h, or src/engine/naive_queue.h) to the matching engine
-- (src/engine/matching_engine.h), whose thread owns one order book. The book
-- (src/engine/fast_bitset_book.h) keeps its orders in a pool linked by indices, a ladder of price
-- levels for each side, a vector from ids to slots, and for each side a three-level bitset of the
-- prices that have orders (src/engine/price_bitset.h), which finds the best price. Two other books,
-- src/engine/fast_book.h and src/engine/simple_book.h, are kept for comparison. src/server.cpp reads its arguments and sends a
-- workload through a queue to an engine, which reports the latencies; src/benchmark_book.cpp and
-- src/benchmark_replace.cpp run orders against the books, and src/benchmark_clock.cpp the clock.
--
-- Which file models which part.
-- - Base: shared names of the library, the outcome of a run (`fault` for undefined behaviour and failed
--   assertions, `out_of_fuel`, `ok`), arrays as functions, and the bit operations of the compiler
--   builtins: Base/Bits has `test_bit`, `ctzll` and `clzll`, which fault at zero as the builtins are
--   undefined there.
-- - PriceBitset: the class `PriceBitset` of src/engine/price_bitset.h with MAX_PRICES of
--   src/engine/constants.h. A field is a word or a function from an index to a word; an operation
--   returns the new record, and checks each array access against the array's size. Levels, Coherent,
--   Update, Find and History are about its levels, its operations and histories of calls.
-- - Pool: the structs `Order` and `PriceLevel` and the vectors `orders` and `id_map` with
--   `next_free_order_idx` of src/engine/fast_bitset_book.h, with their bounds checks; the helpers that
--   `cancel_order` and `replace_order` write out twice are definitions here. Chain: the doubly linked
--   lists that the indices spell out, with unlinking and appending.
-- - BitsetBook: `cancel_order`, `replace_order`, `get_quantity` and `add_order` of
--   `FastBitsetOrderBook`; BitsetBook/Match: `match`, `submit_order` and `init`, the loops of `match`
--   split at their bodies. Represents says when a book is well formed: each level is the linked list of
--   its queue, the bitset of a side is the set of its occupied prices, ids lead to their orders, and
--   the free list holds other slots. Added and Add are about `add_order`; Fill, MatchLevel and MatchRun
--   about the inner loop of `match`; MatchBest, MatchLoop, Trades and Traded about the outer one;
--   Submit, Uncrossed, Session and Consecutive about `submit_order`; Unlinked, Cancel and Cancelled
--   about `cancel_order`; Moved, Moves, Replaced, Terms, Requeue and Replace about `replace_order`;
--   Fresh and Resting about the first `prev` of the levels and the orders that stay at rest; Quiet about
--   orders that do not trade; Rejected about `add_order` of a price beyond the ladder.
-- - FastBook: `FastOrderBook` of src/engine/fast_book.h, on the same pool; Scan is about its `match`
--   where it does not end. Forget takes the bitsets from a bitset book, and Ladder, Rounds, Agree and
--   Session compare the two books.
-- - SimpleBook: `NaiveOrderBook` of src/engine/simple_book.h; Process is about `process_list`.
-- - SpscQueue: the memory of `SPSCQueue` of src/engine/spsc_queue.h and its stores; Steps has `push` and
--   `pop` as steps of two threads that interleave; Ring, Push and Fifo are about their histories.
-- - NaiveQueue: `push`, `pop` and `try_pop` of src/engine/naive_queue.h as steps of two threads that
--   interleave, with the owner of the mutex, the wait for the condition variable and spurious wakeups;
--   Monitor, Moves and Fifo are about their histories.
-- - Engine: `OrderMessage` of src/engine/order_message.h and the loop of `MatchingEngine::run` of
--   src/engine/matching_engine.h; Shutdown is about the message that ends it. Latency has the loop with
--   its clock readings and latency vectors, `report` and `dump_latencies`; Timed and Reports are about
--   them. The clock, `std::sort` and the percentile indices, which are computed in `double`, are
--   parameters.
-- - Server: `parse_args` and the choice of the queue of src/server.cpp, with `std::stoull` as a parameter
--   (nothing is where it throws); Arguments is about them. Server/Harness: the workload, the network
--   thread with its pacing loop, on the readings of its clock, and `run`; Pacing is about the network
--   thread, Pipeline about `run`. The messages reach the engine in the order of the pushes.
-- - CpuPinning: `configured_bench_core` of src/engine/cpu_pinning.h, with `std::getenv` and `std::strtol`
--   as parameters.
-- - Benchmarks: `BookOps`, scenarios 1 and 2 of src/benchmark_book.cpp and `seed_book` of
--   src/benchmark_replace.cpp. The loops that submit are lists of orders, in the order of the calls; the
--   number of rounds or orders is an argument. Orders and Scenarios are about them. Benchmarks/Churn:
--   scenario 3, with the numbers of its generator as an argument; Tracked is about its requests.
--   Benchmarks/Operations: `generate_ops` and the two scenarios of src/benchmark_replace.cpp; Sides is
--   about books whose sides are apart, Seeding about the two scenarios.
-- - BenchmarkClock: the samples of src/benchmark_clock.cpp and the lines printed of them; Samples is about
--   them.
--
-- Bounds and fuel. Indices and quantities are natural numbers; `uint32_t` conversions of prices and of
-- the free list's links are written out as remainders. A quantity is only ever reduced by at most
-- itself, so it does not wrap. The inner loop of `match` gets one round more than the pool has slots,
-- since each round but the last takes an order out of its queue; the outer loop gets one round more
-- than the ladder has prices, since each round but the last empties the best price and finds a worse
-- one. The scan of src/engine/fast_book.h need not end, so its fuel is a parameter. The loops of
-- src/engine/simple_book.h get one round more than there are prices. The engine's loop runs over the
-- list of messages that the queue delivers. The pacing loop of src/server.cpp gets a number of readings
-- that is a parameter, since it ends only where the clock passes the pacing interval; a hypothesis on the
-- clock says within how many readings that is.
--
-- A book is well formed without any claim about the `prev` of the first order of a level, because
-- `match` leaves it as it was when it takes the order before it, and without any claim about the id map
-- at ids that no resting order has, because `init` fills it with zeros. Where no order has traded,
-- Fresh keeps that first `prev` at NULL_IDX.
--
-- Not modelled: the layout of the structs and the memory orders of the atomics (every step of a thread
-- is taken as atomic, in a sequentially consistent order), thread creation, the calls that pin a thread,
-- and src/bench_common.h (timers, hardware counters and printing). `init` is that of a book that was not
-- used before, where the benchmarks also call it on the book of an earlier scenario. A price or an id is
-- any natural number, where the code has 64 bits. The mutex and the condition variable of
-- src/engine/naive_queue.h are those of the standard library, as it documents them.
pub mod Base
pub mod BenchmarkClock
pub mod Benchmarks
pub mod BitsetBook
pub mod Chain
pub mod CpuPinning
pub mod Engine
pub mod FastBook
pub mod NaiveQueue
pub mod Pool
pub mod PriceBitset
pub mod Server
pub mod SimpleBook
pub mod SpscQueue

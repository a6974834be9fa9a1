-- ===== src/Lib.antt =====
-- A model of chrono cache, an in-memory key-value server in C++, and its correctness proofs. The
-- paths below are from the repository's root.
--
-- The program keeps its entries in a hash table (`KVStore`, src/cpp/cache/kv_store/store.h) of
-- intrusive chains, which a map (`ChronCacheHashMap`, hash_map.h) guards with locks and grows.
-- Sorted sets keep their members in an AVL tree with subtree sizes
-- (src/cpp/cache/sorted_sets/tree.cpp). The cache (`ChronoCache`, src/cpp/cache/chrono_cache.cpp)
-- stores entries with deadlines in the map, passes callbacks to it that log an event per change
-- (`CacheEventLogger`, kafka_logging/event_logger.cpp), and replays that log when it starts. A
-- server stands in front: worker threads run an event loop each (src/cpp/server/event_loop.cpp)
-- over their connections (connection.h), whose messages are framed by their length and hold
-- commands in RESP, which a parser reads, a command handler executes on the cache, and a serializer
-- answers (src/cpp/server/request_handler).
--
-- The files:
--   Shared/       numbers, tests, lists, integers, bit masks, and results of calls (`Run`): a value, a
--                 thrown exception, a failed assertion, undefined behaviour, or the end of the model's fuel
--   SortedList/   the specification of an ordered container: insertion, removal and rank in a list
--   Avl.antt      `AVLTree` and `AVLTreeNode` (tree.h, tree.cpp): `_insert` is `insert_node`, `_erase`
--                 is `erase_node`, `_rank` is `rank_node`, `_rebalance` is `rebalance`
--   Avl/          the in-order view, rotations, balance, and what the public methods promise
--   KvStore/      the key type (hash_key.h), the chains (node.h), the metrics (metrics.h), and the
--                 store (store.h), whose `set` is `set_value`
--   KvStore/Store/  the index mask, the invariant and the abstract map, then one file per operation
--   HashMap.antt  `ChronCacheHashMap` (hash_map.h): `set` is `set_with`, `remove` is `remove_with`, and
--                 `get_or_add` is `get_or_add_growing`
--   HashMap/      when the table grows, and what the operations promise
--   SortedSets.antt  `SortedSet` and `SortedSetsAPI` (sorted_set.h, sorted_set.cpp); each operation has
--                 a part in the set of its key: `zadd_set` for `zadd`
--   SortedSets/   what the operations do to one set
--   Events.antt   the events (cache_event.h) and the logger that numbers them per key
--   Cache.antt    `ChronoCache` with `CacheEntry` (cache_entry.h) and its states (cache_state.h); the
--                 lambdas given to the map are `get_cond`, `expire_cond`, `pttl_cond`, `persist_cond`
--   Cache/        reads and writes, deadlines and the times that fit 64 bits, and what is logged
--   Replay.antt   `replay` and `init`; Replay/ has repeated events, and a key whose deadline has passed
--   ChronoCache.antt  `ChronoCache` on strings with its sorted sets, and its constructor
--   Resp/         `RespValue`, `RespParser`, `RespSerializer` and utils.cpp: Value, Parser, Serializer,
--                 Number; and Reply, what a client reads
--   Resp/Parser/  the recursion, what the parser reports as read, lines and messages
--   CommandHandler.antt  `CommandHandler::execute`; its commands are in CommandHandler/Keys and Sets
--   CommandHandler/  the form of the replies, and commands one after the other
--   Connection.antt  `Connection`; Connection/ has its framing
--   EventLoop.antt  one round of `EventLoop::run`; EventLoop/ has the replies of a client, what a round
--                 keeps, and the command handler behind the loop
--   HashMap/Locks.antt  the resize lock and the slice locks; Locks/ has what they keep apart
--   Kafka.antt    names of events, `produce_cache_event` (producer.cpp) and `consume_all_events` (consumer.cpp);
--                 Kafka/ has what is read, when the consumer gives up, and the round trip
--   Tests/        runs of the model, and the theorems at concrete inputs
--
-- State is passed explicitly: an operation takes the old record and gives the new one. A node
-- pointer is the node's address, and `new` takes the next free one, so that a pointer which is kept
-- while other keys change, or while the table grows, is part of the model. The hash is any function
-- into the 64-bit words, and keys are any type with a decided equality. The clock is a parameter
-- that gives the time of each reading in nanoseconds, and the model counts the readings; the
-- producer is a parameter that may throw. Where a call throws, the model keeps the error and not
-- the half-changed state, except in `init`. A score is of any type with the two comparisons that
-- the code makes; NaN, which the comparisons do not order, is excluded where an order is asked for.
-- Texts are lists of bytes. Two loops are on fuel: `RespParser::parse` calls itself on what follows
-- the length line of an array, which is shorter, so that the length of the text and one is enough,
-- and `handle_read` takes four bytes at least for a request, so that the length of its buffer and
-- one is enough. Every other loop runs over a list or a tree.
--
-- A chain is the list that its `next_in_bucket` pointers reach. The load factor is a `double`
-- quotient of two counts whose divisor is a power of two, which is exact, and a fraction stands for
-- it. Capacities are `int`, so that doubling one of 2 ^ 30 is undefined; the counters of the
-- metrics are not bounded.
--
-- The operations of the map are modelled as they run one at a time; HashMap/Locks models the locks
-- apart from them, as steps of threads that take the resize lock and a slice lock and then write,
-- remove or grow the table, each change of the store in one step, with the guards that a
-- `std::shared_mutex` documents. Two writers of different slices at the same counter of the
-- metrics, inside a change, are outside of these steps. Memory is never exhausted. A deadline, a
-- remaining time and the times of a replay that do not fit 64 bits are undefined. What `read`,
-- `write`, `accept` and `poll` do is an argument of a round of the event loop, and so is the state
-- of the cache that is left where a command throws; `stoll`, `stod` and `std::to_string` of a
-- double are parameters of the command handler. The sizes of buffers are such that positions in
-- them fit a `size_t`. The JSON library is a parameter of the producer and the consumer, and the
-- messages that the Kafka client hands out are an argument of the consumer's loop, which is as long
-- as they last. Sockets, the start of threads and the Kafka client are outside the model.
pub mod Shared
pub mod SortedList
pub mod Avl
pub mod KvStore
pub mod HashMap
pub mod SortedSets
pub mod Events
pub mod Cache
pub mod Replay
pub mod Resp
pub mod ChronoCache
pub mod CommandHandler
pub mod Connection
pub mod EventLoop
pub mod Kafka
pub mod Tests

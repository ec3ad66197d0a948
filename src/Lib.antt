-- ===== src/Lib.antt =====
-- memcached 1.4.21 as it stands in memcached-1.4/ of this repository: a cache of items in memory that
-- clients reach by a text or a binary protocol. Assertions are off, as in the build of the server (-DNDEBUG).
--
-- The parts, and how they use each other:
--   * Util (util.c): numbers as text. `unsigned long` has 64 bits.
--   * Memory (memcached.h, slabs.c): the records of items, settings and slab classes. An item is named
--     by the address of its chunk. malloc hands out fresh blocks until the heap has none left.
--   * Slabs (slabs.c): classes of chunks, pages, free lists. Slabs.Reassign is the start and the end of
--     the move of a page to another class, Slabs.Automove the thread's choice of such a move.
--   * Assoc (assoc.c): the hash table with its two bucket arrays, and the thread that expands it. The
--     hash function is an argument of everything that uses it.
--   * Items (items.c, thread.c): LRU lists, links to the table, reference counts, lookup with lazy
--     expiry, flush; Items.Alloc is allocation with reuse and eviction. Items.Consistent says what
--     holds between two operations. Items.Queue has the LRU lists with their pointers, which the other
--     modules see as lists of addresses. Items.Crawler is the LRU crawler, its thread and its request;
--     Items.Mover is slab_rebalance_move and the thread around it (slabs.c), which needs the items.
--   * Stats (stats.c): counters by key prefix.
--   * Conn (memcached.c, memcached.h): a connection and its thread's counters, the tokenizer, times.
--   * Storage (memcached.c): do_store_item and the arrival of a data block; Storage.Arithmetic is
--     do_add_delta.
--   * Commands (memcached.c): the handlers of the text commands: Commands.Get, Commands.Update for
--     the storage commands, Commands.Control for those that set the server; Commands.Dispatch is the
--     choice of the handler and the lines of the input.
--   * Binary (memcached.c, protocol_binary.h): the state and the answers of the binary protocol;
--     Binary.Header is the header of a packet, Binary.Dispatch the choice of what is read next,
--     Binary.Process, Binary.Update and Binary.Complete are the handlers. c->cmd is a field of its own
--     while it holds an opcode.
--   * ObjectCache (cache.c): the stack of free objects that connections take their buffers from.
--   * ConnQueue (thread.c): the queues on which new connections reach the workers, with their pointers,
--     and the free list of the items.
--   * Base: the library names in use, tests on numbers, lists. Tests: the theorems at small inputs.
--
-- State is passed on explicitly: `Memory` is a part of `Store`, which is a part of `Server`. An
-- operation that the code guards with locks is one step; what other threads do between two steps is
-- the relation Assoc.Run.Step for the hash table, and the arguments of `Env` for the locks that
-- do_item_alloc tries. Counters wrap at their width, which is written out.
--
-- Bounds: the loops of the code are recursion on lists or on the number of rounds that the code has.
-- Three have fuel: the walk of do_item_alloc, 5 tries, 1000 more for referenced items and one for each
-- item of the list, of which the tries are enough while no crawler stands in a list; the rounds of a
-- get over its command line, one for each byte left; and the passes of the crawler's thread, which end
-- once each crawler has come to the head of its list.
--
-- Not modelled: sockets, libevent and the connection's state machine around the commands, the statistics
-- output, and the hash functions, which are copies of published ones. Hash chains and free lists are
-- lists of addresses. The handlers of `stats` and of the crawler's commands are an argument of
-- run_handler, those of `stat` and of SASL one of complete_nread_binary; the text of the version and the
-- mechanisms of SASL, which the build and a library give, are in BinConfig. A binary value whose length
-- does not fit an int leaves the model, where the code goes on with a negative one. Buffers of a
-- connection grow without failing.
pub mod Base
pub mod Assoc
pub mod Util
pub mod Memory
pub mod Slabs
pub mod Items
pub mod Stats
pub mod Conn
pub mod Storage
pub mod Commands
pub mod Binary
pub mod ObjectCache
pub mod ConnQueue
pub mod Tests

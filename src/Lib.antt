-- ===== src/Lib.antt =====
-- AnimusCore is an in-process telemetry and market-data engine with rings in shared memory. This
-- library models its queues, its rules, its cluster and its ITCH decoder.
--
-- Parts, and how they interact:
--   * Base: Boolean tests, lists over the native numbers, 64-bit words with the wrap-around of
--     `uint64_t` written out, and masks of low bits. `Fifo` is the specification of a bounded queue.
--   * Pow2: `round_up_pow2` and `is_pow2`, which the rings size themselves with.
--   * Spsc: include/animus/spsc_queue.hpp. `init` and `attach` are the guards over caller memory;
--     `try_push` and `try_pop` are whole calls on a `Queue` (header words, slots, the cached cursor of
--     each side). Spsc.System cuts both calls at each shared access and interleaves them.
--   * LockFree: `LockFreeRingBuffer` of AnimusCore_v1/animus.hpp. `create`, `push` and `pop` run to
--     their end with no other thread in between.
--   * Cep: `CepRuleState` of AnimusCore_v1/animus.hpp: count and time windows with SUM, AVG, MIN and
--     MAX. `on_event` is `none` where the source reads the front of an empty deque.
--   * Engine: `EngineImpl` of AnimusCore_v1/animus.hpp: `record`, `record_batch`, `evaluate_rules`,
--     `poll_signals`, `add_rule` and `add_cep_rule`, as clients of LockFree and Cep.
--   * Itch: adapters/itch50/include/: byte order, message layouts, and `decode`.
--   * Spmc: `namespace seqlock` and `SpmcRing` of include/animus/shm_ipc.hpp, `broadcast` and `poll`
--     cut at each access of shared memory, word by word for the records.
--   * Shm: the descriptor that `create` of `ShmRing` and `SpmcRing` writes, the checks of `open`, and
--     `peer_alive`, of include/animus/shm_ipc.hpp.
--   * Overwrite: `ShmRing` of include/animus/shm_ipc.hpp: `try_push`, `push_overwrite`, and `try_pop` with
--     its two routes, as whole calls.
--   * Mpmc: `ShmRingMpmc` of include/animus/shm_ipc.hpp: the guards of `create` and `open`, and
--     `try_push` and `try_pop` of any number of threads, cut at each access of shared memory.
--   * Broadcast: include/animus/broadcast_ring.hpp: `init` and `attach`, and `publish` and `poll` of one
--     writer and any number of readers, cut at each access of shared memory.
--   * Cluster: `RaftNode` of AnimusCore_v1/animus_cluster.hpp. Cluster holds the state and the two
--     request handlers, Cluster.Leading the calls that a node starts itself, cut where its mutex is
--     released around a remote call. A node owns the rules of an engine (`add_rule` of Engine).
--     Cluster.Wire is the messages as bytes and `dispatch_request`.
--     Cluster.Election runs any number of nodes as steps, with requests and answers that may be
--     lost or late.
--   * Local: `SpscRingBuffer` of AnimusCore_v1/animus.hpp, `push` and `pop` as whole calls.
--   * Examples: each theorem that has conditions, applied at concrete inputs.
--
-- Conventions and bounds. A word is a natural number below 2 ^ 64, and the operators of the source
-- are `add64`, `sub64` and `mul64`. Cache lines are 64 bytes, so a header of spsc_queue.hpp is 192.
-- Interleavings are sequences of steps over sequentially consistent memory. The source stands nearer
-- to that in some places than in others: the cursors of the single-writer rings are stored with
-- release and loaded by the other side with acquire order, `write_seq` and the words of the records are ordered by
-- fences, and the two positions of `ShmRingMpmc`, which many threads exchange, are relaxed, where only
-- the sequence words of the cells are stored with release and loaded with acquire order. That no
-- weaker order shows is taken as given. Fuel 64 is enough for
-- `round_up_pow2` up to a request of 2 ^ 63, and one round is enough for `push` and `pop` of
-- `LockFreeRingBuffer` with no other thread in between; a spurious failure of
-- `compare_exchange_weak` repeats its round and is left out. Runs of `SpmcRing` have fewer than
-- 2 ^ 63 - 2 broadcasts, which is where `write_seq` would come to wrap. The readings of the cycle
-- counter are a parameter of `record_batch`. Runs of `ShmRingMpmc` end before a position comes
-- within a capacity of 2 ^ 63, and a record is one number, stored and loaded by a step of its own.
-- Runs of `BroadcastRing` have fewer than 2 ^ 63 - 2 records.
-- Runs of the cluster end before a term would reach 2 ^ 64. A map of node ids yields 0 for a missing
-- key, and the election deadlines are left out. The apply loop is `none` where it would read past the
-- end of the log; `term_at` is 0 there, and every use of it stands behind a test of the length. No node
-- restarts: one that does loses its term and its vote, as animus_cluster.hpp says, and may then vote
-- twice in a term.
--
-- Not modelled: concurrent producers of `LockFreeRingBuffer` (its algorithm is that of Mpmc), the
-- persistence worker's file and threads, the interleaving of `push_overwrite` and `try_pop`,
-- `RawSchemaView`, the market-data feed and the CME adapter. The sockets, the TLS transport, licences and security, the mapping of shared memory,
-- bindings, benches and tests are I/O, threads or third-party calls, or copies of the headers above
-- (AnimusCore_v1/animus_release.hpp, public_benchmark/include).
pub mod Base
pub mod Pow2
pub mod Fifo
pub mod Spsc
pub mod LockFree
pub mod Cep
pub mod Itch
pub mod Spmc
pub mod Engine
pub mod Overwrite
pub mod Local
pub mod Cluster
pub mod Mpmc
pub mod Broadcast
pub mod Shm
mod Examples

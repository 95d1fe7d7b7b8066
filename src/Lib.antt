-- ===== src/Lib.antt =====
-- NeuralKV: a replicated key-value store. Clients speak a framed binary protocol (src/protocol); a
-- write goes to a write-ahead log with group commit and from there into a sharded map
-- (src/persistence, src/storage); with a cluster, Raft replicates the log first (src/raft). This
-- library models these parts and proves what makes them correct.
--
-- The parts and the files that model them. A definition has the name of its function in snake case.
--   Bytes, Protocol/*     protocol/types.h, constants.h, codec.cpp: big-endian numbers, the four
--                         messages, their encoders and decoders, and TryParseFrame. A buffer is a
--                         list of bytes; a parse returns what is left of it.
--   Status, Result        common/status.*, common/result.h.
--   Storage/*             storage/sharded_kv.*. A shard is an association list (Storage/Dict). The
--                         hash function is a parameter everywhere.
--   Persistence/Crc32, Persistence/WalRecord
--                         persistence/crc32.cpp and wal_record.cpp: one record of the log.
--   Persistence/WalWriter persistence/wal_writer.cpp: the bytes of the file, how many of them an
--                         fsync has made durable, and the counters.
--   Persistence/Replay, Persistence/Recovery
--                         the scan loop of recovery.cpp, wal_writer.cpp and raft/log.cpp.
--   Persistence/DurableStorage
--                         durable_storage.cpp: log, sync, wait for the turn, apply.
--   Reader, Raft/RpcCodec raft/rpc_codec.cpp: the bodies of the RPCs.
--   Raft/Log              raft/log.cpp. It borrows the writer of the storage: in a node the writer
--                         is the field of the storage, and the log a view of it.
--   Raft/Node, Raft/Node/Handlers, Raft/Node/Leader, Raft/Node/Driver
--                         raft/node.cpp: the state and role changes, the two handlers, replication
--                         and commit, and elections, Propose and the run loop. Raft/PeerMap is the
--                         unordered_map from peers to numbers.
--   Raft/Node/Steps       the locked sections as a step relation, with restarts from the disk.
--   Raft/Node/Histories, Raft/Node/Elections
--                         the histories of the nodes of a cluster and the elections in them.
--   Server/Handler        server/handler.cpp, over an interface (Backend) with the calls that it
--                         makes on the storage and the node.
--   Server/Session        server/connection_session.cpp: the two loops of a session over a socket.
--   Net/Socket            WriteFull and ReadFull of net/socket_utils.cpp.
--   Net/Connection, Net/EpollServer
--                         net/connection.cpp and net/epoll_server.cpp: the buffers of a connection of
--                         the event loop, and the table of connections with the events registered.
--   Cluster, Cluster/Config
--                         cluster/cluster_config.*: the types and FindPeer, the parser of a line
--                         (Config), and Validate and LoadClusterConfig (Config/Load).
--   Cluster/Transport     cluster/transport.cpp: one RPC, the cache of connections, and the
--                         descriptors that are open.
--   Concurrency/ThreadPool
--                         concurrency/thread_pool.cpp as a step relation.
--   Testing/LinearizabilityChecker
--                         testing/linearizability_checker.h: the judge of histories.
--   Tests/*               the theorems at sample inputs.
--
-- What the operating system and the other threads do is an argument of a definition: the outcome of
-- each write, fsync, ftruncate and open; the records that arrive while Sync waits; the answer of a
-- peer; and a function for what happens to a node between two of its locked sections. The code between
-- two waits on a mutex is one step. Paths, directories, descriptors and the texts of errno in messages
-- are left out. Time is a number of milliseconds; the random timeout is part of the clock.
--
-- Bounds. Bytes and fields are written and read with their widths; encoders wrap as the casts do, and
-- the theorems on round trips ask that the numbers fit. Indexes and terms, which the code counts up by
-- one from 0 in 64 bits, are counted without a wrap, and where a theorem needs it a hypothesis says
-- that the next one fits; `next_idx - 1` and lag_entries, which can wrap, are written modulo 2 ^ 64.
-- The scan loop has fuel, one round more than the file has bytes, and every round takes a byte
-- (Persistence/Replay/Scan); the loop that applies entries has the distance to the commit index, and
-- every round moves one on (Raft/Node/Apply); the loops over the
-- frames of a buffer have one round more than it has bytes, and every frame takes some
-- (Server/Session/Fuel).
--
-- A socket is the list of outcomes of the calls on it: when the list is used up, a write takes all that
-- it is offered, a read of a blocking socket has not returned, and one of a non-blocking socket would
-- block.
--
-- Memory is never short: the room that decode_append_entries_request reserves for the entries, before it
-- reads them, is not modelled. The calls of epoll_ctl that change or remove a registration, whose results
-- the code does not look at, succeed; the one that adds a connection may fail.
--
-- Not modelled: listening, connecting and the accept loops of the servers (the rest of src/net and
-- src/server), which only call the operating system; the tools, and the fault
-- injection of the tests.
pub mod Prelude
pub mod Bytes
pub mod Status
pub mod Result
pub mod Reader
pub mod Protocol
pub mod Storage
pub mod Persistence
pub mod Concurrency
pub mod Cluster
pub mod Net
pub mod Raft
pub mod Server
pub mod Testing
pub mod Tests

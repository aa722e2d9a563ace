-- ===== src/Lib.antt =====
-- gokaf: a message broker with Kafka's protocol (internal/).
--
-- The parts and their files here:
-- Base: numbers of fixed width, lists, maps, tests. A Go int of w bits is an integer ℤ whose
--   arithmetic wraps where the source's can (`wrap32`, `wrap64`); offsets and lengths that the
--   source never makes negative are ℕ. A string or a byte slice is a list of bytes, a map an
--   association list (Base/Map).
-- Protocol (internal/protocol): decoders are functions on the unread bytes with a result that is
--   a value, an error or a panic (Protocol/Result). Protocol/Types and Protocol/Varint are types.go,
--   Protocol/Header is header.go, Protocol/Frame is framing.go over any writer.
--   Protocol/RecordBatch is recordbatch.go with the checksum as a parameter, Protocol/Errors is
--   errors.go.
-- Storage (internal/storage/log.go): Storage/Segment is one segment, with its log file and its
--   sparse index as lists of bytes, its reads and the recovery of its tail; Storage/Log is the list
--   of segments, with `append_with_offset` for AppendWithOffset and `read` for Read;
--   Storage/Segment/Opening and Storage/Log/Opening are openSegment and Open. The disk does
--   not fail, and the buffered writers have flushed when an operation returns. `read_loop` and
--   `recover_loop` have one round more of fuel than the file has bytes; a round passes an entry of
--   twelve bytes or more.
--   Storage/LogManager (internal/storage/manager.go) has the open logs by the names of their
--   directories.
-- Producer (internal/producer/manager.go): producer ids and sequence numbers; `append_batch` takes
--   the callback that appends.
-- Replication (internal/replication/partition_state.go): the clock is an argument; a wait is
--   `begin_wait`, then either the release of the waiter by another operation or `time_out`.
--   Replication/Manager is manager.go, where the entry of a fetcher stands for the goroutine that
--   runs it, and Replication/Fetcher is one fetch of fetcher.go; `split_from` has as much fuel as
--   there are bytes, and a round takes twelve or more.
-- Group (internal/group/coordinator.go): Group/State has the state, Group/Joining, Group/Syncing and
--   Group/Leaving the operations. Every request, and every timer that goes off, is an
--   operation that may run in any state. What the code asks of timers and channels is a list of
--   effects. A nil dereference is `none`. `fmt.Sprintf` is a parameter. Group/Steps is the relation
--   of all of them in any order.
-- Topic (internal/topic): the registry, and AssignReplicas, where an index out of range is `none`.
-- Offset (internal/offset/store.go): the store over the modelled log; `replay` has a round for each
--   read.
-- Assignor (internal/assignor): the blob of an assignment, and in Assignor/Strategies Range and
--   RoundRobin, where `sort` stands for sort.Strings.
-- Cluster (internal/cluster): Cluster/Membership and Cluster/Liveness are membership.go and
--   liveness.go, where the outcome of a ping is an argument; Cluster/MetadataLog is
--   metadatalog.go, where `read_raw_from` has a round for each read, and a round more than the log
--   has records is enough.
-- Faults (internal/faults).
-- Network (internal/network): a handler is a function of the broker's state and of the unread
--   bytes of the request (Network/Handler, dispatch.go's Broker). What it changed stays changed
--   when it ends in an error. Network/Produce, Network/Fetch (fetch.go, list_offsets.go),
--   Network/Topics with Network/TopicRequests and Network/TopicCodec (create_topics.go,
--   delete_topics.go, apply_topic.go, metadata_record.go), Network/Failover, Network/GroupRequests
--   (the requests of consumer groups), Network/Metadata, Network/Operations (broker_ops.go),
--   Network/Dispatch (the table and the short handlers), and Network/MetadataFollower for
--   internal/cluster/metadatafollower.go. The record Env has what a handler takes from outside:
--   the checksum, names that fmt.Sprintf makes, the clock, which stands still during a request,
--   and what other requests do to the broker while one waits. Requests to peers are kept in the
--   broker's field `sent`.
-- Runs: each theorem at a small input.
--
-- The handlers call the other parts: a produce request appends to a Log through append_batch and
-- then waits on a PartitionState; a fetch reads a Log and, for a follower, moves the PartitionState;
-- a commit goes through the Store, whose log is a Log; joins and syncs go to the Coordinator and
-- carry assignments; a change of a topic goes through the metadata log to the registry and to the
-- replication manager, whose fetchers copy the logs of leaders, and other brokers pull it from the
-- controller's metadata log.
--
-- Locks: a hold of a mutex is one step. Most operations hold theirs from start to end, and Join, Sync and
-- WaitForHighWatermark up to their wait. StartFollowing and Lead of the replication manager hold it
-- once for each of the sections that they are lists of in Replication/Manager; the calls of the
-- handlers run them in a row, and Replication/Manager/Interleaving has calls whose sections fall
-- between each other's. A handler is run without other requests between its steps, but for its waits.
--
-- Not modelled: sockets, HTTP, most of the commands, and the web page; other interleavings of handlers
-- than those named above, and a fetcher's last round after its entry is gone; the names of log files,
-- Close, tickers and delays, and the views of groups and producers for the web page.
pub mod Base
pub mod Protocol
pub mod Storage
pub mod Producer
pub mod Replication
pub mod Group
pub mod Topic
pub mod Offset
pub mod Assignor
pub mod Cluster
pub mod Faults
pub mod Network
pub mod Runs

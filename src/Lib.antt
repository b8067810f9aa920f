-- ===== src/Lib.antt =====
-- distconf: a replicated key-value store and service registry (distconf/, in Go).
--
-- The program keeps one state machine per node. The leader orders writes in a log, sends the log to
-- its followers over streams, commits an entry when more than half of the nodes have acknowledged it,
-- and applies committed entries to its own state machine. A follower applies each entry that it
-- receives. Clients read keys, watch keys by event cursors, and register service instances with
-- leases; a sweeper on the leader proposes the removal of what has expired.
--
-- The parts, and the files of the program that they model:
--   Proto          the messages (distconf/api/distconf/v1/distconf.pb.go)
--   Store          the state machine (distconf/internal/store/{store,helpers,errors}.go)
--     Ring         the ring of recent key events (appendEventLocked, oldestSeq)
--     State        the state itself, reads and conversions (Get, GetInstance, kvToPB, cloneKV, ...)
--     Emit         cursors and the fan-out to subscribers (emitKVLocked, fanoutKVLocked)
--     Apply        puts, deletes and expiry batches (ApplyPut, ApplyDelete, ApplyExpireKeys)
--     Registry     instances and their subscribers (ApplyRegister, ApplyHeartbeat, Discover, ...)
--     Watch        subscriptions to keys (WatchKV, CloseKVWatcher, CurrentEventSeq)
--     Snapshot     export, restoration and the sweeper's scans (helpers.go)
--     Log          the state machine against the whole history of its key events
--   Repl           replication (distconf/internal/repl/*.go)
--     Applier      one log entry on the state machine (applyOne)
--     Leader       proposals, acknowledgements and votes (Propose, FollowerAck, HasQuorumPeers)
--     Commit       one round of commitLoop with compactLocked; Commit.Run is every run of a leader,
--                  Commit.Wakes that of its loop with the signals that start a round
--     Catchup      what a follower is sent (Catchup, EntriesAfter, sendCatchup)
--     Follower     the follower's loop (ApplyStream); Follower.Runner is that over its connections
--     Pusher       the leader's side of a follower's stream (stream.go: HandleStreamWithInitial)
--     Broadcaster  the signals to the streams (broadcaster.go)
--     Transfer     a replica that is restored from another's snapshot, and the watches on it
--     Feed         what a node's changes do to one subscriber's channel (also Store.Feed)
--   Sweeper        what a scan proposes (distconf/internal/sweeper/sweeper.go)
--   Server         request handlers and their errors (distconf/internal/server/{kv,registry,errors}.go)
--     Cluster      what a node tells of the cluster, and which followers it serves (cluster.go, auth.go)
--     WatchLoop    the loop of one watch stream (watch.go); WatchLoop.Run is every run of it
--     WatchInstances  the loop of one watch of a service (registry.go)
--     Assembly     the parts of a node before it is started (node.go: NewNode)
--   Client         the client library (distconf/client/{client,errors,lease}.go)
--     Wire         an error of the server as a client sees it (mapStatus, parseLeaderHint)
--     Reads        reads and the search for the leader, node by node (Get, Discover, Info)
--     Writes       writes, their redirection and their retry (Put, Delete, Register, Heartbeat)
--     Watching     a watch that goes from node to node (watchLoop, pumpWatch, WatchInstances)
--     Lease        a lease's interval and loop (NewLease, KeepAlive)
--   Cli            what the command line's texts and flags mean (distconf/cmd/distconf/{main,cli}.go)
--   Base           lists, numbers, 64-bit words and maps that these share
--   Witnesses      the theorems at concrete inputs (Services, Streams, Clients, ...)
--
-- How the state corresponds:
--   - A Go struct is a record with its fields in snake_case, an operation a function of the state with
--     the name of the method. A mutex makes each method one step, and goroutines are the order of the
--     steps (Repl.Commit.Run.Step).
--   - An int64 is its 64-bit pattern, a number below 2 ^ 64; sums, differences, products and signed
--     comparisons follow that (Base.Int64). A byte slice is a list of numbers. A string is a text of code
--     points; Go's strings that are not valid UTF-8 are not modelled.
--   - A Go map is an association list without repeated keys; iteration visits it in list order, which
--     stands for the order that Go chooses.
--   - A goroutine of its own is a data type of the places where it can stand and a function for one step
--     (Repl.Pusher.push, Server.WatchLoop.turn); a run of it beside the others is a relation.
--   - The clock is an argument: a reading per call, or a function that gives the reading for each
--     index or each turn of a loop.
--   - A panic is `none`; an error is a value (Store.State.Result).
--   - A channel of a subscriber is the list of what waits in it, of 256 elements at most; a channel
--     that the store closed stands in kv_closed or svc_closed.
--
-- Bounds: log indices stay below 2 ^ 50, so that a cursor (index * 4096 + offset) fits in an int64. The
-- loops over indices are counted by the distance that they cover, so no fuel runs out. The ring holds
-- 100,000 events and an entry 4,095.
--
-- A watch stream takes one turn per call on the store, send or receive; its turns, the log's entries and
-- the turns of other streams come in any order. A client's network is a parameter that decides each
-- call's outcome by the calls before it.
--
-- Not modelled: the network, TLS and gRPC (a stream is the list of its messages), the start and stop of a
-- node's parts, the flag package and the printing of the command line, logging, timers, and the generated
-- code of distconf.pb.go beyond its types.
pub mod Base
pub mod Proto
pub mod Store
pub mod Repl
pub mod Sweeper
pub mod Server
pub mod Client
pub mod Cli
pub mod Witnesses

-- ===== src/Lib.antt =====
-- A key-value store replicated by Raft: a model of the program and what is proved of it.
--
-- The program. A peer (src/raft/) keeps a log of commands, takes part in elections, and hands
-- the committed commands over a channel to the key-value server (src/kvraft/), which applies
-- each to its storage once per (client, id) and answers the requests of the clients.
-- src/models/kv.go is the sequential specification of one key, which the history checker
-- (src/porcupine/) runs. src/labrpc/ and src/labgob/ are the simulated network and the encoding
-- of the tests.
--
-- How it is modelled. A method that holds the lock from its beginning to its end is one function
-- from the state to the state; a method that releases the lock in between is one function for
-- each critical section, and what may happen in between is any step of Raft/Trace. `Outcome`
-- says how a call ends: with a result, blocked on a full channel, or in a panic. Go's `int` is
-- an integer of no bound; terms and indices stay far below 2 ^ 63. A channel of capacity 1 is a
-- Bool; the channel to the service is the list of the messages sent so far, so a full one delays
-- and does not lose. `persist` is one step, with the rewrite of the server's file in it: a crash
-- of Raft/Trace falls between two critical sections, and `persist_created` of Raft/Node is the
-- disk of a crash inside the rewrite.
--
--   Prelude            library names, Boolean tests, lists, maps, integers, outcomes
--   Raft/Types         src/raft/rpc.go: messages, entries, constants
--   Raft/Persister     src/raft/persister.go: every method
--   Raft/Codec         what the code relies on of encoding/gob and encoding/json, a parameter
--   Raft/Slice         indexing and slicing, out of range included
--   Raft/Node          src/raft/raft.go: the struct, Make, setRaft, persist, readPersist; MakeRun
--                      of src/raft/raftRun.go; readPersistRun of src/kvraft/serverRun.go; `restart`
--   Raft/Log           src/raft/getters.go
--   Raft/Apply         startApply of src/raft/raft.go; Apply/Order is about its messages
--   Raft/Handler       src/raft/handler.go: HandleAppendEntries, HandleRequestVote, and their variants
--                      in src/raft/raftRun.go; Handler/Matching is about the append branch
--   Raft/Sending       sendRequestVote, sendAppendEntries, call; Sending/Isolation is about a server
--                      that is disconnected
--   Raft/Candidate     startAsCand; Candidate/Counting is about the votes
--   Raft/Leader        startAsLeader, sendHeartBeat, Start, updateCommitForLeader;
--                      Leader/Majority is about the commit index, Leader/Starting about Start
--   Raft/Replicate     StartOnePeerAppend; Replicate/Request is about what it sends,
--                      Replicate/Delivery about one answer, Replicate/Matches about logs that
--                      match, Replicate/Converges about the loop, Replicate/Commits about
--                      a command from Start to its commit
--   Raft/Indexed       logs whose entries carry the indices 1, 2, ...
--   Raft/Invariant     a well-formed peer, and each operation on it
--   Raft/Durable       what a restart reads back
--   Raft/Trace         the steps of a peer; Trace/Safety, Trace/Votes,
--                      Trace/Messages, Trace/Handing and Trace/Blocking are about its runs
--   Raft/Cluster       several peers and their elections; Cluster/Counts, Cluster/Promises and
--                      Cluster/Elected are about who wins
--   Raft/Election      generateTime, startElection, the loop of startAsLeader; Election/Timing,
--                      Election/Waking and Election/Beating are about its timer, its channels and
--                      its heartbeats
--   Kv/Types           src/kvraft/rpc.go
--   Kv/Server          src/kvraft/server.go; Server/Table is about one applied operation,
--                      Server/Refines about all, Server/Replies about what Get answers,
--                      Server/Writes about what PutAppend answers
--   Kv/Clerk           src/kvraft/client.go, MakeClerkRun of src/kvraft/clientRun.go; Clerk/Retries
--                      is about the loops, Clerk/Calls about Get and PutAppend
--   Kv/Node            StartKVServer, StartKVServerRun, Kill, and the channel from the peer;
--                      Node/Replays is about what a server holds
--   Kv/Menu            startUserInterface of the client and of the server; Menu/Words is about
--                      what is typed
--   Runner             the two main functions of src/runner/; Runner/Fields is about servers.txt
--   Models             src/models/kv.go; Models/Partition is its Partition, Partition/Groups is
--                      about the groups
--   Network            the Network of src/labrpc/labrpc.go; Network/Requests is about processReq,
--                      Network/Servers models Server, Service and ClientEnd.Call,
--                      Servers/Names and Servers/Calls are about a call
--   Labgob             checkType of src/labgob/labgob.go; Labgob/Marks, Labgob/Visits and
--                      Labgob/Walks are about what it marks; Labgob/Defaults is checkDefault
--   Raft/Examples, Kv/Examples, Network/Examples, Network/Servers/Examples,
--   Models/Partition/Examples, Runner/Examples, Labgob/Examples
--                      the theorems at concrete states
--
-- Fuel. `append_loop` runs on rounds, of which k + 1 are enough when every request is answered,
-- k the number of entries that the peer is known to have; a run that has used them up is `none`.
-- The rounds of `apply_loop`, `last_committed` and `collect_entries` are computed from the
-- state, as many as the loop in the code makes. The requests poll ten times, as in the code. The
-- client's loop runs on passes over the servers; `none` is a loop that has used them up, and
-- Clerk/Calls says which calls it has then made: the code's loop ends only when a server answers
-- OK. `check_type` runs on one more than the number of types that there are.
--
-- Parameters. `Codec`: one value that is encoded is decoded again, whatever follows it, an empty
-- stream gives nothing, and JSON does not keep a nil command apart from `Op{}`. `rpc` in
-- `append_loop` and `call` in the client's loop: what the network and the servers do; `meanwhile`
-- in `append_loop`: what the other goroutines do to the leader between its critical sections. The states that a request of the server
-- observes, and those of the network that processReq observes, are arguments; so are random
-- draws and the clock. `Reflection` and `Method` in Network/Servers: what reflect and
-- encoding/gob do with a value; `types` in Labgob: the kinds of the types.
--
-- Not modelled: src/porcupine/, a copy of another project's library, but for its Operation; the
-- reflection that src/labrpc/ and src/labgob/ do; what is printed; sockets and files.

pub mod Prelude
pub mod Raft
pub mod Kv
pub mod Labgob
pub mod Runner
pub mod Models
pub mod Network

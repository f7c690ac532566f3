-- ===== src/Kv/Node.antt =====
-- A server with its Raft peer: `StartKVServer` and `Kill` of src/kvraft/server.go, `StartKVServerRun`
-- of src/kvraft/serverRun.go, and the channel between the two (`listenApplyCh`).
pub mod Replays
use sharded_raft_key_value_s.Prelude.{
  ℕ, ◌+◌, ◌≡◌, Bool, false, Option, none, some, List, String, Outcome, ok, blocked, panicked, ◌>>=◌,
  get_elem?,
}
use sharded_raft_key_value_s.Prelude.Int.{ℤ}
use sharded_raft_key_value_s.Raft.Types.{ApplyMsg}
use sharded_raft_key_value_s.Raft.Persister.{Bytes, Persister}
use sharded_raft_key_value_s.Raft.Codec.{Codec}
use sharded_raft_key_value_s.Raft.Node.{Raft, new_raft, make, make_run, read_persist_run, restart}
use sharded_raft_key_value_s.Raft.Trace.{kill as kill_peer, Step, is_crash}
use sharded_raft_key_value_s.Kv.Types.{Op}
use sharded_raft_key_value_s.Kv.Server.{KvServer, start_kv_server, apply_op, kill as kill_server}

-- `taken` counts the messages that `listenApplyCh` has received.
pub record Node : Type 0 where
  pub peer : Raft Op
  pub server : KvServer
  pub taken : ℕ

-- `applyMessage.Command.(Op)`
unfoldable pub command_of : ApplyMsg Op → Outcome Op
command_of message = elim message.command [ none ↦ panicked | some op ↦ ok op ]

-- one round of `listenApplyCh`, the receive included
unfoldable pub listen_once : Node → Outcome Node
unfolding command_of
listen_once node = elim (get_elem? node.peer.apply_chan node.taken) [
  | none ↦ blocked
  | some message ↦ (do
    op ← command_of message
    ok (record node { server = apply_op op node.server; taken = node.taken + 1 }))
]

-- `KVServer.Kill`
unfoldable pub kill_node : Node → Node
kill_node node = record node { peer = kill_peer node.peer; server = kill_server node.server }

module _ ⦃codec : Codec Op⦄ where
  -- `StartKVServer`
  unfoldable pub start_node : ℕ → ℕ → Persister → ℤ → Node
  start_node servers me ps maxraftstate = record {
    peer = make servers me ps;
    server = start_kv_server me maxraftstate;
    taken = 0;
  }

  -- `StartKVServerRun`, on the file that the process finds
  unfoldable pub start_node_run : List String → ℕ → Persister → Option Bytes → ℤ → Node
  start_node_run servers me ps file maxraftstate = record {
    peer = read_persist_run (make_run (new_raft ps file) servers me);
    server = start_kv_server me maxraftstate;
    taken = 0;
  }

  -- the process is started again on the same disk
  unfoldable pub restart_node : List String → Node → Node
  restart_node servers node = record {
    peer = restart servers node.peer;
    server = start_kv_server node.server.me node.server.maxraftstate;
    taken = 0;
  }

  -- Any step of the peer, a round of `listenApplyCh` (which a kill does not stop while it waits), a
  -- kill, and a crash with a restart.
  pub data NodeStep : Node → Node → Type 0 where
    act :
        {node : Node} (rf' : Raft Op) (st : Step node.peer rf')
        → is_crash st ≡ false
        → NodeStep node (record node { peer = rf' })
    listen : {node node' : Node} → listen_once node ≡ ok node' → NodeStep node node'
    stop : (node : Node) → NodeStep node (kill_node node)
    crash : (servers : List String) (node : Node) → NodeStep node (restart_node servers node)

  -- a node that has just been started, in the tests or as a server
  pub data Started : Node → Type 0 where
    in_test :
        (servers me : ℕ) (ps : Persister) (maxraftstate : ℤ)
        → Started (start_node servers me ps maxraftstate)
    in_run :
        (servers : List String) (me : ℕ) (ps : Persister) (file : Option Bytes) (maxraftstate : ℤ)
        → Started (start_node_run servers me ps file maxraftstate)

  pub data NodeRuns (node : Node) : Node → Type 0 where
    start : NodeRuns node node
    step : {a b : Node} → NodeRuns node a → NodeStep a b → NodeRuns node b

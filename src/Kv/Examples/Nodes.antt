-- ===== src/Kv/Examples/Nodes.antt =====
-- A node that starts on a log of one operation, learns that it is committed, and applies it; and the
-- same node after a crash.
use sharded_raft_key_value_s.Prelude.{◌≡◌, refl, true, some, List, [], ◌∷◌, String, map, ok, arith}
use sharded_raft_key_value_s.Prelude.Int.{pos, minus_one}
use sharded_raft_key_value_s.Raft.Types.{
  commit_and_heart_beat, Entry, AppendEntriesArgs, AppendEntriesReply,
}
use sharded_raft_key_value_s.Raft.Persister.{make_persister}
use sharded_raft_key_value_s.Raft.Node.{
  set_follwer, new_raft, persist, make_run, read_persist_run, restart,
}
use sharded_raft_key_value_s.Raft.Slice.{at}
use sharded_raft_key_value_s.Raft.Log.{min_ℤ, get_last_log_entry, index_in_log}
use sharded_raft_key_value_s.Raft.Apply.{start_apply}
use sharded_raft_key_value_s.Raft.Handler.{signal, dispatch_job, commit_log, handle_append_entries}
use sharded_raft_key_value_s.Raft.Handler.Matching.{IsRequest}
use sharded_raft_key_value_s.Raft.Trace.{append_entries}
use sharded_raft_key_value_s.Raft.Invariant.{IsValid}
use sharded_raft_key_value_s.Raft.Trace.Handing.{Hands, Step-Hands}
use sharded_raft_key_value_s.Models.{init}
use sharded_raft_key_value_s.Kv.Types.{Op}
use sharded_raft_key_value_s.Kv.Server.{start_kv_server, apply_op}
use sharded_raft_key_value_s.Kv.Server.Table.{value}
use sharded_raft_key_value_s.Kv.Server.Refines.{model_run, distinct}
use sharded_raft_key_value_s.Raft.Codec.{decode_run, encode_run, decode_entries, encode_entries}
use sharded_raft_key_value_s.Kv.Node.{
  Node, start_node_run, listen_once, restart_node, Started, in_run, NodeRuns, start, step, act,
  listen, crash,
}
use sharded_raft_key_value_s.Kv.Node.Replays.{commands, taken_of, value-NodeRuns}
use sharded_raft_key_value_s.Kv.Examples.Disk.{op_codec}
use sharded_raft_key_value_s.Kv.Examples.{put_x}

abbrev log : List (Entry Op)
log = record { index = pos 1; command = some put_x; term = pos 1; id = pos 0 } ∷ []

abbrev fresh : Node
fresh =
    start_node_run ("a" ∷ "b" ∷ []) 1 make_persister (some (encode_run (pos 1) minus_one log))
      (pos 0)

-- the peer has handed the operation over
abbrev committed : Node
committed = record fresh {
  peer = record fresh.peer {
    receive_hb = true;
    commit_index = pos 1;
    last_apply = pos 1;
    apply_chan = record { command = some put_x; command_valid = true; command_index = pos 1 } ∷ [];
  };
}

abbrev served : Node
served = record committed { server = apply_op put_x fresh.server; taken = 1 }

abbrev request : AppendEntriesArgs Op
request = record {
  job = commit_and_heart_beat;
  term = pos 1;
  leader_id = pos 0;
  entries = [];
  prev_log_index = pos 0;
  prev_log_term = pos 0;
  leader_commit = pos 1;
}

request-IsRequest : IsRequest request
request-IsRequest = record {
  prev = 0;
  at_prev = refl;
  base = λ e. refl;
  numbered = tt;
  commit = omega arith;
}

abbrev reply : AppendEntriesReply
reply = record { last_index = pos 0; term = pos 1; success = true }

commits : handle_append_entries request reply fresh.peer ≡ ok (reply, committed.peer)
unfolding handle_append_entries start_node_run read_persist_run make_run persist new_raft signal
    dispatch_job commit_log decode_run encode_run decode_entries encode_entries start_apply min_ℤ
    get_last_log_entry set_follwer at index_in_log
commits = refl

serves : listen_once committed ≡ ok served
unfolding listen_once start_node_run
serves = refl

fresh-IsValid : IsValid fresh.peer
unfolding start_node_run read_persist_run make_run new_raft decode_run encode_run decode_entries
    encode_entries
fresh-IsValid = record {
  indexed = (refl, tt);
  bounded = (omega arith, tt);
  numbered = tt;
  committed = omega arith;
  applied = refl;
  leads = λ e. cc;
}

Step-Hands_example : Hands fresh.peer committed.peer
Step-Hands_example =
    Step-Hands (append_entries request reply reply request-IsRequest tt commits) fresh-IsValid refl

abbrev origin : Started fresh
origin = in_run ("a" ∷ "b" ∷ []) 1 make_persister (some (encode_run (pos 1) minus_one log)) (pos 0)

abbrev serve : {node : Node} → NodeRuns node fresh → NodeRuns node served
serve runs =
    step
      (step runs
        (act committed.peer (append_entries request reply reply request-IsRequest tt commits) refl))
      (listen serves)

value-NodeRuns_example :
    (ops : List Op) × (commands (taken_of served) ≡ map some ops)
    × ((k : String) → value k served.server ≡ model_run k init (distinct [] ops))
value-NodeRuns_example = value-NodeRuns origin (serve start)

-- the disk is the one that the node started on
restarted : restart_node ("a" ∷ "b" ∷ []) served ≡ fresh
unfolding restart_node restart start_node_run read_persist_run make_run new_raft apply_op
    start_kv_server
restarted = refl

again : NodeRuns fresh served
again = serve (rw restarted at (step (serve start) (crash ("a" ∷ "b" ∷ []) served)))

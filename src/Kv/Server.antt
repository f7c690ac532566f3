-- ===== src/Kv/Server.antt =====
-- src/kvraft/server.go: the replicated state, the loop that applies committed operations, and the
-- client requests. Everything between a lock and its unlock is one step.
pub mod Table
pub mod Refines
pub mod Replies
pub mod Writes
use Prim.Native.String.{◌++◌}
use sharded_raft_key_value_s.Prelude.{
  ℕ, zero, suc, ◌+◌, ◌≡◌, Bool, true, false, not, ◌&&◌, ◌||◌, Option, none, some, List, [], ◌∷◌,
  String, string_eq, ◌=?◌, if◌then◌else◌,
}
use sharded_raft_key_value_s.Prelude.Int.{ℤ, int_eq}
use sharded_raft_key_value_s.Prelude.Dict.{Dict, lookup, insert, contains, get_or}
use sharded_raft_key_value_s.Raft.Node.{Raft}
use sharded_raft_key_value_s.Raft.Leader.{is_leader_state}
use sharded_raft_key_value_s.Kv.Types.{
  Err, unset, ok, err_wrong_leader, putt, appendd, gett, PutAppendArgs, PutAppendReply, GetArgs,
  GetReply, Op,
}

pub record KvServer : Type 0 where
  pub me : ℕ
  pub maxraftstate : ℤ
  pub dead : Bool
  pub storage : Dict String String
  pub id_table : Dict ℤ (Dict ℤ Op)

-- `StartKVServer`, but for the Raft peer and the goroutine
unfoldable pub start_kv_server : ℕ → ℤ → KvServer
start_kv_server me maxraftstate = record {
  me = me;
  maxraftstate = maxraftstate;
  dead = false;
  storage = [];
  id_table = [];
}

abbrev pub holds_id : ℤ → Option (Dict ℤ Op) → Bool
holds_id id none = false
holds_id id (some ids) = contains id ids

-- `existId`
unfoldable pub exist_id : ℤ → ℤ → KvServer → Bool
exist_id id client kv = holds_id id (lookup client kv.id_table)

-- `existKey`
unfoldable pub exist_key : String → KvServer → Bool
exist_key key kv = contains key kv.storage

-- the writes to `kv.storage` in `listenApplyCh`
unfoldable pub write_storage : Op → KvServer → Dict String String
write_storage op kv =
    if op.op_task =? appendd && exist_key op.key kv
    then insert op.key (get_or op.key "" kv.storage ++ op.value) kv.storage
    else if op.op_task =? putt || op.op_task =? appendd
    then insert op.key op.value kv.storage
    else kv.storage

-- the writes to `kv.idTable` there
unfoldable pub record_id : Op → KvServer → Dict ℤ (Dict ℤ Op)
record_id op kv = insert op.client (insert op.id op (get_or op.client [] kv.id_table)) kv.id_table

-- one round of `listenApplyCh`
unfoldable pub apply_op : Op → KvServer → KvServer
apply_op op kv = record kv {
  storage = if not (exist_id op.id op.client kv) then write_storage op kv else kv.storage;
  id_table = record_id op kv;
}

-- the loop, on the operations that the channel delivers; a killed server takes no more
unfoldable pub listen_apply_ch : List Op → KvServer → KvServer
listen_apply_ch [] kv = kv
listen_apply_ch (op ∷ ops) kv =
    let rest = listen_apply_ch ops (apply_op op kv) in if kv.dead then kv else rest

unfoldable pub kill : KvServer → KvServer
kill kv = record kv { dead = true }

-- The states of the Raft peer that a request meets: in `kv.isLeader`, in the first test of
-- `rf.Start`, and when `rf.Start` decides.
pub record Seen : Type 0 where
  pub checked : Raft Op
  pub entered : Raft Op
  pub ended : Raft Op

-- `kv.isLeader()`, and the third result of `kv.Rf.Start(op)`
unfoldable pub is_leader : Seen → Bool
is_leader seen = seen.checked.is_leader

unfoldable pub start_success : Seen → Bool
start_success seen = is_leader_state seen.entered.state && seen.ended.is_leader

-- the operations that the two requests hand to `Start`
unfoldable pub get_op : GetArgs → Op
get_op args = record {
  op_task = gett;
  key = args.key;
  value = "";
  client = args.client;
  id = args.id;
}

unfoldable pub put_append_op : PutAppendArgs → Op
put_append_op args = record {
  op_task = args.op;
  key = args.key;
  value = args.value;
  client = args.client;
  id = args.id;
}

-- What a request finds once its id is in the table: `kv` under the second lock, `kv'` under the
-- third.
unfoldable pub get_value : GetArgs → KvServer → KvServer → GetReply
get_value args kv kv' = record {
  err = ok;
  value = if exist_key args.key kv then get_or args.key "" kv'.storage else "";
}

unfoldable pub put_append_found : PutAppendArgs → KvServer → PutAppendReply
put_append_found args kv = record { err = if exist_key args.key kv then ok else unset }

-- The ten polls; `obs t` is the state of the server when its lock is taken for the t-th time.
unfoldable pub poll_get : ℕ → ℕ → GetArgs → (ℕ → KvServer) → GetReply
unfolding get_value
poll_get zero t args obs = record { err = err_wrong_leader; value = "" }
poll_get (suc n) t args obs =
    let rest = poll_get n (t + 1) args obs in
    if exist_id args.id args.client (obs t)
    then get_value args (obs (t + 1)) (obs (t + 2))
    else rest

unfoldable pub poll_put_append : ℕ → ℕ → PutAppendArgs → (ℕ → KvServer) → PutAppendReply
unfolding put_append_found
poll_put_append zero t args obs = record { err = err_wrong_leader }
poll_put_append (suc n) t args obs =
    let rest = poll_put_append n (t + 1) args obs in
    if exist_id args.id args.client (obs t) then put_append_found args (obs (t + 1)) else rest

-- `Get`
unfoldable pub get : Seen → (ℕ → KvServer) → GetArgs → GetReply
unfolding is_leader start_success
get seen obs args =
    if is_leader seen && start_success seen
    then poll_get 10 0 args obs
    else record { err = err_wrong_leader; value = "" }

-- `PutAppend`
unfoldable pub put_append : Seen → (ℕ → KvServer) → PutAppendArgs → PutAppendReply
unfolding is_leader start_success
put_append seen obs args =
    if is_leader seen && start_success seen
    then poll_put_append 10 0 args obs
    else record { err = err_wrong_leader }

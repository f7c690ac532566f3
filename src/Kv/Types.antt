-- ===== src/Kv/Types.antt =====
-- src/kvraft/rpc.go and the operation type of src/kvraft/server.go.
use sharded_raft_key_value_s.Prelude.{String}
use sharded_raft_key_value_s.Prelude.Int.{ℤ}

-- the constants of type `Err`; `unset` is the zero value ""
pub data Err : Type 0 where
  unset ok err_no_key err_wrong_leader : Err

-- `Putt`, `Appendd`, `Gett`
abbrev pub putt : String
putt = "Put"

abbrev pub appendd : String
appendd = "Append"

abbrev pub gett : String
gett = "Get"

pub record PutAppendArgs : Type 0 where
  pub key : String
  pub value : String
  pub op : String
  pub client : ℤ
  pub id : ℤ

pub record PutAppendReply : Type 0 where
  pub err : Err

pub record GetArgs : Type 0 where
  pub key : String
  pub client : ℤ
  pub id : ℤ

pub record GetReply : Type 0 where
  pub err : Err
  pub value : String

pub record Op : Type 0 where
  pub op_task : String
  pub key : String
  pub value : String
  pub client : ℤ
  pub id : ℤ

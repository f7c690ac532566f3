-- ===== src/Models.antt =====
-- src/models/kv.go: the sequential specification of one key.
pub mod Partition
use Prim.Native.String.{◌++◌}
use sharded_raft_key_value_s.Prelude.{ℕ, Bool, true, String, string_eq, ◌=?◌, ◌==◌, if◌then◌else◌}

pub record KvInput : Type 0 where
  pub op : ℕ  -- 0 get, 1 put, 2 append
  pub key : String
  pub value : String

pub record KvOutput : Type 0 where
  pub value : String

-- `KvModel.Init`
unfoldable pub init : String
init = ""

-- `KvModel.Step`
unfoldable pub step : String → KvInput → KvOutput → Bool × String
step st inp out =
    if inp.op == 0
    then (out.value =? st, st)
    else if inp.op == 1
    then (true, inp.value)
    else (true, st ++ inp.value)

-- `KvModel.DescribeOperation`
unfoldable pub describe_operation : KvInput → KvOutput → String
describe_operation inp out =
    if inp.op == 0
    then "get('" ++ inp.key ++ "') -> '" ++ out.value ++ "'"
    else if inp.op == 1
    then "put('" ++ inp.key ++ "', '" ++ inp.value ++ "')"
    else if inp.op == 2
    then "append('" ++ inp.key ++ "', '" ++ inp.value ++ "')"
    else "<invalid>"

-- ===== src/Kv/Server/Table.antt =====
-- The id table and the storage after one applied operation (src/kvraft/server.go `listenApplyCh`).
use Prim.Native.String.{◌++◌}
use text.Mathlib.TextEquality.{eq_iff}
use text.Mathlib.TextLemmas.{nil-append}
use sharded_raft_key_value_s.Prelude.{
  ◌≡◌, refl, ap, ◌∙◌, inl, inr, Bool, not, ◌&&◌, ◌||◌, Option, none, some, [], String, string_eq,
  ◌=?◌, arith, Bool-cases, if◌then◌else◌,
}
use sharded_raft_key_value_s.Prelude.Int.{ℤ, int_eq, eqb_ℤ_iff}
use sharded_raft_key_value_s.Prelude.Dict.{
  Dict, lookup, insert, contains, get_or, or_default, lookup-insert, get_or-insert, contains-insert,
}
use sharded_raft_key_value_s.Kv.Types.{putt, appendd, Op}
use sharded_raft_key_value_s.Kv.Server.{
  KvServer, holds_id, exist_id, exist_key, write_storage, record_id, apply_op,
}

-- the value that a client sees under a key
abbrev pub value : String → KvServer → String
value k kv = get_or k "" kv.storage

-- the operation is the one that client `c` numbered `i`
abbrev pub has_id : ℤ → ℤ → Op → Bool
has_id i c op = op.client =? c && op.id =? i

abbrev pub is_write : Op → Bool
is_write op = op.op_task =? putt || op.op_task =? appendd

holds_id-or_default : (i : ℤ) (o : Option (Dict ℤ Op)) → contains i (or_default [] o) ≡ holds_id i o
unfolding contains lookup
holds_id-or_default i none = refl
holds_id-or_default i (some ids) = refl

-- Applying an operation records its id and forgets none.
pub exist_id-apply_op :
    (i c : ℤ) (op : Op) (kv : KvServer)
    → exist_id i c (apply_op op kv) ≡ (has_id i c op || exist_id i c kv)
unfolding exist_id apply_op record_id get_or
exist_id-apply_op i c op kv =
    let ids = get_or op.client [] kv.id_table in
    ap (holds_id i) (lookup-insert op.client c (insert op.id op ids) kv.id_table)
    ∙ elim (Bool-cases (op.client =? c)) [
      | inl e ↦
          let same : op.client ≡ c = (eqb_ℤ_iff op.client c).0 e in
          rw (e, contains-insert op.id i op (or_default [] (lookup op.client kv.id_table)))
            (ground (
              arith,
              holds_id-or_default i (lookup op.client kv.id_table),
              ap (λ j. holds_id i (lookup j kv.id_table)) same,
            ))
      | inr e ↦ rw e refl
    ]

-- the key's new value, if the operation is executed
abbrev pub written : String → Op → String → String
written k op st =
    if op.key =? k
    then (if op.op_task =? appendd
        then st ++ op.value
        else if op.op_task =? putt
        then op.value
        else st)
    else st

pub value-apply_op :
    (k : String) (op : Op) (kv : KvServer)
    → value k (apply_op op kv)
      ≡ (if exist_id op.id op.client kv then value k kv else written k op (value k kv))
unfolding apply_op write_storage exist_key contains get_or
value-apply_op k op kv = ground (
  arith,
  get_or-insert op.key k (get_or op.key "" kv.storage ++ op.value) "" kv.storage,
  get_or-insert op.key k op.value "" kv.storage,
  eq_iff op.key k,
  nil-append op.value,
)

pub exist_key-apply_op :
    (k : String) (op : Op) (kv : KvServer)
    → exist_key k (apply_op op kv)
      ≡ (exist_key k kv || (not (exist_id op.id op.client kv) && (is_write op && op.key =? k)))
unfolding apply_op write_storage exist_key
exist_key-apply_op k op kv = ground (
  arith,
  contains-insert op.key k (get_or op.key "" kv.storage ++ op.value) kv.storage,
  contains-insert op.key k op.value kv.storage,
  eq_iff op.key k,
)

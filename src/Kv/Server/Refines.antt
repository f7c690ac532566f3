-- ===== src/Kv/Server/Refines.antt =====
-- A log of operations, retries included, has the effect of its distinct operations on the
-- sequential model of each key (src/models/kv.go).
use text.Mathlib.TextEquality.{eq_iff}
use sharded_raft_key_value_s.Prelude.{
  ℕ, ◌≡◌, refl, sym, ap, ap₂, subst, ◌∙◌, inl, inr, Bool, true, false, ◌||◌, List, [], ◌∷◌, String,
  string_eq, ◌=?◌, arith, Bool-cases, if◌then◌else◌,
}
use sharded_raft_key_value_s.Prelude.Dict.{lookup, get_or}
use sharded_raft_key_value_s.Prelude.Int.{ℤ, int_eq, eqb_ℤ_iff}
use sharded_raft_key_value_s.Models.{KvInput, KvOutput, init, step}
use sharded_raft_key_value_s.Kv.Types.{putt, appendd, Op}
use sharded_raft_key_value_s.Kv.Server.{
  KvServer, start_kv_server, exist_id, apply_op, listen_apply_ch,
}
use sharded_raft_key_value_s.Kv.Server.Table.{
  value, has_id, written, exist_id-apply_op, value-apply_op,
}

-- an operation as an input of the model
abbrev pub input_of : Op → KvInput
input_of op = record {
  op = if op.op_task =? putt then 1 else if op.op_task =? appendd then 2 else 0;
  key = op.key;
  value = op.value;
}

abbrev no_output : KvOutput
no_output = record { value = "" }

-- the model of key `k`, which takes the inputs of its own key only
abbrev pub model_step : String → String → Op → String
model_step k st op = if op.key =? k then (step st (input_of op) no_output).1 else st

unfoldable pub model_run : String → String → List Op → String
model_run k st [] = st
model_run k st (op ∷ ops) = model_run k (model_step k st op) ops

-- the first operation of each client and id, given those seen before
abbrev pub is_seen : List Op → ℤ → ℤ → Bool
is_seen [] i c = false
is_seen (op ∷ ops) i c = has_id i c op || is_seen ops i c

unfoldable pub distinct : List Op → List Op → List Op
distinct seen [] = []
distinct seen (op ∷ ops) =
    let old = distinct seen ops in
    let new = op ∷ distinct (op ∷ seen) ops in if is_seen seen op.id op.client then old else new

put_is_not_append : (s : String) → (s =? putt) ≡ true → (s =? appendd) ≡ false
put_is_not_append s h = subst (λ x. (x =? appendd) ≡ false) (sym ((eq_iff s putt).0 h)) refl

written-model_step : (k st : String) (op : Op) → written k op st ≡ model_step k st op
unfolding step
written-model_step k st op = elim (Bool-cases (op.op_task =? putt)) [
  | inl e ↦ ground (arith, put_is_not_append op.op_task e)
  | inr e ↦ ground arith
]

-- the server has recorded exactly the operations seen
abbrev Knows : List Op → KvServer → Type 0
Knows seen kv = (i c : ℤ) → exist_id i c kv ≡ is_seen seen i c

Knows-apply_op :
    (seen : List Op) (op : Op) (kv : KvServer) → Knows seen kv → Knows (op ∷ seen) (apply_op op kv)
Knows-apply_op seen op kv h i c = ground (arith, exist_id-apply_op i c op kv, h i c)

-- An operation seen before adds no id.
Knows-again :
    (seen : List Op) (op : Op) (kv : KvServer)
    → Knows seen kv
    → is_seen seen op.id op.client ≡ true
    → Knows seen (apply_op op kv)
Knows-again seen op kv h old i c = elim (Bool-cases (has_id i c op)) [
  | inl e ↦
      let same_client : op.client ≡ c = (eqb_ℤ_iff op.client c).0 (ground arith) in
      let same_id : op.id ≡ i = (eqb_ℤ_iff op.id i).0 (ground arith) in
      exist_id-apply_op i c op kv
      ∙ rw e (sym (ap₂ (is_seen seen) (sym same_id) (sym same_client) ∙ old))
  | inr e ↦ exist_id-apply_op i c op kv ∙ rw e (h i c)
]

apply_op-dead : (op : Op) (kv : KvServer) → (apply_op op kv).dead ≡ kv.dead
unfolding apply_op
apply_op-dead op kv = refl

pub listen_apply_ch-live :
    (op : Op) (ops : List Op) (kv : KvServer)
    → kv.dead ≡ false
    → listen_apply_ch (op ∷ ops) kv ≡ listen_apply_ch ops (apply_op op kv)
unfolding listen_apply_ch
listen_apply_ch-live op ops kv live =
    ap (λ b. if b then kv else listen_apply_ch ops (apply_op op kv)) live

value-listen_from :
    (k : String) (ops seen : List Op) (kv : KvServer)
    → kv.dead ≡ false
    → Knows seen kv
    → value k (listen_apply_ch ops kv) ≡ model_run k (value k kv) (distinct seen ops)
unfolding listen_apply_ch model_run distinct
value-listen_from k [] seen kv live h = refl
value-listen_from k (op ∷ ops) seen kv live h = elim (Bool-cases (is_seen seen op.id op.client)) [
  | inl old ↦
      ap (value k) (listen_apply_ch-live op ops kv live)
      ∙ (value-listen_from k ops seen (apply_op op kv) (apply_op-dead op kv ∙ live)
            (Knows-again seen op kv h old)
          ∙ rw (old, value-apply_op k op kv, h op.id op.client, old) refl)
  | inr new ↦
      ap (value k) (listen_apply_ch-live op ops kv live)
      ∙ (value-listen_from k ops (op ∷ seen) (apply_op op kv) (apply_op-dead op kv ∙ live)
            (Knows-apply_op seen op kv h)
          ∙ rw
              (
                new,
                value-apply_op k op kv,
                h op.id op.client,
                new,
                written-model_step k (value k kv) op,
              )
              refl)
]

-- For a server that StartKVServer made and every sequence of committed operations, the value
-- under each key is the one that the sequential model of that key reaches, from its initial
-- state, on the first occurrence of every (client, id) among the operations.
pub value-listen_apply_ch :
    (k : String) (me : ℕ) (m : ℤ) (ops : List Op)
    → value k (listen_apply_ch ops (start_kv_server me m)) ≡ model_run k init (distinct [] ops)
unfolding start_kv_server init get_or lookup exist_id
value-listen_apply_ch k me m ops =
    value-listen_from k ops [] (start_kv_server me m) refl (λ i c. refl)

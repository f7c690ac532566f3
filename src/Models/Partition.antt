-- ===== src/Models/Partition.antt =====
-- `KvModel.Partition` (src/models/kv.go): a history, cut into one history for each key. Go ranges
-- over a map in any order, and the keys are then sorted, so the order of the map does not matter.
pub mod Groups
pub mod Examples
use Prim.Native.String.{compare}
use Prim.Native.Nat.{Ordering}
use sharded_raft_key_value_s.Prelude.{
  Bool, true, false, List, [], ◌∷◌, ◌++◌, map, String, string_eq, if◌then◌else◌,
}
use sharded_raft_key_value_s.Prelude.Int.{ℤ}
use sharded_raft_key_value_s.Prelude.Dict.{Dict, insert, get_or}
use sharded_raft_key_value_s.Models.{KvInput, KvOutput}

-- `porcupine.Operation`
pub record Operation : Type 0 where
  pub client_id : ℤ
  pub input : KvInput
  pub call : ℤ
  pub output : KvOutput
  pub return_time : ℤ

-- the first loop
unfoldable pub collect :
    List Operation → Dict String (List Operation) → Dict String (List Operation)
collect [] m = m
collect (v ∷ history) m = collect history (insert v.input.key (get_or v.input.key [] m ++ v ∷ []) m)

-- the second loop
abbrev pub keys_of : {V : Type 0} → Dict String V → List String
keys_of [] = []
keys_of ((k, v) ∷ m) = k ∷ keys_of m

-- `sort.Strings`
abbrev pub is_after : String → String → Bool
is_after s t = elim (compare s t) [ Ordering.gt ↦ true | _ ↦ false ]

unfoldable pub insert_sorted : String → List String → List String
insert_sorted s [] = s ∷ []
insert_sorted s (t ∷ ts) =
    let rest = insert_sorted s ts in if is_after s t then t ∷ rest else s ∷ t ∷ ts

unfoldable pub sort_strings : List String → List String
unfolding insert_sorted
sort_strings [] = []
sort_strings (s ∷ ss) = insert_sorted s (sort_strings ss)

unfoldable pub partition : List Operation → List (List Operation)
unfolding collect sort_strings
partition history =
    let m = collect history [] in map (λ k. get_or k [] m) (sort_strings (keys_of m))

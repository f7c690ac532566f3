-- ===== src/Labgob/Examples.antt =====
-- A list of nodes that refers to itself: `type Node struct { Next *Node; value int }`.
use Prim.Native.Char.{Char}
use Prim.Native.String.{[] as empty, ◌∷◌ as ◌∷ₛ◌}
use text.Mathlib.Text.{starts_with}
use sharded_raft_key_value_s.Prelude.{
  refl, ℕ, zero, suc, ◌+◌, ◌≡◌, ◌↔◌, ◌⊎◌, Bool, true, false, some, [], ◌∷◌, arith,
}
use sharded_raft_key_value_s.Labgob.{Kind, struct, elem, basic, Checker, check_type}
use sharded_raft_key_value_s.Labgob.Defaults.{
  Value, scalar, pointer, Fields, field, check_default_at, check_default,
}
use sharded_raft_key_value_s.Labgob.Marks.{Reach, faults_between}
use sharded_raft_key_value_s.Labgob.Walks.{AreBelow, IsClosed, check_type-Reach}

abbrev is_n : Char → Bool
is_n c = starts_with (c ∷ₛ empty) "N"

abbrev node_types : ℕ → Kind
node_types zero = struct (("Next", 1) ∷ ("value", 2) ∷ [])
node_types (suc zero) = elem 0
node_types (suc (suc n)) = basic

abbrev fresh : Checker
fresh = record { checked = λ u. false; error_count = 0 }

node_types-AreBelow : AreBelow node_types 3
node_types-AreBelow zero h = (omega arith, (omega arith, tt))
node_types-AreBelow (suc zero) h = (omega arith, tt)
node_types-AreBelow (suc (suc n)) h = tt

fresh-IsClosed : IsClosed node_types fresh
fresh-IsClosed u e = cc

check_type-Reach_example :
    (g' : Checker) × (check_type is_n node_types 4 1 fresh ≡ some g')
    × IsClosed node_types g'
    × ((u : ℕ) → (g'.checked u ≡ true) ↔ ((false ≡ true) ⊎ Reach node_types 1 u))
    × (g'.error_count ≡ 0 + faults_between is_n node_types 3 fresh.checked g'.checked)
check_type-Reach_example =
    check_type-Reach is_n node_types 3 4 1 fresh node_types-AreBelow (omega arith) (omega arith)
      fresh-IsClosed

-- a used reply of two fields, behind a pointer
abbrev used : Value
used = pointer (Value.struct (field (scalar false) (field (scalar true) Fields.none)))

used_count : check_default used 0 ≡ 1
unfolding check_default check_default_at
used_count = refl

-- what lies deeper is not looked at
deep_count : check_default (pointer (pointer used)) 0 ≡ 0
unfolding check_default check_default_at
deep_count = refl

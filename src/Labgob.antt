-- ===== src/Labgob.antt =====
-- src/labgob/labgob.go: the check of the types that are sent. A `reflect.Type` is a number, and
-- `types` gives its kind; `is_upper` stands for `unicode.IsUpper`. Types may refer to themselves.
-- What is printed is left out.
pub mod Defaults
pub mod Marks
pub mod Visits
pub mod Walks
mod Examples
use Prim.Native.Char.{Char}
use Prim.Native.String.{[] as empty, ◌∷◌ as ◌∷ₛ◌}
use sharded_raft_key_value_s.Prelude.{
  ℕ, zero, suc, ◌+◌, Bool, true, false, Option, none, some, List, [], ◌∷◌, String, ◌==◌,
  if◌then◌else◌,
}

-- a kind, with the types it is made of; `elem` is a slice, an array or a pointer
pub data Kind : Type 0 where
  struct : List (String × ℕ) → Kind
  elem : ℕ → Kind
  map : ℕ → ℕ → Kind
  basic : Kind

-- the package's variables `checked` and `ErrorCount`
pub record Checker : Type 0 where
  pub checked : ℕ → Bool
  pub error_count : ℕ

abbrev pub mark : ℕ → Checker → Checker
mark t g = record g { checked = λ u. if u == t then true else g.checked u }

module _ (is_upper : Char → Bool) where
  -- `unicode.IsUpper` of the first character
  abbrev pub is_capital : String → Bool
  is_capital empty = false
  is_capital (c ∷ₛ name) = is_upper c

  abbrev pub complain : String → Checker → Checker
  complain name g = record g {
    error_count = if is_capital name then g.error_count else g.error_count + 1;
  }

  -- the loop over the fields, where `visit` checks a type
  unfoldable pub check_fields :
      (ℕ → Checker → Option Checker) → List (String × ℕ) → Checker → Option Checker
  check_fields visit [] g = some g
  check_fields visit ((name, t) ∷ fields) g = elim (visit t (complain name g)) [
    | some g ↦ check_fields visit fields g
    | none ↦ none
  ]

  -- the switch
  unfoldable pub check_kind : (ℕ → Checker → Option Checker) → Kind → Checker → Option Checker
  check_kind visit (struct fields) g = check_fields visit fields g
  check_kind visit (elem t) g = visit t g
  check_kind visit (map key t) g = elim (visit t g) [ some g ↦ visit key g | none ↦ none ]
  check_kind visit basic g = some g

  -- `checkType`; `none` is the fuel that runs out
  unfoldable pub check_type : (ℕ → Kind) → ℕ → ℕ → Checker → Option Checker
  check_type types zero t g = none
  check_type types (suc n) t g = elim (g.checked t) [
    | true ↦ some g
    | false ↦ check_kind (check_type types n) (types t) (mark t g)
  ]

-- ===== src/Prelude/Dict.antt =====
-- Go maps as association lists. A read of a missing key gives the zero value: `get_or`.
use mathlib.Core.Path.{◌≡◌, refl}
use mathlib.Core.Bool.{Bool, true, false}
use mathlib.Core.Option.{Option, none, some}
use mathlib.Core.List.{List, [], ◌∷◌}
use native.Mathlib.Omega.{arith}
use sharded_raft_key_value_s.Prelude.Tests.{if◌then◌else◌, Eq, ◌=?◌}

abbrev pub Dict : Type 0 → Type 0 → Type 0
Dict K V = List (K × V)

module _ {V : Type 0} where
  abbrev pub is_some : Option V → Bool
  is_some none = false
  is_some (some _) = true

  abbrev pub or_default : V → Option V → V
  or_default d none = d
  or_default d (some v) = v

module _ {K V : Type 0} ⦃e : Eq K⦄ where
  -- `v, ok := m[k]`
  unfoldable pub lookup : K → Dict K V → Option V
  lookup k [] = none
  lookup k ((j, v) ∷ m) = if j =? k then some v else lookup k m

  -- `m[k] = v`
  unfoldable pub insert : K → V → Dict K V → Dict K V
  insert k v [] = (k, v) ∷ []
  insert k v ((j, w) ∷ m) = if j =? k then (k, v) ∷ m else (j, w) ∷ insert k v m

  -- `_, ok := m[k]`
  unfoldable pub contains : K → Dict K V → Bool
  contains k m = is_some (lookup k m)

  -- `m[k]`, where the zero value of the type is `d`
  unfoldable pub get_or : K → V → Dict K V → V
  get_or k d m = or_default d (lookup k m)

  pub lookup-insert :
      (k j : K) (v : V) (m : Dict K V)
      → lookup j (insert k v m) ≡ (if k =? j then some v else lookup j m)
  unfolding lookup insert
  lookup-insert k j v [] = refl
  lookup-insert k j v ((i, w) ∷ m) =
      ground (arith, e.beq_iff k j, e.beq_iff i k, e.beq_iff i j, lookup-insert k j v m)

  pub get_or-insert :
      (k j : K) (v d : V) (m : Dict K V)
      → get_or j d (insert k v m) ≡ (if k =? j then v else get_or j d m)
  unfolding get_or
  get_or-insert k j v d m = ground (arith, lookup-insert k j v m)

  pub contains-insert :
      (k j : K) (v : V) (m : Dict K V)
      → contains j (insert k v m) ≡ (if k =? j then true else contains j m)
  unfolding contains
  contains-insert k j v m = ground (arith, lookup-insert k j v m)

pub =?_refl : {K : Type 0} ⦃e : Eq K⦄ (k : K) → (k =? k) ≡ true
=?_refl ⦃e⦄ k = (e.beq_iff k k).1 refl

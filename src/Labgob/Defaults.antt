-- ===== src/Labgob/Defaults.antt =====
-- `checkDefault` of src/labgob/labgob.go: how many parts of a variable it complains of. Of the
-- package's variables it changes `ErrorCount`. What is printed is left out.
use sharded_raft_key_value_s.Prelude.{
  ℕ, ◌+◌, ◌≡◌, ◌≤◌, ◌<◌, ◌↔◌, ◌⊎◌, Bool, false, ltb, arith, if◌then◌else◌, Bool-cases,
}

-- a value as reflection sees it; `scalar` is a Boolean, a number or a text, with whether it
-- is the zero value, and `other` a value of another kind
mutual
  pub data Value : Type 0 where
    struct : Fields → Value
    nil_pointer : Value
    pointer : Value → Value
    scalar : Bool → Value
    other : Value

  pub data Fields : Type 0 where
    none : Fields
    field : Value → Fields → Fields

-- `checkDefault1`, on `ErrorCount`
unfoldable mutual
  pub check_default_at : ℕ → Value → ℕ → ℕ
  check_default_at depth (struct fields) count =
      let below = check_default_fields (depth + 1) fields count in
      if ltb 3 depth then count else below
  check_default_at depth nil_pointer count = count
  check_default_at depth (pointer value) count =
      let below = check_default_at (depth + 1) value count in if ltb 3 depth then count else below
  check_default_at depth (scalar default) count =
      if ltb 3 depth then count else if default then count else count + 1
  check_default_at depth other count = count

  pub check_default_fields : ℕ → Fields → ℕ → ℕ
  check_default_fields depth none count = count
  check_default_fields depth (field value fields) count =
      check_default_fields depth fields (check_default_at depth value count)

-- `checkDefault`
unfoldable pub check_default : Value → ℕ → ℕ
check_default value count = check_default_at 1 value count

-- some scalar at most three levels down is not the zero value
abbrev mutual
  pub IsStained : ℕ → Value → Type 0
  IsStained depth (struct fields) = (depth ≤ 3) × AreStained (depth + 1) fields
  IsStained depth nil_pointer = ⊥
  IsStained depth (pointer value) = (depth ≤ 3) × IsStained (depth + 1) value
  IsStained depth (scalar default) = (depth ≤ 3) × (default ≡ false)
  IsStained depth other = ⊥

  pub AreStained : ℕ → Fields → Type 0
  AreStained depth none = ⊥
  AreStained depth (field value fields) = IsStained depth value ⊎ AreStained depth fields

mutual
  unfolding check_default_at check_default_fields

  check_default_at-le :
      (depth : ℕ) (value : Value) (count : ℕ) → count ≤ check_default_at depth value count
  check_default_at-le depth (struct fields) count =
      ground (arith, check_default_fields-le (depth + 1) fields count)
  check_default_at-le depth nil_pointer count = omega arith
  check_default_at-le depth (pointer value) count =
      ground (arith, check_default_at-le (depth + 1) value count)
  check_default_at-le depth (scalar default) count = ground (arith, Bool-cases default)
  check_default_at-le depth other count = omega arith

  check_default_fields-le :
      (depth : ℕ) (fields : Fields) (count : ℕ) → count ≤ check_default_fields depth fields count
  check_default_fields-le depth none count = omega arith
  check_default_fields-le depth (field value fields) count =
      let now = check_default_at-le depth value count in
      let later = check_default_fields-le depth fields (check_default_at depth value count) in
      omega arith

mutual
  unfolding check_default_at check_default_fields

  at-IsStained :
      (depth : ℕ) (value : Value) (count : ℕ)
      → (count < check_default_at depth value count) ↔ IsStained depth value
  at-IsStained depth (struct fields) count =
      ground (arith, fields-AreStained (depth + 1) fields count)
  at-IsStained depth nil_pointer count = (λ h. omega arith, λ h. absurd h)
  at-IsStained depth (pointer value) count = ground (arith, at-IsStained (depth + 1) value count)
  at-IsStained depth (scalar default) count = ground (arith, Bool-cases default)
  at-IsStained depth other count = (λ h. omega arith, λ h. absurd h)

  fields-AreStained :
      (depth : ℕ) (fields : Fields) (count : ℕ)
      → (count < check_default_fields depth fields count) ↔ AreStained depth fields
  fields-AreStained depth none count = (λ h. omega arith, λ h. absurd h)
  fields-AreStained depth (field value fields) count =
      let first = at-IsStained depth value count in
      let now = check_default_at-le depth value count in
      let next = check_default_at depth value count in
      let others = fields-AreStained depth fields next in
      let later = check_default_fields-le depth fields next in
      ground (arith, first, others, now, later)

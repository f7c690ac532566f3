-- ===== src/Labgob/Marks.antt =====
-- What `checkType` of src/labgob/labgob.go marks, and of how many fields it complains.
use Prim.Native.Char.{Char}
use mathlib.Core.List.{Memᴰ}
use sharded_raft_key_value_s.Prelude.{
  ℕ, zero, suc, ◌+◌, ◌≡◌, ◌≤◌, ◌<◌, refl, ap, inl, inr, Bool, true, false, not, ◌&&◌, List, [], ◌∷◌,
  String, ◌==◌, if◌then◌else◌, arith, Bool-cases,
}
use sharded_raft_key_value_s.Labgob.{Kind, struct, elem, map, basic, Checker, mark, is_capital}

-- the types that a kind refers to
abbrev pub field_types : List (String × ℕ) → List ℕ
field_types [] = []
field_types ((name, t) ∷ fields) = t ∷ field_types fields

abbrev pub parts : Kind → List ℕ
parts (struct fields) = field_types fields
parts (elem t) = t ∷ []
parts (map key t) = t ∷ key ∷ []
parts basic = []

-- the types below `m` that are not marked
abbrev pub unmarked : ℕ → (ℕ → Bool) → ℕ
unmarked zero checked = 0
unmarked (suc m) checked = (if checked m then 0 else 1) + unmarked m checked

abbrev pub Keeps : (ℕ → Bool) → (ℕ → Bool) → Type 0
Keeps old new = (u : ℕ) → old u ≡ true → new u ≡ true

pub unmarked-Keeps : (m : ℕ) (old new : ℕ → Bool) → Keeps old new → unmarked m new ≤ unmarked m old
unmarked-Keeps zero old new k = omega arith
unmarked-Keeps (suc m) old new k =
    ground (arith, unmarked-Keeps m old new k, k m, Bool-cases (old m), Bool-cases (new m))

mark-beyond : (m t : ℕ) (g : Checker) → m ≤ t → unmarked m (mark t g).checked ≡ unmarked m g.checked
mark-beyond zero t g h = refl
mark-beyond (suc m) t g h = ground (arith, mark-beyond m t g)

pub unmarked-mark :
    (m t : ℕ) (g : Checker)
    → t < m
    → g.checked t ≡ false
    → suc (unmarked m (mark t g).checked) ≡ unmarked m g.checked
unmarked-mark zero t g h new = absurd (omega arith)
unmarked-mark (suc m) t g h new = elim (Bool-cases (m == t)) [
  | inl e ↦ ground (arith, mark-beyond m t g)
  | inr e ↦ ground (arith, unmarked-mark m t g)
]

-- `u` is among the parts of parts of `t`
pub data Reach (types : ℕ → Kind) : ℕ → ℕ → Type 0 where
  here : (t : ℕ) → Reach types t t
  within : (t v u : ℕ) → Memᴰ v (parts (types t)) → Reach types v u → Reach types t u

module _ (is_upper : Char → Bool) where
  -- the fields whose name begins with no capital
  abbrev pub lower_fields : List (String × ℕ) → ℕ
  lower_fields [] = 0
  lower_fields ((name, t) ∷ fields) =
      (if is_capital is_upper name then 0 else 1) + lower_fields fields

  abbrev pub faults : Kind → ℕ
  faults (struct fields) = lower_fields fields
  faults (elem t) = 0
  faults (map key t) = 0
  faults basic = 0

  module _ (types : ℕ → Kind) where
    -- the faults of the types below `m` that are marked in between
    abbrev pub faults_between : ℕ → (ℕ → Bool) → (ℕ → Bool) → ℕ
    faults_between zero old new = 0
    faults_between (suc m) old new =
        (if not (old m) && new m then faults (types m) else 0) + faults_between m old new

    pub faults_between-same : (m : ℕ) (now : ℕ → Bool) → faults_between m now now ≡ 0
    faults_between-same zero now = refl
    faults_between-same (suc m) now = ground (arith, faults_between-same m now, Bool-cases (now m))

    pub faults_between_trans :
        (m : ℕ) (old now new : ℕ → Bool)
        → Keeps old now
        → Keeps now new
        → faults_between m old new ≡ faults_between m old now + faults_between m now new
    faults_between_trans zero old now new k l = refl
    faults_between_trans (suc m) old now new k l = ground (
      arith,
      faults_between_trans m old now new k l,
      k m,
      l m,
      Bool-cases (old m),
      Bool-cases (now m),
      Bool-cases (new m),
    )

    faults_between-beyond :
        (m t : ℕ) (g : Checker) → m ≤ t → faults_between m g.checked (mark t g).checked ≡ 0
    faults_between-beyond zero t g h = refl
    faults_between-beyond (suc m) t g h =
        ground (arith, faults_between-beyond m t g, Bool-cases (g.checked m))

    pub faults_between-mark :
        (m t : ℕ) (g : Checker)
        → t < m
        → g.checked t ≡ false
        → faults_between m g.checked (mark t g).checked ≡ faults (types t)
    faults_between-mark zero t g h new = absurd (omega arith)
    faults_between-mark (suc m) t g h new = elim (Bool-cases (m == t)) [
      | inl e ↦
          let same : m ≡ t = ground arith in
          ground (arith, faults_between-beyond m t g, ap (λ u. faults (types u)) same)
      | inr e ↦ ground (arith, faults_between-mark m t g, Bool-cases (g.checked m))
    ]

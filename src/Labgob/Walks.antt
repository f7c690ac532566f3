-- ===== src/Labgob/Walks.antt =====
-- `checkType` of src/labgob/labgob.go as a whole: it ends, also on types that refer to themselves.
use Prim.Native.Char.{Char}
use mathlib.Core.List.Memᴰ.{eq_of_singleton}
use sharded_raft_key_value_s.Prelude.{
  ℕ, zero, suc, ◌+◌, ◌≡◌, ◌≤◌, ◌<◌, ◌↔◌, refl, subst, ◌⊎◌, inl, inr, Bool, true, Option, some, List,
  [], ◌∷◌, String, arith, All, Bool-cases,
}
use sharded_raft_key_value_s.Labgob.{
  Kind, struct, elem, map, basic, Checker, mark, complain, check_fields, check_kind, check_type,
}
use sharded_raft_key_value_s.Labgob.Marks.{
  field_types, parts, unmarked, unmarked-Keeps, unmarked-mark, Reach, here, within, lower_fields,
  faults, faults_between,
}
use sharded_raft_key_value_s.Labgob.Visits.{
  Visits, All-map, All-Memᴰ, Visits-complain, Visits-none, Visits-seen, Visits-append, Visits-mark,
}

-- what is marked refers to what is marked
abbrev pub IsClosed : (ℕ → Kind) → Checker → Type 0
IsClosed types g = (u : ℕ) → g.checked u ≡ true → All (λ v. g.checked v ≡ true) (parts (types u))

-- the types below `m` refer to types below `m` only
abbrev pub AreBelow : (ℕ → Kind) → ℕ → Type 0
AreBelow types m = (t : ℕ) → t < m → All (λ u. u < m) (parts (types t))

unmarked_le : (k : ℕ) (checked : ℕ → Bool) → unmarked k checked ≤ k
unmarked_le zero checked = omega arith
unmarked_le (suc k) checked = ground (arith, unmarked_le k checked, Bool-cases (checked k))

module _ (is_upper : Char → Bool) (types : ℕ → Kind) (m : ℕ) where
  abbrev Walks : (Checker → Option Checker) → List ℕ → ℕ → Checker → Type 0
  Walks walk roots extra g =
      (g' : Checker) × (walk g ≡ some g') × Visits is_upper types m roots extra g g'

  -- `visit` ends where at most `k` types are not marked
  abbrev Finishes : (ℕ → Checker → Option Checker) → ℕ → Type 0
  Finishes visit k =
      (t : ℕ) (g : Checker) → t < m → unmarked m g.checked ≤ k → Walks (visit t) (t ∷ []) 0 g

  module _ (visit : ℕ → Checker → Option Checker) (k : ℕ) (f : Finishes visit k) where
    check_fields-Walks :
        (fields : List (String × ℕ)) (g : Checker)
        → All (λ u. u < m) (field_types fields)
        → unmarked m g.checked ≤ k
        → Walks
            (check_fields is_upper visit fields)
            (field_types fields)
            (lower_fields is_upper fields)
            g
    unfolding check_fields
    check_fields-Walks [] g small few = (g, refl, Visits-none is_upper types m g)
    check_fields-Walks ((name, t) ∷ fields) g (h, hs) few =
        let c = Visits-complain is_upper types m name g in
        let (now, e, v) = f t (complain is_upper name g) h few in
        let few' = unmarked-Keeps m g.checked now.checked v.kept in
        let (g', e', w) = check_fields-Walks fields now hs (omega arith) in
        (
          g',
          rw (check_fields, e, e') refl,
          subst (λ extra. Visits is_upper types m (t ∷ field_types fields) extra g g') (omega arith)
              (Visits-append is_upper types m c (Visits-append is_upper types m v w)),
        )

    check_kind-Walks :
        (kind : Kind) (g : Checker)
        → All (λ u. u < m) (parts kind)
        → unmarked m g.checked ≤ k
        → Walks (check_kind is_upper visit kind) (parts kind) (faults is_upper kind) g
    unfolding check_kind
    check_kind-Walks (struct fields) g small few = check_fields-Walks fields g small few
    check_kind-Walks (elem t) g (h, _) few = f t g h few
    check_kind-Walks (map key t) g (h, (h', _)) few =
        let (now, e, v) = f t g h few in
        let few' = unmarked-Keeps m g.checked now.checked v.kept in
        let (g', e', w) = f key now h' (omega arith) in
        (g', rw (check_kind, e, e') refl, Visits-append is_upper types m v w)
    check_kind-Walks basic g small few = (g, refl, Visits-none is_upper types m g)

  module _ (below : AreBelow types m) where
    check_type-Walks :
        (n t : ℕ) (g : Checker)
        → t < m
        → unmarked m g.checked < n
        → Walks (check_type is_upper types n t) (t ∷ []) 0 g
    unfolding check_type
    check_type-Walks zero t g small few = absurd (omega arith)
    check_type-Walks (suc n) t g small few = elim (Bool-cases (g.checked t)) [
      | inl seen ↦ (g, rw (check_type, seen) refl, Visits-seen is_upper types m t g seen)
      | inr new ↦
          let fewer = unmarked-mark m t g small new in
          let k = unmarked m (mark t g).checked in
          let f : Finishes (check_type is_upper types n) k =
            λ u now h few_now. check_type-Walks n u now h (omega arith) in
          let (g', e, v) =
            check_kind-Walks (check_type is_upper types n) k f (types t) (mark t g) (below t small)
              (omega arith) in
          (g', rw (check_type, new) e, Visits-mark is_upper types m t g g' small new v)
    ]

  IsClosed-Reach :
      (g : Checker) (t u : ℕ)
      → IsClosed types g
      → Reach types t u
      → g.checked t ≡ true
      → g.checked u ≡ true
  IsClosed-Reach g t u closed (here _) e = e
  IsClosed-Reach g t u closed (within _ v _ part r) e =
      IsClosed-Reach g v u closed r
        (All-Memᴰ (λ v. g.checked v ≡ true) (parts (types t)) v (closed t e) part)

  Visits-IsClosed :
      (t : ℕ) (g g' : Checker)
      → IsClosed types g
      → Visits is_upper types m (t ∷ []) 0 g g'
      → IsClosed types g'
  Visits-IsClosed t g g' closed v u e = elim (Bool-cases (g.checked u)) [
    | inl seen ↦ All-map (parts (types u)) (λ v' q. v.kept v' q) (closed u seen)
    | inr new ↦ v.closed u new e
  ]

  Visits-Reach :
      (t : ℕ) (g g' : Checker)
      → IsClosed types g
      → Visits is_upper types m (t ∷ []) 0 g g'
      → (u : ℕ) → (g'.checked u ≡ true) ↔ ((g.checked u ≡ true) ⊎ Reach types t u)
  Visits-Reach t g g' closed v u = (
    λ e. elim (Bool-cases (g.checked u)) [
      | inl seen ↦ inl seen
      | inr new ↦
          let (root, at, r) = v.reached u new e in
          inr (subst (λ w. Reach types w u) (eq_of_singleton at) r)
    ],
    λ o. elim o [
      | inl seen ↦ v.kept u seen
      | inr r ↦ IsClosed-Reach g' t u (Visits-IsClosed t g g' closed v) r v.marked.0
    ],
  )

  -- On m types that refer to each other in any way, themselves included, checkType ends within a
  -- depth of m + 1 calls. If what the package has marked before refers to what is marked only, so
  -- it is afterwards, a type is then marked exactly if it was before or the checked type reaches
  -- it, and ErrorCount has grown by the fields of the types marked meanwhile whose names begin
  -- with no capital.
  pub check_type-Reach :
      (n t : ℕ) (g : Checker)
      → AreBelow types m
      → t < m
      → m < n
      → IsClosed types g
      → (g' : Checker) × (check_type is_upper types n t g ≡ some g')
        × IsClosed types g'
        × ((u : ℕ) → (g'.checked u ≡ true) ↔ ((g.checked u ≡ true) ⊎ Reach types t u))
        × (g'.error_count ≡ g.error_count + faults_between is_upper types m g.checked g'.checked)
  check_type-Reach n t g below small enough closed =
      let few = unmarked_le m g.checked in
      let (g', e, v) = check_type-Walks below n t g small (omega arith) in
      (
        g',
        e,
        Visits-IsClosed t g g' closed v,
        Visits-Reach t g g' closed v,
        omega (arith, v.counted),
      )

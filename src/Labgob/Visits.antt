-- ===== src/Labgob/Visits.antt =====
-- A walk over the types, as a part of `checkType` makes it (src/labgob/labgob.go).
use Prim.Native.Char.{Char}
use mathlib.Core.List.{Memᴰ}
use mathlib.Core.List.Memᴰ.{head, tail, append_left, append_right}
use sharded_raft_key_value_s.Prelude.{
  ℕ, ◌+◌, ◌≡◌, ◌<◌, refl, sym, subst, inl, inr, Bool, true, false, List, [], ◌∷◌, ◌++◌, String,
  arith, All, Bool-cases, ◌==◌, if◌then◌else◌,
}
use sharded_raft_key_value_s.Labgob.{Kind, Checker, mark, complain, is_capital}
use sharded_raft_key_value_s.Labgob.Marks.{
  parts, Keeps, Reach, here, within, faults, faults_between, faults_between-same,
  faults_between_trans, faults_between-mark,
}

All-append : (P : ℕ → Type 0) (xs ys : List ℕ) → All P xs → All P ys → All P (xs ++ ys)
All-append P [] ys p q = q
All-append P (x ∷ xs) ys (p, ps) q = (p, All-append P xs ys ps q)

pub All-map : {P Q : ℕ → Type 0} (xs : List ℕ) → ((x : ℕ) → P x → Q x) → All P xs → All Q xs
All-map [] f p = tt
All-map (x ∷ xs) f (p, ps) = (f x p, All-map xs f ps)

pub All-Memᴰ : (P : ℕ → Type 0) (xs : List ℕ) (a : ℕ) → All P xs → Memᴰ a xs → P a
All-Memᴰ P [] a p h = elim h [ ]
All-Memᴰ P (x ∷ xs) a (p, ps) (head e) = subst P (sym e) p
All-Memᴰ P (x ∷ xs) a (p, ps) (tail h) = All-Memᴰ P xs a ps h

module _ (is_upper : Char → Bool) (types : ℕ → Kind) (m : ℕ) where
  -- a walk from `roots` that takes the package from `g` to `g'`, and complains of `extra` fields
  -- besides those of the types that it marks
  pub record Visits (roots : List ℕ) (extra : ℕ) (g g' : Checker) : Type 0 where
    pub kept : Keeps g.checked g'.checked
    pub marked : All (λ t. g'.checked t ≡ true) roots
    pub closed :
        (u : ℕ)
        → g.checked u ≡ false
        → g'.checked u ≡ true
        → All (λ v. g'.checked v ≡ true) (parts (types u))
    pub reached :
        (u : ℕ)
        → g.checked u ≡ false
        → g'.checked u ≡ true
        → (t : ℕ) × Memᴰ t roots × Reach types t u
    pub counted :
        g'.error_count
        ≡ g.error_count + extra + faults_between is_upper types m g.checked g'.checked

  pub Visits-complain :
      (name : String) (g : Checker)
      → Visits [] (if is_capital is_upper name then 0 else 1) g (complain is_upper name g)
  Visits-complain name g = record {
    kept = λ u e. e;
    marked = tt;
    closed = λ u e f. cc;
    reached = λ u e f. cc;
    counted = ground (
      arith,
      faults_between-same is_upper types m g.checked,
      Bool-cases (is_capital is_upper name),
    );
  }

  pub Visits-none : (g : Checker) → Visits [] 0 g g
  Visits-none g = record {
    kept = λ u e. e;
    marked = tt;
    closed = λ u e f. cc;
    reached = λ u e f. cc;
    counted = omega (arith, faults_between-same is_upper types m g.checked);
  }

  pub Visits-seen : (t : ℕ) (g : Checker) → g.checked t ≡ true → Visits (t ∷ []) 0 g g
  Visits-seen t g h = record {
    kept = λ u e. e;
    marked = (h, tt);
    closed = λ u e f. cc;
    reached = λ u e f. cc;
    counted = omega (arith, faults_between-same is_upper types m g.checked);
  }

  pub Visits-append :
      {xs ys : List ℕ} {a b : ℕ} {g now g' : Checker}
      → Visits xs a g now
      → Visits ys b now g'
      → Visits (xs ++ ys) (a + b) g g'
  Visits-append {xs} {ys} {a} {b} {g} {now} {g'} v w = record {
    kept = λ u e. w.kept u (v.kept u e);
    marked =
        All-append (λ t. g'.checked t ≡ true) xs ys (All-map xs (λ t e. w.kept t e) v.marked)
          w.marked;
    closed = λ u e f. elim (Bool-cases (now.checked u)) [
      | inl n ↦ All-map (parts (types u)) (λ t q. w.kept t q) (v.closed u e n)
      | inr n ↦ w.closed u n f
    ];
    reached = λ u e f. elim (Bool-cases (now.checked u)) [
      | inl n ↦ let (t, root, r) = v.reached u e n in (t, append_left ys root, r)
      | inr n ↦ let (t, root, r) = w.reached u n f in (t, append_right xs root, r)
    ];
    counted = omega (
      arith,
      v.counted,
      w.counted,
      faults_between_trans is_upper types m g.checked now.checked g'.checked v.kept w.kept,
    );
  }

  mark-kept : (t : ℕ) (g : Checker) → Keeps g.checked (mark t g).checked
  mark-kept t g u e = ground arith

  pub Visits-mark :
      (t : ℕ) (g g' : Checker)
      → t < m
      → g.checked t ≡ false
      → Visits (parts (types t)) (faults is_upper (types t)) (mark t g) g'
      → Visits (t ∷ []) 0 g g'
  Visits-mark t g g' small new v =
      let self : (mark t g).checked t ≡ true = ground arith in
      record {
        kept = λ u e. v.kept u (mark-kept t g u e);
        marked = (v.kept t self, tt);
        closed = λ u e f. elim (Bool-cases (u == t)) [
          | inl s ↦
              let same : t ≡ u = ground arith in
              subst (λ u. All (λ v. g'.checked v ≡ true) (parts (types u))) same v.marked
          | inr s ↦ let fresh : (mark t g).checked u ≡ false = ground arith in v.closed u fresh f
        ];
        reached = λ u e f. elim (Bool-cases (u == t)) [
          | inl s ↦
              let same : t ≡ u = ground arith in (t, head refl, subst (Reach types t) same (here t))
          | inr s ↦
              let fresh : (mark t g).checked u ≡ false = ground arith in
              let (w, part, r) = v.reached u fresh f in (t, head refl, within t w u part r)
        ];
        counted = omega (
          arith,
          v.counted,
          faults_between-mark is_upper types m t g small new,
          faults_between_trans is_upper types m g.checked (mark t g).checked g'.checked
              (mark-kept t g) v.kept,
        );
      }

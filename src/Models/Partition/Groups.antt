-- ===== src/Models/Partition/Groups.antt =====
-- The groups that `KvModel.Partition` (src/models/kv.go) makes.
use mathlib.Core.List.{append_assoc, append-nil}
use sharded_raft_key_value_s.Prelude.{
  ℕ, ◌+◌, ◌≡◌, refl, sym, ap, ap₂, ◌∙◌, inl, inr, Bool, false, ◌||◌, List, [], ◌∷◌, ◌++◌, map,
  String, string_eq, ◌=?◌, arith, Bool-cases, if◌then◌else◌,
}
use sharded_raft_key_value_s.Prelude.Dict.{
  Dict, lookup, insert, contains, get_or, get_or-insert, contains-insert,
}
use sharded_raft_key_value_s.Models.Partition.{
  Operation, collect, keys_of, is_after, insert_sorted, sort_strings, partition,
}
use text.Mathlib.TextEquality.{eq_iff}

-- the operations on one key, in their order
abbrev pub of_key : String → List Operation → List Operation
of_key k [] = []
of_key k (v ∷ history) = if v.input.key =? k then v ∷ of_key k history else of_key k history

abbrev pub has_key : String → List Operation → Bool
has_key k [] = false
has_key k (v ∷ history) = v.input.key =? k || has_key k history

-- how often a key stands in a list
abbrev pub count : String → List String → ℕ
count k [] = 0
count k (s ∷ ss) = (if s =? k then 1 else 0) + count k ss

abbrev pub once : Bool → ℕ
once b = if b then 1 else 0

get_or-collect :
    (k : String) (history : List Operation) (m : Dict String (List Operation))
    → get_or k [] (collect history m) ≡ get_or k [] m ++ of_key k history
unfolding collect
get_or-collect k [] m = sym (append-nil (get_or k [] m))
get_or-collect k (v ∷ history) m =
    let j = v.input.key in
    let group = get_or j [] m ++ v ∷ [] in
    get_or-collect k history (insert j group m)
    ∙ ap (λ g. g ++ of_key k history) (get_or-insert j k group [] m)
    ∙ elim (Bool-cases (j =? k)) [
      | inl e ↦ rw e (
          ap (λ x. (get_or x [] m ++ v ∷ []) ++ of_key k history) ((eq_iff j k).0 e)
          ∙ append_assoc (get_or k [] m) (v ∷ []) (of_key k history))
      | inr e ↦ rw e refl
    ]

contains-collect :
    (k : String) (history : List Operation) (m : Dict String (List Operation))
    → contains k (collect history m) ≡ (contains k m || has_key k history)
unfolding collect
contains-collect k [] m = ground arith
contains-collect k (v ∷ history) m =
    let group = get_or v.input.key [] m ++ v ∷ [] in
    ground (
      arith,
      contains-collect k history (insert v.input.key group m),
      contains-insert v.input.key k group m,
    )

-- a map in which no key stands twice
abbrev Distinct : Dict String (List Operation) → Type 0
Distinct m = (k : String) → count k (keys_of m) ≡ once (contains k m)

count-insert :
    (k j : String) (g : List Operation) (m : Dict String (List Operation))
    → count k (keys_of (insert j g m))
      ≡ (if contains j m then 0 else once (j =? k)) + count k (keys_of m)
unfolding insert contains lookup
count-insert k j g [] = ground arith
count-insert k j g ((i, x) ∷ m) =
    ground (arith, count-insert k j g m, eq_iff i j, eq_iff j k, eq_iff i k)

Distinct-insert :
    (j : String) (g : List Operation) (m : Dict String (List Operation))
    → Distinct m
    → Distinct (insert j g m)
Distinct-insert j g m h k = ground (
  arith,
  count-insert k j g m,
  contains-insert j k g m,
  h k,
  eq_iff j k,
  λ (e : j ≡ k). ap (λ x. contains x m) e,
)

Distinct-collect :
    (history : List Operation) (m : Dict String (List Operation))
    → Distinct m
    → Distinct (collect history m)
unfolding collect
Distinct-collect [] m h = h
Distinct-collect (v ∷ history) m h =
    Distinct-collect history (insert v.input.key (get_or v.input.key [] m ++ v ∷ []) m)
      (Distinct-insert v.input.key _ m h)

count-insert_sorted :
    (k s : String) (ts : List String) → count k (insert_sorted s ts) ≡ once (s =? k) + count k ts
unfolding insert_sorted
count-insert_sorted k s [] = omega arith
count-insert_sorted k s (t ∷ ts) = elim (Bool-cases (is_after s t)) [
  | inl e ↦ rw e (omega (arith, count-insert_sorted k s ts))
  | inr e ↦ rw e (omega arith)
]

count-sort_strings : (k : String) (ss : List String) → count k (sort_strings ss) ≡ count k ss
unfolding sort_strings
count-sort_strings k [] = refl
count-sort_strings k (s ∷ ss) =
    omega (arith, count-insert_sorted k s (sort_strings ss), count-sort_strings k ss)

map-of_key :
    (history : List Operation) (ks : List String)
    → map (λ k. get_or k [] (collect history [])) ks ≡ map (λ k. of_key k history) ks
unfolding get_or lookup
map-of_key history [] = refl
map-of_key history (k ∷ ks) =
    ap₂ (λ g gs. g ∷ gs) (get_or-collect k history []) (map-of_key history ks)

-- The groups that Partition makes of a history are the operations of one key each, all of them
-- and in their order, and every key of the history has one group and no other key has one.
pub partition-of_key :
    (history : List Operation)
    → (ks : List String) × (partition history ≡ map (λ k. of_key k history) ks)
      × ((k : String) → count k ks ≡ once (has_key k history))
unfolding partition contains lookup
partition-of_key history =
    let m = collect history [] in
    (
      sort_strings (keys_of m),
      map-of_key history (sort_strings (keys_of m)),
      λ k.
          count-sort_strings k (keys_of m)
          ∙ Distinct-collect history [] (λ j. refl) k
          ∙ ap once (contains-collect k history []),
    )

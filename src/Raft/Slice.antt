-- ===== src/Raft/Slice.antt =====
-- Go slices with `int` positions: an index or a bound out of range panics.
use sharded_raft_key_value_s.Prelude.{
  List, [], ◌∷◌, Option, none, some, Outcome, ok, panicked, length, get_elem?, take, drop, leb,
  if◌then◌else◌,
}
use sharded_raft_key_value_s.Prelude.Int.{ℤ, pos, negsuc}

module _ {A : Type 0} where
  abbrev found : Option A → Outcome A
  found none = panicked
  found (some a) = ok a

  -- `xs[i]`
  unfoldable pub at : List A → ℤ → Outcome A
  at xs (pos i) = found (get_elem? xs i)
  at xs (negsuc i) = panicked

  -- `xs[:i]`. Go also accepts a bound between the length and the capacity; no caller passes one.
  unfoldable pub slice_to : List A → ℤ → Outcome (List A)
  slice_to xs (pos i) = if leb i (length xs) then ok (take i xs) else panicked
  slice_to xs (negsuc i) = panicked

  -- `xs[i:]`
  unfoldable pub slice_from : List A → ℤ → Outcome (List A)
  slice_from xs (pos i) = if leb i (length xs) then ok (drop i xs) else panicked
  slice_from xs (negsuc i) = panicked

  -- `xs[len(xs)-1]`, or `d` where `len(xs) == 0`
  unfoldable pub last_or : A → List A → A
  last_or d [] = d
  last_or d (x ∷ xs) = last_or x xs

-- ===== src/Raft/Replicate/Matches.antt =====
-- When two logs match, and what cutting them keeps.
use sharded_raft_key_value_s.Prelude.{
  ℕ, zero, suc, ◌≤◌, ◌≡◌, refl, sym, ap, ◌∙◌, nat_eq, Option, List, [], ◌∷◌, ◌++◌, arith, length,
  take, drop, length-take,
}
use sharded_raft_key_value_s.Raft.Types.{Entry}
use sharded_raft_key_value_s.Raft.Indexed.{entry_at, term_of, term_at}

module _ {C : Type 0} where
  -- Raft's log matching: two entries of one index and term stand behind the same entries.
  abbrev pub Matching : List (Entry C) → List (Entry C) → Type 0
  Matching xs ys =
      (n : ℕ) → n ≤ length xs → n ≤ length ys → term_at n xs ≡ term_at n ys → take n xs ≡ take n ys

  pub entry_at-take :
      (n m : ℕ) (log : List (Entry C)) → n ≤ m → entry_at n (take m log) ≡ entry_at n log
  entry_at-take zero m log h = refl
  entry_at-take (suc n) zero log h = absurd (omega arith)
  entry_at-take (suc n) (suc m) [] h = refl
  entry_at-take (suc zero) (suc m) (e ∷ log) h = refl
  entry_at-take (suc (suc n)) (suc m) (e ∷ log) h = entry_at-take (suc n) m log (omega arith)

  pub take-take : (n m : ℕ) (log : List (Entry C)) → n ≤ m → take n (take m log) ≡ take n log
  take-take zero m log h = refl
  take-take (suc n) zero log h = absurd (omega arith)
  take-take (suc n) (suc m) [] h = refl
  take-take (suc n) (suc m) (e ∷ log) h = ap (λ l. e ∷ l) (take-take n m log (omega arith))

  pub take-drop : (n : ℕ) (log : List (Entry C)) → take n log ++ drop n log ≡ log
  take-drop zero log = refl
  take-drop (suc n) [] = refl
  take-drop (suc n) (e ∷ log) = ap (λ l. e ∷ l) (take-drop n log)

  pub Matching-take : (m : ℕ) (xs ys : List (Entry C)) → Matching xs ys → Matching xs (take m ys)
  Matching-take m xs ys h n lx ly same =
      let short : n ≤ m = omega (arith, length-take m ys) in
      let kept : term_at n (take m ys) ≡ term_at n ys =
        ap (λ (o : Option (Entry C)). term_of o) (entry_at-take n m ys short) in
      h n lx (omega (arith, length-take m ys)) (same ∙ kept) ∙ sym (take-take n m ys short)

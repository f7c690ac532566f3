-- ===== src/Raft/Leader/Starting.antt =====
-- What `Start` of src/raft/raft.go answers.
use sharded_raft_key_value_s.Prelude.{
  ℕ, suc, ◌+◌, ◌≡◌, refl, ap, subst, ◌∙◌, ◌⊎◌, inl, inr, Bool, true, false, Option, some, List, [],
  ◌∷◌, ◌++◌, arith, ◌==◌, All, length, length-append, Bool-cases,
}
use sharded_raft_key_value_s.Prelude.Int.{ℤ, pos, minus_one, ◌≤ℤ◌}
use sharded_raft_key_value_s.Raft.Types.{leader}
use sharded_raft_key_value_s.Raft.Codec.{Codec}
use sharded_raft_key_value_s.Raft.Node.{Raft, persist}
use sharded_raft_key_value_s.Raft.Indexed.{IsIndexed, IsIndexed-append, index-get_last_log_entry}
use sharded_raft_key_value_s.Raft.Invariant.Leading.{proposed}
use sharded_raft_key_value_s.Raft.Leader.{
  is_leader_state, start, start_waits, start_result, start_wait, start_call,
}

module _ {C : Type 0} where
  -- the loop ends at the state `rf`: every test before went on
  pub record EndsAt (index : ℤ) (tests : List (ℕ × Raft C)) (heared_back : ℕ) (rf : Raft C)
      : Type 0 where
    pub before : List (ℕ × Raft C)
    pub later : List (ℕ × Raft C)
    pub split : tests ≡ before ++ (heared_back, rf) ∷ later
    pub waits : All (λ (p : ℕ × Raft C). start_waits p.0 index p.1 ≡ true) before
    pub ends :
        (heared_back ≡ rf.peer_number) ⊎ ((index ≤ℤ rf.commit_index) ⊎ (rf.is_leader ≡ false))

  waits-false :
      (heared_back : ℕ) (index : ℤ) (rf : Raft C)
      → start_waits heared_back index rf ≡ false
      → (heared_back ≡ rf.peer_number) ⊎ ((index ≤ℤ rf.commit_index) ⊎ (rf.is_leader ≡ false))
  unfolding start_waits
  waits-false heared_back index rf h = elim (Bool-cases rf.is_leader) [
    | inr e ↦ inr (inr e)
    | inl e ↦ elim (Bool-cases (heared_back == rf.peer_number)) [
      | inl q ↦ inl (ground arith)
      | inr q ↦ inr (inl (ground arith))
    ]
  ]

  start_wait-EndsAt :
      (index term : ℤ) (tests : List (ℕ × Raft C)) (answer : ℤ × ℤ × Bool)
      → start_wait index term tests ≡ some answer
      → (heared_back : ℕ) × (rf : Raft C) × EndsAt index tests heared_back rf
        × (answer ≡ start_result index term rf)
  unfolding start_wait
  start_wait-EndsAt index term [] answer h = cc
  start_wait-EndsAt index term ((heared_back, rf) ∷ tests) answer h =
      elim (Bool-cases (start_waits heared_back index rf)) [
        | inl e ↦
            let (h', rf', e', same) = start_wait-EndsAt index term tests answer (rw e at h) in
            (
              h',
              rf',
              record {
                before = (heared_back, rf) ∷ e'.before;
                later = e'.later;
                split = ap (λ l. (heared_back, rf) ∷ l) e'.split;
                waits = (e, e'.waits);
                ends = e'.ends;
              },
              same,
            )
        | inr e ↦
            let done : some (start_result index term rf) ≡ some answer = rw e at h in
            (
              heared_back,
              rf,
              record {
                before = [];
                later = tests;
                split = refl;
                waits = tt;
                ends = waits-false heared_back index rf e;
              },
              ground arith,
            )
      ]

module _ {C : Type 0} ⦃codec : Codec C⦄ where
  -- what `Start` has answered
  abbrev pub Answer : Raft C → Raft C → List (ℕ × Raft C) → ℤ × ℤ × Bool → Type 0
  Answer checked entered tests answer =
      (answer ≡ (minus_one, minus_one, false))
      ⊎ ((answer ≡ (pos (length entered.log + 1), entered.term, true))
          × (checked.state ≡ leader)
          × (heared_back : ℕ) × (rf : Raft C) × EndsAt (pos (length entered.log + 1)) tests
              heared_back rf
          × (rf.is_leader ≡ true))

  start-index :
      (command : Option C) (rf : Raft C)
      → IsIndexed 0 rf.log
      → ((start command rf).0 ≡ pos (length rf.log + 1)) × ((start command rf).1 ≡ rf.term)
  unfolding start persist
  start-index command rf w =
      let last = index-get_last_log_entry rf w in
      let entry = proposed command rf in
      let next : entry.index ≡ pos (suc (0 + length rf.log)) = ground arith in
      let indexed = IsIndexed-append 0 rf.log (entry ∷ []) w (next, tt) in
      (
        index-get_last_log_entry (record rf { log = rf.log ++ entry ∷ [] }) indexed
            ∙ ap pos (omega (arith, length-append rf.log (entry ∷ []))),
        refl,
      )

  -- On a numbered log, if Start returns: it answers (-1, -1, false), or the index behind the log
  -- it entered with, its term and true. In the second case the peer was a leader when it was
  -- asked and at the test that ended the wait, where all the other calls have come back or the
  -- entry's index is committed, and no test before had ended it.
  pub start_call-Answer :
      (command : Option C) (checked entered : Raft C) (tests : List (ℕ × Raft C))
      (answer : ℤ × ℤ × Bool)
      → IsIndexed 0 entered.log
      → start_call command checked entered tests ≡ some answer
      → Answer checked entered tests answer
  unfolding start_call start_result
  start_call-Answer command checked entered tests answer w h =
      let (index, term) = start-index command entered w in
      let no : ℤ × ℤ × Bool = (minus_one, minus_one, false) in
      elim (Bool-cases (is_leader_state checked.state)) [
        | inr e ↦ let refused : some no ≡ some answer = rw e at h in inl (ground arith)
        | inl e ↦
            let waited : start_wait (start command entered).0 (start command entered).1 tests
                ≡ some answer =
              rw e at h in
            let (heared_back, rf, ends, same) = start_wait-EndsAt _ _ tests answer waited in
            elim (Bool-cases rf.is_leader) [
              | inr l ↦ inl (same ∙ rw l refl)
              | inl l ↦ inr (
                same ∙ rw (l, index, term) refl,
                ground arith,
                heared_back,
                rf,
                subst (λ i. EndsAt i tests heared_back rf) index ends,
                l,
              )
            ]
      ]

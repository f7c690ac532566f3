-- ===== src/Raft/Invariant.antt =====
-- What every operation of a peer keeps: the shape of its log and of what it has handed over, and
-- what it may change of its term and its vote. The children prove it operation by operation.
pub mod Applying
pub mod Appending
pub mod Voting
pub mod Standing
pub mod Leading
pub mod Replicating
use sharded_raft_key_value_s.Prelude.{
  ℕ, zero, suc, ◌+◌, ◌≤◌, ◌≡◌, ◌≢◌, refl, ◌∙◌, Bool, true, List, [], ◌∷◌, ◌++◌, map, Outcome, ok,
  arith, All, length, take, drop,
}
use sharded_raft_key_value_s.Prelude.Int.{ℤ, pos, minus_one, ◌≤ℤ◌}
use sharded_raft_key_value_s.Raft.Types.{leader, ApplyMsg, Entry, AppendEntriesReply}
use sharded_raft_key_value_s.Raft.Codec.{Codec}
use sharded_raft_key_value_s.Raft.Node.{Raft, persist}
use sharded_raft_key_value_s.Raft.Handler.{set_last_term}
use sharded_raft_key_value_s.Raft.Indexed.{IsIndexed}

module _ {C : Type 0} where
  -- no entry is of a later term than `t`
  abbrev pub IsBounded : ℤ → List (Entry C) → Type 0
  IsBounded t log = All (λ e. e.term ≤ℤ t) log

  -- the messages are valid and carry the indices k + 1, k + 2, ...
  abbrev pub IsNumbered : ℕ → List (ApplyMsg C) → Type 0
  IsNumbered k [] = Unit
  IsNumbered k (m ∷ ms) =
      (m.command_index ≡ pos (suc k)) × (m.command_valid ≡ true) × IsNumbered (suc k) ms

  pub record IsValid (rf : Raft C) : Type 0 where
    pub indexed : IsIndexed 0 rf.log
    pub bounded : IsBounded rf.term rf.log
    pub numbered : IsNumbered 0 rf.apply_chan
    pub committed : pos 0 ≤ℤ rf.commit_index
    pub applied : rf.last_apply ≡ pos (length rf.apply_chan)
    pub leads : rf.state ≡ leader → rf.is_leader ≡ true

  -- the term never falls, a vote is never changed within a term, and the index stays
  pub record Advances (rf rf' : Raft C) : Type 0 where
    pub term_le : rf.term ≤ℤ rf'.term
    pub vote : rf'.term ≡ rf.term → rf.voted_for ≢ minus_one → rf'.voted_for ≡ rf.voted_for
    pub me_eq : rf'.me ≡ rf.me

  -- what only the log, the commit index and the messages differ by
  pub record SameRole (rf rf' : Raft C) : Type 0 where
    pub me_eq : rf'.me ≡ rf.me
    pub term_eq : rf'.term ≡ rf.term
    pub vote_eq : rf'.voted_for ≡ rf.voted_for
    pub state_eq : rf'.state ≡ rf.state
    pub is_leader_eq : rf'.is_leader ≡ rf.is_leader
    pub test_eq : rf'.test ≡ rf.test

  -- the same disk, term and vote
  pub record SameDisk (rf rf' : Raft C) : Type 0 where
    pub persister_eq : rf'.persister ≡ rf.persister
    pub file_eq : rf'.file ≡ rf.file
    pub test_eq : rf'.test ≡ rf.test
    pub me_eq : rf'.me ≡ rf.me
    pub term_eq : rf'.term ≡ rf.term
    pub vote_eq : rf'.voted_for ≡ rf.voted_for

  pub SameRole-refl : (rf : Raft C) → SameRole rf rf
  SameRole-refl rf = record {
    me_eq = refl;
    term_eq = refl;
    vote_eq = refl;
    state_eq = refl;
    is_leader_eq = refl;
    test_eq = refl;
  }

  pub SameRole-trans : {a b c : Raft C} → SameRole a b → SameRole b c → SameRole a c
  SameRole-trans p q = record {
    me_eq = q.me_eq ∙ p.me_eq;
    term_eq = q.term_eq ∙ p.term_eq;
    vote_eq = q.vote_eq ∙ p.vote_eq;
    state_eq = q.state_eq ∙ p.state_eq;
    is_leader_eq = q.is_leader_eq ∙ p.is_leader_eq;
    test_eq = q.test_eq ∙ p.test_eq;
  }

  -- what a job that returns leaves behind
  abbrev pub Done : Raft C → Outcome (AppendEntriesReply × Raft C) → Type 0
  Done rf o =
      (reply : AppendEntriesReply) × (rf' : Raft C) × (o ≡ ok (reply, rf'))
      × IsValid rf'
      × SameRole rf rf'

  pub IsBounded-mono : (t u : ℤ) (log : List (Entry C)) → t ≤ℤ u → IsBounded t log → IsBounded u log
  IsBounded-mono t u [] h b = tt
  IsBounded-mono t u (e ∷ log) h b = (omega arith, IsBounded-mono t u log h b.1)

  pub IsBounded-append :
      (t : ℤ) (xs ys : List (Entry C)) → IsBounded t xs → IsBounded t ys → IsBounded t (xs ++ ys)
  IsBounded-append t [] ys bx by_ = by_
  IsBounded-append t (x ∷ xs) ys bx by_ = (bx.0, IsBounded-append t xs ys bx.1 by_)

  pub IsBounded-take :
      (t : ℤ) (n : ℕ) (log : List (Entry C)) → IsBounded t log → IsBounded t (take n log)
  IsBounded-take t zero log b = tt
  IsBounded-take t (suc n) [] b = tt
  IsBounded-take t (suc n) (e ∷ log) b = (b.0, IsBounded-take t n log b.1)

  pub IsBounded-set_last_term :
      (t u : ℤ) (log : List (Entry C))
      → u ≤ℤ t
      → IsBounded t log
      → IsBounded t (set_last_term u log)
  unfolding set_last_term
  IsBounded-set_last_term t u [] h b = tt
  IsBounded-set_last_term t u (e ∷ []) h b = (h, tt)
  IsBounded-set_last_term t u (e ∷ f ∷ log) h b = (b.0, IsBounded-set_last_term t u (f ∷ log) h b.1)

  pub IsNumbered-append :
      (k : ℕ) (xs ys : List (ApplyMsg C))
      → IsNumbered k xs
      → IsNumbered (k + length xs) ys
      → IsNumbered k (xs ++ ys)
  IsNumbered-append k [] ys wx wy = let e : k + 0 ≡ k = omega arith in rw (← e) wy
  IsNumbered-append k (x ∷ xs) ys wx wy =
      let e : k + suc (length xs) ≡ suc k + length xs = omega arith in
      (wx.0, wx.1, IsNumbered-append (suc k) xs ys wx.2 (rw (← e) wy))

module _ {C : Type 0} ⦃codec : Codec C⦄ where
  pub persist-IsValid : (rf : Raft C) → IsValid rf → IsValid (persist rf)
  unfolding persist
  persist-IsValid rf v = record {
    indexed = v.indexed;
    bounded = v.bounded;
    numbered = v.numbered;
    committed = v.committed;
    applied = v.applied;
    leads = v.leads;
  }

  pub persist-SameRole : (rf : Raft C) → SameRole rf (persist rf)
  unfolding persist
  persist-SameRole rf = record {
    me_eq = refl;
    term_eq = refl;
    vote_eq = refl;
    state_eq = refl;
    is_leader_eq = refl;
    test_eq = refl;
  }

-- ===== src/Raft/Cluster/Counts.antt =====
-- Counting over the peers of a cluster (the `votes` of src/raft/raft.go `startAsCand`).
use sharded_raft_key_value_s.Prelude.{
  ℕ, zero, suc, ◌+◌, ◌≤◌, ◌<◌, ◌≡◌, inl, inr, Bool, true, false, ◌&&◌, Option, none, some, ok,
  arith, ◌==◌, Bool-cases,
}
use sharded_raft_key_value_s.Prelude.Int.{ℤ, eqb_ℤ}
use sharded_raft_key_value_s.Raft.Types.{RequestVoteReply}
use sharded_raft_key_value_s.Raft.Codec.{Codec}
use sharded_raft_key_value_s.Raft.Node.{Raft}
use sharded_raft_key_value_s.Raft.Handler.{send_receive_hb}
use sharded_raft_key_value_s.Raft.Candidate.{Ballot, count_vote, receive_vote}
use sharded_raft_key_value_s.Raft.Candidate.Counting.{counts}
use sharded_raft_key_value_s.Raft.Cluster.{Campaign, term_of}

abbrev pub sum : (ℕ → ℕ) → ℕ → ℕ
sum f zero = 0
sum f (suc n) = sum f n + f n

abbrev pub is_vote : ℤ → Option RequestVoteReply → Bool
is_vote term none = false
is_vote term (some reply) = reply.vote_granted && eqb_ℤ reply.term term

abbrev pub one_if : Bool → ℕ
one_if true = 1
one_if false = 0

-- 1 for a peer whose vote in the campaign's own term has been heard
abbrev pub tally : Campaign → ℕ → ℕ
tally k j = one_if (k.heard j && is_vote (term_of k) (k.replies j))

pub sum-le : (f g : ℕ → ℕ) (n : ℕ) → ((i : ℕ) → f i ≤ g i) → sum f n ≤ sum g n
sum-le f g zero h = omega arith
sum-le f g (suc n) h = omega (arith, h n, sum-le f g n h)

-- one summand grows by `x`
pub sum-le_at :
    (f g : ℕ → ℕ) (n j x : ℕ)
    → j < n
    → ((i : ℕ) → f i ≤ g i)
    → f j + x ≤ g j
    → sum f n + x ≤ sum g n
sum-le_at f g zero j x l h o = absurd (omega arith)
sum-le_at f g (suc n) j x l h o = elim (Bool-cases (n == j)) [
  | inl e ↦
      let same : n ≡ j = ground arith in
      let here : f n + x ≤ g n = rw same o in omega (arith, sum-le f g n h)
  | inr e ↦ omega (arith, h n, sum-le_at f g n j x (ground arith) h o)
]

-- two maps that are never both 1 add up to one for each argument at most
pub sum-disjoint : (f g : ℕ → ℕ) (n : ℕ) → ((i : ℕ) → f i + g i ≤ 1) → sum f n + sum g n ≤ n
sum-disjoint f g zero h = omega arith
sum-disjoint f g (suc n) h = omega (arith, h n, sum-disjoint f g n h)

module _ {C : Type 0} ⦃codec : Codec C⦄ where
  pub receive_vote-bound :
      (arrived : Bool) (reply : RequestVoteReply) (b b' : Ballot) (rf rf' : Raft C)
      → receive_vote arrived reply b rf ≡ ok (b', rf')
      → (b'.args ≡ b.args) × (b'.votes ≤ b.votes + counts arrived reply rf)
  unfolding receive_vote count_vote send_receive_hb
  receive_vote-bound arrived reply b b' rf rf' h = (ground arith, ground arith)

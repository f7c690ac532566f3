-- ===== src/Raft/Cluster/Promises.antt =====
-- What the votes of an election say about the peers that gave them, and about other elections
-- (src/raft/raft.go `startAsCand`, src/raft/handler.go `HandleRequestVote`).
pub mod Peers
pub mod Campaigns
pub mod Beginning
pub mod Answering
pub mod Hearing
use sharded_raft_key_value_s.Prelude.{ℕ, ◌≤◌, ◌≡◌, Bool, true, Option, none, some}
use sharded_raft_key_value_s.Prelude.Int.{ℤ, pos, ◌≤ℤ◌}
use sharded_raft_key_value_s.Raft.Types.{RequestVoteReply}
use sharded_raft_key_value_s.Raft.Codec.{Codec}
use sharded_raft_key_value_s.Raft.Node.{Raft}
use sharded_raft_key_value_s.Raft.Trace.Safety.{IsSound}
use sharded_raft_key_value_s.Raft.Cluster.{Campaign, Cluster, term_of}
use sharded_raft_key_value_s.Raft.Cluster.Counts.{sum, tally}

-- peer `j` has granted the campaign its vote, in a reply of term `t`
abbrev pub Given : Campaign → ℕ → ℤ → Type 0
Given k j t =
    (reply : RequestVoteReply) × (k.replies j ≡ some reply)
    × (reply.vote_granted ≡ true)
    × (reply.term ≡ t)

module _ {C : Type 0} where
  -- a peer of no earlier term than `t`, which in `t` itself holds a vote for `owner`
  pub record Holds (t : ℤ) (owner : ℕ) (rf : Raft C) : Type 0 where
    pub term_le : t ≤ℤ rf.term
    pub vote : rf.term ≡ t → rf.voted_for ≡ pos owner

  pub record IsHonest (n : ℕ) (peers : ℕ → Raft C) (k : Campaign) : Type 0 where
    pub begun : term_of k ≤ℤ (peers k.owner).term
    pub named : k.ballot.args.peer_id ≡ pos k.owner
    pub holds : (j : ℕ) (t : ℤ) → Given k j t → Holds t k.owner (peers j)
    pub later : (j : ℕ) (t : ℤ) → Given k j t → term_of k ≤ℤ t
    pub counted : (peers k.owner).term ≡ term_of k → k.ballot.votes ≤ sum (tally k) n

module _ {C : Type 0} ⦃codec : Codec C⦄ where
  pub record IsFair (n : ℕ) (c : Cluster C) : Type 0 where
    pub sound : (i : ℕ) → IsSound (c.peers i)
    pub me_eq : (i : ℕ) → (c.peers i).me ≡ i
    pub honest : (e : ℕ) (k : Campaign) → c.campaigns e ≡ some k → IsHonest n c.peers k
    -- no peer votes for two owners in one term
    pub once :
        (e e' : ℕ) (k k' : Campaign) (j : ℕ) (t : ℤ)
        → c.campaigns e ≡ some k
        → c.campaigns e' ≡ some k'
        → Given k j t
        → Given k' j t
        → k.owner ≡ k'.owner

-- ===== src/Raft/Cluster/Promises/Hearing.antt =====
-- What the votes say stays true when a candidate hears of a reply.
use sharded_raft_key_value_s.Prelude.{
  ℕ, ◌+◌, ◌≤◌, ◌<◌, ◌≡◌, refl, sym, ap, ◌∙◌, inl, inr, Bool, true, false, ◌&&◌, some, ok, arith,
  ◌==◌, Bool-cases,
}
use sharded_raft_key_value_s.Prelude.Int.{◌≤ℤ◌, leb_ℤ, eqb_ℤ_eq, eq_of_parts}
use sharded_raft_key_value_s.Raft.Types.{RequestVoteArgs, RequestVoteReply}
use sharded_raft_key_value_s.Raft.Codec.{Codec}
use sharded_raft_key_value_s.Raft.Node.{Raft}
use sharded_raft_key_value_s.Raft.Candidate.{Ballot, receive_vote}
use sharded_raft_key_value_s.Raft.Candidate.Counting.{counts}
use sharded_raft_key_value_s.Raft.Trace.{hear_vote}
use sharded_raft_key_value_s.Raft.Trace.Safety.{Step-Safe}
use sharded_raft_key_value_s.Raft.Cluster.{Campaign, Cluster, at, with_peer, with_campaign, term_of}
use sharded_raft_key_value_s.Raft.Cluster.Counts.{sum-le_at, tally, receive_vote-bound}
use sharded_raft_key_value_s.Raft.Cluster.Promises.{IsHonest, IsFair}
use sharded_raft_key_value_s.Raft.Cluster.Promises.Peers.{between, with_peer-IsFair}
use sharded_raft_key_value_s.Raft.Cluster.Promises.Campaigns.{
  at-same, at-other, with_campaign-IsFair,
}

-- the campaign whose goroutine for peer `j` is over
abbrev pub over : ℕ → Ballot → Campaign → Campaign
over j b k = record k { ballot = b; heard = at j true k.heard }

module _ {C : Type 0} ⦃codec : Codec C⦄ where
  module _ (j : ℕ) (k : Campaign) (arrived : Bool) (reply : RequestVoteReply) (b' : Ballot)
      (rf rf' : Raft C) (h : receive_vote arrived reply k.ballot rf ≡ ok (b', rf')) where
    pub same_args : b'.args ≡ k.ballot.args
    same_args = (receive_vote-bound arrived reply k.ballot b' rf rf' h).0

    pub tally-over : k.heard j ≡ false → (i : ℕ) → tally k i ≤ tally (over j b' k) i
    tally-over waits i = elim (Bool-cases (j == i)) [
      | inl q ↦
          let same : j ≡ i = ground arith in
          let waits' : k.heard i ≡ false = rw same at waits in rw waits' (omega arith)
      | inr q ↦ rw (at-other j true k.heard i q, same_args) (omega arith)
    ]

  module _ (n : ℕ) (c : Cluster C) (e j : ℕ) (k : Campaign) (arrived : Bool)
      (reply : RequestVoteReply) (b' : Ballot) (rf' : Raft C) (is : c.campaigns e ≡ some k)
      (waits : k.heard j ≡ false) (sent : arrived ≡ true → k.replies j ≡ some reply)
      (h : receive_vote arrived reply k.ballot (c.peers k.owner) ≡ ok (b', rf'))
      (f : IsFair n c) where
    kept : b'.args ≡ k.ballot.args
    kept = same_args j k arrived reply b' (c.peers k.owner) rf' h

    more : (i : ℕ) → tally k i ≤ tally (over j b' k) i
    more = tally-over j k arrived reply b' (c.peers k.owner) rf' h waits

    -- a vote that counts is one of the campaign's own term
    counts-tally :
        (c.peers k.owner).term ≡ term_of k
        → tally k j + counts arrived reply (c.peers k.owner) ≤ tally (over j b' k) j
    counts-tally now =
        elim (Bool-cases
          (arrived && (reply.vote_granted && leb_ℤ reply.term (c.peers k.owner).term))) [
            | inl q ↦
                let granted : reply.vote_granted ≡ true = ground arith in
                let came = sent (ground arith) in
                let low = (f.honest e k is).later j reply.term (reply, came, granted, refl) in
                let le : reply.term ≤ℤ term_of k = rw (← now) (ground arith) in
                let term : reply.term ≡ term_of k =
                  eq_of_parts reply.term (term_of k) (omega arith) in
                let self : (j == j) ≡ true = ground arith in
                rw (waits, self, came, kept, granted, eqb_ℤ_eq reply.term (term_of k) term)
                  (ground arith)
            | inr q ↦
                let none_counts : counts arrived reply (c.peers k.owner) ≡ 0 = ground arith in
                omega (arith, more j)
          ]

    over-IsHonest :
        j < n
        → IsHonest n (at k.owner rf' c.peers) k
        → IsHonest n (at k.owner rf' c.peers) (over j b' k)
    over-IsHonest l old =
        let h0 = f.honest e k is in
        let (_, adv) = Step-Safe (hear_vote arrived reply k.ballot b' h) (f.sound k.owner) in
        let (_, bound) = receive_vote-bound arrived reply k.ballot b' (c.peers k.owner) rf' h in
        record {
          begun = rw kept old.begun;
          named = rw kept old.named;
          holds = old.holds;
          later = rw kept old.later;
          counted = λ same.
              let after : rf'.term ≡ term_of k =
                sym (ap (λ (x : Raft C). x.term) (at-same k.owner rf' c.peers))
                ∙ same
                ∙ ap (λ (x : RequestVoteArgs). x.term) kept in
              let now =
                between (term_of k) (c.peers k.owner).term rf'.term h0.begun adv.term_le after in
              omega (
                arith,
                bound,
                h0.counted now,
                sum-le_at (tally k) (tally (over j b' k)) n j
                    (counts arrived reply (c.peers k.owner)) l more (counts-tally now),
              );
        }

    pub hear-IsFair : j < n → IsFair n (with_campaign e (over j b' k) (with_peer k.owner rf' c))
    hear-IsFair l =
        let f' =
          with_peer-IsFair n c k.owner rf'
            (Step-Safe (hear_vote arrived reply k.ballot b' h) (f.sound k.owner)) f in
        with_campaign-IsFair n e (over j b' k) (with_peer k.owner rf' c)
          (over-IsHonest l (f'.honest e k is))
          (λ i t e' k' g is' g'. f.once e e' k k' i t is is' g g') f'

-- ===== src/Raft/Cluster/Promises/Answering.antt =====
-- What the votes say stays true when the handler of a peer replies to a candidate.
use sharded_raft_key_value_s.Prelude.{
  ℕ, ◌≤◌, ◌≡◌, sym, ap, subst, ◌∙◌, inl, inr, true, none, some, ok, arith, ◌==◌, Bool-cases,
}
use sharded_raft_key_value_s.Prelude.Int.{ℤ, ◌≤ℤ◌, ◌<ℤ◌}
use sharded_raft_key_value_s.Raft.Types.{RequestVoteArgs, RequestVoteReply}
use sharded_raft_key_value_s.Raft.Codec.{Codec}
use sharded_raft_key_value_s.Raft.Node.{Raft}
use sharded_raft_key_value_s.Raft.Handler.{handle_request_vote}
use sharded_raft_key_value_s.Raft.Invariant.Voting.{voted}
use sharded_raft_key_value_s.Raft.Trace.{request_vote}
use sharded_raft_key_value_s.Raft.Trace.Safety.{Step-Safe}
use sharded_raft_key_value_s.Raft.Trace.Votes.{
  Voted, handle_request_vote-Voted, voted-recorded, voted-later,
}
use sharded_raft_key_value_s.Raft.Cluster.{Campaign, Cluster, at, with_peer, with_campaign, term_of}
use sharded_raft_key_value_s.Raft.Cluster.Counts.{sum-le, tally}
use sharded_raft_key_value_s.Raft.Cluster.Promises.{Given, Holds, IsHonest, IsFair}
use sharded_raft_key_value_s.Raft.Cluster.Promises.Peers.{between, pos-minus_one, with_peer-IsFair}
use sharded_raft_key_value_s.Raft.Cluster.Promises.Campaigns.{
  some-injective, at-same, at-other, with_campaign-IsFair,
}

-- the campaign with the reply of peer `j`
abbrev pub answered : ℕ → RequestVoteReply → Campaign → Campaign
answered j reply k = record k { replies = at j (some reply) k.replies }

-- a vote of the new campaign is that of the reply, or an older one
Given-answered :
    (i : ℕ) (reply : RequestVoteReply) (k : Campaign) (j : ℕ) (t : ℤ) {P : Type 0}
    → (i ≡ j → reply.vote_granted ≡ true → reply.term ≡ t → P)
    → (Given k j t → P)
    → Given (answered i reply k) j t
    → P
Given-answered i reply k j t fresh old (r, is, granted, term) = elim (Bool-cases (i == j)) [
  | inl e ↦
      let same : reply ≡ r = some-injective (rw e at is) in
      fresh (ground arith) (ap (λ (x : RequestVoteReply). x.vote_granted) same ∙ granted)
        (ap (λ (x : RequestVoteReply). x.term) same ∙ term)
  | inr e ↦ old (r, rw e at is, granted, term)
]

pub tally-answered :
    (i : ℕ) (reply : RequestVoteReply) (k : Campaign)
    → k.replies i ≡ none
    → (j : ℕ) → tally k j ≤ tally (answered i reply k) j
tally-answered i reply k free j = elim (Bool-cases (i == j)) [
  | inl e ↦
      let same : i ≡ j = ground arith in
      let empty : k.replies j ≡ none = rw same at free in
      let silent : tally k j ≡ 0 = rw empty (ground arith) in omega arith
  | inr e ↦ rw (at-other i (some reply) k.replies j e) (omega arith)
]

voted-term : {C : Type 0} (args : RequestVoteArgs) (rf : Raft C) → args.term ≤ℤ (voted args rf).term
voted-term args rf = ground arith

module _ {C : Type 0} ⦃codec : Codec C⦄ where
  module _ (n : ℕ) (c : Cluster C) (e j : ℕ) (k : Campaign) (reply : RequestVoteReply)
      (rf' : Raft C) (is : c.campaigns e ≡ some k)
      (h : handle_request_vote k.ballot.args (c.peers j) ≡ ok (reply, rf')) (f : IsFair n c) where
    -- the handler's reply and the peer's vote
    vote : Voted k.ballot.args (c.peers j) reply rf'
    vote = handle_request_vote-Voted k.ballot.args (c.peers j) ((f.sound j).valid.indexed) h

    fresh-Holds : reply.vote_granted ≡ true → Holds reply.term k.owner rf'
    fresh-Holds granted =
        let (term, grant, term', vote') = vote in
        let same : rf'.term ≡ reply.term = term' ∙ sym term in
        record {
          term_le = rw same (omega arith);
          vote = λ _.
              vote'
              ∙ voted-recorded k.ballot.args (c.peers j) (sym grant ∙ granted)
              ∙ (f.honest e k is).named;
        }

    -- no other vote of the peer in this term
    fresh-once :
        (e' : ℕ) (k' : Campaign)
        → c.campaigns e' ≡ some k'
        → reply.vote_granted ≡ true
        → Given k' j reply.term
        → k.owner ≡ k'.owner
    fresh-once e' k' is' granted g' =
        let (term, grant, term', vote') = vote in
        let held = (f.honest e' k' is').holds j reply.term g' in
        let (_, adv) = Step-Safe (request_vote k.ballot.args reply h) (f.sound j) in
        let still : (c.peers j).term ≡ reply.term =
          between reply.term (c.peers j).term rf'.term held.term_le adv.term_le
            (term' ∙ sym term) in
        let later =
          voted-later k.ballot.args (c.peers j)
            (λ z. pos-minus_one k'.owner (sym (held.vote still) ∙ z)) (sym grant ∙ granted) in
        let more : reply.term <ℤ reply.term =
          subst (λ x. x <ℤ reply.term) still
            (subst (λ x. (c.peers j).term <ℤ x) (sym term) later) in
        absurd (omega arith)

    answered-IsHonest :
        k.replies j ≡ none
        → IsHonest n (at j rf' c.peers) k
        → IsHonest n (at j rf' c.peers) (answered j reply k)
    answered-IsHonest free old = record {
      begun = old.begun;
      named = old.named;
      holds = λ i t.
          Given-answered j reply k i t
            (λ who granted when.
              let new : Holds reply.term k.owner (at j rf' c.peers j) =
                rw (at-same j rf' c.peers) (fresh-Holds granted) in
              subst (λ x. Holds t k.owner (at j rf' c.peers x)) who
                (subst (λ x. Holds x k.owner (at j rf' c.peers j)) when new))
            (old.holds i t);
      later = λ i t.
          Given-answered j reply k i t
            (λ _ _ when.
              let le : term_of k ≤ℤ reply.term =
                rw (vote.0) (voted-term k.ballot.args (c.peers j)) in
              rw when at le)
            (old.later i t);
      counted = λ same. omega (
        arith,
        old.counted same,
        sum-le (tally k) (tally (answered j reply k)) n (tally-answered j reply k free),
      );
    }

    pub answer-IsFair :
        k.replies j ≡ none → IsFair n (with_campaign e (answered j reply k) (with_peer j rf' c))
    answer-IsFair free =
        let f' =
          with_peer-IsFair n c j rf' (Step-Safe (request_vote k.ballot.args reply h) (f.sound j))
            f in
        with_campaign-IsFair n e (answered j reply k) (with_peer j rf' c)
          (answered-IsHonest free (f'.honest e k is))
          (λ i t e' k' g is' g'.
            Given-answered j reply k i t
              (λ who granted when. fresh-once e' k' is' granted (rw (who, when) g'))
              (λ old. f.once e e' k k' i t is is' old g') g)
          f'

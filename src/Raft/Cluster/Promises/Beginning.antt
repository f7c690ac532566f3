-- ===== src/Raft/Cluster/Promises/Beginning.antt =====
-- What the votes say stays true when a candidacy begins and when its interval ends.
use sharded_raft_key_value_s.Prelude.{
  ℕ, ◌+◌, ◌≤◌, ◌<◌, ◌≡◌, refl, sym, ap, subst, ◌∙◌, inl, inr, true, false, none, some, ok,
  ok_unique, arith, ◌==◌, Bool-cases,
}
use sharded_raft_key_value_s.Prelude.Int.{ℤ, pos, ◌+ℤ◌, ◌≤ℤ◌, eqb_ℤ_eq, pos_part, neg_part}
use sharded_raft_key_value_s.Raft.Types.{RequestVoteReply}
use sharded_raft_key_value_s.Raft.Codec.{Codec}
use sharded_raft_key_value_s.Raft.Node.{Raft, persist}
use sharded_raft_key_value_s.Raft.Candidate.{Ballot, time_out, start_as_cand}
use sharded_raft_key_value_s.Raft.Invariant.Standing.{start_as_cand-standing}
use sharded_raft_key_value_s.Raft.Trace.{stand}
use sharded_raft_key_value_s.Raft.Trace.Safety.{IsSound, Step-Safe}
use sharded_raft_key_value_s.Raft.Cluster.{
  Campaign, Cluster, at, with_peer, with_campaign, own_vote, campaign_of,
}
use sharded_raft_key_value_s.Raft.Cluster.Counts.{sum, sum-le_at, tally}
use sharded_raft_key_value_s.Raft.Cluster.Promises.{Given, Holds, IsHonest, IsFair}
use sharded_raft_key_value_s.Raft.Cluster.Promises.Peers.{with_peer-IsFair}
use sharded_raft_key_value_s.Raft.Cluster.Promises.Campaigns.{
  some-injective, at-same, with_campaign-IsFair,
}

-- the only vote of a new campaign is the candidate's own
Given-own :
    (i : ℕ) (b : Ballot) (j : ℕ) (t : ℤ) → Given (campaign_of i b) j t → (i ≡ j) × (b.args.term ≡ t)
Given-own i b j t (reply, is, granted, term) = elim (Bool-cases (i == j)) [
  | inl e ↦
      let same : own_vote b ≡ reply = some-injective (rw e at is) in
      (ground arith, ap (λ (r : RequestVoteReply). r.term) same ∙ term)
  | inr e ↦ let missing : none ≡ some reply = rw e at is in cc
]

own-counted : (n i : ℕ) (b : Ballot) → i < n → 1 ≤ sum (tally (campaign_of i b)) n
own-counted n i b l =
    let one : 0 + 1 ≤ tally (campaign_of i b) i =
      rw
        (
          at-same i (some (own_vote b)) (λ _. none),
          at-same i true (λ _. false),
          eqb_ℤ_eq b.args.term b.args.term refl,
        )
        (omega arith) in
    omega (arith, sum-le_at (λ _. 0) (tally (campaign_of i b)) n i 1 l (λ _. omega arith) one)

module _ {C : Type 0} ⦃codec : Codec C⦄ where
  -- what `start_as_cand` leaves
  record Began (i : ℕ) (rf rf' : Raft C) (b : Ballot) : Type 0 where
    votes : b.votes ≡ 1
    peer_id : b.args.peer_id ≡ pos i
    next : b.args.term ≡ rf.term +ℤ pos 1
    term : rf'.term ≡ b.args.term
    vote : rf'.voted_for ≡ pos i

  start_as_cand-Began :
      (i : ℕ) (b : Ballot) (rf rf' : Raft C)
      → IsSound rf
      → rf.me ≡ i
      → start_as_cand rf ≡ ok (b, rf')
      → Began i rf rf' b
  unfolding persist
  start_as_cand-Began i b rf rf' s m h =
      let same = ok_unique h (start_as_cand-standing rf s.valid) in
      let ballot = ap (λ (p : Ballot × Raft C). p.0) same in
      let peer = ap (λ (p : Ballot × Raft C). p.1) same in
      let term = ap (λ (x : Ballot). x.args.term) ballot in
      record {
        votes = ap (λ (x : Ballot). x.votes) ballot;
        peer_id = ap (λ (x : Ballot). x.args.peer_id) ballot ∙ ap pos m;
        next = term;
        term = ap (λ (x : Raft C). x.term) peer ∙ sym term;
        vote = ap (λ (x : Raft C). x.voted_for) peer ∙ ap pos m;
      }

  campaign_of-IsHonest :
      (n i : ℕ) (b : Ballot) (rf rf' : Raft C) (peers : ℕ → Raft C)
      → i < n
      → Began i rf rf' b
      → IsHonest n (at i rf' peers) (campaign_of i b)
  campaign_of-IsHonest n i b rf rf' peers l s =
      let holds : Holds b.args.term i (at i rf' peers i) =
        rw (at-same i rf' peers)
          (record { term_le = rw (s.term) (omega arith); vote = λ _. s.vote }) in
      record {
        begun = holds.term_le;
        named = s.peer_id;
        holds = λ j t g.
            let (who, when) = Given-own i b j t g in
            subst (λ x. Holds t i (at i rf' peers x)) who
              (subst (λ x. Holds x i (at i rf' peers i)) when holds);
        later = λ j t g.
            let (who, when) = Given-own i b j t g in
            omega (arith, ap pos_part when, ap neg_part when);
        counted = λ _. rw (s.votes) (own-counted n i b l);
      }

  pub begin-IsFair :
      (n : ℕ) (c : Cluster C) (e i : ℕ) (b : Ballot) (rf' : Raft C)
      → i < n
      → start_as_cand (c.peers i) ≡ ok (b, rf')
      → IsFair n c
      → IsFair n (with_campaign e (campaign_of i b) (with_peer i rf' c))
  begin-IsFair n c e i b rf' l h f =
      let s = start_as_cand-Began i b (c.peers i) rf' (f.sound i) (f.me_eq i) h in
      let f' = with_peer-IsFair n c i rf' (Step-Safe (stand b h) (f.sound i)) f in
      with_campaign-IsFair n e (campaign_of i b) (with_peer i rf' c)
        (campaign_of-IsHonest n i b (c.peers i) rf' c.peers l s)
        (λ j t e' k' g is g'.
          let (who, when) = Given-own i b j t g in
          let held = (f.honest e' k' is).holds j t g' in
          let le : (c.peers i).term +ℤ pos 1 ≤ℤ (c.peers i).term =
            rw (← s.next) (rw (when, who) held.term_le) in
          absurd (ground arith))
        f'

  pub expire-IsFair :
      (n : ℕ) (c : Cluster C) (e : ℕ) (k : Campaign)
      → c.campaigns e ≡ some k
      → IsFair n c
      → IsFair n (with_campaign e (record k { ballot = time_out k.ballot }) c)
  unfolding time_out
  expire-IsFair n c e k is f =
      let h = f.honest e k is in
      with_campaign-IsFair n e (record k { ballot = time_out k.ballot }) c
        (record {
          begun = h.begun;
          named = h.named;
          holds = h.holds;
          later = h.later;
          counted = h.counted;
        })
        (λ j t e' k' g is' g'. f.once e e' k k' j t is is' g g') f

-- ===== src/Raft/Trace/Votes.antt =====
-- A peer's votes over time (src/raft/handler.go `HandleRequestVote`), crashes included.
use sharded_raft_key_value_s.Prelude.{
  ◌≡◌, ◌≢◌, refl, sym, ap, subst, ◌∙◌, inl, inr, Bool, true, false, ok, ok_unique, arith,
  Bool-cases,
}
use sharded_raft_key_value_s.Prelude.Int.{minus_one, ◌<ℤ◌, ltb_ℤ, eqb_ℤ_ne, eq_of_parts}
use sharded_raft_key_value_s.Raft.Types.{RequestVoteArgs, RequestVoteReply}
use sharded_raft_key_value_s.Raft.Codec.{Codec}
use sharded_raft_key_value_s.Raft.Node.{Raft, persist}
use sharded_raft_key_value_s.Raft.Handler.{room, may_vote, handle_request_vote}
use sharded_raft_key_value_s.Raft.Indexed.{IsIndexed}
use sharded_raft_key_value_s.Raft.Invariant.Voting.{
  adopted, voted, last_index, last_term, handle_request_vote-runs, handle_request_vote-blocked,
}
use sharded_raft_key_value_s.Raft.Trace.{request_vote}
use sharded_raft_key_value_s.Raft.Trace.Safety.{≤ℤ_or_lt, IsSound, Reach, Step-Safe, Reach-Safe}

module _ {C : Type 0} ⦃codec : Codec C⦄ where
  module _ (args : RequestVoteArgs) (rf : Raft C) where
    abbrev pub granted_to : Bool
    granted_to = may_vote (adopted args.term rf).voted_for (last_index rf) (last_term rf) args

    -- the reply and the peer that a call which returns leaves
    abbrev pub Voted : RequestVoteReply → Raft C → Type 0
    Voted reply rf' =
        (reply.term ≡ (voted args rf).term)
        × (reply.vote_granted ≡ granted_to)
        × (rf'.term ≡ (voted args rf).term)
        × (rf'.voted_for ≡ (voted args rf).voted_for)

    pub handle_request_vote-Voted :
        {reply : RequestVoteReply} {rf' : Raft C}
        → IsIndexed 0 rf.log
        → handle_request_vote args rf ≡ ok (reply, rf')
        → Voted reply rf'
    unfolding persist
    handle_request_vote-Voted {reply} {rf'} w h =
        let done : (rf.term <ℤ args.term → room rf ≡ true) → Voted reply rf' = λ r.
          let same = ok_unique h (handle_request_vote-runs args rf w r) in
          (
            ap (λ (p : RequestVoteReply × Raft C). p.0.term) same,
            ap (λ (p : RequestVoteReply × Raft C). p.0.vote_granted) same,
            ap (λ (p : RequestVoteReply × Raft C). p.1.term) same,
            ap (λ (p : RequestVoteReply × Raft C). p.1.voted_for) same,
          ) in
        elim (≤ℤ_or_lt args.term rf.term) [
          | inl le ↦ done (λ lt. absurd (omega arith))
          | inr lt ↦ elim (Bool-cases (room rf)) [
            | inl r ↦ done (λ _. r)
            | inr r ↦ cc (handle_request_vote-blocked args rf w lt r, h)
          ]
        ]

    pub voted-recorded : granted_to ≡ true → (voted args rf).voted_for ≡ args.peer_id
    voted-recorded h = rw h refl

    -- a peer that has voted in its term votes in a later one only
    pub voted-later : rf.voted_for ≢ minus_one → granted_to ≡ true → rf.term <ℤ (voted args rf).term
    unfolding may_vote
    voted-later n h = elim (Bool-cases (ltb_ℤ rf.term args.term)) [
      | inl e ↦
          let later : rf.term <ℤ args.term = ground arith in
          let term : (voted args rf).term ≡ args.term = rw h (rw e refl) in
          subst (λ t. rf.term <ℤ t) (sym term) later
      | inr e ↦
          let refused : granted_to ≡ false = rw (e, eqb_ℤ_ne rf.voted_for minus_one n) refl in
          cc (refused, h)
    ]

  -- A peer with a well-formed and saved state that has granted a vote to a peer of an index other
  -- than -1, and grants one again after any further steps, crashes with restarts included, grants
  -- the second in a later term.
  pub handle_request_vote-once :
      (args args' : RequestVoteArgs) (reply reply' : RequestVoteReply) (a b c d : Raft C)
      → IsSound a
      → args.peer_id ≢ minus_one
      → handle_request_vote args a ≡ ok (reply, b)
      → reply.vote_granted ≡ true
      → Reach b c
      → handle_request_vote args' c ≡ ok (reply', d)
      → reply'.vote_granted ≡ true
      → reply.term <ℤ reply'.term
  handle_request_vote-once args args' reply reply' a b c d s n first granted run second granted' =
      let (term_a, grant_a, term_b, vote_b) =
        handle_request_vote-Voted args a s.valid.indexed first in
      let (sound_b, _) = Step-Safe (request_vote args reply first) s in
      let (sound_c, adv) = Reach-Safe sound_b run in
      let (term_c, grant_c, term_d, vote_d) =
        handle_request_vote-Voted args' c sound_c.valid.indexed second in
      let (sound_d, adv') = Step-Safe (request_vote args' reply' second) sound_c in
      let same_b : b.term ≡ reply.term = term_b ∙ sym term_a in
      let same_d : d.term ≡ reply'.term = term_d ∙ sym term_c in
      let mine : b.voted_for ≡ args.peer_id =
        vote_b ∙ voted-recorded args a (sym grant_a ∙ granted) in
      elim (≤ℤ_or_lt c.term b.term) [
        | inr lt ↦
            subst (λ t. t <ℤ reply'.term) same_b
              (subst (λ t. b.term <ℤ t) same_d (omega (arith, adv'.term_le)))
        | inl le ↦
            let still : c.term ≡ b.term = eq_of_parts c.term b.term (omega (arith, adv.term_le)) in
            let kept : c.voted_for ≡ args.peer_id = adv.vote still (λ z. n (sym mine ∙ z)) ∙ mine in
            let later = voted-later args' c (λ z. n (sym kept ∙ z)) (sym grant_c ∙ granted') in
            subst (λ t. t <ℤ reply'.term) same_b
              (subst (λ t. b.term <ℤ t) (sym term_c)
                (subst (λ t. t <ℤ (voted args' c).term) still later))
      ]

-- ===== src/Raft/Invariant/Voting.antt =====
-- `HandleRequestVote` (src/raft/handler.go) keeps the invariant, and never changes a vote within a
-- term.
use sharded_raft_key_value_s.Prelude.{
  ◌≡◌, ◌↔◌, refl, ap, ◌∙◌, ◌⊎◌, inl, inr, true, false, ok, blocked, arith, length, Bool-cases,
  if◌then◌else◌,
}
use sharded_raft_key_value_s.Prelude.Int.{ℤ, pos, minus_one, ◌<ℤ◌, ◌≤ℤ◌, ltb_ℤ, eqb_ℤ_iff}
use sharded_raft_key_value_s.Raft.Types.{follwer, RequestVoteArgs, RequestVoteReply}
use sharded_raft_key_value_s.Raft.Codec.{Codec}
use sharded_raft_key_value_s.Raft.Node.{Raft, set_follwer, persist}
use sharded_raft_key_value_s.Raft.Log.{get_last_log_entry, term_for_log}
use sharded_raft_key_value_s.Raft.Handler.{
  room, woken, signal-woken, signal-blocked, adopt_term, may_vote, handle_request_vote,
}
use sharded_raft_key_value_s.Raft.Indexed.{
  IsIndexed, term_at, index-get_last_log_entry, term_for_log-term_at,
}
use sharded_raft_key_value_s.Raft.Invariant.{IsBounded-mono, IsValid, Advances, persist-IsValid}

module _ {C : Type 0} where
  pub term_for_log_last :
      (rf : Raft C)
      → IsIndexed 0 rf.log
      → term_for_log rf (get_last_log_entry rf).index ≡ ok (term_at (length rf.log) rf.log)
  term_for_log_last rf w =
      ap (term_for_log rf) (index-get_last_log_entry rf w)
      ∙ term_for_log-term_at rf (length rf.log) w

  -- the index and the term of the last entry, which two peers compare
  abbrev pub last_index : Raft C → ℤ
  last_index rf = pos (length rf.log)

  abbrev pub last_term : Raft C → ℤ
  last_term rf = term_at (length rf.log) rf.log

  -- the peer after the first `if` of `HandleRequestVote`
  abbrev pub adopted : ℤ → Raft C → Raft C
  adopted term rf =
      if ltb_ℤ rf.term term
      then record (woken rf) {
        term = term;
        state = follwer;
        is_leader = false;
        voted_for = minus_one;
      }
      else rf

  -- the peer after the vote
  abbrev pub voted : RequestVoteArgs → Raft C → Raft C
  voted args rf =
      let a = adopted args.term rf in
      if may_vote a.voted_for (last_index rf) (last_term rf) args
      then record a { voted_for = args.peer_id }
      else a

module _ {C : Type 0} ⦃codec : Codec C⦄ where
  pub Advances-persist : {rf rf' : Raft C} → Advances rf rf' → Advances rf (persist rf')
  unfolding persist
  Advances-persist a = record { term_le = a.term_le; vote = a.vote; me_eq = a.me_eq }

  adopt_term-adopted :
      (term : ℤ) (rf : Raft C)
      → (rf.term <ℤ term → room rf ≡ true)
      → adopt_term term rf ≡ ok (adopted term rf)
  unfolding adopt_term set_follwer
  adopt_term-adopted term rf r = elim (Bool-cases (ltb_ℤ rf.term term)) [
    | inl e ↦ rw (e, signal-woken (record rf { term = term }) (r (ground arith))) refl
    | inr e ↦ rw e refl
  ]

  -- what the handler returns and leaves, by the code's own test
  pub handle_request_vote-runs :
      (args : RequestVoteArgs) (rf : Raft C)
      → IsIndexed 0 rf.log
      → (rf.term <ℤ args.term → room rf ≡ true)
      → handle_request_vote args rf
        ≡ ok (
          record {
            term = (voted args rf).term;
            vote_granted =
                may_vote (adopted args.term rf).voted_for (last_index rf) (last_term rf) args;
            state = (voted args rf).state;
          },
          persist (voted args rf),
        )
  unfolding handle_request_vote
  handle_request_vote-runs args rf w r =
      rw (term_for_log_last rf w, adopt_term-adopted args.term rf r, index-get_last_log_entry rf w)
        refl

  -- the log of the candidate is at least as late as the peer's
  abbrev pub UpToDate : Raft C → RequestVoteArgs → Type 0
  UpToDate rf args =
      (last_term rf <ℤ args.last_log_term)
      ⊎ ((last_term rf ≡ args.last_log_term) × (last_index rf ≤ℤ args.last_log_index))

  may_vote_iff :
      (voted_for : ℤ) (args : RequestVoteArgs) (rf : Raft C)
      → (may_vote voted_for (last_index rf) (last_term rf) args ≡ true)
        ↔ ((voted_for ≡ minus_one) × UpToDate rf args)
  unfolding may_vote
  may_vote_iff voted_for args rf =
      ground (arith, eqb_ℤ_iff voted_for minus_one, eqb_ℤ_iff (last_term rf) args.last_log_term)

  -- what a peer answers to a candidate, and what it leaves
  abbrev pub Answers : RequestVoteArgs → Raft C → RequestVoteReply → Raft C → Type 0
  Answers args rf reply rf' =
      let a = adopted args.term rf in
      (reply.term ≡ a.term)
      × (reply.state ≡ a.state)
      × ((reply.vote_granted ≡ true) ↔ ((a.voted_for ≡ minus_one) × UpToDate rf args))
      × (reply.vote_granted ≡ true → rf' ≡ persist (record a { voted_for = args.peer_id }))
      × (reply.vote_granted ≡ false → rf' ≡ persist a)

  -- On a numbered log, with room in the wake-up channel if the request is of a later term:
  -- HandleRequestVote returns, takes a later term as a follower without a vote, and grants
  -- exactly if it then has no vote and the candidate's last entry is of a later term, or of the
  -- same and not of a lower index; if it grants, the vote is the candidate's, else it stays, and
  -- the reply has the term and the role; the peer is saved with nothing else changed.
  pub handle_request_vote-voted :
      (args : RequestVoteArgs) (rf : Raft C)
      → IsIndexed 0 rf.log
      → (rf.term <ℤ args.term → room rf ≡ true)
      → (reply : RequestVoteReply) × (rf' : Raft C) × (handle_request_vote args rf
          ≡ ok (reply, rf'))
        × Answers args rf reply rf'
  handle_request_vote-voted args rf w r =
      let a = adopted args.term rf in
      let test = may_vote a.voted_for (last_index rf) (last_term rf) args in
      let vote = record a { voted_for = args.peer_id } in
      (
        _,
        _,
        handle_request_vote-runs args rf w r,
        (
          elim (Bool-cases test) [ inl e ↦ rw e refl | inr e ↦ rw e refl ],
          elim (Bool-cases test) [ inl e ↦ rw e refl | inr e ↦ rw e refl ],
          may_vote_iff a.voted_for args rf,
          λ yes_vote. ap (λ b. persist (if b then vote else a)) yes_vote,
          λ no_vote. ap (λ b. persist (if b then vote else a)) no_vote,
        ),
      )

  -- A full channel blocks the handler, with the lock held.
  pub handle_request_vote-blocked :
      (args : RequestVoteArgs) (rf : Raft C)
      → IsIndexed 0 rf.log
      → rf.term <ℤ args.term
      → room rf ≡ false
      → handle_request_vote args rf ≡ blocked
  unfolding handle_request_vote adopt_term
  handle_request_vote-blocked args rf w h r =
      let test : ltb_ℤ rf.term args.term ≡ true = ground arith in
      rw (term_for_log_last rf w, test, signal-blocked (record rf { term = args.term }) r) refl

  adopted-IsValid : (term : ℤ) (rf : Raft C) → IsValid rf → IsValid (adopted term rf)
  adopted-IsValid term rf v = elim (Bool-cases (ltb_ℤ rf.term term)) [
    | inl e ↦ rw e (record {
      indexed = v.indexed;
      bounded = IsBounded-mono rf.term term rf.log (ground arith) v.bounded;
      numbered = v.numbered;
      committed = v.committed;
      applied = v.applied;
      leads = λ e. cc;
    })
    | inr e ↦ rw e v
  ]

  with_vote :
      (candidate : ℤ) (rf : Raft C) → IsValid rf → IsValid (record rf { voted_for = candidate })
  with_vote candidate rf v = record {
    indexed = v.indexed;
    bounded = v.bounded;
    numbered = v.numbered;
    committed = v.committed;
    applied = v.applied;
    leads = v.leads;
  }

  voted-IsValid : (args : RequestVoteArgs) (rf : Raft C) → IsValid rf → IsValid (voted args rf)
  voted-IsValid args rf v =
      let a = adopted args.term rf in
      let va = adopted-IsValid args.term rf v in
      elim (Bool-cases (may_vote a.voted_for (last_index rf) (last_term rf) args)) [
        | inl e ↦ rw e (with_vote args.peer_id a va)
        | inr e ↦ rw e va
      ]

  voted-Advances : (args : RequestVoteArgs) (rf : Raft C) → Advances rf (voted args rf)
  unfolding may_vote
  voted-Advances args rf = record {
    term_le = ground arith;
    vote = λ e n. ground arith;
    me_eq = ground arith;
  }

  -- `HandleRequestVote` keeps the invariant and any vote of the term.
  pub handle_request_vote-IsValid :
      (args : RequestVoteArgs) (rf : Raft C)
      → IsValid rf
      → IsValid (persist (voted args rf)) × Advances rf (persist (voted args rf))
  handle_request_vote-IsValid args rf v =
      (persist-IsValid _ (voted-IsValid args rf v), Advances-persist (voted-Advances args rf))

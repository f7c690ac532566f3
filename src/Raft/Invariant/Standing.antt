-- ===== src/Raft/Invariant/Standing.antt =====
-- The steps of `startAsCand` (src/raft/raft.go) keep the invariant, and never change a vote within a
-- term.
use sharded_raft_key_value_s.Prelude.{
  ◌+◌, ◌≡◌, ◌≢◌, refl, ap, ◌⊎◌, inl, inr, Bool, true, false, ok, arith,
}
use sharded_raft_key_value_s.Prelude.Int.{ℤ, pos, ◌+ℤ◌, ◌<ℤ◌, pos_part, neg_part}
use sharded_raft_key_value_s.Raft.Types.{cand, follwer, RequestVoteReply}
use sharded_raft_key_value_s.Raft.Codec.{Codec}
use sharded_raft_key_value_s.Raft.Node.{Raft, set_follwer, persist}
use sharded_raft_key_value_s.Raft.Handler.{send_receive_hb}
use sharded_raft_key_value_s.Raft.Candidate.{Ballot, start_as_cand, receive_vote}
use sharded_raft_key_value_s.Raft.Indexed.{index-get_last_log_entry}
use sharded_raft_key_value_s.Raft.Invariant.{IsBounded-mono, IsValid, Advances, persist-IsValid}
use sharded_raft_key_value_s.Raft.Invariant.Voting.{
  term_for_log_last, last_index, last_term, Advances-persist,
}

next-ne : (t : ℤ) → t +ℤ pos 1 ≢ t
next-ne t e = ground arith

module _ {C : Type 0} ⦃codec : Codec C⦄ where
  -- a new candidate: one term on, with its own vote
  abbrev pub standing : Raft C → Raft C
  standing rf = record rf { state = cand; term = rf.term +ℤ pos 1; voted_for = pos rf.me }

  pub start_as_cand-standing :
      (rf : Raft C)
      → IsValid rf
      → start_as_cand rf
        ≡ ok (
          record {
            heared_back = 1;
            votes = 1;
            need_return = false;
            args = record {
              peer_id = pos rf.me;
              term = rf.term +ℤ pos 1;
              last_log_index = last_index rf;
              last_log_term = last_term rf;
            };
          },
          persist (standing rf),
        )
  unfolding start_as_cand
  start_as_cand-standing rf v =
      rw
        (
          term_for_log_last (standing rf) v.indexed,
          index-get_last_log_entry (standing rf) v.indexed,
        )
        refl

  pub start_as_cand-IsValid :
      (rf : Raft C)
      → IsValid rf
      → IsValid (persist (standing rf)) × Advances rf (persist (standing rf))
  start_as_cand-IsValid rf v = (
    persist-IsValid (standing rf) (record {
      indexed = v.indexed;
      bounded = IsBounded-mono rf.term (rf.term +ℤ pos 1) rf.log (ground arith) v.bounded;
      numbered = v.numbered;
      committed = v.committed;
      applied = v.applied;
      leads = λ e. cc;
    }),
    Advances-persist
        (record { term_le = ground arith; vote = λ e n. absurd (next-ne rf.term e); me_eq = refl }),
  )

  -- a candidate that hears of a later term: a follower in that term, and awake
  abbrev pub beaten : ℤ → Raft C → Raft C
  beaten term rf = record rf { receive_hb = true; state = follwer; is_leader = false; term = term }

  beaten-IsValid :
      (rf : Raft C) (term : ℤ) → rf.term <ℤ term → IsValid rf → IsValid (beaten term rf)
  beaten-IsValid rf term h v = record {
    indexed = v.indexed;
    bounded = IsBounded-mono rf.term term rf.log (omega arith) v.bounded;
    numbered = v.numbered;
    committed = v.committed;
    applied = v.applied;
    leads = λ e. cc;
  }

  module _ (reply : RequestVoteReply) (b : Ballot) (rf : Raft C) where
    -- A vote reply of a later term that arrives within the interval, at a peer that is no
    -- follower and has room in its wake-up channel, ends the candidacy: the peer is a saved
    -- follower of that term, and the vote is not counted.
    pub receive_vote-beaten :
        b.need_return ≡ false
        → rf.term <ℤ reply.term
        → rf.state ≢ follwer
        → rf.receive_hb ≡ false
        → receive_vote true reply b rf
          ≡ ok (record b { heared_back = b.heared_back + 1 }, persist (beaten reply.term rf))
    unfolding receive_vote send_receive_hb set_follwer
    receive_vote-beaten t h s r = ground arith

    pub receive_vote-step :
        (arrived : Bool) {b' : Ballot} {rf' : Raft C}
        → receive_vote arrived reply b rf ≡ ok (b', rf')
        → (rf' ≡ rf) ⊎ ((rf' ≡ persist (beaten reply.term rf)) × (rf.term <ℤ reply.term))
    unfolding receive_vote send_receive_hb set_follwer
    receive_vote-step arrived h = ground arith

    pub receive_vote-IsValid :
        (arrived : Bool) {b' : Ballot} {rf' : Raft C}
        → receive_vote arrived reply b rf ≡ ok (b', rf')
        → IsValid rf
        → IsValid rf' × Advances rf rf'
    receive_vote-IsValid arrived {b'} {rf'} h v = elim (receive_vote-step arrived h) [
      | inl e ↦ rw e (v, record { term_le = omega arith; vote = λ _ _. refl; me_eq = refl })
      | inr (e, later) ↦ rw e (
        persist-IsValid _ (beaten-IsValid rf reply.term later v),
        Advances-persist (record {
          term_le = omega arith;
          vote = λ same _. absurd (omega (arith, ap pos_part same, ap neg_part same));
          me_eq = refl;
        }),
      )
    ]

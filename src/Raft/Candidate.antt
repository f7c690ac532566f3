-- ===== src/Raft/Candidate.antt =====
-- src/raft/raft.go `startAsCand`: one election. Its critical sections are the steps; `Ballot`
-- holds the local variables that the goroutines of one call share.
pub mod Counting
use sharded_raft_key_value_s.Prelude.{
  ℕ, ◌+◌, ◌/◌, Bool, true, false, not, ◌&&◌, ◌||◌, Outcome, ok, ◌>>=◌, ltb, ◌==◌, if◌then◌else◌,
}
use sharded_raft_key_value_s.Prelude.Int.{ℤ, pos, ◌+ℤ◌, ltb_ℤ}
use sharded_raft_key_value_s.Raft.Types.{
  State, cand, follwer, Election, did_not_win, win, RequestVoteArgs, RequestVoteReply,
}
use sharded_raft_key_value_s.Raft.Codec.{Codec}
use sharded_raft_key_value_s.Raft.Node.{Raft, set_follwer, persist}
use sharded_raft_key_value_s.Raft.Log.{get_last_log_entry, term_for_log}
use sharded_raft_key_value_s.Raft.Handler.{send_receive_hb}

pub record Ballot : Type 0 where
  pub heared_back : ℕ
  pub votes : ℕ
  pub need_return : Bool
  pub args : RequestVoteArgs

abbrev pub is_cand : State → Bool
is_cand cand = true
is_cand _ = false

abbrev pub is_follwer : State → Bool
is_follwer follwer = true
is_follwer _ = false

-- the goroutine that sleeps for `interval - 20` milliseconds
unfoldable pub time_out : Ballot → Ballot
time_out b = record b { need_return = true }

-- a vote counts only if the peer is still a candidate
unfoldable pub count_vote : RequestVoteReply → State → Ballot → Ballot
count_vote reply state b =
    if reply.vote_granted && is_cand state then record b { votes = b.votes + 1 } else b

-- `args`
unfoldable pub cand_args : {C : Type 0} → Raft C → ℤ → ℤ → RequestVoteArgs
cand_args rf last_index last_term = record {
  peer_id = pos rf.me;
  term = rf.term;
  last_log_index = last_index;
  last_log_term = last_term;
}

module _ {C : Type 0} ⦃codec : Codec C⦄ where
  -- the first critical section
  unfoldable pub start_as_cand : Raft C → Outcome (Ballot × Raft C)
  unfolding cand_args
  start_as_cand rf = do
    let rf = record rf { state = cand; term = rf.term +ℤ pos 1; voted_for = pos rf.me }
    let last_index = (get_last_log_entry rf).index
    last_term ← term_for_log rf last_index
    let args = cand_args rf last_index last_term
    ok (record { heared_back = 1; votes = 1; need_return = false; args = args }, persist rf)

  -- the goroutine of one peer, after `sendRequestVote` returned `arrived` and `reply`
  unfoldable pub receive_vote :
      Bool → RequestVoteReply → Ballot → Raft C → Outcome (Ballot × Raft C)
  unfolding count_vote
  receive_vote arrived reply b rf =
      let heared = record b { heared_back = b.heared_back + 1 } in
      if not arrived || b.need_return
      then ok (heared, rf)
      else if ltb_ℤ rf.term reply.term && not (is_follwer rf.state)
      then (do
        rf ← send_receive_hb rf
        ok (heared, persist (record (set_follwer rf) { term = reply.term })))
      else ok (count_vote reply rf.state heared, rf)

module _ {C : Type 0} where
  -- the condition of the loop around `cond.Wait()`
  unfoldable pub still_waits : Ballot → Raft C → Bool
  still_waits b rf =
      not (b.heared_back == rf.peer_number)
      && not (ltb (rf.peer_number / 2) b.votes)
      && not b.need_return
      && is_cand rf.state

  -- the decision, taken under the lock when the loop has ended
  unfoldable pub decide_election : Ballot → Raft C → Election
  decide_election b rf =
      if ltb (rf.peer_number / 2) b.votes && is_cand rf.state && not b.need_return
      then win
      else did_not_win

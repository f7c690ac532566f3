-- ===== src/Raft/Handler.antt =====
-- src/raft/handler.go: the two RPC handlers. Each runs under the peer's lock, so each is one step.
pub mod Matching
use sharded_raft_key_value_s.Prelude.{
  Bool, true, false, not, ◌&&◌, ◌||◌, List, [], ◌∷◌, ◌++◌, Option, none, some, Outcome, ok, blocked,
  ◌>>=◌, if◌then◌else◌, ◌≡◌, arith,
}
use sharded_raft_key_value_s.Prelude.Int.{ℤ, pos, minus_one, ◌+ℤ◌, ltb_ℤ, leb_ℤ, eqb_ℤ}
use sharded_raft_key_value_s.Raft.Types.{
  append, commit_and_heart_beat, heart_beat, Job, Entry, AppendEntriesArgs, AppendEntriesReply,
  RequestVoteArgs, RequestVoteReply, Link, connect, disconnect,
}
use sharded_raft_key_value_s.Raft.Codec.{Codec}
use sharded_raft_key_value_s.Raft.Slice.{slice_to}
use sharded_raft_key_value_s.Raft.Node.{Raft, set_follwer, persist}
use sharded_raft_key_value_s.Raft.Log.{
  get_last_log_entry, get_log_at_index, term_for_log, index_in_log, min_ℤ,
}
use sharded_raft_key_value_s.Raft.Apply.{start_apply}

module _ {C : Type 0} where
  -- `if len(log) > 0 { log[len(log)-1].Term = term }`
  unfoldable pub set_last_term : ℤ → List (Entry C) → List (Entry C)
  set_last_term term [] = []
  set_last_term term (e ∷ []) = record e { term = term } ∷ []
  set_last_term term (e ∷ f ∷ log) = e ∷ set_last_term term (f ∷ log)

  -- `ReceiveHB <- true`, a channel of capacity 1
  unfoldable pub send_receive_hb : Raft C → Outcome (Raft C)
  send_receive_hb rf = if rf.receive_hb then blocked else ok (record rf { receive_hb = true })

  -- `BecomeFollwerFromLeader <- true`
  unfoldable pub send_become_follwer : Raft C → Outcome (Raft C)
  send_become_follwer rf =
      if rf.become_follwer_from_leader
      then blocked
      else ok (record rf { become_follwer_from_leader = true })

  -- the wake-up of the goroutine that waits, for a leader and for any other peer
  unfoldable pub signal : Raft C → Outcome (Raft C)
  unfolding send_receive_hb send_become_follwer
  signal rf = if rf.is_leader then send_become_follwer rf else send_receive_hb rf

  -- the channel that `signal` sends on has room
  abbrev pub room : Raft C → Bool
  room rf = if rf.is_leader then not rf.become_follwer_from_leader else not rf.receive_hb

  -- the peer with that channel full
  abbrev pub woken : Raft C → Raft C
  woken rf = record rf {
    receive_hb = rf.receive_hb || not rf.is_leader;
    become_follwer_from_leader = rf.become_follwer_from_leader || rf.is_leader;
  }

  pub signal-woken : (rf : Raft C) → room rf ≡ true → signal rf ≡ ok (woken rf)
  unfolding signal
  signal-woken rf h = ground arith

  pub signal-blocked : (rf : Raft C) → room rf ≡ false → signal rf ≡ blocked
  unfolding signal
  signal-blocked rf h = ground arith

  -- the branch `args.Job == Append` of `HandleAppendEntries`
  unfoldable pub append_log :
      AppendEntriesArgs C → AppendEntriesReply → Raft C → Outcome (AppendEntriesReply × Raft C)
  append_log args reply rf = do
    (entr, find) ← get_log_at_index rf args.prev_log_index
    if not find
        then ok (record reply { last_index = (get_last_log_entry rf).index; success = false }, rf)
        else if not (eqb_ℤ entr.term args.prev_log_term)
        then (do
          log ← slice_to rf.log (index_in_log args.prev_log_index)
          ok (record reply { last_index = minus_one; success = false }, record rf { log = log }))
        else do
          log ← slice_to rf.log (index_in_log (args.prev_log_index +ℤ pos 1))
          ok (
            record reply { last_index = minus_one; success = true },
            record rf { log = set_last_term args.term (log ++ args.entries) },
          )

  -- the branch `args.Job == CommitAndHeartBeat`
  unfoldable pub commit_log : AppendEntriesArgs C → Raft C → Outcome (Raft C)
  commit_log args rf =
      let commit = min_ℤ args.leader_commit (get_last_log_entry rf).index in
      start_apply commit (record rf { commit_index = commit })

  unfoldable pub dispatch_job :
      Job
      → AppendEntriesArgs C
      → AppendEntriesReply
      → Raft C
      → Outcome (AppendEntriesReply × Raft C)
  dispatch_job append args reply rf = append_log args reply rf
  dispatch_job commit_and_heart_beat args reply rf = do rf ← commit_log args rf; ok (reply, rf)
  dispatch_job heart_beat args reply rf = ok (reply, rf)

  unfoldable pub check_network : Raft C → Bool
  check_network rf = elim rf.network [ disconnect ↦ false | connect ↦ true ]

  -- `Connect`, `Disconnect`
  unfoldable pub set_network : Link → Raft C → Raft C
  set_network link rf = record rf { network = link }

-- the vote condition
unfoldable pub may_vote : ℤ → ℤ → ℤ → RequestVoteArgs → Bool
may_vote voted_for last_index last_term args =
    eqb_ℤ voted_for minus_one
    && (ltb_ℤ last_term args.last_log_term
        || (eqb_ℤ last_term args.last_log_term && leb_ℤ last_index args.last_log_index))

module _ {C : Type 0} ⦃codec : Codec C⦄ where
  unfoldable pub handle_append_entries :
      AppendEntriesArgs C → AppendEntriesReply → Raft C → Outcome (AppendEntriesReply × Raft C)
  handle_append_entries args reply rf =
      if leb_ℤ rf.term args.term
      then (do
        rf ← signal (record rf { term = args.term })
        let rf = set_follwer rf
        (reply, rf) ←
            dispatch_job args.job args (record reply { success = true; term = rf.term }) rf
        ok (reply, persist rf))
      else ok (record reply { term = rf.term; success = false }, persist rf)

  -- the first `if` of `HandleRequestVote`
  unfoldable pub adopt_term : ℤ → Raft C → Outcome (Raft C)
  adopt_term term rf =
      if ltb_ℤ rf.term term
      then (do
        rf ← signal (record rf { term = term })
        ok (record (set_follwer rf) { voted_for = minus_one }))
      else ok rf

  unfoldable pub handle_request_vote :
      RequestVoteArgs → Raft C → Outcome (RequestVoteReply × Raft C)
  handle_request_vote args rf = do
    let last_index = (get_last_log_entry rf).index
    last_term ← term_for_log rf last_index
    rf ← adopt_term args.term rf
    let granted = may_vote rf.voted_for last_index last_term args
    let rf = if granted then record rf { voted_for = args.peer_id } else rf
    ok (record { term = rf.term; vote_granted = granted; state = rf.state }, persist rf)

  -- `HandleAppendEntriesRun`, `HandleRequestVoteRun`: `none` is the error of a disconnected peer
  unfoldable pub handle_append_entries_run :
      AppendEntriesArgs C
      → AppendEntriesReply
      → Raft C
      → Option (Outcome (AppendEntriesReply × Raft C))
  handle_append_entries_run args reply rf =
      if check_network rf then some (handle_append_entries args reply rf) else none

  unfoldable pub handle_request_vote_run :
      RequestVoteArgs → Raft C → Option (Outcome (RequestVoteReply × Raft C))
  handle_request_vote_run args rf =
      if check_network rf then some (handle_request_vote args rf) else none

-- ===== src/Raft/Replicate.antt =====
-- src/raft/raft.go `StartOnePeerAppend`: brings the log of one peer up to the leader's. `rpc` stands
-- for `sendAppendEntries` on the peer and the network, in state `W`: no reply is `ok == false`.
pub mod Request
pub mod Delivery
pub mod Matches
pub mod Converges
pub mod Commits
use sharded_raft_key_value_s.Prelude.{
  ℕ, zero, suc, Bool, true, false, not, ◌&&◌, Option, none, some, List, [], ◌∷◌, ◌++◌, Outcome, ok,
  ◌>>=◌, length, nat_eq, if◌then◌else◌,
}
use sharded_raft_key_value_s.Prelude.Int.{ℤ, pos, minus_one, ◌+ℤ◌, ◌-ℤ◌, eqb_ℤ, pos_part}
use sharded_raft_key_value_s.Prelude.Dict.{insert, get_or}
use sharded_raft_key_value_s.Raft.Types.{append, Entry, AppendEntriesArgs, AppendEntriesReply}
use sharded_raft_key_value_s.Raft.Slice.{slice_from}
use sharded_raft_key_value_s.Raft.Node.{Raft}
use sharded_raft_key_value_s.Raft.Log.{
  get_last_log_entry, get_log_at_index, term_for_log, index_in_log,
}
use sharded_raft_key_value_s.Raft.Apply.{start_apply}
use sharded_raft_key_value_s.Raft.Leader.{is_leader_state, mark_dead, update_commit_for_leader}

module _ {C : Type 0} where
  -- the loop that copies the entries from `i` on, on the rounds left
  unfoldable pub collect_entries : ℕ → ℤ → List (Entry C) → Raft C → Outcome (List (Entry C))
  collect_entries zero i entries rf = ok entries
  collect_entries (suc n) i entries rf = do
    (entry, find) ← get_log_at_index rf i
    let rest = collect_entries n (i +ℤ pos 1) (entries ++ entry ∷ []) rf
    if find then rest else ok []

  -- the first critical section
  unfoldable pub append_args : ℕ → Raft C → Outcome (AppendEntriesArgs C)
  unfolding collect_entries
  append_args server rf = do
    let known = get_or server (pos 0) rf.match_index
    let rounds = pos_part ((get_last_log_entry rf).index -ℤ known)
    entries ← collect_entries rounds (known +ℤ pos 1) [] rf
    prev_term ← term_for_log rf known
    ok (record {
      job = append;
      term = rf.term;
      leader_id = pos rf.me;
      entries = entries;
      prev_log_index = known;
      prev_log_term = prev_term;
      leader_commit = rf.commit_index;
    })

  -- the critical section before the RPC
  unfoldable pub may_send : ℕ → Raft C → Bool
  may_send server rf = get_or server false rf.peer_alive && rf.is_leader

  -- `if rf.updateCommitForLeader() && rf.IsLeader`
  unfoldable pub commit_for_leader : Raft C → Outcome (Raft C)
  commit_for_leader rf =
      let (updated, rf) = update_commit_for_leader rf in
      if updated && rf.is_leader then start_apply rf.commit_index rf else ok rf

  -- the critical section after a reply with `Success`
  unfoldable pub append_success : ℕ → AppendEntriesArgs C → Raft C → Outcome (Raft C)
  append_success server args rf =
      let known = pos (length args.entries) +ℤ args.prev_log_index in
      commit_for_leader (record rf {
        match_index = insert server known rf.match_index;
        next_index = insert server (known +ℤ pos 1) rf.next_index;
        open_commit = insert server true rf.open_commit;
        peer_alive = insert server true rf.peer_alive;
      })

  -- the critical section after any other reply
  unfoldable pub append_retry :
      ℕ → AppendEntriesReply → AppendEntriesArgs C → Raft C → Outcome (AppendEntriesArgs C × Raft C)
  append_retry server reply args rf = do
    let prev =
        if not (eqb_ℤ reply.last_index minus_one)
        then reply.last_index
        else args.prev_log_index -ℤ pos 1
    prev_term ← term_for_log rf prev
    entries ← slice_from rf.log (index_in_log (prev +ℤ pos 1))
    ok (
      record args {
        term = rf.term;
        leader_commit = rf.commit_index;
        prev_log_index = prev;
        prev_log_term = prev_term;
        entries = entries;
      },
      record rf { peer_alive = insert server true rf.peer_alive },
    )

  -- what the loop does with an answer; `resend` is the next round
  unfoldable pub react :
      {W : Type 0} (server : ℕ) (args : AppendEntriesArgs C) (rf : Raft C) (w : W)
      → (AppendEntriesArgs C → Raft C → W → Outcome (Option Bool × Raft C × W))
      → Option AppendEntriesReply
      → Outcome (Option Bool × Raft C × W)
  react server args rf w resend none = ok (some false, mark_dead server rf, w)
  react server args rf w resend (some reply) =
      if reply.success
      then (do rf ← append_success server args rf; ok (some true, rf, w))
      else do (args, rf) ← append_retry server reply args rf; resend args rf w

-- no other goroutine of the peer does anything
abbrev pub undisturbed : {C W : Type 0} → W → Raft C → Raft C
undisturbed w rf = rf

-- `meanwhile` is what the other goroutines do to the peer from one of its locked sections here to
-- the next
module _ {C W : Type 0} (meanwhile : W → Raft C → Raft C)
    (rpc : AppendEntriesArgs C → W → Outcome (Option AppendEntriesReply × W)) where
  -- the loop; `none` is a loop that has used up its rounds
  unfoldable pub append_loop :
      ℕ → ℕ → AppendEntriesArgs C → Raft C → W → Outcome (Option Bool × Raft C × W)
  append_loop zero server args rf w = ok (none, rf, w)
  append_loop (suc n) server args rf w =
      let resend = append_loop n server in
      let asked = meanwhile w rf in
      let tested = meanwhile w asked in
      let rf = meanwhile w tested in
      if is_leader_state asked.state && not tested.dead && may_send server rf
      then (do (answer, w) ← rpc args w; react server args (meanwhile w rf) w resend answer)
      else ok (some false, rf, w)

  unfoldable pub start_one_peer_append : ℕ → ℕ → Raft C → W → Outcome (Option Bool × Raft C × W)
  start_one_peer_append rounds server rf w =
      let locked = meanwhile w rf in
      if is_leader_state rf.state
      then (do args ← append_args server locked; append_loop rounds server args locked w)
      else ok (some false, rf, w)

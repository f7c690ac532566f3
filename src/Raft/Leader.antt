-- ===== src/Raft/Leader.antt =====
-- src/raft/raft.go `startAsLeader`, `sendHeartBeat`, `Start`, `updateCommitForLeader`, cut into their
-- critical sections.
pub mod Majority
pub mod Starting
use sharded_raft_key_value_s.Prelude.{
  ℕ, zero, suc, ◌+◌, ◌/◌, Bool, true, false, not, ◌&&◌, ◌||◌, Option, none, some, List, [], ◌∷◌,
  ◌++◌, Outcome, ok, ◌>>=◌, leb, ◌==◌, nat_eq, if◌then◌else◌,
}
use sharded_raft_key_value_s.Prelude.Int.{ℤ, pos, minus_one, ◌+ℤ◌, ◌-ℤ◌, ltb_ℤ, leb_ℤ, pos_part}
use sharded_raft_key_value_s.Prelude.Dict.{Dict, insert, get_or}
use sharded_raft_key_value_s.Raft.Types.{
  State, leader, commit_and_heart_beat, heart_beat, Entry, AppendEntriesArgs, AppendEntriesReply,
}
use sharded_raft_key_value_s.Raft.Codec.{Codec}
use sharded_raft_key_value_s.Raft.Node.{Raft, set_leader, set_follwer, persist}
use sharded_raft_key_value_s.Raft.Log.{get_last_log_entry}
use sharded_raft_key_value_s.Raft.Handler.{set_last_term, send_become_follwer}

abbrev pub is_leader_state : State → Bool
is_leader_state leader = true
is_leader_state _ = false

module _ {C : Type 0} where
  -- one round of the loop over the peers in `startAsLeader`
  unfoldable pub init_peer : ℕ → Raft C → Raft C
  unfolding set_last_term
  init_peer server rf = record rf {
    next_index = insert server ((get_last_log_entry rf).index +ℤ pos 1) rf.next_index;
    match_index = insert server (pos 0) rf.match_index;
    peer_alive = insert server false rf.peer_alive;
    open_commit = insert server false rf.open_commit;
    log = set_last_term rf.term rf.log;
  }

  -- the loop, on the rounds left and the next peer
  unfoldable pub init_peers : ℕ → ℕ → Raft C → Raft C
  init_peers zero server rf = rf
  init_peers (suc n) server rf = init_peers n (server + 1) (init_peer server rf)

  -- the critical section of `startAsLeader`
  unfoldable pub start_as_leader : Raft C → Raft C
  unfolding init_peers
  start_as_leader rf = set_leader (init_peers rf.peer_number 0 rf)

  -- the arguments that `sendHeartBeat` prepares for one peer
  unfoldable pub heart_beat_args : ℕ → Raft C → AppendEntriesArgs C
  heart_beat_args server rf = record {
    job = if get_or server false rf.open_commit then commit_and_heart_beat else heart_beat;
    term = rf.term;
    leader_id = pos rf.me;
    entries = [];
    prev_log_index = pos 0;
    prev_log_term = pos 0;
    leader_commit = rf.commit_index;
  }

  -- what `sendHeartBeat` sends in one call: the lock is released between two peers, and this is
  -- the run that nothing interrupts
  unfoldable pub heart_beats : ℕ → ℕ → Raft C → List (ℕ × AppendEntriesArgs C)
  heart_beats zero server rf = []
  heart_beats (suc n) server rf =
      let rest = heart_beats n (server + 1) rf in
      if server == rf.me then rest else (server, heart_beat_args server rf) ∷ rest

  unfoldable pub send_heart_beat : Raft C → List (ℕ × AppendEntriesArgs C)
  unfolding heart_beats
  send_heart_beat rf = if is_leader_state rf.state then heart_beats rf.peer_number 0 rf else []

  -- a peer that cannot be reached
  unfoldable pub mark_dead : ℕ → Raft C → Raft C
  mark_dead server rf = record rf {
    peer_alive = insert server false rf.peer_alive;
    open_commit = insert server false rf.open_commit;
  }

module _ {C : Type 0} ⦃codec : Codec C⦄ where
  -- the goroutine of one heartbeat; the result says whether it starts `StartOnePeerAppend`
  unfoldable pub receive_heart_beat :
      ℕ → Bool → AppendEntriesReply → Raft C → Outcome (Bool × Raft C)
  receive_heart_beat server arrived reply rf =
      if not arrived
      then ok (false, mark_dead server rf)
      else if ltb_ℤ rf.term reply.term && is_leader_state rf.state
      then (do
        rf ← send_become_follwer (record rf { term = reply.term })
        ok (false, persist (set_follwer rf)))
      else if not (get_or server false rf.peer_alive) && is_leader_state rf.state
      then ok (true, record rf { peer_alive = insert server true rf.peer_alive })
      else ok (false, rf)

  -- the first critical section of `Start`, entered if the state was `Leader` just before it: the
  -- index and the term of the new entry
  unfoldable pub start : Option C → Raft C → ℤ × ℤ × Raft C
  start command rf =
      let entry : Entry C = record {
        index = (get_last_log_entry rf).index +ℤ pos 1;
        command = command;
        term = rf.term;
        id = pos 0;
      } in
      let rf' = record rf { log = rf.log ++ entry ∷ [] } in
      ((get_last_log_entry rf').index, rf.term, persist rf')

-- the peers other than `me` that are alive and known to hold entry `index`
unfoldable pub count_granted : ℕ → Dict ℕ Bool → ℤ → Dict ℕ ℤ → ℕ
count_granted me peer_alive index [] = 0
count_granted me peer_alive index ((server, match_index) ∷ rest) =
    (if server == me || not (get_or server false peer_alive)
      then 0
      else if leb_ℤ index match_index
      then 1
      else 0)
    + count_granted me peer_alive index rest

module _ {C : Type 0} where
  -- the condition of the loop around `cond.Wait()` in `Start`
  unfoldable pub start_waits : ℕ → ℤ → Raft C → Bool
  start_waits heared_back index rf =
      not (heared_back == rf.peer_number) && ltb_ℤ rf.commit_index index && rf.is_leader

  -- what `Start` returns when the loop has ended
  unfoldable pub start_result : ℤ → ℤ → Raft C → ℤ × ℤ × Bool
  start_result index term rf =
      if rf.is_leader then (index, term, true) else (minus_one, minus_one, false)

  unfoldable pub granted : Raft C → ℤ → ℕ
  unfolding count_granted
  granted rf index = 1 + count_granted rf.me rf.peer_alive index rf.match_index

  unfoldable pub has_majority : Raft C → ℤ → Bool
  has_majority rf index = leb (rf.peer_number / 2 + 1) (granted rf index)

  -- the loop of `updateCommitForLeader`, on the rounds left; it does not stop at a gap
  unfoldable pub last_committed : ℕ → ℤ → ℤ → Raft C → ℤ
  last_committed zero begin_index found rf = found
  last_committed (suc n) begin_index found rf =
      last_committed n (begin_index +ℤ pos 1)
        (if has_majority rf begin_index then begin_index else found) rf

  unfoldable pub update_commit_for_leader : Raft C → Bool × Raft C
  unfolding last_committed
  update_commit_for_leader rf =
      let rounds = pos_part ((get_last_log_entry rf).index -ℤ rf.commit_index) in
      let found = last_committed rounds (rf.commit_index +ℤ pos 1) minus_one rf in
      if ltb_ℤ rf.commit_index found && rf.is_leader
      then (true, record rf { commit_index = found })
      else (false, rf)

-- the peers for which `Start` begins `StartOnePeerAppend`, on the rounds left
unfoldable pub started_peers : ℕ → ℕ → ℕ → List ℕ
started_peers zero server me = []
started_peers (suc n) server me =
    let rest = started_peers n (server + 1) me in if server == me then rest else server ∷ rest

module _ {C : Type 0} where
  -- the loop around `cond.Wait()`, on `hearedBack` and the peer at each test; `none` still waits
  unfoldable pub start_wait : ℤ → ℤ → List (ℕ × Raft C) → Option (ℤ × ℤ × Bool)
  unfolding start_waits start_result
  start_wait index term [] = none
  start_wait index term ((heared_back, rf) ∷ tests) =
      let rest = start_wait index term tests in
      if start_waits heared_back index rf then rest else some (start_result index term rf)

  -- `Start`, on the peer at `rf.getState()`, in the first critical section, and at the tests
  unfoldable pub start_call :
      ⦃codec : Codec C⦄ → Option C → Raft C → Raft C → List (ℕ × Raft C) → Option (ℤ × ℤ × Bool)
  unfolding start start_wait
  start_call command checked entered tests =
      let (index, term, _) = start command entered in
      let answer = start_wait index term tests in
      if is_leader_state checked.state then answer else some (minus_one, minus_one, false)

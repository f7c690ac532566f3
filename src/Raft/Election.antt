-- ===== src/Raft/Election.antt =====
-- src/raft/raft.go `startElection`: the goroutine of a peer that waits for the end of its timer,
-- stands as a candidate, leads, and waits again; and the loop of `startAsLeader`. Times are
-- milliseconds.
pub mod Timing
pub mod Waking
pub mod Beating
use sharded_raft_key_value_s.Prelude.{
  ℕ, ◌+◌, ◌-◌, ◌≤◌, ◌<◌, ◌≡◌, Bool, true, false, not, Option, none, some, List, [], ◌∷◌,
  if◌then◌else◌,
}
use sharded_raft_key_value_s.Raft.Types.{Election, did_not_win, win, AppendEntriesArgs}
use sharded_raft_key_value_s.Raft.Node.{Raft}
use sharded_raft_key_value_s.Raft.Leader.{is_leader_state, start_as_leader, send_heart_beat}
use sharded_raft_key_value_s.Raft.Trace.{take_receive_hb, take_become_follwer}

-- Where the goroutine is: in the loop `Loop`, at `<-rf.BecomeFollwerFromLeader`, or at its end.
pub data Stage : Type 0 where
  choosing awaiting ended : Stage

-- Its variables: when the ticker fires next, the channel `electionResult`, and for each call of
-- `startAsCand` that it has started for this channel, when its interval ends.
pub record Elector : Type 0 where
  pub stage : Stage
  pub ticks_at : ℕ
  pub result : Option Election
  pub deadlines : List ℕ

-- `diff`
abbrev pub time_range : ℕ
time_range = 700 - 350

-- of what `r.Intn` returns
unfoldable pub generate_time : (ℕ → ℕ) → ℕ
generate_time intn = 350 + intn time_range

-- the body of the outer loop before `Loop`; the old channel is left to the calls that hold it
unfoldable pub begin_round : ℕ → ℕ → Elector
begin_round now time = record {
  stage = choosing;
  ticks_at = now + time;
  result = none;
  deadlines = [];
}

-- `case <-ticker.C`; `startAsCand(interval)` gives up after `interval - 20` milliseconds, and
-- `delay` more for the starts of its goroutines and for the lock
unfoldable pub on_tick : ℕ → ℕ → ℕ → Elector → Elector
on_tick now interval delay e = record e {
  ticks_at = now + interval;
  deadlines = (now + (interval - 20) + delay) ∷ e.deadlines;
}

-- `case <-rf.ReceiveHB`
unfoldable pub on_receive_hb : ℕ → ℕ → Elector → Elector
on_receive_hb now time e = record e { ticks_at = now + time }

-- `case a := <-electionResult`; the loop is left to lead
unfoldable pub on_result : Election → Elector → Elector
on_result win e = record e { stage = awaiting; result = none }
on_result did_not_win e = record e { result = none }

-- `for !rf.killed()` of the inner loop has ended
unfoldable pub on_killed : Elector → Elector
on_killed e = record e { stage = awaiting }

-- `<-rf.BecomeFollwerFromLeader` is over, and the outer loop tests `rf.killed()`
unfoldable pub on_become_follwer : ℕ → ℕ → Bool → Elector → Elector
unfolding begin_round
on_become_follwer now time dead e =
    if dead then record e { stage = ended } else begin_round now time

-- A round of the loop of `startAsLeader`: the peer as `rf.killed()` finds it, as the goroutine of
-- `sendHeartBeat` finds it, which may be later or earlier than the next, and as `rf.getState()`
-- finds it after the sleep.
pub record Round (C : Type 0) : Type 0 where
  pub at_test : Raft C
  pub at_send : Raft C
  pub after : Raft C

module _ {C : Type 0} where
  -- the loop of `startAsLeader`, on its rounds: what it sends in each
  unfoldable pub lead_loop : List (Round C) → List (List (ℕ × AppendEntriesArgs C))
  lead_loop [] = []
  lead_loop (r ∷ later) =
      let rest = lead_loop later in
      if r.at_test.dead
      then []
      else send_heart_beat r.at_send ∷ (if is_leader_state r.after.state then rest else [])

-- One turn of the goroutine at the time `now`, or a call of `startAsCand` that sends its result on
-- the channel. `time` is what `generateTime` returns.
pub data Turn {C : Type 0} (now time : ℕ) : Elector × Raft C → Elector × Raft C → Type 0 where
  tick :
      (e : Elector) (rf : Raft C) (delay : ℕ)
      → e.stage ≡ choosing
      → e.ticks_at ≤ now
      → Turn now time (e, rf) (on_tick now time delay e, rf)
  hear :
      (e : Elector) (rf : Raft C)
      → e.stage ≡ choosing
      → rf.receive_hb ≡ true
      → Turn now time (e, rf) (on_receive_hb now time e, take_receive_hb rf)
  report :
      (e : Elector) (rf : Raft C) (a : Election)
      → e.result ≡ none
      → Turn now time (e, rf) (record e { result = some a }, rf)
  learn :
      (e : Elector) (rf : Raft C) (a : Election)
      → e.stage ≡ choosing
      → e.result ≡ some a
      → Turn now time (e, rf) (on_result a e, rf)
  give_up :
      (e : Elector) (rf : Raft C)
      → e.stage ≡ choosing
      → rf.dead ≡ true
      → Turn now time (e, rf) (on_killed e, rf)
  return :
      (e : Elector) (rf : Raft C)
      → e.stage ≡ awaiting
      → rf.become_follwer_from_leader ≡ true
      → Turn now time (e, rf) (on_become_follwer now time rf.dead e, take_become_follwer rf)

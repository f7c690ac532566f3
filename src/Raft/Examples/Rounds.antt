-- ===== src/Raft/Examples/Rounds.antt =====
-- A leader's rounds of heartbeats, and the election goroutine of a follower and of a leader.
use sharded_raft_key_value_s.Prelude.{
  ℕ, ◌+◌, ◌≤◌, ◌<◌, ◌≡◌, refl, true, false, some, [], ◌∷◌, inr, ok, arith, nat_eq,
}
use sharded_raft_key_value_s.Prelude.Int.{pos}
use sharded_raft_key_value_s.Prelude.Dict.{lookup}
use sharded_raft_key_value_s.Raft.Types.{follwer, did_not_win, RequestVoteReply}
use sharded_raft_key_value_s.Raft.Node.{Raft, persist}
use sharded_raft_key_value_s.Raft.Handler.{room}
use sharded_raft_key_value_s.Raft.Candidate.{receive_vote}
use sharded_raft_key_value_s.Raft.Invariant.Standing.{beaten, receive_vote-beaten}
use sharded_raft_key_value_s.Raft.Leader.{heart_beat_args, send_heart_beat}
use sharded_raft_key_value_s.Raft.Election.{
  awaiting, Elector, generate_time, begin_round, on_tick, on_result, lead_loop, tick, report, learn,
}
use sharded_raft_key_value_s.Raft.Election.Timing.{Quiet, still, turn, GivenUp, on_tick-GivenUp}
use sharded_raft_key_value_s.Raft.Election.Waking.{
  Turns, idle, and_then, Wakes, Fits-Wakes, receive_vote-stuck,
}
use sharded_raft_key_value_s.Raft.Election.Beating.{lookup-send_heart_beat}
use sharded_raft_key_value_s.Raft.Examples.Disk.{number_codec}
use sharded_raft_key_value_s.Raft.Examples.Peers.{follower, boss}
use sharded_raft_key_value_s.Raft.Examples.Votes.{first_ballot}

lookup-send_heart_beat_example : lookup 2 (send_heart_beat boss) ≡ some (heart_beat_args 2 boss)
lookup-send_heart_beat_example = lookup-send_heart_beat boss 2

abbrev stopped : Raft ℕ
stopped = record boss { dead = true }

-- a last round that still sends, since the peer is killed after the test
last_round :
    lead_loop (
      record { at_test = boss; at_send = boss; after = stopped }
      ∷ record { at_test = stopped; at_send = boss; after = boss }
      ∷ [])
    ≡ send_heart_beat boss ∷ []
unfolding lead_loop
last_round = refl

-- the ticker has fired once, and the election is lost
abbrev one_tick : Elector
one_tick = on_tick 500 (generate_time (λ _. 100)) 3 (begin_round 0 450)

abbrev one_lost : Elector
one_lost = on_result did_not_win (record one_tick { result = some did_not_win })

quiet : Quiet ℕ 5 (begin_round 0 450) one_lost
unfolding on_tick begin_round on_result
quiet =
    turn 900 (λ _. 100) follower follower
      (turn 800 (λ _. 100) follower follower
        (turn 500 (λ _. 100) follower follower still (omega arith) refl
          (tick (begin_round 0 450) follower 3 refl (omega arith)) (omega arith))
        (omega arith) refl (report one_tick follower did_not_win refl) tt)
      (omega arith) refl
      (learn (record one_tick { result = some did_not_win }) follower did_not_win refl refl) tt

on_tick-GivenUp_example :
    GivenUp 5 960 one_lost.deadlines
    × (960 + 350 ≤ (on_tick 960 (generate_time (λ _. 7)) 4 one_lost).ticks_at)
    × ((on_tick 960 (generate_time (λ _. 7)) 4 one_lost).ticks_at < 960 + 700)
unfolding on_tick generate_time on_result begin_round
on_tick-GivenUp_example =
    on_tick-GivenUp ℕ 5 0 450 960 4 (λ _. 7) one_lost quiet (omega arith) (omega arith)

-- the goroutine of a leader
abbrev leading : Elector
leading = record (begin_round 0 450) { stage = awaiting }

Fits-Wakes_example :
    Wakes (leading, record follower { become_follwer_from_leader = true; receive_hb = true })
Fits-Wakes_example =
    Fits-Wakes leading (record follower { become_follwer_from_leader = true; receive_hb = true })
      refl (inr (refl, inr (refl, refl)))

abbrev late_reply : RequestVoteReply
late_reply = record { term = pos 5; vote_granted = false; state = follwer }

abbrev fallen : Raft ℕ
fallen = persist (beaten (pos 5) boss)

beats :
    receive_vote true late_reply first_ballot boss
    ≡ ok (record first_ballot { heared_back = 2 }, fallen)
beats = receive_vote-beaten late_reply first_ballot boss refl (omega arith) (λ e. cc) refl

abbrev informed : Elector
informed = record leading { result = some did_not_win }

turns : Turns (leading, fallen) (informed, fallen)
unfolding begin_round
turns = and_then 1000 400 idle (report leading fallen did_not_win refl)

receive_vote-stuck_example :
    (fallen.term ≡ pos 5)
    × (fallen.is_leader ≡ false)
    × (informed.stage ≡ awaiting)
    × (room fallen ≡ false)
receive_vote-stuck_example =
    receive_vote-stuck leading informed first_ballot (record first_ballot { heared_back = 2 })
      late_reply boss fallen fallen refl refl refl refl (omega arith) beats turns

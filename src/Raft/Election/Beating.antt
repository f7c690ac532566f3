-- ===== src/Raft/Election/Beating.antt =====
-- The heartbeats of a leader (src/raft/raft.go `startAsLeader`, `sendHeartBeat`).
use sharded_raft_key_value_s.Prelude.{
  ℕ, zero, suc, ◌+◌, ◌≡◌, not, ◌&&◌, Option, none, some, arith, ltb, leb, ◌==◌, nat_eq,
  if◌then◌else◌,
}
use sharded_raft_key_value_s.Prelude.Dict.{lookup}
use sharded_raft_key_value_s.Raft.Types.{AppendEntriesArgs}
use sharded_raft_key_value_s.Raft.Node.{Raft}
use sharded_raft_key_value_s.Raft.Leader.{
  is_leader_state, heart_beat_args, heart_beats, send_heart_beat,
}

module _ {C : Type 0} where
  -- the peers from `server` on, as many as `n`, get their request, but `me`
  abbrev sent : ℕ → ℕ → Raft C → ℕ → Option (AppendEntriesArgs C)
  sent n server rf j =
      if leb server j && (ltb j (server + n) && not (j == rf.me))
      then some (heart_beat_args j rf)
      else none

  lookup-heart_beats :
      (n server : ℕ) (rf : Raft C) (j : ℕ) → lookup j (heart_beats n server rf) ≡ sent n server rf j
  unfolding heart_beats lookup
  lookup-heart_beats zero server rf j = ground arith
  lookup-heart_beats (suc n) server rf j =
      let rest = lookup-heart_beats n (server + 1) rf j in ground arith

  -- A leader sends in a round to each of its peers but itself what it has prepared for this one,
  -- and a peer that is not in the state of a leader sends nothing.
  pub lookup-send_heart_beat :
      (rf : Raft C) (j : ℕ)
      → lookup j (send_heart_beat rf) ≡ (
          if is_leader_state rf.state && (ltb j rf.peer_number && not (j == rf.me))
          then some (heart_beat_args j rf)
          else none)
  unfolding send_heart_beat lookup
  lookup-send_heart_beat rf j = let all = lookup-heart_beats rf.peer_number 0 rf j in ground arith

-- ===== src/Raft/Apply.antt =====
-- src/raft/raft.go `startApply`: hands the committed commands to the service, in order.
pub mod Order
use sharded_raft_key_value_s.Prelude.{
  ℕ, zero, suc, true, not, ◌&&◌, [], ◌∷◌, ◌++◌, Outcome, ok, ◌>>=◌, if◌then◌else◌,
}
use sharded_raft_key_value_s.Prelude.Int.{ℤ, pos, ◌+ℤ◌, ◌-ℤ◌, ltb_ℤ, pos_part}
use sharded_raft_key_value_s.Raft.Slice.{at}
use sharded_raft_key_value_s.Raft.Node.{Raft}
use sharded_raft_key_value_s.Raft.Log.{index_in_log}

module _ {C : Type 0} where
  unfoldable pub apply_one : Raft C → Outcome (Raft C)
  apply_one rf = do
    let next = rf.last_apply +ℤ pos 1
    entry ← at rf.log (index_in_log next)
    ok (record rf {
      last_apply = next;
      apply_chan =
          rf.apply_chan
          ++ record { command = entry.command; command_valid = true; command_index = next } ∷ [];
    })

  -- the loop, on the rounds left
  unfoldable pub apply_loop : ℕ → ℤ → Raft C → Outcome (Raft C)
  unfolding apply_one
  apply_loop zero commit_index rf = ok rf
  apply_loop (suc n) commit_index rf =
      let rest = apply_one rf >>= apply_loop n commit_index in
      if ltb_ℤ rf.last_apply commit_index && not rf.dead then rest else ok rf

  unfoldable pub start_apply : ℤ → Raft C → Outcome (Raft C)
  unfolding apply_loop
  start_apply commit_index rf =
      apply_loop (pos_part (commit_index -ℤ rf.last_apply)) commit_index rf

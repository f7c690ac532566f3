-- ===== src/Raft/Log.antt =====
-- src/raft/getters.go: positions in the log. Entry `i` of a log that begins with index 1 stands at
-- position `i - 1`.
use sharded_raft_key_value_s.Prelude.{
  Bool, true, false, ◌||◌, List, [], ◌∷◌, String, Outcome, ok, ◌>>=◌, if◌then◌else◌,
}
use sharded_raft_key_value_s.Prelude.Int.{ℤ, pos, minus_one, ◌-ℤ◌, ltb_ℤ, eqb_ℤ}
use sharded_raft_key_value_s.Raft.Types.{Entry, zero_entry, leader, cand, follwer}
use sharded_raft_key_value_s.Raft.Slice.{at, last_or}
use sharded_raft_key_value_s.Raft.Node.{Raft}

module _ {C : Type 0} where
  -- `getLastLogEntryWithoutLock`
  unfoldable pub get_last_log_entry : Raft C → Entry C
  unfolding last_or
  get_last_log_entry rf = last_or zero_entry rf.log

  abbrev pub is_nil : List (Entry C) → Bool
  is_nil [] = true
  is_nil (_ ∷ _) = false

  -- `getLogAtIndexWithoutLock`
  unfoldable pub get_log_at_index : Raft C → ℤ → Outcome (Entry C × Bool)
  unfolding at
  get_log_at_index rf index =
      if eqb_ℤ index (pos 0)
      then ok (zero_entry, true)
      else if is_nil rf.log
      then ok (zero_entry, false)
      else if ltb_ℤ index minus_one || ltb_ℤ (get_last_log_entry rf).index index
      then ok (zero_entry, false)
      else do first ← at rf.log (pos 0); entry ← at rf.log (index -ℤ first.index); ok (entry, true)

  unfoldable pub term_for_log : Raft C → ℤ → Outcome ℤ
  term_for_log rf index = do
    (entry, found) ← get_log_at_index rf index
    ok (if found then entry.term else minus_one)

-- `indexInLog`
unfoldable pub index_in_log : ℤ → ℤ
index_in_log index = if ltb_ℤ (pos 0) index then index -ℤ pos 1 else minus_one

-- `min`
unfoldable pub min_ℤ : ℤ → ℤ → ℤ
min_ℤ a b = if ltb_ℤ a b then a else b

module _ {C : Type 0} where
  -- `GetState`, `GetState2`
  unfoldable pub get_state : Raft C → ℤ × Bool
  get_state rf = (rf.term, rf.is_leader)

  unfoldable pub get_state2 : Raft C → ℤ × String
  get_state2 rf =
      (rf.term, elim rf.state [ follwer ↦ "Follower" | cand ↦ "Candidate" | leader ↦ "Leader" ])

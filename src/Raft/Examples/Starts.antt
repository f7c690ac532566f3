-- ===== src/Raft/Examples/Starts.antt =====
-- A call of `Start` on the leader `boss`: it waits at first, and ends when its entry is committed.
use sharded_raft_key_value_s.Prelude.{ℕ, refl, some, none, List, ◌∷◌, [], true, false, ◌≡◌}
use sharded_raft_key_value_s.Prelude.Int.{pos, minus_one}
use sharded_raft_key_value_s.Raft.Log.{get_last_log_entry}
use sharded_raft_key_value_s.Raft.Node.{Raft}
use sharded_raft_key_value_s.Raft.Leader.{started_peers, start_call}
use sharded_raft_key_value_s.Raft.Leader.Starting.{Answer, start_call-Answer}
use sharded_raft_key_value_s.Raft.Examples.Disk.{number_codec}
use sharded_raft_key_value_s.Raft.Examples.Peers.{boss, boss-IsValid}

abbrev committing : Raft ℕ
committing = record boss { commit_index = pos 4 }

abbrev deposed : Raft ℕ
deposed = record boss { is_leader = false }

abbrev tests_of_wait : List (ℕ × Raft ℕ)
tests_of_wait = (1, boss) ∷ (2, boss) ∷ (2, committing) ∷ []

committed_answer : start_call (some 40) boss boss tests_of_wait ≡ some (pos 4, pos 2, true)
unfolding start_call get_last_log_entry
committed_answer = refl

deposed_answer :
    start_call (some 40) boss boss ((1, boss) ∷ (1, deposed) ∷ [])
    ≡ some (minus_one, minus_one, false)
unfolding start_call get_last_log_entry
deposed_answer = refl

waiting : start_call (some 40) boss boss ((1, boss) ∷ []) ≡ none
unfolding start_call get_last_log_entry
waiting = refl

others : started_peers 3 0 1 ≡ 0 ∷ 2 ∷ []
unfolding started_peers
others = refl

start_call-Answer_example : Answer boss boss tests_of_wait (pos 4, pos 2, true)
start_call-Answer_example =
    start_call-Answer (some 40) boss boss tests_of_wait (pos 4, pos 2, true) boss-IsValid.indexed
      committed_answer

-- ===== src/Raft/Examples/Service.antt =====
-- A command given to the leader `boss` of three, and peer 1, whose log departs from the leader's.
use sharded_raft_key_value_s.Prelude.{zero, suc, refl, some, ◌∷◌, [], ◌++◌, arith}
use sharded_raft_key_value_s.Prelude.Dict.{get_or, lookup}
use sharded_raft_key_value_s.Raft.Replicate.{may_send}
use sharded_raft_key_value_s.Raft.Replicate.Matches.{Matching}
use sharded_raft_key_value_s.Raft.Replicate.Commits.{Served, start-Served}
use sharded_raft_key_value_s.Raft.Invariant.Leading.{proposed}
use sharded_raft_key_value_s.Raft.Examples.Disk.{number_codec}
use sharded_raft_key_value_s.Raft.Examples.Peers.{boss, boss-IsValid, behind, behind-IsValid}

new_log-Matching : Matching (boss.log ++ proposed (some 40) boss ∷ []) behind.log
new_log-Matching zero lx ly e = refl
new_log-Matching (suc zero) lx ly e = refl
new_log-Matching (suc (suc zero)) lx ly e = absurd (ground arith)
new_log-Matching (suc (suc (suc n))) lx ly e = absurd (omega arith)

start-Served_example : Served 1 2 (some 40) boss behind
unfolding may_send get_or lookup
start-Served_example =
    start-Served 1 2 0 (some 40) boss behind boss-IsValid behind-IsValid (omega arith) refl
      (omega arith) refl new_log-Matching refl (omega arith) refl (omega arith) (omega arith)

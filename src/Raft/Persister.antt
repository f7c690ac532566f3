-- ===== src/Raft/Persister.antt =====
-- src/raft/persister.go: the bytes that survive a crash. Each method runs under the persister's lock,
-- so each is one step.
use sharded_raft_key_value_s.Prelude.{ℕ, List, [], length}

abbrev pub Bytes : Type 0
Bytes = List ℕ

pub record Persister : Type 0 where
  pub raftstate : Bytes
  pub snapshot : Bytes

unfoldable pub make_persister : Persister
make_persister = record { raftstate = []; snapshot = [] }

unfoldable pub copy : Persister → Persister
unfolding make_persister
copy ps = let np = make_persister in record np { raftstate = ps.raftstate; snapshot = ps.snapshot }

unfoldable pub save_raft_state : Persister → Bytes → Persister
save_raft_state ps state = record ps { raftstate = state }

unfoldable pub read_raft_state : Persister → Bytes
read_raft_state ps = ps.raftstate

unfoldable pub raft_state_size : Persister → ℕ
raft_state_size ps = length ps.raftstate

unfoldable pub save_state_and_snapshot : Persister → Bytes → Bytes → Persister
save_state_and_snapshot ps state snapshot = record ps { raftstate = state; snapshot = snapshot }

unfoldable pub read_snapshot : Persister → Bytes
read_snapshot ps = ps.snapshot

unfoldable pub snapshot_size : Persister → ℕ
snapshot_size ps = length ps.snapshot

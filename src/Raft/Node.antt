-- ===== src/Raft/Node.antt =====
-- src/raft/raft.go: the state of a peer, and how it is made and saved. A channel of capacity 1 is a
-- `Bool` that says whether it is full; `apply_chan` is the sequence of messages sent so far.
-- `ApplyBuffer` is made and never used, and has no field. `file` is the peer's `.yys` file.
use sharded_raft_key_value_s.Prelude.{
  ℕ, Bool, true, false, Option, none, some, List, [], String, if◌then◌else◌, length,
}
use sharded_raft_key_value_s.Prelude.Int.{ℤ, pos, minus_one}
use sharded_raft_key_value_s.Prelude.Dict.{Dict}
use sharded_raft_key_value_s.Raft.Types.{State, Link, leader, follwer, connect, ApplyMsg, Entry}
use sharded_raft_key_value_s.Raft.Persister.{Bytes, Persister, save_raft_state, read_raft_state}
use sharded_raft_key_value_s.Raft.Codec.{
  Decoded, Codec, decoded_or, encode, decode, encode_run, decode_run,
}

pub record Raft (C : Type 0) : Type 0 where
  pub me : ℕ
  pub peer_number : ℕ
  pub persister : Persister
  pub file : Option Bytes
  pub dead : Bool
  pub log : List (Entry C)
  pub is_leader : Bool
  pub state : State
  pub term : ℤ
  pub voted_for : ℤ
  pub receive_hb : Bool
  pub become_follwer_from_leader : Bool
  pub next_index : Dict ℕ ℤ
  pub match_index : Dict ℕ ℤ
  pub peer_alive : Dict ℕ Bool
  pub open_commit : Dict ℕ Bool
  pub commit_index : ℤ
  pub last_apply : ℤ
  pub apply_chan : List (ApplyMsg C)
  pub test : Bool
  pub network : Link

module _ {C : Type 0} where
  unfoldable pub set_leader : Raft C → Raft C
  set_leader rf = record rf { is_leader = true; state = leader }

  unfoldable pub set_follwer : Raft C → Raft C
  set_follwer rf = record rf { state = follwer; is_leader = false }

  -- `setRaft`, up to the goroutine that it starts; the channels and maps are made anew
  unfoldable pub set_raft : Raft C → ℕ → Raft C
  set_raft rf me = record rf {
    me = me;
    state = follwer;
    log = [];
    voted_for = minus_one;
    is_leader = false;
    term = pos 0;
    receive_hb = false;
    become_follwer_from_leader = false;
    next_index = [];
    match_index = [];
    peer_alive = [];
    open_commit = [];
    apply_chan = [];
    commit_index = pos 0;
    last_apply = pos 0;
  }

  -- `&Raft{}`, `new(Raft)`: the zero value, with the disk that the process finds
  unfoldable pub new_raft : Persister → Option Bytes → Raft C
  new_raft ps file = record {
    me = 0;
    peer_number = 0;
    persister = ps;
    file = file;
    dead = false;
    log = [];
    is_leader = false;
    state = follwer;
    term = pos 0;
    voted_for = pos 0;
    receive_hb = false;
    become_follwer_from_leader = false;
    next_index = [];
    match_index = [];
    peer_alive = [];
    open_commit = [];
    commit_index = pos 0;
    last_apply = pos 0;
    apply_chan = [];
    test = false;
    network = connect;
  }

module _ {C : Type 0} ⦃codec : Codec C⦄ where
  -- `rf.Test` selects where the three values go
  unfoldable pub persist : Raft C → Raft C
  unfolding save_raft_state
  persist rf = record rf {
    persister =
        if rf.test
        then save_raft_state rf.persister (encode rf.term rf.voted_for rf.log)
        else rf.persister;
    file = if rf.test then rf.file else some (encode_run rf.term rf.voted_for rf.log);
  }

  -- the disk of a server that crashes in `persist`, after `os.Create` has emptied the file
  unfoldable pub persist_created : Raft C → Raft C
  persist_created rf = if rf.test then rf else record rf { file = some [] }

  restore : Decoded C → Raft C → Raft C
  restore d rf = record rf {
    term = decoded_or (pos 0) d.term;
    voted_for = decoded_or (pos 0) d.voted_for;
    log = decoded_or [] d.logs;
  }

  unfoldable pub read_persist : Bytes → Raft C → Raft C
  unfolding restore
  read_persist bytes rf = restore (decode bytes) rf

  -- `Make(peers, me, persister, applyCh)`
  unfoldable pub make : ℕ → ℕ → Persister → Raft C
  unfolding new_raft set_raft read_persist read_raft_state
  make peers me ps =
      let rf = new_raft ps none in
      let rf = set_raft (record rf { peer_number = peers; test = true }) me in
      read_persist (read_raft_state ps) rf

  -- `MakeRun(rf, peersRun, me, applyCh)`
  unfoldable pub make_run : Raft C → List String → ℕ → Raft C
  unfolding set_raft
  make_run rf peers_run me =
      set_raft (record rf { test = false; network = connect; peer_number = length peers_run }) me

  -- the part of `readPersistRun` (src/kvraft/serverRun.go) that fills the peer; no file, no change
  unfoldable pub read_persist_run : Raft C → Raft C
  unfolding restore
  read_persist_run rf = elim rf.file [ none ↦ rf | some bytes ↦ restore (decode_run bytes) rf ]

  -- the process is started again on the same disk: `Make` in the tests, `MakeRun` and
  -- `readPersistRun` in the server
  unfoldable pub restart : List String → Raft C → Raft C
  unfolding make make_run read_persist_run new_raft
  restart peers_run rf =
      if rf.test
      then make rf.peer_number rf.me rf.persister
      else read_persist_run (make_run (new_raft rf.persister rf.file) peers_run rf.me)

-- ===== src/Raft/Sending.antt =====
-- src/raft/handler.go `sendRequestVote`, `sendAppendEntries` and src/raft/raftRun.go `call`: the two
-- transports. `client_end` stands for the RPC of the tests and `dial` for the one over TCP, each in
-- state `W`, which holds all that they reach; `none` is `ok == false`.
pub mod Isolation
use sharded_raft_key_value_s.Prelude.{ℕ, Option, none, if◌then◌else◌}
use sharded_raft_key_value_s.Raft.Types.{
  AppendEntriesArgs, AppendEntriesReply, RequestVoteArgs, RequestVoteReply,
}
use sharded_raft_key_value_s.Raft.Node.{Raft}
use sharded_raft_key_value_s.Raft.Handler.{check_network}

-- an RPC to the peer of a number
abbrev pub Transport : Type 0 → Type 0 → Type 0 → Type 0
Transport A R W = ℕ → A → W → Option R × W

module _ {C W : Type 0} where
  -- `rf.call`; the network is connected exactly if `checkNetwork` finds no error
  unfoldable pub call : {A R : Type 0} → Transport A R W → Raft C → Transport A R W
  call dial rf server args w = if check_network rf then dial server args w else (none, w)

  unfoldable pub send_request_vote :
      (client_end dial : Transport RequestVoteArgs RequestVoteReply W)
      → Raft C
      → Transport RequestVoteArgs RequestVoteReply W
  unfolding call
  send_request_vote client_end dial rf server args w =
      if rf.test then client_end server args w else call dial rf server args w

  unfoldable pub send_append_entries :
      (client_end dial : Transport (AppendEntriesArgs C) AppendEntriesReply W)
      → Raft C
      → Transport (AppendEntriesArgs C) AppendEntriesReply W
  unfolding call
  send_append_entries client_end dial rf server args w =
      if rf.test then client_end server args w else call dial rf server args w

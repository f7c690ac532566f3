-- ===== src/Raft/Sending/Isolation.antt =====
-- `Connect` and `Disconnect` (src/raft/raftRun.go): a disconnected server is cut off both ways.
use sharded_raft_key_value_s.Prelude.{ℕ, ◌≡◌, refl, false, none, some}
use sharded_raft_key_value_s.Raft.Types.{
  connect, disconnect, AppendEntriesArgs, AppendEntriesReply, RequestVoteArgs, RequestVoteReply,
}
use sharded_raft_key_value_s.Raft.Codec.{Codec}
use sharded_raft_key_value_s.Raft.Node.{Raft}
use sharded_raft_key_value_s.Raft.Handler.{
  check_network, set_network, handle_append_entries, handle_request_vote, handle_append_entries_run,
  handle_request_vote_run,
}
use sharded_raft_key_value_s.Raft.Sending.{Transport, call, send_request_vote, send_append_entries}

module _ {C W : Type 0} ⦃codec : Codec C⦄
    (end_vote dial_vote : Transport RequestVoteArgs RequestVoteReply W)
    (end_append dial_append : Transport (AppendEntriesArgs C) AppendEntriesReply W) where
  -- A running server that is disconnected is cut off both ways: its vote and append requests fail
  -- without a call, and both handlers refuse every request; connected again, it calls over the
  -- network and answers with the handlers.
  pub set_network-cut :
      (rf : Raft C) (server : ℕ) (vote : RequestVoteArgs) (args : AppendEntriesArgs C)
      (reply : AppendEntriesReply) (w : W)
      → rf.test ≡ false
      → let off = set_network disconnect rf in
        let on = set_network connect off in
        (send_request_vote end_vote dial_vote off server vote w ≡ (none, w))
        × (send_append_entries end_append dial_append off server args w ≡ (none, w))
        × (handle_request_vote_run vote off ≡ none)
        × (handle_append_entries_run args reply off ≡ none)
        × (send_request_vote end_vote dial_vote on server vote w ≡ dial_vote server vote w)
        × (send_append_entries end_append dial_append on server args w ≡ dial_append server args w)
        × (handle_request_vote_run vote on ≡ some (handle_request_vote vote on))
        × (handle_append_entries_run args reply on ≡ some (handle_append_entries args reply on))
  unfolding send_request_vote send_append_entries call set_network check_network
      handle_request_vote_run handle_append_entries_run
  set_network-cut rf server vote args reply w run =
      (rw run refl, rw run refl, refl, refl, rw run refl, rw run refl, refl, refl)

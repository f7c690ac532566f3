-- ===== src/Raft/Examples/Links.antt =====
-- A running server that is disconnected and connected again.
use sharded_raft_key_value_s.Prelude.{ℕ, suc, ◌≡◌, refl, false, none, some}
use sharded_raft_key_value_s.Raft.Types.{
  connect, disconnect, AppendEntriesArgs, AppendEntriesReply, RequestVoteArgs, RequestVoteReply,
}
use sharded_raft_key_value_s.Raft.Node.{Raft}
use sharded_raft_key_value_s.Raft.Handler.{
  set_network, handle_append_entries, handle_request_vote, handle_append_entries_run,
  handle_request_vote_run,
}
use sharded_raft_key_value_s.Raft.Sending.{Transport, send_request_vote, send_append_entries}
use sharded_raft_key_value_s.Raft.Sending.Isolation.{set_network-cut}
use sharded_raft_key_value_s.Raft.Examples.Disk.{number_codec}
use sharded_raft_key_value_s.Raft.Examples.Peers.{follower, vote_request, request, no_reply}
use sharded_raft_key_value_s.Raft.Examples.Votes.{vote}

abbrev server : Raft ℕ
server = record follower { test = false }

abbrev off : Raft ℕ
off = set_network disconnect server

abbrev on : Raft ℕ
on = set_network connect off

-- transports that count their calls
abbrev no_vote : Transport RequestVoteArgs RequestVoteReply ℕ
no_vote peer args w = (none, suc w)

abbrev a_vote : Transport RequestVoteArgs RequestVoteReply ℕ
a_vote peer args w = (some vote, suc w)

abbrev no_append : Transport (AppendEntriesArgs ℕ) AppendEntriesReply ℕ
no_append peer args w = (none, suc w)

abbrev an_append : Transport (AppendEntriesArgs ℕ) AppendEntriesReply ℕ
an_append peer args w = (some no_reply, suc w)

set_network-cut_example :
    (send_request_vote no_vote a_vote off 1 vote_request 7 ≡ (none, 7))
    × (send_append_entries no_append an_append off 1 request 7 ≡ (none, 7))
    × (handle_request_vote_run vote_request off ≡ none)
    × (handle_append_entries_run request no_reply off ≡ none)
    × (send_request_vote no_vote a_vote on 1 vote_request 7 ≡ (some vote, 8))
    × (send_append_entries no_append an_append on 1 request 7 ≡ (some no_reply, 8))
    × (handle_request_vote_run vote_request on ≡ some (handle_request_vote vote_request on))
    × (handle_append_entries_run request no_reply on
        ≡ some (handle_append_entries request no_reply on))
set_network-cut_example =
    set_network-cut no_vote a_vote no_append an_append server 1 vote_request request no_reply 7 refl

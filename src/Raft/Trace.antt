-- ===== src/Raft/Trace.antt =====
-- One peer over time: every critical section of the Raft layer is a step, in any order and with any
-- message, and so is a crash with a restart from the disk.
pub mod Safety
pub mod Blocking
pub mod Votes
pub mod Messages
pub mod Handing
use sharded_raft_key_value_s.Prelude.{
  ℕ, ◌≡◌, Bool, true, false, Option, Outcome, ok, List, String, if◌then◌else◌, replicate,
}
use sharded_raft_key_value_s.Raft.Types.{
  Link, AppendEntriesArgs, AppendEntriesReply, RequestVoteArgs, RequestVoteReply,
}
use sharded_raft_key_value_s.Raft.Codec.{Codec}
use sharded_raft_key_value_s.Raft.Node.{Raft, restart}
use sharded_raft_key_value_s.Raft.Handler.{handle_append_entries, handle_request_vote, set_network}
use sharded_raft_key_value_s.Raft.Handler.Matching.{IsRequest}
use sharded_raft_key_value_s.Raft.Candidate.{Ballot, start_as_cand, receive_vote}
use sharded_raft_key_value_s.Raft.Leader.{start_as_leader, receive_heart_beat, start, mark_dead}
use sharded_raft_key_value_s.Raft.Replicate.{append_success, append_retry}
use sharded_raft_key_value_s.Raft.Invariant.{IsBounded}

module _ {C : Type 0} where
  -- `<-rf.ReceiveHB` and `<-rf.BecomeFollwerFromLeader` in `startElection`, `Kill`
  unfoldable pub take_receive_hb : Raft C → Raft C
  take_receive_hb rf = record rf { receive_hb = false }

  unfoldable pub take_become_follwer : Raft C → Raft C
  take_become_follwer rf = record rf { become_follwer_from_leader = false }

  unfoldable pub kill : Raft C → Raft C
  kill rf = record rf { dead = true }

module _ {C : Type 0} ⦃codec : Codec C⦄ where
  pub data Step : Raft C → Raft C → Type 0 where
    append_entries :
        {rf rf' : Raft C} (args : AppendEntriesArgs C) (reply reply' : AppendEntriesReply)
        → IsRequest args
        → IsBounded args.term args.entries
        → handle_append_entries args reply rf ≡ ok (reply', rf')
        → Step rf rf'
    request_vote :
        {rf rf' : Raft C} (args : RequestVoteArgs) (reply' : RequestVoteReply)
        → handle_request_vote args rf ≡ ok (reply', rf')
        → Step rf rf'
    stand : {rf rf' : Raft C} (b : Ballot) → start_as_cand rf ≡ ok (b, rf') → Step rf rf'
    hear_vote :
        {rf rf' : Raft C} (arrived : Bool) (reply : RequestVoteReply) (b b' : Ballot)
        → receive_vote arrived reply b rf ≡ ok (b', rf')
        → Step rf rf'
    lead : (rf : Raft C) → Step rf (start_as_leader rf)
    hear_heart_beat :
        {rf rf' : Raft C} (server : ℕ) (arrived : Bool) (reply : AppendEntriesReply) (starts : Bool)
        → receive_heart_beat server arrived reply rf ≡ ok (starts, rf')
        → Step rf rf'
    propose : (rf : Raft C) (command : Option C) → Step rf (start command rf).2
    hear_success :
        {rf rf' : Raft C} (server : ℕ) (args : AppendEntriesArgs C)
        → append_success server args rf ≡ ok rf'
        → Step rf rf'
    hear_failure :
        {rf rf' : Raft C} (server : ℕ) (reply : AppendEntriesReply)
        (args args' : AppendEntriesArgs C)
        → append_retry server reply args rf ≡ ok (args', rf')
        → Step rf rf'
    lose : (rf : Raft C) (server : ℕ) → Step rf (mark_dead server rf)
    wake : (rf : Raft C) → Step rf (take_receive_hb rf)
    depose : (rf : Raft C) → Step rf (take_become_follwer rf)
    link : (rf : Raft C) (network : Link) → Step rf (set_network network rf)
    stop : (rf : Raft C) → Step rf (kill rf)
    crash : (rf : Raft C) (peers_run : List String) → Step rf (restart peers_run rf)

  abbrev pub is_crash : {rf rf' : Raft C} → Step rf rf' → Bool
  is_crash (crash rf peers_run) = true
  is_crash _ = false

-- ===== src/Raft/Trace/Blocking.antt =====
-- The wake-up channels of capacity 1 (src/raft/handler.go, src/raft/raft.go): a send on a full
-- one, under the peer's lock, does not return.
use sharded_raft_key_value_s.Prelude.{◌≡◌, refl, true, false, ok, blocked, arith}
use sharded_raft_key_value_s.Prelude.Int.{◌≤ℤ◌, ◌<ℤ◌, leb_ℤ}
use sharded_raft_key_value_s.Raft.Types.{AppendEntriesArgs, AppendEntriesReply, RequestVoteArgs}
use sharded_raft_key_value_s.Raft.Codec.{Codec}
use sharded_raft_key_value_s.Raft.Node.{Raft, persist}
use sharded_raft_key_value_s.Raft.Handler.{
  room, signal-blocked, handle_append_entries, handle_request_vote,
}
use sharded_raft_key_value_s.Raft.Indexed.{IsIndexed}
use sharded_raft_key_value_s.Raft.Invariant.Voting.{handle_request_vote-blocked}

module _ {C : Type 0} ⦃codec : Codec C⦄ where
  -- On a numbered log, while the wake-up channel of a peer is full, an append request of its term
  -- or a later one and a vote request of a later term both block, with the lock held; an append
  -- request of an earlier term is still refused.
  pub handlers-blocked :
      (args old : AppendEntriesArgs C) (vote : RequestVoteArgs) (reply : AppendEntriesReply)
      (rf : Raft C)
      → IsIndexed 0 rf.log
      → room rf ≡ false
      → rf.term ≤ℤ args.term
      → rf.term <ℤ vote.term
      → old.term <ℤ rf.term
      → (handle_append_entries args reply rf ≡ blocked)
        × (handle_request_vote vote rf ≡ blocked)
        × (handle_append_entries old reply rf
            ≡ ok (record reply { term = rf.term; success = false }, persist rf))
  unfolding handle_append_entries
  handlers-blocked args old vote reply rf w full le lt before =
      let taken : leb_ℤ rf.term args.term ≡ true = ground arith in
      let refused : leb_ℤ rf.term old.term ≡ false = ground arith in
      (
        rw (taken, signal-blocked (record rf { term = args.term }) full) refl,
        handle_request_vote-blocked vote rf w lt full,
        rw refused refl,
      )

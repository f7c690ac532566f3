-- ===== src/Raft/Examples/Terms.antt =====
-- A peer that votes, crashes, and votes again in the next term; and what a leader sends.
use sharded_raft_key_value_s.Prelude.{ℕ, ◌≡◌, refl, true, [], ok, arith}
use sharded_raft_key_value_s.Prelude.Dict.{get_or, lookup}
use sharded_raft_key_value_s.Prelude.Int.{pos, ◌<ℤ◌}
use sharded_raft_key_value_s.Raft.Types.{RequestVoteArgs, RequestVoteReply, AppendEntriesArgs}
use sharded_raft_key_value_s.Raft.Codec.{decode, encode}
use sharded_raft_key_value_s.Raft.Node.{Raft, persist, restart}
use sharded_raft_key_value_s.Raft.Handler.{room, may_vote, handle_request_vote}
use sharded_raft_key_value_s.Raft.Handler.Matching.{IsRequest}
use sharded_raft_key_value_s.Raft.Leader.{heart_beat_args}
use sharded_raft_key_value_s.Raft.Replicate.{append_args}
use sharded_raft_key_value_s.Raft.Replicate.Request.{append_args-IsRequest}
use sharded_raft_key_value_s.Raft.Invariant.{IsBounded}
use sharded_raft_key_value_s.Raft.Invariant.Voting.{
  adopted, voted, last_index, last_term, handle_request_vote-runs,
}
use sharded_raft_key_value_s.Raft.Trace.{request_vote, crash}
use sharded_raft_key_value_s.Raft.Trace.Safety.{IsSound, Reach, here, next, Step-Safe, Reach-Safe}
use sharded_raft_key_value_s.Raft.Trace.Votes.{handle_request_vote-once}
use sharded_raft_key_value_s.Raft.Examples.Disk.{number_codec}
use sharded_raft_key_value_s.Raft.Examples.Peers.{
  follower, follower-IsValid, follower-IsSound, vote_request, boss, boss-IsValid,
}

abbrev later_request : RequestVoteArgs
later_request = record {
  peer_id = pos 2;
  term = pos 4;
  last_log_index = pos 3;
  last_log_term = pos 2;
}

abbrev reply_to : RequestVoteArgs → Raft ℕ → RequestVoteReply
reply_to args rf = record {
  term = (voted args rf).term;
  vote_granted = may_vote (adopted args.term rf).voted_for (last_index rf) (last_term rf) args;
  state = (voted args rf).state;
}

abbrev before : Raft ℕ
before = persist (voted vote_request follower)

abbrev after : Raft ℕ
after = restart [] before

first-voted :
    handle_request_vote vote_request follower ≡ ok (reply_to vote_request follower, before)
first-voted = handle_request_vote-runs vote_request follower follower-IsValid.indexed (λ _. refl)

first-granted : (reply_to vote_request follower).vote_granted ≡ true
unfolding may_vote
first-granted = refl

run : Reach before after
run = next here (crash before [])

after-IsSound : IsSound after
after-IsSound =
    (Reach-Safe (Step-Safe (request_vote vote_request _ first-voted) follower-IsSound).0 run).0

after-room : room after ≡ true
unfolding restart persist may_vote
after-room = refl

second-voted :
    handle_request_vote later_request after
    ≡ ok (reply_to later_request after, persist (voted later_request after))
second-voted =
    handle_request_vote-runs later_request after after-IsSound.valid.indexed (λ _. after-room)

second-granted : (reply_to later_request after).vote_granted ≡ true
unfolding may_vote restart persist decode encode
second-granted = refl

handle_request_vote-once_example :
    (reply_to vote_request follower).term <ℤ (reply_to later_request after).term
handle_request_vote-once_example =
    handle_request_vote-once vote_request later_request (reply_to vote_request follower)
      (reply_to later_request after) follower before after (persist (voted later_request after))
      follower-IsSound (λ e. cc) first-voted first-granted run second-voted second-granted

append_args-IsRequest_example :
    (args : AppendEntriesArgs ℕ) × (append_args 1 boss ≡ ok args)
    × IsRequest args
    × IsBounded args.term args.entries
    × IsRequest (heart_beat_args 1 boss)
    × IsBounded (pos 2) (heart_beat_args 1 boss).entries
unfolding get_or lookup
append_args-IsRequest_example = append_args-IsRequest 1 2 boss boss-IsValid refl (omega arith)

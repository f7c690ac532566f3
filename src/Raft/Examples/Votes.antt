-- ===== src/Raft/Examples/Votes.antt =====
-- An election of the peer `follower` that one vote decides.
use sharded_raft_key_value_s.Prelude.{◌≡◌, ◌<◌, ◌↔◌, refl, true, false, ok}
use sharded_raft_key_value_s.Prelude.Int.{pos}
use sharded_raft_key_value_s.Raft.Types.{follwer, win, RequestVoteReply}
use sharded_raft_key_value_s.Raft.Candidate.{
  Ballot, count_vote, receive_vote, decide_election, is_cand,
}
use sharded_raft_key_value_s.Raft.Candidate.Counting.{quiet, hear, decide_election-counts}
use sharded_raft_key_value_s.Raft.Invariant.Standing.{standing, start_as_cand-standing}
use sharded_raft_key_value_s.Raft.Examples.Disk.{number_codec}
use sharded_raft_key_value_s.Raft.Examples.Peers.{follower, follower-IsValid}

abbrev pub vote : RequestVoteReply
vote = record { term = pos 3; vote_granted = true; state = follwer }

abbrev pub first_ballot : Ballot
first_ballot = record {
  heared_back = 1;
  votes = 1;
  need_return = false;
  args = record { peer_id = pos 0; term = pos 3; last_log_index = pos 3; last_log_term = pos 2 };
}

abbrev pub last_ballot : Ballot
last_ballot = record first_ballot { heared_back = 2; votes = 2 }

pub vote-counted :
    receive_vote true vote first_ballot (standing follower) ≡ ok (last_ballot, standing follower)
unfolding receive_vote count_vote
vote-counted = refl

decide_election-counts_example :
    (last_ballot.heared_back ≡ 2)
    × ((decide_election last_ballot (standing follower) ≡ win) ↔ (
        (last_ballot.need_return ≡ false) × (is_cand (standing follower).state ≡ true) × (1 < 2)))
decide_election-counts_example =
    decide_election-counts follower _ (standing follower)
      (start_as_cand-standing follower follower-IsValid)
      (hear true vote (standing follower) (standing follower) quiet vote-counted)

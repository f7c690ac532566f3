-- ===== src/Raft/Examples/Clusters.antt =====
-- An election in a cluster of three, won with the vote of peer 1, before peer 2 replies.
use sharded_raft_key_value_s.Prelude.{ℕ, ◌≡◌, refl, true, none, ok, arith}
use sharded_raft_key_value_s.Raft.Codec.{decode}
use sharded_raft_key_value_s.Raft.Node.{Raft, persist, restart}
use sharded_raft_key_value_s.Raft.Handler.{may_vote, handle_request_vote}
use sharded_raft_key_value_s.Raft.Candidate.{count_vote, receive_vote, decide_election}
use sharded_raft_key_value_s.Raft.Invariant.Voting.{voted, handle_request_vote-runs}
use sharded_raft_key_value_s.Raft.Invariant.Standing.{standing, start_as_cand-standing}
use sharded_raft_key_value_s.Raft.Trace.Safety.{IsSound}
use sharded_raft_key_value_s.Raft.Cluster.{
  Campaign, Cluster, campaign_of, with_peer, with_campaign, Runs, start, move, begin, answer, hear,
}
use sharded_raft_key_value_s.Raft.Cluster.Promises.Answering.{answered}
use sharded_raft_key_value_s.Raft.Cluster.Promises.Hearing.{over}
use sharded_raft_key_value_s.Raft.Cluster.Elected.{IsFresh, Wins, Wins-unique}
use sharded_raft_key_value_s.Raft.Examples.Disk.{number_codec}
use sharded_raft_key_value_s.Raft.Examples.Peers.{follower, follower-IsValid}
use sharded_raft_key_value_s.Raft.Examples.Votes.{vote, first_ballot, last_ballot}

abbrev member : ℕ → Raft ℕ
member i = record follower { me = i }

member-IsSound : (i : ℕ) → IsSound (member i)
unfolding restart decode
member-IsSound i = record {
  valid = record {
    indexed = follower-IsValid.indexed;
    bounded = follower-IsValid.bounded;
    numbered = tt;
    committed = omega arith;
    applied = refl;
    leads = λ e. cc;
  };
  durable = record {
    term_saved = λ ps. refl;
    vote_saved = λ ps. refl;
    log_indexed = λ ps. (refl, (refl, (refl, tt)));
    log_bounded = λ ps. (omega arith, (omega arith, (omega arith, tt)));
  };
}

abbrev candidate : Raft ℕ
candidate = persist (standing (member 0))

abbrev voter : ℕ → Raft ℕ
voter i = persist (voted first_ballot.args (member i))

abbrev at_rest : Cluster ℕ
at_rest = record { peers = member; campaigns = λ _. none }

abbrev begun : Campaign
begun = campaign_of 0 first_ballot

abbrev replied : Campaign
replied = answered 1 vote begun

abbrev won : Campaign
won = over 1 last_ballot replied

abbrev after_begin : Cluster ℕ
after_begin = with_campaign 0 begun (with_peer 0 candidate at_rest)

abbrev after_answer : Cluster ℕ
after_answer = with_campaign 0 replied (with_peer 1 (voter 1) after_begin)

abbrev after_hear : Cluster ℕ
after_hear = with_campaign 0 won (with_peer 0 candidate after_answer)

abbrev after_all : Cluster ℕ
after_all = with_campaign 0 (answered 2 vote won) (with_peer 2 (voter 2) after_hear)

at_rest-IsFresh : IsFresh at_rest
at_rest-IsFresh = record { sound = member-IsSound; me_eq = λ i. refl; empty = λ e. refl }

member-votes : (i : ℕ) → handle_request_vote first_ballot.args (member i) ≡ ok (vote, voter i)
unfolding may_vote
member-votes i =
    handle_request_vote-runs first_ballot.args (member i) follower-IsValid.indexed (λ _. refl)

hears : receive_vote true vote first_ballot candidate ≡ ok (last_ballot, candidate)
unfolding receive_vote count_vote persist
hears = refl

run : Runs 3 at_rest after_hear
run =
    move
      (move
        (move start (
          begin 0 0 first_ballot candidate (omega arith) refl
            (start_as_cand-standing (member 0) (member-IsSound 0).valid)))
        (answer 0 1 begun vote (voter 1) refl refl (member-votes 1)))
      (hear 0 1 replied true vote last_ballot candidate (omega arith) refl refl (λ _. refl) hears)

run_on : Runs 3 after_hear after_all
run_on = move start (answer 0 2 won vote (voter 2) refl refl (member-votes 2))

decided : Wins 3 0 won after_hear
unfolding persist decide_election
decided = record { is = refl; in_term = refl; size = refl; decides = refl }

decided_later : Wins 3 0 (answered 2 vote won) after_all
unfolding persist decide_election
decided_later = record { is = refl; in_term = refl; size = refl; decides = refl }

Wins-unique_example : won.owner ≡ (answered 2 vote won).owner
Wins-unique_example =
    Wins-unique 3 0 0 won (answered 2 vote won) at_rest-IsFresh run run_on decided decided_later
      refl

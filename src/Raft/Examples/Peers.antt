-- ===== src/Raft/Examples/Peers.antt =====
-- The theorems of the Raft layer at concrete peers, logs and messages.
use sharded_raft_key_value_s.Prelude.{
  ℕ, zero, suc, ◌≡◌, refl, true, false, none, some, List, [], ◌∷◌, ok, blocked, arith,
}
use sharded_raft_key_value_s.Prelude.Int.{pos, minus_one}
use sharded_raft_key_value_s.Raft.Types.{
  RequestVoteReply, State, leader, follwer, connect, append, Entry, AppendEntriesArgs,
  AppendEntriesReply, RequestVoteArgs,
}
use sharded_raft_key_value_s.Raft.Codec.{decode}
use sharded_raft_key_value_s.Raft.Node.{
  persist_created, Raft, persist, restart, make, make_run, read_persist_run, new_raft,
}
use sharded_raft_key_value_s.Raft.Apply.{start_apply}
use sharded_raft_key_value_s.Raft.Apply.Order.{applied, start_apply-applied}
use sharded_raft_key_value_s.Raft.Handler.{
  set_last_term, append_log, handle_append_entries, handle_request_vote,
}
use sharded_raft_key_value_s.Raft.Handler.Matching.{IsRequest, append_log-answer}
use sharded_raft_key_value_s.Raft.Leader.{update_commit_for_leader}
use sharded_raft_key_value_s.Raft.Leader.Majority.{Committed, update_commit_for_leader-Committed}
use sharded_raft_key_value_s.Raft.Replicate.{undisturbed}
use sharded_raft_key_value_s.Raft.Invariant.{IsBounded, IsValid}
use sharded_raft_key_value_s.Raft.Invariant.Appending.{Joined, handle_append_entries-Joined}
use sharded_raft_key_value_s.Raft.Invariant.Voting.{
  voted, Answers, handle_request_vote-runs, handle_request_vote-voted,
}
use sharded_raft_key_value_s.Raft.Durable.{
  persist_created-restart, persist-restart, make-first_vote,
}
use sharded_raft_key_value_s.Raft.Persister.{make_persister}
use sharded_raft_key_value_s.Raft.Trace.Blocking.{handlers-blocked}
use sharded_raft_key_value_s.Prelude.Dict.{get_or, lookup}
use sharded_raft_key_value_s.Raft.Replicate.{append_args, may_send, start_one_peer_append}
use sharded_raft_key_value_s.Raft.Replicate.Request.{request_from, append_args-request_from}
use sharded_raft_key_value_s.Raft.Replicate.Delivery.{deliver}
use sharded_raft_key_value_s.Raft.Replicate.Matches.{Matching}
use sharded_raft_key_value_s.Raft.Replicate.Converges.{start_one_peer_append-Converged}
use sharded_raft_key_value_s.Raft.Trace.{request_vote, crash}
use sharded_raft_key_value_s.Raft.Trace.Safety.{IsSound, Safe, here, next, Reach-Safe}
use sharded_raft_key_value_s.Raft.Examples.Disk.{write, number_codec}

-- entry `i` with command `c`, of term `t`
abbrev pub entry : ℕ → ℕ → ℕ → Entry ℕ
entry i c t = record { index = pos i; command = some c; term = pos t; id = pos 0 }

-- peer 0 of three, in term 2, that has not voted; its disk holds what it knows
abbrev pub peer : State → List (Entry ℕ) → Raft ℕ
peer state log = record {
  me = 0;
  peer_number = 3;
  persister = record { raftstate = write (pos 2) minus_one log; snapshot = [] };
  file = none;
  dead = false;
  log = log;
  is_leader = false;
  state = state;
  term = pos 2;
  voted_for = minus_one;
  receive_hb = false;
  become_follwer_from_leader = false;
  next_index = [];
  match_index = [];
  peer_alive = [];
  open_commit = [];
  commit_index = pos 0;
  last_apply = pos 0;
  apply_chan = [];
  test = true;
  network = connect;
}

abbrev pub three_entries : List (Entry ℕ)
three_entries = entry 1 10 1 ∷ entry 2 20 1 ∷ entry 3 30 2 ∷ []

abbrev pub follower : Raft ℕ
follower = peer follwer three_entries

-- the leader knows that peer 1 holds two entries
abbrev pub boss : Raft ℕ
boss = record (peer leader three_entries) {
  is_leader = true;
  match_index = (0, pos 0) ∷ (1, pos 2) ∷ (2, pos 0) ∷ [];
  peer_alive = (0, false) ∷ (1, true) ∷ (2, false) ∷ [];
}

pub follower-IsValid : IsValid follower
follower-IsValid = record {
  indexed = (refl, (refl, (refl, tt)));
  bounded = (omega arith, (omega arith, (omega arith, tt)));
  numbered = tt;
  committed = omega arith;
  applied = refl;
  leads = λ e. cc;
}

pub boss-IsValid : IsValid boss
boss-IsValid = record {
  indexed = (refl, (refl, (refl, tt)));
  bounded = (omega arith, (omega arith, (omega arith, tt)));
  numbered = tt;
  committed = omega arith;
  applied = refl;
  leads = λ e. refl;
}

pub follower-IsSound : IsSound follower
unfolding restart decode
follower-IsSound = record {
  valid = follower-IsValid;
  durable = record {
    term_saved = λ ps. refl;
    vote_saved = λ ps. refl;
    log_indexed = λ ps. (refl, (refl, (refl, tt)));
    log_bounded = λ ps. (omega arith, (omega arith, (omega arith, tt)));
  };
}

-- a leader of term 3 whose log departs from the follower's after entry 2
abbrev pub request : AppendEntriesArgs ℕ
request = record {
  job = append;
  term = pos 3;
  leader_id = pos 1;
  entries = entry 3 31 3 ∷ entry 4 40 3 ∷ [];
  prev_log_index = pos 2;
  prev_log_term = pos 1;
  leader_commit = pos 0;
}

request-IsRequest : IsRequest request
request-IsRequest = record {
  prev = 2;
  at_prev = refl;
  base = λ e. absurd (omega arith);
  numbered = (refl, (refl, tt));
  commit = omega arith;
}

request-IsBounded : IsBounded (pos 3) request.entries
request-IsBounded = (omega arith, (omega arith, tt))

abbrev pub no_reply : AppendEntriesReply
no_reply = record { last_index = pos 0; term = pos 0; success = false }

abbrev pub vote_request : RequestVoteArgs
vote_request = record {
  peer_id = pos 1;
  term = pos 3;
  last_log_index = pos 3;
  last_log_term = pos 2;
}

Reach-Safe_example : Safe follower (restart [] (persist (voted vote_request follower)))
Reach-Safe_example = Reach-Safe follower-IsSound (
    next
      (next here (
        request_vote vote_request _
          (handle_request_vote-runs vote_request follower follower-IsValid.indexed (λ _. refl))))
      (crash (persist (voted vote_request follower)) []))

append_log-answer_example :
    append_log request no_reply follower
    ≡ ok (
      record { last_index = minus_one; term = pos 0; success = true },
      record follower { log = entry 1 10 1 ∷ entry 2 20 1 ∷ entry 3 31 3 ∷ entry 4 40 3 ∷ [] },
    )
unfolding set_last_term request-IsRequest
append_log-answer_example =
    append_log-answer request no_reply follower request-IsRequest follower-IsValid.indexed

start_apply-applied_example : start_apply (pos 2) follower ≡ ok (applied 0 2 follower)
start_apply-applied_example =
    start_apply-applied 0 follower follower-IsValid.indexed refl (pos 2) (omega arith)

persist-restart_example :
    ((restart [] (persist boss)).term ≡ pos 2)
    × ((restart [] (persist boss)).voted_for ≡ minus_one)
    × ((restart [] (persist boss)).log ≡ three_entries)
persist-restart_example = persist-restart [] boss

update_commit_for_leader-Committed_example :
    Committed boss 0 (update_commit_for_leader boss).0 (update_commit_for_leader boss).1
update_commit_for_leader-Committed_example =
    update_commit_for_leader-Committed boss 0 boss-IsValid.indexed refl

handle_append_entries-Joined_example :
    (reply' : AppendEntriesReply) × (rf' : Raft ℕ) × Joined request no_reply follower
      request-IsRequest request-IsBounded follower-IsValid reply' rf'
handle_append_entries-Joined_example =
    handle_append_entries-Joined request no_reply follower request-IsRequest request-IsBounded
      follower-IsValid (omega arith) refl

handle_request_vote-voted_example :
    (reply : RequestVoteReply) × (rf' : Raft ℕ) × (handle_request_vote vote_request follower
      ≡ ok (reply, rf'))
    × Answers vote_request follower reply rf'
handle_request_vote-voted_example =
    handle_request_vote-voted vote_request follower follower-IsValid.indexed (λ _. refl)

abbrev running : Raft ℕ
running = record boss { test = false }

persist_created-restart_example :
    ((restart [] (persist_created running)).term ≡ pos 0)
    × ((restart [] (persist_created running)).voted_for ≡ pos 0)
    × ((restart [] (persist_created running)).log ≡ [])
persist_created-restart_example = persist_created-restart [] running refl

make-first_vote_example :
    ((make {C = ℕ} 3 1 make_persister).voted_for ≡ pos 0)
    × ((read_persist_run
          (make_run (new_raft {C = ℕ} make_persister none) ("a" ∷ "b" ∷ []) 1)).voted_for
        ≡ minus_one)
make-first_vote_example = make-first_vote ℕ 3 1 ("a" ∷ "b" ∷ [])

abbrev full : Raft ℕ
full = record follower { receive_hb = true }

abbrev old_request : AppendEntriesArgs ℕ
old_request = record request { term = pos 1 }

handlers-blocked_example :
    (handle_append_entries request no_reply full ≡ blocked)
    × (handle_request_vote vote_request full ≡ blocked)
    × (handle_append_entries old_request no_reply full
        ≡ ok (record { last_index = pos 0; term = pos 2; success = false }, persist full))
handlers-blocked_example =
    handlers-blocked request old_request vote_request no_reply full follower-IsValid.indexed refl
      (omega arith) (omega arith) (omega arith)

append_args-request_from_example : append_args 1 boss ≡ ok (request_from 2 boss)
unfolding get_or lookup
append_args-request_from_example =
    append_args-request_from 1 2 boss boss-IsValid.indexed refl (omega arith)

-- a peer that has the first entry, and a second one of another term
abbrev pub behind : Raft ℕ
behind = peer follwer (entry 1 10 1 ∷ entry 2 99 2 ∷ [])

pub behind-IsValid : IsValid behind
behind-IsValid = record {
  indexed = (refl, (refl, tt));
  bounded = (omega arith, (omega arith, tt));
  numbered = tt;
  committed = omega arith;
  applied = refl;
  leads = λ e. cc;
}

boss-behind-Matching : Matching boss.log behind.log
boss-behind-Matching zero lx ly e = refl
boss-behind-Matching (suc zero) lx ly e = refl
boss-behind-Matching (suc (suc zero)) lx ly e = absurd (ground arith)
boss-behind-Matching (suc (suc (suc n))) lx ly e = absurd (omega arith)

start_one_peer_append-Converged_example :
    (rf' : Raft ℕ) × (w' : Raft ℕ) × (start_one_peer_append undisturbed deliver 3 1 boss behind
      ≡ ok (some true, rf', w'))
    × IsValid w'
    × (w'.log ≡ three_entries)
unfolding set_last_term get_or may_send lookup
start_one_peer_append-Converged_example =
    start_one_peer_append-Converged 1 2 boss behind boss-IsValid behind-IsValid (omega arith) refl
      boss-behind-Matching refl (omega arith) refl

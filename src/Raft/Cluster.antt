-- ===== src/Raft/Cluster.antt =====
-- Several peers and the elections among them (src/raft/raft.go `startAsCand`, src/raft/handler.go
-- `HandleRequestVote`): any number of candidacies at once, with any delay and loss of a message.
pub mod Counts
pub mod Promises
pub mod Elected
use sharded_raft_key_value_s.Prelude.{
  ℕ, ◌<◌, ◌≡◌, ◌≢◌, Bool, true, false, Option, none, some, Outcome, ok, ◌==◌, if◌then◌else◌,
}
use sharded_raft_key_value_s.Prelude.Int.{ℤ}
use sharded_raft_key_value_s.Raft.Types.{follwer, RequestVoteReply}
use sharded_raft_key_value_s.Raft.Codec.{Codec}
use sharded_raft_key_value_s.Raft.Node.{Raft}
use sharded_raft_key_value_s.Raft.Handler.{handle_request_vote}
use sharded_raft_key_value_s.Raft.Candidate.{Ballot, time_out, start_as_cand, receive_vote}
use sharded_raft_key_value_s.Raft.Trace.{Step}

-- One call of `startAsCand`: what its goroutines share, the replies that the handlers of the peers
-- have made, and the goroutines that are over. A candidate's own vote stands among the replies.
pub record Campaign : Type 0 where
  pub owner : ℕ
  pub ballot : Ballot
  pub replies : ℕ → Option RequestVoteReply
  pub heard : ℕ → Bool

pub record Cluster (C : Type 0) : Type 0 where
  pub peers : ℕ → Raft C
  pub campaigns : ℕ → Option Campaign

-- the map with one value replaced
abbrev pub at {ℓ} : {A : Type ℓ} → ℕ → A → (ℕ → A) → ℕ → A
at i a f j = if i == j then a else f j

abbrev pub term_of : Campaign → ℤ
term_of k = k.ballot.args.term

abbrev pub own_vote : Ballot → RequestVoteReply
own_vote b = record { term = b.args.term; vote_granted = true; state = follwer }

-- `votes := 1`
abbrev pub campaign_of : ℕ → Ballot → Campaign
campaign_of i b = record {
  owner = i;
  ballot = b;
  replies = at i (some (own_vote b)) (λ _. none);
  heard = at i true (λ _. false);
}

module _ {C : Type 0} where
  abbrev pub with_peer : ℕ → Raft C → Cluster C → Cluster C
  with_peer i rf c = record c { peers = at i rf c.peers }

  abbrev pub with_campaign : ℕ → Campaign → Cluster C → Cluster C
  with_campaign e k c = record c { campaigns = at e (some k) c.campaigns }

-- What can happen in a cluster of `n` peers. A peer may take any step of its own, a crash
-- included; a candidate begins an election; the handler of a peer gets the request, once; the
-- goroutine for that peer goes on, with the reply or without one; the interval ends.
pub data Move {C : Type 0} ⦃codec : Codec C⦄ (n : ℕ) : Cluster C → Cluster C → Type 0 where
  act : {c : Cluster C} (i : ℕ) (rf' : Raft C) → Step (c.peers i) rf' → Move n c (with_peer i rf' c)
  begin :
      {c : Cluster C} (e i : ℕ) (b : Ballot) (rf' : Raft C)
      → i < n
      → c.campaigns e ≡ none
      → start_as_cand (c.peers i) ≡ ok (b, rf')
      → Move n c (with_campaign e (campaign_of i b) (with_peer i rf' c))
  answer :
      {c : Cluster C} (e j : ℕ) (k : Campaign) (reply : RequestVoteReply) (rf' : Raft C)
      → c.campaigns e ≡ some k
      → k.replies j ≡ none
      → handle_request_vote k.ballot.args (c.peers j) ≡ ok (reply, rf')
      → Move n c
          (with_campaign e (record k { replies = at j (some reply) k.replies }) (with_peer j rf' c))
  hear :
      {c : Cluster C} (e j : ℕ) (k : Campaign) (arrived : Bool) (reply : RequestVoteReply)
      (b' : Ballot) (rf' : Raft C)
      → j < n
      → c.campaigns e ≡ some k
      → k.heard j ≡ false
      → (arrived ≡ true → k.replies j ≡ some reply)
      → receive_vote arrived reply k.ballot (c.peers k.owner) ≡ ok (b', rf')
      → Move n c (
          with_campaign e
            (record k { ballot = b'; heard = at j true k.heard })
            (with_peer k.owner rf' c))
  expire :
      {c : Cluster C} (e : ℕ) (k : Campaign)
      → c.campaigns e ≡ some k
      → Move n c (with_campaign e (record k { ballot = time_out k.ballot }) c)

pub data Runs {C : Type 0} ⦃codec : Codec C⦄ (n : ℕ) (c : Cluster C) : Cluster C → Type 0 where
  start : Runs n c c
  move : {a b : Cluster C} → Runs n c a → Move n a b → Runs n c b

-- ===== src/Raft/Candidate/Counting.antt =====
-- Which votes an election counts (src/raft/raft.go `startAsCand`).
use sharded_raft_key_value_s.Prelude.{
  ℕ, ◌+◌, ◌/◌, ◌<◌, ◌≡◌, ◌↔◌, sym, ap, ◌∙◌, Bool, true, false, ◌&&◌, ok, >>=-Returns, ok-injective,
  arith, if◌then◌else◌,
}
use sharded_raft_key_value_s.Prelude.Int.{leb_ℤ}
use sharded_raft_key_value_s.Raft.Types.{win, RequestVoteReply}
use sharded_raft_key_value_s.Raft.Codec.{Codec}
use sharded_raft_key_value_s.Raft.Node.{Raft}
use sharded_raft_key_value_s.Raft.Log.{term_for_log}
use sharded_raft_key_value_s.Raft.Handler.{send_receive_hb}
use sharded_raft_key_value_s.Raft.Candidate.{
  Ballot, time_out, start_as_cand, is_cand, count_vote, receive_vote, decide_election,
}

module _ {C : Type 0} where
  -- a vote of a peer that is in no later term, while this one is a candidate
  abbrev pub counts : Bool → RequestVoteReply → Raft C → ℕ
  counts arrived reply rf =
      if arrived && (reply.vote_granted && (is_cand rf.state && leb_ℤ reply.term rf.term))
      then 1
      else 0

-- What becomes of a ballot: `n` replies are handled, of which `k` count, each at the state that
-- the peer is then in, and the interval may end.
pub data Hears (C : Type 0) ⦃codec : Codec C⦄ (b : Ballot) : ℕ → ℕ → Ballot → Type 0 where
  quiet : Hears C b 0 0 b
  hear :
      {n k : ℕ} {b' b'' : Ballot} (arrived : Bool) (reply : RequestVoteReply) (rf rf' : Raft C)
      → Hears C b n k b'
      → receive_vote arrived reply b' rf ≡ ok (b'', rf')
      → Hears C b (n + 1) (k + counts arrived reply rf) b''
  expire : {n k : ℕ} {b' : Ballot} → Hears C b n k b' → Hears C b n k (time_out b')

module _ {C : Type 0} ⦃codec : Codec C⦄ where
  receive_vote-counts :
      (arrived : Bool) (reply : RequestVoteReply) (b b' : Ballot) (rf rf' : Raft C)
      → receive_vote arrived reply b rf ≡ ok (b', rf')
      → (b'.need_return ≡ b.need_return)
        × (b'.heared_back ≡ b.heared_back + 1)
        × (b.need_return ≡ false → b'.votes ≡ b.votes + counts arrived reply rf)
  unfolding receive_vote count_vote send_receive_hb
  receive_vote-counts arrived reply b b' rf rf' h = (ground arith, ground arith, λ n. ground arith)

  start_as_cand-one :
      (rf rf' : Raft C) {b : Ballot}
      → start_as_cand rf ≡ ok (b, rf')
      → (b.heared_back ≡ 1) × (b.votes ≡ 1)
  unfolding start_as_cand
  start_as_cand-one rf rf' h =
      let (last_term, read, h') = >>=-Returns (term_for_log _ _) h in
      let made = ap (λ (p : Ballot × Raft C). p.0) (ok-injective h') in
      (ap (λ (b : Ballot). b.heared_back) (sym made), ap (λ (b : Ballot). b.votes) (sym made))

  Hears-votes :
      {b : Ballot} {n k : ℕ} {b' : Ballot}
      → Hears C b n k b'
      → (b'.heared_back ≡ b.heared_back + n) × (b'.need_return ≡ false → b'.votes ≡ b.votes + k)
  unfolding time_out
  Hears-votes quiet = (omega arith, λ n. omega arith)
  Hears-votes (hear {b' = b'} {b''} arrived reply rf rf' before h) =
      let (heared, votes) = Hears-votes before in
      let (same, one, more) = receive_vote-counts arrived reply b' b'' rf rf' h in
      (omega arith, λ n. let live = sym same ∙ n in omega (arith, votes live, more live))
  Hears-votes (expire before) = let (heared, votes) = Hears-votes before in (heared, λ n. cc)

  -- However the replies of an election are interleaved with other steps of the peer and with the
  -- end of the interval: startAsCand has then heard back once more than replies were handled, and
  -- it decides that the peer has won exactly if the interval has not ended, the peer is still a
  -- candidate, and the votes that came from peers in no later term while it was a candidate are,
  -- with its own, more than half.
  pub decide_election-counts :
      {n k : ℕ} {b b' : Ballot} (rf rf' now : Raft C)
      → start_as_cand rf ≡ ok (b, rf')
      → Hears C b n k b'
      → (b'.heared_back ≡ 1 + n)
        × ((decide_election b' now ≡ win) ↔ (
            (b'.need_return ≡ false) × (is_cand now.state ≡ true) × (now.peer_number / 2 < 1 + k)))
  unfolding decide_election
  decide_election-counts {n} {k} {b} {b'} rf rf' now began heard =
      let (heared, votes) = Hears-votes heard in
      let (one, voted) = start_as_cand-one rf rf' began in
      (
        omega arith,
        (
          (λ h.
              let live : b'.need_return ≡ false = ground arith in
              let total = votes live in (live, ground arith, ground arith)),
          (λ (live, standing, most). let total = votes live in ground arith),
        ),
      )

-- ===== src/Raft/Replicate/Delivery.antt =====
-- One request of `StartOnePeerAppend` (src/raft/raft.go), answered by the `HandleAppendEntries`
-- (src/raft/handler.go) of a reachable peer.
use sharded_raft_key_value_s.Prelude.{
  ℕ, ◌≡◌, refl, ap, subst, ◌∙◌, nat_eq, true, false, Option, some, Outcome, ok, ok_unique, ◌>>=◌,
  arith,
}
use sharded_raft_key_value_s.Prelude.Int.{pos, ◌≤ℤ◌, leb_ℤ}
use sharded_raft_key_value_s.Raft.Types.{Entry, AppendEntriesArgs, AppendEntriesReply, follwer}
use sharded_raft_key_value_s.Raft.Codec.{Codec}
use sharded_raft_key_value_s.Raft.Node.{Raft, persist, set_follwer}
use sharded_raft_key_value_s.Raft.Handler.{
  room, woken, signal-woken, dispatch_job, handle_append_entries,
}
use sharded_raft_key_value_s.Raft.Handler.Matching.{answer, append_log-answer}
use sharded_raft_key_value_s.Raft.Replicate.Request.{
  request_from, request_from-IsRequest, IsBounded-drop,
}
use sharded_raft_key_value_s.Raft.Indexed.{IsIndexed, entry_at}
use sharded_raft_key_value_s.Raft.Invariant.{IsValid}
use sharded_raft_key_value_s.Raft.Invariant.Appending.{handle_append_entries-Joined}

-- `AppendEntriesReply{}`
abbrev pub empty_reply : AppendEntriesReply
empty_reply = record { last_index = pos 0; term = pos 0; success = false }

module _ {C : Type 0} where
  -- the peer's goroutine has taken what the handler last sent it
  abbrev pub rested : Raft C → Raft C
  rested w = record w { receive_hb = false; become_follwer_from_leader = false }

  pub rested-IsValid : (w : Raft C) → IsValid w → IsValid (rested w)
  rested-IsValid w v = record {
    indexed = v.indexed;
    bounded = v.bounded;
    numbered = v.numbered;
    committed = v.committed;
    applied = v.applied;
    leads = v.leads;
  }

  rested-room : (w : Raft C) → room (rested w) ≡ true
  rested-room w = ground arith

module _ {C : Type 0} ⦃codec : Codec C⦄ where
  -- an answer of a reachable peer
  unfoldable pub deliver :
      AppendEntriesArgs C → Raft C → Outcome (Option AppendEntriesReply × Raft C)
  deliver args w = do
    (reply, w) ← handle_append_entries args empty_reply (rested w)
    ok (some reply, w)

  module _ (rf w : Raft C) (k : ℕ) (v : IsValid rf) (vw : IsValid w) (le : w.term ≤ℤ rf.term) where
    abbrev pub begun : Raft C
    begun = record (woken (rested w)) { term = rf.term; state = follwer; is_leader = false }

    abbrev pub reply0 : AppendEntriesReply
    reply0 = record empty_reply { success = true; term = rf.term }

    pub begun-IsIndexed : IsIndexed 0 begun.log
    begun-IsIndexed = vw.indexed

    abbrev pub outcome : Option (Entry C) → AppendEntriesReply × Raft C
    outcome o =
        answer (request_from k rf) reply0 begun (request_from-IsRequest k rf v) begun-IsIndexed o

    module _ (o : Option (Entry C)) (read : entry_at k w.log ≡ o) where
      handled :
          handle_append_entries (request_from k rf) empty_reply (rested w)
          ≡ ok ((outcome o).0, persist (outcome o).1)
      unfolding handle_append_entries set_follwer dispatch_job
      handled =
          let test : leb_ℤ w.term rf.term ≡ true = ground arith in
          let awake = signal-woken (record (rested w) { term = rf.term }) (rested-room w) in
          let done =
            append_log-answer (request_from k rf) reply0 begun (request_from-IsRequest k rf v)
              begun-IsIndexed
            ∙ ap (λ x. ok (outcome x)) read in
          rw (test, awake, done) refl

      pub deliver-outcome :
          deliver (request_from k rf) w ≡ ok (some (outcome o).0, persist (outcome o).1)
      unfolding deliver
      deliver-outcome = rw handled refl

      -- the peer is valid again, in the leader's term
      pub outcome-IsValid :
          IsValid (persist (outcome o).1) × ((persist (outcome o).1).term ≡ rf.term)
      outcome-IsValid =
          let (reply', w', (runs, valid, adv, saved, term_eq, _, _, _)) =
            handle_append_entries-Joined (request_from k rf) empty_reply (rested w)
              (request_from-IsRequest k rf v) (IsBounded-drop rf.term k rf.log v.bounded)
              (rested-IsValid w vw) le (rested-room w) in
          let same : w' ≡ persist (outcome o).1 =
            ap (λ (p : AppendEntriesReply × Raft C). p.1) (ok_unique runs handled) in
          (subst IsValid same valid, subst (λ (x : Raft C). x.term ≡ rf.term) same term_eq)

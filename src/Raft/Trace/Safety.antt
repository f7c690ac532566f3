-- ===== src/Raft/Trace/Safety.antt =====
-- Every step of a peer, crashes included, keeps its invariant and its promises.
use sharded_raft_key_value_s.Prelude.{
  ℕ, ◌≡◌, refl, sym, ap, ◌∙◌, ◌⊎◌, inl, inr, Bool, true, List, String, ok, ok_unique, arith,
  Bool-cases,
}
use sharded_raft_key_value_s.Prelude.Int.{ℤ, ◌≤ℤ◌, ◌<ℤ◌, pos_part, neg_part, eq_of_parts}
use sharded_raft_key_value_s.Raft.Types.{
  AppendEntriesArgs, AppendEntriesReply, RequestVoteArgs, RequestVoteReply,
}
use sharded_raft_key_value_s.Raft.Codec.{Codec}
use sharded_raft_key_value_s.Raft.Node.{Raft, persist, restart}
use sharded_raft_key_value_s.Raft.Handler.{
  room, handle_append_entries, handle_request_vote, set_network,
}
use sharded_raft_key_value_s.Raft.Handler.Matching.{IsRequest}
use sharded_raft_key_value_s.Raft.Candidate.{Ballot, receive_vote}
use sharded_raft_key_value_s.Raft.Leader.{receive_heart_beat, start, mark_dead}
use sharded_raft_key_value_s.Raft.Invariant.{
  IsBounded, IsValid, Advances, SameDisk, persist-IsValid,
}
use sharded_raft_key_value_s.Raft.Invariant.Appending.{
  handle_append_entries-Joined, handle_append_entries-stale, handle_append_entries-blocked,
}
use sharded_raft_key_value_s.Raft.Invariant.Voting.{
  voted, handle_request_vote-IsValid, handle_request_vote-runs, handle_request_vote-blocked,
}
use sharded_raft_key_value_s.Raft.Invariant.Standing.{
  standing, start_as_cand-standing, start_as_cand-IsValid, beaten, receive_vote-step,
  receive_vote-IsValid,
}
use sharded_raft_key_value_s.Raft.Invariant.Leading.{
  Advances-same, with_maps, start_as_leader-IsValid, deposed, receive_heart_beat-step,
  receive_heart_beat-IsValid, start-IsValid,
}
use sharded_raft_key_value_s.Raft.Invariant.Replicating.{append_success-Kept, append_retry-maps}
use sharded_raft_key_value_s.Raft.Durable.{
  IsDurable, IsIndexed-read_back, IsBounded-read_back, persist-restart, restart-disk,
  restart-restart, restart-fresh, restart-me,
}
use sharded_raft_key_value_s.Raft.Trace.{
  Step, append_entries, request_vote, stand, hear_vote, lead, hear_heart_beat, propose,
  hear_success, hear_failure, lose, wake, depose, link, stop, crash, take_receive_hb,
  take_become_follwer, kill,
}

pub ≤ℤ_or_lt : (a b : ℤ) → (a ≤ℤ b) ⊎ (b <ℤ a)
≤ℤ_or_lt a b = omega arith

second-eq : {A B : Type 0} {p q : A × B} → p ≡ q → p.1 ≡ q.1
second-eq {A} {B} e = ap (λ (p : A × B). p.1) e

module _ {C : Type 0} ⦃codec : Codec C⦄ where
  pub record IsSound (rf : Raft C) : Type 0 where
    pub valid : IsValid rf
    pub durable : IsDurable rf

  -- what a step from `rf` to `rf'` guarantees
  abbrev pub Safe : Raft C → Raft C → Type 0
  Safe rf rf' = IsSound rf' × Advances rf rf'

  IsDurable-persist : (rf : Raft C) → IsValid (persist rf) → IsDurable (persist rf)
  unfolding persist
  IsDurable-persist rf v = record {
    term_saved = λ ps. (persist-restart ps rf).0;
    vote_saved = λ ps. (persist-restart ps rf).1;
    log_indexed =
        λ ps. rw ((persist-restart ps rf).2) (IsIndexed-read_back rf.test rf.log v.indexed);
    log_bounded =
        λ ps. rw ((persist-restart ps rf).2) (IsBounded-read_back rf.test rf.term rf.log v.bounded);
  }

  IsDurable-disk : (rf rf' : Raft C) → SameDisk rf rf' → IsDurable rf → IsDurable rf'
  IsDurable-disk rf rf' d h = record {
    term_saved = λ ps. (restart-disk ps rf rf' d).0 ∙ h.term_saved ps ∙ sym d.term_eq;
    vote_saved = λ ps. (restart-disk ps rf rf' d).1 ∙ h.vote_saved ps ∙ sym d.vote_eq;
    log_indexed = λ ps. rw ((restart-disk ps rf rf' d).2) (h.log_indexed ps);
    log_bounded = λ ps. rw ((restart-disk ps rf rf' d).2, d.term_eq) (h.log_bounded ps);
  }

  IsDurable-restart : (qs : List String) (rf : Raft C) → IsDurable rf → IsDurable (restart qs rf)
  IsDurable-restart qs rf h = record {
    term_saved = λ ps. (restart-restart ps qs rf).0;
    vote_saved = λ ps. (restart-restart ps qs rf).1;
    log_indexed = λ ps. rw ((restart-restart ps qs rf).2) (h.log_indexed qs);
    log_bounded = λ ps. rw ((restart-restart ps qs rf).2, h.term_saved qs) (h.log_bounded qs);
  }

  -- a step that ends in a save
  saved :
      {rf : Raft C} (rf' x : Raft C) → rf' ≡ persist x → IsValid rf' × Advances rf rf' → Safe rf rf'
  saved rf' x e (v, a) =
      (record { valid = v; durable = rw e (IsDurable-persist x (rw (← e) v)) }, a)

  -- a step that leaves the disk, the term and the vote alone
  unsaved : {rf rf' : Raft C} → SameDisk rf rf' → IsValid rf' → IsSound rf → Safe rf rf'
  unsaved {rf} {rf'} d v s = (
    record { valid = v; durable = IsDurable-disk rf rf' d s.durable },
    Advances-same d.term_eq d.vote_eq d.me_eq,
  )

  Advances-persist_self : (rf : Raft C) → Advances rf (persist rf)
  unfolding persist
  Advances-persist_self rf = Advances-same refl refl refl

  append_entries-Safe :
      (args : AppendEntriesArgs C) (reply reply' : AppendEntriesReply) (rf rf' : Raft C)
      → IsRequest args
      → IsBounded args.term args.entries
      → handle_append_entries args reply rf ≡ ok (reply', rf')
      → IsSound rf
      → Safe rf rf'
  append_entries-Safe args reply reply' rf rf' q b h s = elim (≤ℤ_or_lt rf.term args.term) [
    | inl le ↦ elim (Bool-cases (room rf)) [
      | inl r ↦
          let (reply'', rf'', (runs, valid, adv, (x, e), _, _, _, _)) =
            handle_append_entries-Joined args reply rf q b s.valid le r in
          let same = second-eq (ok_unique h runs) in saved rf' x (same ∙ e) (rw same (valid, adv))
      | inr r ↦ cc (handle_append_entries-blocked args reply rf q b s.valid le r, h)
    ]
    | inr lt ↦
        let same =
          second-eq (ok_unique h (handle_append_entries-stale args reply rf q b s.valid lt)) in
        saved rf' rf same (rw same (persist-IsValid rf s.valid, Advances-persist_self rf))
  ]

  request_vote-Safe :
      (args : RequestVoteArgs) (reply' : RequestVoteReply) (rf rf' : Raft C)
      → handle_request_vote args rf ≡ ok (reply', rf')
      → IsSound rf
      → Safe rf rf'
  request_vote-Safe args reply' rf rf' h s = elim (≤ℤ_or_lt args.term rf.term) [
    | inl le ↦ go (λ lt. absurd (omega arith))
    | inr lt ↦ elim (Bool-cases (room rf)) [
      | inl r ↦ go (λ _. r)
      | inr r ↦ cc (handle_request_vote-blocked args rf s.valid.indexed lt r, h)
    ]
  ]
    where
      go : (rf.term <ℤ args.term → room rf ≡ true) → Safe rf rf'
      go r =
          let same = second-eq (ok_unique h (handle_request_vote-runs args rf s.valid.indexed r)) in
          saved rf' (voted args rf) same (rw same (handle_request_vote-IsValid args rf s.valid))

  hear_vote-Safe :
      (arrived : Bool) (reply : RequestVoteReply) (b b' : Ballot) (rf rf' : Raft C)
      → receive_vote arrived reply b rf ≡ ok (b', rf')
      → IsSound rf
      → Safe rf rf'
  hear_vote-Safe arrived reply b b' rf rf' h s = elim (receive_vote-step reply b rf arrived h) [
    | inl e ↦ rw e (s, Advances-same refl refl refl)
    | inr (e, _) ↦
        saved rf' (beaten reply.term rf) e (receive_vote-IsValid reply b rf arrived h s.valid)
  ]

  hear_heart_beat-Safe :
      (server : ℕ) (arrived : Bool) (reply : AppendEntriesReply) (starts : Bool) (rf rf' : Raft C)
      → receive_heart_beat server arrived reply rf ≡ ok (starts, rf')
      → IsSound rf
      → Safe rf rf'
  hear_heart_beat-Safe server arrived reply starts rf rf' h s =
      let (valid, adv) = receive_heart_beat-IsValid server arrived reply rf h s.valid in
      elim (receive_heart_beat-step server arrived reply rf h) [
        | inl (e, _) ↦ saved rf' (deposed reply.term rf) e (valid, adv)
        | inr (p, o, e) ↦ unsaved (rw e (ground arith)) valid s
      ]

  -- the maps of a leader, the channels, the network and the killed flag are not on the disk
  aside :
      (rf rf' : Raft C) → SameDisk rf rf' → IsValid rf' × Advances rf rf' → IsSound rf → Safe rf rf'
  aside rf rf' d (v, _) s = unsaved d v s

  crash-IsValid : (ps : List String) (rf : Raft C) → IsDurable rf → IsValid (restart ps rf)
  crash-IsValid ps rf h = record {
    indexed = h.log_indexed ps;
    bounded = rw (h.term_saved ps) (h.log_bounded ps);
    numbered = rw ((restart-fresh ps rf).0) tt;
    committed = rw ((restart-fresh ps rf).2) (omega arith);
    applied = rw ((restart-fresh ps rf).1, (restart-fresh ps rf).0) refl;
    leads = λ e. cc ((restart-fresh ps rf).3, e);
  }

  -- Every step keeps the invariant, never lowers the term, and keeps the index and any vote of the term.
  pub Step-Safe : {rf rf' : Raft C} → Step rf rf' → IsSound rf → Safe rf rf'
  unfolding start mark_dead take_receive_hb take_become_follwer set_network kill
  Step-Safe (append_entries {rf} {rf'} args reply reply' q b h) s =
      append_entries-Safe args reply reply' rf rf' q b h s
  Step-Safe (request_vote {rf} {rf'} args reply' h) s = request_vote-Safe args reply' rf rf' h s
  Step-Safe (stand {rf} {rf'} b h) s =
      let same = second-eq (ok_unique h (start_as_cand-standing rf s.valid)) in
      saved rf' (standing rf) same (rw same (start_as_cand-IsValid rf s.valid))
  Step-Safe (hear_vote {rf} {rf'} arrived reply b b' h) s =
      hear_vote-Safe arrived reply b b' rf rf' h s
  Step-Safe (lead rf) s =
      let (valid, adv, disk) = start_as_leader-IsValid rf s.valid in unsaved disk valid s
  Step-Safe (hear_heart_beat {rf} {rf'} server arrived reply starts h) s =
      hear_heart_beat-Safe server arrived reply starts rf rf' h s
  Step-Safe (propose rf command) s =
      saved (start command rf).2 _ refl (start-IsValid command rf s.valid)
  Step-Safe (hear_success {rf} {rf'} server args h) s =
      let (rf'', runs, valid, adv, disk) = append_success-Kept server args rf s.valid in
      let same = ok_unique h runs in rw same (unsaved disk valid s)
  Step-Safe (hear_failure {rf} {rf'} server reply args args' h) s =
      let same = append_retry-maps server reply args rf h in
      rw same (
        aside rf _ (ground arith)
          (with_maps rf _ refl refl refl refl refl refl refl s.valid.leads s.valid) s)
  Step-Safe (lose rf server) s =
      aside rf _ (ground arith)
        (with_maps rf _ refl refl refl refl refl refl refl s.valid.leads s.valid) s
  Step-Safe (wake rf) s =
      aside rf _ (ground arith)
        (with_maps rf _ refl refl refl refl refl refl refl s.valid.leads s.valid) s
  Step-Safe (depose rf) s =
      aside rf _ (ground arith)
        (with_maps rf _ refl refl refl refl refl refl refl s.valid.leads s.valid) s
  Step-Safe (link rf network) s =
      aside rf _ (ground arith)
        (with_maps rf _ refl refl refl refl refl refl refl s.valid.leads s.valid) s
  Step-Safe (stop rf) s =
      aside rf _ (ground arith)
        (with_maps rf _ refl refl refl refl refl refl refl s.valid.leads s.valid) s
  Step-Safe (crash rf ps) s = (
    record { valid = crash-IsValid ps rf s.durable; durable = IsDurable-restart ps rf s.durable },
    Advances-same (s.durable.term_saved ps) (s.durable.vote_saved ps) (restart-me ps rf),
  )

  pub data Reach (rf : Raft C) : Raft C → Type 0 where
    here : Reach rf rf
    next : {a b : Raft C} → Reach rf a → Step a b → Reach rf b

  Advances-trans : {a b c : Raft C} → Advances a b → Advances b c → Advances a c
  Advances-trans {a} {b} {c} p q = record {
    term_le = omega (arith, p.term_le, q.term_le);
    vote = λ e n.
        let same : b.term ≡ a.term =
          eq_of_parts b.term a.term
            (omega (arith, p.term_le, q.term_le, ap pos_part e, ap neg_part e)) in
        let kept = p.vote same n in q.vote (e ∙ sym same) (λ z. n (sym kept ∙ z)) ∙ kept;
    me_eq = q.me_eq ∙ p.me_eq;
  }

  -- Whatever a peer with a well-formed state goes through (any critical sections, messages that a
  -- leader can send, and crashes with restarts), its log stays numbered and of no later term than
  -- its own, the messages it has handed over stay numbered without gap, its disk keeps its term
  -- and vote, its term never falls, its index stays, and a vote given in a term is never changed
  -- in that term.
  pub Reach-Safe : {rf rf' : Raft C} → IsSound rf → Reach rf rf' → Safe rf rf'
  Reach-Safe s here = (s, Advances-same refl refl refl)
  Reach-Safe s (next r st) =
      let (sound, adv) = Reach-Safe s r in
      let (sound', adv') = Step-Safe st sound in (sound', Advances-trans adv adv')

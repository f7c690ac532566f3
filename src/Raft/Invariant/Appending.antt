-- ===== src/Raft/Invariant/Appending.antt =====
-- `HandleAppendEntries` (src/raft/handler.go) keeps the invariant, on every branch.
use sharded_raft_key_value_s.Prelude.{
  ℕ, ◌+◌, ◌-◌, ◌≤◌, ◌≡◌, refl, sym, subst, ◌∙◌, inl, inr, true, false, List, ◌++◌, ok, blocked,
  arith, length, length-take, take, Option-cases,
}
use sharded_raft_key_value_s.Prelude.Int.{◌≤ℤ◌, ◌<ℤ◌, leb_ℤ, dec_eq}
use sharded_raft_key_value_s.Raft.Types.{
  Job, append, commit_and_heart_beat, heart_beat, follwer, Entry, AppendEntriesArgs,
  AppendEntriesReply,
}
use sharded_raft_key_value_s.Raft.Codec.{Codec}
use sharded_raft_key_value_s.Raft.Node.{Raft, set_follwer, persist}
use sharded_raft_key_value_s.Raft.Handler.{
  set_last_term, woken, room, signal-woken, signal-blocked, append_log, dispatch_job,
  handle_append_entries,
}
use sharded_raft_key_value_s.Raft.Handler.Matching.{
  IsRequest, append_log-beyond, append_log-conflict, append_log-match, entry_at_le,
  lt_of_entry_at-none,
}
use sharded_raft_key_value_s.Raft.Indexed.{
  IsIndexed, entry_at, IsIndexed-append, IsIndexed-take, IsIndexed-set_last_term,
}
use sharded_raft_key_value_s.Raft.Invariant.{
  IsBounded, IsValid, Advances, SameRole, SameRole-refl, SameRole-trans, persist-IsValid,
  persist-SameRole, Done, IsBounded-mono, IsBounded-append, IsBounded-take, IsBounded-set_last_term,
}
use sharded_raft_key_value_s.Raft.Invariant.Applying.{commit_log-IsValid}

module _ {C : Type 0} where
  -- a new log of a valid peer
  abbrev NewLog : Raft C → List (Entry C) → Type 0
  NewLog rf log = IsIndexed 0 log × IsBounded rf.term log

  with_log :
      (rf : Raft C) (log : List (Entry C))
      → IsValid rf
      → NewLog rf log
      → IsValid (record rf { log = log })
  with_log rf log v h = record {
    indexed = h.0;
    bounded = h.1;
    numbered = v.numbered;
    committed = v.committed;
    applied = v.applied;
    leads = v.leads;
  }

  abbrev Appended : AppendEntriesArgs C → AppendEntriesReply → Raft C → Type 0
  Appended args reply rf =
      (reply' : AppendEntriesReply) × (log : List (Entry C)) × (append_log args reply rf
        ≡ ok (reply', record rf { log = log }))
      × NewLog rf log

  module _ (args : AppendEntriesArgs C) (reply : AppendEntriesReply) (rf : Raft C)
      (q : IsRequest args) (fresh : IsBounded args.term args.entries) (same : rf.term ≡ args.term)
      (v : IsValid rf) where
    NewLog-take : (n : ℕ) → NewLog rf (take n rf.log)
    NewLog-take n = (IsIndexed-take 0 n rf.log v.indexed, IsBounded-take rf.term n rf.log v.bounded)

    NewLog-match :
        q.prev ≤ length rf.log
        → NewLog rf (set_last_term args.term (take q.prev rf.log ++ args.entries))
    NewLog-match h =
        let l : 0 + length (take q.prev rf.log) ≡ q.prev =
          omega (arith, length-take q.prev rf.log) in
        (
          IsIndexed-set_last_term 0 args.term _ (
              IsIndexed-append 0 (take q.prev rf.log) args.entries (NewLog-take q.prev).0
                (subst (λ k. IsIndexed k args.entries) (sym l) q.numbered)),
          IsBounded-set_last_term rf.term args.term _ (rw same (omega arith)) (
              IsBounded-append rf.term (take q.prev rf.log) args.entries (NewLog-take q.prev).1
                (subst (λ t. IsBounded t args.entries) (sym same) fresh)),
        )

    append_log-Appended : Appended args reply rf
    append_log-Appended = elim (Option-cases (entry_at q.prev rf.log)) [
      | inl out ↦ (
        _,
        rf.log,
        append_log-beyond args reply rf q v.indexed (lt_of_entry_at-none q.prev rf.log out),
        (v.indexed, v.bounded),
      )
      | inr (e, found) ↦ elim (dec_eq e.term args.prev_log_term) [
        | yes eq ↦ (
          _,
          _,
          append_log-match args reply rf q v.indexed e found eq,
          NewLog-match (entry_at_le q.prev rf.log e found),
        )
        | no ne ↦ (
          _,
          _,
          append_log-conflict args reply rf q v.indexed e found ne,
          NewLog-take (q.prev - 1),
        )
      ]
    ]

    dispatch_job-Done : (job : Job) → Done rf (dispatch_job job args reply rf)
    unfolding dispatch_job
    dispatch_job-Done append =
        let (reply', log, runs, new) = append_log-Appended in
        (reply', record rf { log = log }, runs, with_log rf log v new, ground arith)
    dispatch_job-Done commit_and_heart_beat =
        let (c, n, runs, valid) = commit_log-IsValid args rf q.commit v in
        (reply, _, rw runs refl, valid, ground arith)
    dispatch_job-Done heart_beat = (reply, rf, refl, v, SameRole-refl rf)

module _ {C : Type 0} ⦃codec : Codec C⦄ where
  module _ (args : AppendEntriesArgs C) (reply : AppendEntriesReply) (rf : Raft C)
      (q : IsRequest args) (fresh : IsBounded args.term args.entries) (v : IsValid rf) where
    -- the peer before its job: awake, a follower, in the term of the request
    abbrev pub joined : Raft C
    joined = record (woken rf) { term = args.term; state = follwer; is_leader = false }

    joined-IsValid : rf.term ≤ℤ args.term → IsValid joined
    joined-IsValid h = record {
      indexed = v.indexed;
      bounded = IsBounded-mono rf.term args.term rf.log h v.bounded;
      numbered = v.numbered;
      committed = v.committed;
      applied = v.applied;
      leads = λ e. cc;
    }

    -- what a request of the current or a later term leaves behind
    abbrev pub Joined : AppendEntriesReply → Raft C → Type 0
    Joined reply' rf' =
        (handle_append_entries args reply rf ≡ ok (reply', rf'))
        × IsValid rf'
        × Advances rf rf'
        × ((x : Raft C) × (rf' ≡ persist x))
        × (rf'.term ≡ args.term)
        × (rf'.voted_for ≡ rf.voted_for)
        × (rf'.state ≡ follwer)
        × (rf'.is_leader ≡ false)

    Advances-joined : (rf' : Raft C) → rf.term ≤ℤ args.term → SameRole joined rf' → Advances rf rf'
    Advances-joined rf' h role = record {
      term_le = rw role.term_eq h;
      vote = λ _ _. role.vote_eq;
      me_eq = role.me_eq;
    }

    -- A peer with a well-formed state and room in its wake-up channel, and a request that a
    -- leader can send, of the peer's term or a later one: HandleAppendEntries returns, for each
    -- job, and leaves a well-formed and saved peer, a follower of the request's term, whose vote
    -- is the same and whose term has not fallen. (A request that a leader can send has a previous
    -- index of at least 0, with the term 0 at the index 0, entries numbered on from it and of no
    -- later term than its own, and a commit index of at least 0.)
    pub handle_append_entries-Joined :
        rf.term ≤ℤ args.term
        → room rf ≡ true
        → (reply' : AppendEntriesReply) × (rf' : Raft C) × Joined reply' rf'
    unfolding handle_append_entries set_follwer
    handle_append_entries-Joined h r =
        let begun = record reply { success = true; term = args.term } in
        let (reply', rf', runs, valid, role) =
          dispatch_job-Done args begun joined q fresh refl (joined-IsValid h) args.job in
        let test : leb_ℤ rf.term args.term ≡ true = ground arith in
        let awake = signal-woken (record rf { term = args.term }) r in
        let saved = persist-SameRole rf' in
        (
          reply',
          persist rf',
          (
            rw (test, awake, runs) refl,
            persist-IsValid rf' valid,
            Advances-joined (persist rf') h (SameRole-trans role saved),
            (rf', refl),
            saved.term_eq ∙ role.term_eq,
            saved.vote_eq ∙ role.vote_eq,
            saved.state_eq ∙ role.state_eq,
            saved.is_leader_eq ∙ role.is_leader_eq,
          ),
        )

    -- A request of an earlier term is refused, and changes nothing but the disk.
    pub handle_append_entries-stale :
        args.term <ℤ rf.term
        → handle_append_entries args reply rf
          ≡ ok (record reply { term = rf.term; success = false }, persist rf)
    unfolding handle_append_entries
    handle_append_entries-stale h =
        let test : leb_ℤ rf.term args.term ≡ false = ground arith in rw test refl

    -- A full channel blocks the handler, with the lock held.
    pub handle_append_entries-blocked :
        rf.term ≤ℤ args.term → room rf ≡ false → handle_append_entries args reply rf ≡ blocked
    unfolding handle_append_entries
    handle_append_entries-blocked h r =
        let test : leb_ℤ rf.term args.term ≡ true = ground arith in
        rw (test, signal-blocked (record rf { term = args.term }) r) refl

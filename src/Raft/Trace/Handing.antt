-- ===== src/Raft/Trace/Handing.antt =====
-- Which messages a step of a peer hands over to its service (src/raft/raft.go `startApply`).
use mathlib.Core.List.{append-nil}
use sharded_raft_key_value_s.Prelude.{
  ℕ, ◌≡◌, refl, sym, ap, ap₂, subst, ◌∙◌, inl, inr, true, false, ◌++◌, map, take, drop, length, ok,
  >>=-Returns, ok-injective, ok_unique, arith, Bool-cases, if◌then◌else◌,
}
use sharded_raft_key_value_s.Prelude.Int.{ℤ, pos, ◌≤ℤ◌, leb_ℤ}
use sharded_raft_key_value_s.Raft.Indexed.{IsIndexed, index-get_last_log_entry}
use sharded_raft_key_value_s.Raft.Apply.Order.{message, applied, due, start_apply-applied}
use sharded_raft_key_value_s.Raft.Invariant.{IsValid}
use sharded_raft_key_value_s.Raft.Invariant.Replicating.{Recorded, Handed, append_success-IsValid}
use sharded_raft_key_value_s.Raft.Types.{
  Job, append, commit_and_heart_beat, heart_beat, AppendEntriesArgs, AppendEntriesReply,
}
use sharded_raft_key_value_s.Raft.Codec.{Codec}
use sharded_raft_key_value_s.Raft.Node.{Raft, persist, set_leader, set_follwer}
use sharded_raft_key_value_s.Raft.Log.{get_last_log_entry, min_ℤ}
use sharded_raft_key_value_s.Raft.Apply.{start_apply}
use sharded_raft_key_value_s.Raft.Handler.{
  room, woken, signal, signal-woken, signal-blocked, append_log, commit_log, dispatch_job,
  handle_append_entries, set_network,
}
use sharded_raft_key_value_s.Raft.Leader.{start_as_leader, start, mark_dead}
use sharded_raft_key_value_s.Raft.Trace.Messages.{
  init_peers-messages, append_retry-messages, handle_request_vote-messages, start_as_cand-messages,
  receive_vote-messages, receive_heart_beat-messages,
}
use sharded_raft_key_value_s.Raft.Trace.{
  Step, append_entries, request_vote, stand, hear_vote, lead, hear_heart_beat, propose,
  hear_success, hear_failure, lose, wake, depose, link, stop, crash, take_receive_hb,
  take_become_follwer, kill, is_crash,
}

module _ {C : Type 0} where
  -- `rf'` has handed over the messages of `rf` and the entries of `rf` that come next, `n` of them
  abbrev pub Hands : Raft C → Raft C → Type 0
  Hands rf rf' =
      (n : ℕ) × (rf'.apply_chan
        ≡ rf.apply_chan ++ map message (take n (drop (length rf.apply_chan) rf.log)))

  Hands-same : (rf rf' : Raft C) → rf'.apply_chan ≡ rf.apply_chan → Hands rf rf'
  Hands-same rf rf' e = (0, e ∙ sym (append-nil rf.apply_chan))

  start_apply-Hands :
      (c : ℤ) (rf rf' : Raft C)
      → IsIndexed 0 rf.log
      → rf.last_apply ≡ pos (length rf.apply_chan)
      → c ≤ℤ pos (length rf.log)
      → start_apply c rf ≡ ok rf'
      → Hands rf rf'
  start_apply-Hands c rf rf' w l b h =
      let a = length rf.apply_chan in
      let same = ok_unique h (start_apply-applied a rf w l c b) in
      (due a c rf, ap (λ (x : Raft C). x.apply_chan) same)

  dispatch_job-Hands :
      (job : Job) (args : AppendEntriesArgs C) (reply reply' : AppendEntriesReply) (rf rf' : Raft C)
      → IsIndexed 0 rf.log
      → rf.last_apply ≡ pos (length rf.apply_chan)
      → dispatch_job job args reply rf ≡ ok (reply', rf')
      → Hands rf rf'
  unfolding dispatch_job append_log commit_log
  dispatch_job-Hands heart_beat args reply reply' rf rf' w l h = Hands-same rf rf' (ground arith)
  dispatch_job-Hands commit_and_heart_beat args reply reply' rf rf' w l h =
      let commit = min_ℤ args.leader_commit (get_last_log_entry rf).index in
      let before = record rf { commit_index = commit } in
      let (mid, applies, h') = >>=-Returns (start_apply commit before) h in
      let low : commit ≤ℤ pos (length rf.log) =
        unfold min_ℤ in ground (arith, index-get_last_log_entry rf w) in
      let (n, e) = start_apply-Hands commit before mid w l low applies in
      (n, ap (λ (p : AppendEntriesReply × Raft C). p.1.apply_chan) (sym (ok-injective h')) ∙ e)
  dispatch_job-Hands append args reply reply' rf rf' w l h = Hands-same rf rf' (ground arith)

  -- a leader that has recorded an answer hands over from the same log
  Recorded-Hands :
      {server : ℕ} {args : AppendEntriesArgs C} (rf recorded rf' : Raft C)
      → Recorded server args rf recorded
      → Handed recorded rf'
      → Hands rf rf'
  Recorded-Hands rf recorded rf' r (updated, moved, done, e) =
      let a = length recorded.apply_chan in
      let n = due a moved.commit_index moved in
      let end : rf'.apply_chan ≡ (if updated then applied a n moved else moved).apply_chan =
        ap (λ (x : Raft C). x.apply_chan) e in
      elim done [
        | inl (u, _, (k, m, _, _, _, _)) ↦
            let ran : rf'.apply_chan ≡ (applied a n moved).apply_chan =
              end ∙ ap (λ b. (if b then applied a n moved else moved).apply_chan) u in
            let from : (applied a n moved).apply_chan
                ≡ recorded.apply_chan ++ map message (take n (drop a recorded.log)) =
              ap (λ (x : Raft C). x.apply_chan ++ map message (take n (drop a x.log))) m in
            let first : recorded.apply_chan ++ map message (take n (drop a recorded.log))
                ≡ rf.apply_chan ++ map message (take n (drop (length rf.apply_chan) rf.log)) =
              ap₂ (λ chan log. chan ++ map message (take n (drop (length chan) log))) r.chan_eq
                r.log_eq in
            (n, ran ∙ from ∙ first)
        | inr (u, m, _) ↦
            let ran : rf'.apply_chan ≡ moved.apply_chan =
              end ∙ ap (λ b. (if b then applied a n moved else moved).apply_chan) u in
            Hands-same rf rf' (ran ∙ ap (λ (x : Raft C). x.apply_chan) m ∙ r.chan_eq)
      ]

module _ {C : Type 0} ⦃codec : Codec C⦄ where
  signal-woken_eq : (rf rf' : Raft C) → signal rf ≡ ok rf' → rf' ≡ woken rf
  signal-woken_eq rf rf' h = elim (Bool-cases (room rf)) [
    | inl r ↦ ok_unique h (signal-woken rf r)
    | inr r ↦ cc (signal-blocked rf r, h)
  ]

  handle_append_entries-Hands :
      (args : AppendEntriesArgs C) (reply reply' : AppendEntriesReply) (rf rf' : Raft C)
      → IsValid rf
      → handle_append_entries args reply rf ≡ ok (reply', rf')
      → Hands rf rf'
  unfolding handle_append_entries set_follwer persist
  handle_append_entries-Hands args reply reply' rf rf' v h =
      elim (Bool-cases (leb_ℤ rf.term args.term)) [
        | inr old ↦ Hands-same rf rf' (ground arith)
        | inl current ↦
            let asked = record rf { term = args.term } in
            let (mid, signals, h') = >>=-Returns (signal asked) (rw current at h) in
            let begun = record reply { success = true; term = mid.term } in
            let (after, runs, h'') =
              >>=-Returns (dispatch_job args.job args begun (set_follwer mid)) h' in
            let same = signal-woken_eq asked mid signals in
            let (n, e) =
              dispatch_job-Hands args.job args begun after.0 (set_follwer mid) after.1
                (subst (λ (x : Raft C). IsIndexed 0 x.log) (sym same) v.indexed)
                (subst (λ (x : Raft C). x.last_apply ≡ pos (length x.apply_chan)) (sym same)
                  v.applied)
                runs in
            let last =
              ap (λ (p : AppendEntriesReply × Raft C). p.1.apply_chan) (ok-injective h'') in
            (
              n,
              sym last
                  ∙ e
                  ∙ ap
                      (λ (x : Raft C).
                        x.apply_chan ++ map message (take n (drop (length x.apply_chan) x.log)))
                      same,
            )
      ]

  -- A step of a peer with a well-formed state that is no crash hands over the entries of its log
  -- that come behind those already handed over, in order and as many as it does, or nothing.
  pub Step-Hands :
      {rf rf' : Raft C} (st : Step rf rf') → IsValid rf → is_crash st ≡ false → Hands rf rf'
  unfolding start start_as_leader mark_dead take_receive_hb take_become_follwer set_network kill
      persist set_leader
  Step-Hands (append_entries {rf} {rf'} args reply reply' q b h) v n =
      handle_append_entries-Hands args reply reply' rf rf' v h
  Step-Hands (request_vote {rf} {rf'} args reply' h) v n =
      Hands-same rf rf' (handle_request_vote-messages args reply' rf rf' h)
  Step-Hands (stand {rf} {rf'} b h) v n = Hands-same rf rf' (start_as_cand-messages b rf rf' h)
  Step-Hands (hear_vote {rf} {rf'} arrived reply b b' h) v n =
      Hands-same rf rf' (receive_vote-messages arrived reply b b' rf rf' h)
  Step-Hands (lead rf) v n =
      Hands-same rf (start_as_leader rf) (init_peers-messages rf.peer_number 0 rf)
  Step-Hands (hear_heart_beat {rf} {rf'} server arrived reply starts h) v n =
      Hands-same rf rf' (receive_heart_beat-messages server arrived reply starts rf rf' h)
  Step-Hands (propose rf command) v n = Hands-same rf (start command rf).2 refl
  Step-Hands (hear_success {rf} {rf'} server args h) v n =
      let (recorded, rf'', runs, noted, handed, _, _, _) =
        append_success-IsValid server args rf v in
      Recorded-Hands rf recorded rf' noted (subst (Handed recorded) (ok_unique runs h) handed)
  Step-Hands (hear_failure {rf} {rf'} server reply args args' h) v n =
      Hands-same rf rf' (append_retry-messages server reply args args' rf rf' h)
  Step-Hands (lose rf server) v n = Hands-same rf (mark_dead server rf) refl
  Step-Hands (wake rf) v n = Hands-same rf (take_receive_hb rf) refl
  Step-Hands (depose rf) v n = Hands-same rf (take_become_follwer rf) refl
  Step-Hands (link rf network) v n = Hands-same rf (set_network network rf) refl
  Step-Hands (stop rf) v n = Hands-same rf (kill rf) refl
  Step-Hands (crash rf ps) v n = cc

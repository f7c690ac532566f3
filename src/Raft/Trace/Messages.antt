-- ===== src/Raft/Trace/Messages.antt =====
-- The messages that a peer hands over to its service (src/raft/raft.go `startApply`): no step but a
-- crash takes one back.
use mathlib.Core.List.{append_assoc, append-nil}
use sharded_raft_key_value_s.Prelude.{
  ℕ, zero, suc, ◌+◌, ◌≡◌, refl, sym, ap, ◌∙◌, inl, inr, Bool, true, false, not, ◌&&◌, List, [], ◌∷◌,
  ◌++◌, ok, ◌>>=◌, >>=-Returns, ok-injective, arith, Bool-cases,
}
use sharded_raft_key_value_s.Prelude.Int.{ℤ, pos, ◌+ℤ◌, ltb_ℤ, leb_ℤ}
use sharded_raft_key_value_s.Raft.Types.{
  Job, append, commit_and_heart_beat, heart_beat, ApplyMsg, AppendEntriesArgs, AppendEntriesReply,
  RequestVoteArgs, RequestVoteReply,
}
use sharded_raft_key_value_s.Raft.Codec.{Codec}
use sharded_raft_key_value_s.Raft.Node.{Raft, persist, set_leader, set_follwer}
use sharded_raft_key_value_s.Raft.Slice.{at}
use sharded_raft_key_value_s.Raft.Log.{index_in_log, get_last_log_entry, min_ℤ}
use sharded_raft_key_value_s.Raft.Apply.{apply_one, apply_loop, start_apply}
use sharded_raft_key_value_s.Raft.Handler.{
  signal, send_receive_hb, send_become_follwer, append_log, commit_log, dispatch_job, adopt_term,
  handle_append_entries, handle_request_vote, set_network,
}
use sharded_raft_key_value_s.Raft.Candidate.{Ballot, start_as_cand, receive_vote}
use sharded_raft_key_value_s.Raft.Leader.{
  init_peer, init_peers, start_as_leader, start, mark_dead, receive_heart_beat,
  update_commit_for_leader,
}
use sharded_raft_key_value_s.Raft.Replicate.{append_success, append_retry, commit_for_leader}
use sharded_raft_key_value_s.Raft.Trace.{
  Step, append_entries, request_vote, stand, hear_vote, lead, hear_heart_beat, propose,
  hear_success, hear_failure, lose, wake, depose, link, stop, crash, take_receive_hb,
  take_become_follwer, kill, is_crash,
}

module _ {C : Type 0} where
  -- `rf'` has handed over the messages of `rf` and perhaps more
  abbrev pub Extends : Raft C → Raft C → Type 0
  Extends rf rf' = (more : List (ApplyMsg C)) × (rf'.apply_chan ≡ rf.apply_chan ++ more)

  Extends-same : (rf rf' : Raft C) → rf'.apply_chan ≡ rf.apply_chan → Extends rf rf'
  Extends-same rf rf' e = ([], e ∙ sym (append-nil rf.apply_chan))

  Extends-trans : (a b c : Raft C) → Extends a b → Extends b c → Extends a c
  Extends-trans a b c (xs, p) (ys, q) =
      (xs ++ ys, q ∙ ap (λ z. z ++ ys) p ∙ append_assoc a.apply_chan xs ys)

  apply_one-Extends : (rf rf' : Raft C) → apply_one rf ≡ ok rf' → Extends rf rf'
  unfolding apply_one
  apply_one-Extends rf rf' h =
      let next = rf.last_apply +ℤ pos 1 in
      let (entry, read, h') = >>=-Returns (at rf.log (index_in_log next)) h in
      let message : ApplyMsg C = record {
        command = entry.command;
        command_valid = true;
        command_index = next;
      } in
      (message ∷ [], ap (λ (x : Raft C). x.apply_chan) (sym (ok-injective h')))

  apply_loop-Extends :
      (n : ℕ) (c : ℤ) (rf rf' : Raft C) → apply_loop n c rf ≡ ok rf' → Extends rf rf'
  unfolding apply_loop
  apply_loop-Extends zero c rf rf' h =
      Extends-same rf rf' (ap (λ (x : Raft C). x.apply_chan) (sym (ok-injective h)))
  apply_loop-Extends (suc n) c rf rf' h = elim (Bool-cases (ltb_ℤ rf.last_apply c && not rf.dead)) [
    | inl e ↦
        let run : (apply_one rf >>= apply_loop n c) ≡ ok rf' = rw e at h in
        let (mid, first, rest) = >>=-Returns (apply_one rf) run in
        Extends-trans rf mid rf' (apply_one-Extends rf mid first)
          (apply_loop-Extends n c mid rf' rest)
    | inr e ↦
        let run : ok rf ≡ ok rf' = rw e at h in
        Extends-same rf rf' (ap (λ (x : Raft C). x.apply_chan) (sym (ok-injective run)))
  ]

  start_apply-Extends : (c : ℤ) (rf rf' : Raft C) → start_apply c rf ≡ ok rf' → Extends rf rf'
  unfolding start_apply
  start_apply-Extends c rf rf' h = apply_loop-Extends _ c rf rf' h

  pub init_peers-messages : (n j : ℕ) (rf : Raft C) → (init_peers n j rf).apply_chan ≡ rf.apply_chan
  unfolding init_peers init_peer
  init_peers-messages zero j rf = refl
  init_peers-messages (suc n) j rf = init_peers-messages n (j + 1) (init_peer j rf)

  signal-messages : (rf rf' : Raft C) → signal rf ≡ ok rf' → rf'.apply_chan ≡ rf.apply_chan
  unfolding signal send_receive_hb send_become_follwer
  signal-messages rf rf' h = ground arith

  dispatch_job-Extends :
      (job : Job) (args : AppendEntriesArgs C) (reply reply' : AppendEntriesReply) (rf rf' : Raft C)
      → dispatch_job job args reply rf ≡ ok (reply', rf')
      → Extends rf rf'
  unfolding dispatch_job append_log commit_log
  dispatch_job-Extends heart_beat args reply reply' rf rf' h = Extends-same rf rf' (ground arith)
  dispatch_job-Extends commit_and_heart_beat args reply reply' rf rf' h =
      let commit = min_ℤ args.leader_commit (get_last_log_entry rf).index in
      let before = record rf { commit_index = commit } in
      let (mid, applies, h') = >>=-Returns (start_apply commit before) h in
      let (more, e) = start_apply-Extends commit before mid applies in
      (more, ap (λ (p : AppendEntriesReply × Raft C). p.1.apply_chan) (sym (ok-injective h')) ∙ e)
  dispatch_job-Extends append args reply reply' rf rf' h = Extends-same rf rf' (ground arith)

  commit_for_leader-Extends : (rf rf' : Raft C) → commit_for_leader rf ≡ ok rf' → Extends rf rf'
  unfolding commit_for_leader update_commit_for_leader
  commit_for_leader-Extends rf rf' h =
      let after = (update_commit_for_leader rf).1 in
      let kept : after.apply_chan ≡ rf.apply_chan = ground arith in
      elim (Bool-cases ((update_commit_for_leader rf).0 && after.is_leader)) [
        | inl e ↦
            let run : start_apply after.commit_index after ≡ ok rf' = rw e at h in
            let (more, same) = start_apply-Extends after.commit_index after rf' run in
            (more, same ∙ ap (λ z. z ++ more) kept)
        | inr e ↦
            let run : ok after ≡ ok rf' = rw e at h in
            Extends-same rf rf' (ap (λ (x : Raft C). x.apply_chan) (sym (ok-injective run)) ∙ kept)
      ]

  pub append_retry-messages :
      (server : ℕ) (reply : AppendEntriesReply) (args args' : AppendEntriesArgs C) (rf rf' : Raft C)
      → append_retry server reply args rf ≡ ok (args', rf')
      → rf'.apply_chan ≡ rf.apply_chan
  unfolding append_retry
  append_retry-messages server reply args args' rf rf' h = ground arith

module _ {C : Type 0} ⦃codec : Codec C⦄ where
  handle_append_entries-Extends :
      (args : AppendEntriesArgs C) (reply reply' : AppendEntriesReply) (rf rf' : Raft C)
      → handle_append_entries args reply rf ≡ ok (reply', rf')
      → Extends rf rf'
  unfolding handle_append_entries set_follwer persist
  handle_append_entries-Extends args reply reply' rf rf' h =
      elim (Bool-cases (leb_ℤ rf.term args.term)) [
        | inr old ↦ Extends-same rf rf' (ground arith)
        | inl current ↦
            let asked = record rf { term = args.term } in
            let (mid, signals, h') = >>=-Returns (signal asked) (rw current at h) in
            let begun = record reply { success = true; term = mid.term } in
            let (after, runs, h'') =
              >>=-Returns (dispatch_job args.job args begun (set_follwer mid)) h' in
            let (more, e) =
              dispatch_job-Extends args.job args begun after.0 (set_follwer mid) after.1 runs in
            let last =
              ap (λ (p : AppendEntriesReply × Raft C). p.1.apply_chan) (ok-injective h'') in
            (more, sym last ∙ e ∙ ap (λ z. z ++ more) (signal-messages asked mid signals))
      ]

  pub handle_request_vote-messages :
      (args : RequestVoteArgs) (reply : RequestVoteReply) (rf rf' : Raft C)
      → handle_request_vote args rf ≡ ok (reply, rf')
      → rf'.apply_chan ≡ rf.apply_chan
  unfolding handle_request_vote adopt_term signal send_receive_hb send_become_follwer set_follwer
      persist
  handle_request_vote-messages args reply rf rf' h = ground arith

  pub start_as_cand-messages :
      (b : Ballot) (rf rf' : Raft C)
      → start_as_cand rf ≡ ok (b, rf')
      → rf'.apply_chan ≡ rf.apply_chan
  unfolding start_as_cand persist
  start_as_cand-messages b rf rf' h = ground arith

  pub receive_vote-messages :
      (arrived : Bool) (reply : RequestVoteReply) (b b' : Ballot) (rf rf' : Raft C)
      → receive_vote arrived reply b rf ≡ ok (b', rf')
      → rf'.apply_chan ≡ rf.apply_chan
  unfolding receive_vote send_receive_hb set_follwer persist
  receive_vote-messages arrived reply b b' rf rf' h = ground arith

  pub receive_heart_beat-messages :
      (server : ℕ) (arrived : Bool) (reply : AppendEntriesReply) (starts : Bool) (rf rf' : Raft C)
      → receive_heart_beat server arrived reply rf ≡ ok (starts, rf')
      → rf'.apply_chan ≡ rf.apply_chan
  unfolding receive_heart_beat mark_dead send_become_follwer set_follwer persist
  receive_heart_beat-messages server arrived reply starts rf rf' h = ground arith

  -- A step that is no crash keeps the messages that the peer has handed over, in their order.
  pub Step-Extends : {rf rf' : Raft C} (st : Step rf rf') → is_crash st ≡ false → Extends rf rf'
  unfolding start start_as_leader mark_dead take_receive_hb take_become_follwer set_network kill
      append_success persist set_leader
  Step-Extends (append_entries {rf} {rf'} args reply reply' q b h) n =
      handle_append_entries-Extends args reply reply' rf rf' h
  Step-Extends (request_vote {rf} {rf'} args reply' h) n =
      Extends-same rf rf' (handle_request_vote-messages args reply' rf rf' h)
  Step-Extends (stand {rf} {rf'} b h) n = Extends-same rf rf' (start_as_cand-messages b rf rf' h)
  Step-Extends (hear_vote {rf} {rf'} arrived reply b b' h) n =
      Extends-same rf rf' (receive_vote-messages arrived reply b b' rf rf' h)
  Step-Extends (lead rf) n =
      Extends-same rf (start_as_leader rf) (init_peers-messages rf.peer_number 0 rf)
  Step-Extends (hear_heart_beat {rf} {rf'} server arrived reply starts h) n =
      Extends-same rf rf' (receive_heart_beat-messages server arrived reply starts rf rf' h)
  Step-Extends (propose rf command) n = Extends-same rf (start command rf).2 refl
  Step-Extends (hear_success {rf} {rf'} server args h) n = commit_for_leader-Extends _ rf' h
  Step-Extends (hear_failure {rf} {rf'} server reply args args' h) n =
      Extends-same rf rf' (append_retry-messages server reply args args' rf rf' h)
  Step-Extends (lose rf server) n = Extends-same rf (mark_dead server rf) refl
  Step-Extends (wake rf) n = Extends-same rf (take_receive_hb rf) refl
  Step-Extends (depose rf) n = Extends-same rf (take_become_follwer rf) refl
  Step-Extends (link rf network) n = Extends-same rf (set_network network rf) refl
  Step-Extends (stop rf) n = Extends-same rf (kill rf) refl
  Step-Extends (crash rf ps) n = cc

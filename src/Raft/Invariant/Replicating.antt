-- ===== src/Raft/Invariant/Replicating.antt =====
-- `StartOnePeerAppend` (src/raft/raft.go): what the replies of a peer leave behind at the leader.
use sharded_raft_key_value_s.Prelude.{
  ℕ, ◌≡◌, refl, sym, ap, ap₂, ◌∙◌, inl, inr, Bool, true, ◌&&◌, Outcome, ok, >>=-Returns,
  ok-injective, arith, nat_eq, subst, length, false, ok_unique, ◌==◌, if◌then◌else◌,
}
use sharded_raft_key_value_s.Prelude.Int.{pos, pos_part, ◌+ℤ◌}
use sharded_raft_key_value_s.Prelude.Dict.{insert, get_or, get_or-insert, =?_refl}
use sharded_raft_key_value_s.Raft.Types.{AppendEntriesArgs, AppendEntriesReply}
use sharded_raft_key_value_s.Raft.Node.{Raft}
use sharded_raft_key_value_s.Raft.Slice.{slice_from}
use sharded_raft_key_value_s.Raft.Log.{term_for_log}
use sharded_raft_key_value_s.Raft.Apply.{start_apply}
use sharded_raft_key_value_s.Raft.Apply.Order.{applied, due, start_apply-applied}
use sharded_raft_key_value_s.Raft.Leader.{update_commit_for_leader}
use sharded_raft_key_value_s.Raft.Leader.Majority.{Committed, update_commit_for_leader-Committed}
use sharded_raft_key_value_s.Raft.Replicate.{commit_for_leader, append_success, append_retry}
use sharded_raft_key_value_s.Raft.Invariant.{IsValid, Advances, SameDisk}
use sharded_raft_key_value_s.Raft.Invariant.Applying.{start_apply-IsValid}
use sharded_raft_key_value_s.Raft.Invariant.Leading.{with_maps, Advances-same}

module _ {C : Type 0} where
  abbrev apply_if : Bool → Raft C → Outcome (Raft C)
  apply_if updated rf = if updated && rf.is_leader then start_apply rf.commit_index rf else ok rf

  Kept : Raft C → Outcome (Raft C) → Type 0
  Kept rf o = (rf' : Raft C) × (o ≡ ok rf') × IsValid rf' × Advances rf rf' × SameDisk rf rf'

  apply_if-Kept :
      (rf rf' : Raft C) (c : ℕ) (updated : Bool)
      → IsValid rf
      → Committed rf c updated rf'
      → Kept rf (apply_if updated rf')
  unfolding Kept
  apply_if-Kept rf rf' c updated v (inl (u, lead, (k, e, lt, le, m, best))) =
      let moved : IsValid (record rf { commit_index = pos k }) = record {
        indexed = v.indexed;
        bounded = v.bounded;
        numbered = v.numbered;
        committed = omega arith;
        applied = v.applied;
        leads = v.leads;
      } in
      let (n, runs, valid) =
        start_apply-IsValid (pos k) (record rf { commit_index = pos k }) moved (omega arith) in
      let go =
        ap
          (λ b.
            if b
            then start_apply (pos k) (record rf { commit_index = pos k })
            else ok (record rf { commit_index = pos k }))
          lead in
      (_, ap₂ apply_if u e ∙ go ∙ runs, valid, Advances-same refl refl refl, ground arith)
  apply_if-Kept rf rf' c updated v (inr (u, e, none_left)) =
      (rf, ap₂ apply_if u e, v, Advances-same refl refl refl, ground arith)

  -- Committing on the leader keeps the invariant and never panics.
  commit_for_leader-IsValid :
      (rf : Raft C)
      → IsValid rf
      → (rf' : Raft C) × (commit_for_leader rf ≡ ok rf')
        × IsValid rf'
        × Advances rf rf'
        × SameDisk rf rf'
  unfolding commit_for_leader Kept
  commit_for_leader-IsValid rf v =
      let c = pos_part rf.commit_index in
      apply_if-Kept rf _ c _ v
        (update_commit_for_leader-Committed rf c v.indexed (ground (arith, v.committed)))

  pub append_success-Kept :
      (server : ℕ) (args : AppendEntriesArgs C) (rf : Raft C)
      → IsValid rf
      → (rf' : Raft C) × (append_success server args rf ≡ ok rf')
        × IsValid rf'
        × Advances rf rf'
        × SameDisk rf rf'
  unfolding append_success
  append_success-Kept server args rf v =
      let (valid, adv) = with_maps rf _ refl refl refl refl refl refl refl v.leads v in
      let (rf', runs, valid', adv', disk) = commit_for_leader-IsValid _ valid in
      (
        rf',
        runs,
        valid',
        record { term_le = adv'.term_le; vote = adv'.vote; me_eq = adv'.me_eq },
        ground arith,
      )

  -- what a leader notes of a peer that holds the entries it was sent, and what stays
  pub record Recorded (server : ℕ) (args : AppendEntriesArgs C) (rf recorded : Raft C)
      : Type 0 where
    pub known :
        get_or server (pos 0) recorded.match_index
        ≡ pos (length args.entries) +ℤ args.prev_log_index
    pub others :
        (j : ℕ)
        → (server == j) ≡ false
        → get_or j (pos 0) recorded.match_index ≡ get_or j (pos 0) rf.match_index
    pub may_commit : get_or server false recorded.open_commit ≡ true
    pub alive : get_or server false recorded.peer_alive ≡ true
    pub log_eq : recorded.log ≡ rf.log
    pub commit_eq : recorded.commit_index ≡ rf.commit_index
    pub chan_eq : recorded.apply_chan ≡ rf.apply_chan
    pub leads_eq : recorded.is_leader ≡ rf.is_leader

  -- it commits, and hands over what is committed
  abbrev pub Handed : Raft C → Raft C → Type 0
  Handed recorded rf' =
      let a = length recorded.apply_chan in
      (updated : Bool) × (moved : Raft C) × Committed recorded (pos_part recorded.commit_index)
        updated moved
      × (rf' ≡ (if updated then applied a (due a moved.commit_index moved) moved else moved))

  commit_for_leader-Handed :
      (rf : Raft C) → IsValid rf → (rf' : Raft C) × (commit_for_leader rf ≡ ok rf') × Handed rf rf'
  unfolding commit_for_leader
  commit_for_leader-Handed rf v =
      let c = pos_part rf.commit_index in
      let (updated, moved) = update_commit_for_leader rf in
      let done = update_commit_for_leader-Committed rf c v.indexed (ground (arith, v.committed)) in
      let a = length rf.apply_chan in
      let end = if updated then applied a (due a moved.commit_index moved) moved else moved in
      (
        end,
        elim done [
          | inl (u, lead, (k, e, lt, le, m, best)) ↦
              let here = record rf { commit_index = pos k } in
              let go = ap (λ b. if b then start_apply (pos k) here else ok here) lead in
              ap₂ apply_if u e
              ∙ go
              ∙ start_apply-applied a here v.indexed v.applied (pos k) (omega arith)
              ∙ sym (
                  ap₂ (λ b (x : Raft C). ok (if b then applied a (due a x.commit_index x) x else x))
                    u e)
          | inr (u, e, none_left) ↦
              ap₂ apply_if u e
              ∙ sym (
                  ap₂ (λ b (x : Raft C). ok (if b then applied a (due a x.commit_index x) x else x))
                    u e)
        ],
        (updated, moved, done, refl),
      )

  pub append_success-IsValid :
      (server : ℕ) (args : AppendEntriesArgs C) (rf : Raft C)
      → IsValid rf
      → (recorded : Raft C) × (rf' : Raft C) × (append_success server args rf ≡ ok rf')
        × Recorded server args rf recorded
        × Handed recorded rf'
        × IsValid rf'
        × Advances rf rf'
        × SameDisk rf rf'
  unfolding append_success
  append_success-IsValid server args rf v =
      let known = pos (length args.entries) +ℤ args.prev_log_index in
      let recorded : Raft C = record rf {
        match_index = insert server known rf.match_index;
        next_index = insert server (known +ℤ pos 1) rf.next_index;
        open_commit = insert server true rf.open_commit;
        peer_alive = insert server true rf.peer_alive;
      } in
      let (valid, _) = with_maps rf recorded refl refl refl refl refl refl refl v.leads v in
      let (rf', runs, handed) = commit_for_leader-Handed recorded valid in
      let (kept, runs', valid', adv, disk) = append_success-Kept server args rf v in
      let same : kept ≡ rf' = ok_unique runs' runs in
      let self = =?_refl server in
      (
        recorded,
        rf',
        runs,
        record {
          known = rw (get_or-insert server server known (pos 0) rf.match_index, self) refl;
          others = λ j ne. rw (get_or-insert server j known (pos 0) rf.match_index, ne) refl;
          may_commit = rw (get_or-insert server server true false rf.open_commit, self) refl;
          alive = rw (get_or-insert server server true false rf.peer_alive, self) refl;
          log_eq = refl;
          commit_eq = refl;
          chan_eq = refl;
          leads_eq = refl;
        },
        handed,
        subst IsValid same valid',
        subst (Advances rf) same adv,
        subst (SameDisk rf) same disk,
      )

  pub append_retry-maps :
      (server : ℕ) (reply : AppendEntriesReply) (args : AppendEntriesArgs C) (rf : Raft C)
      {args' : AppendEntriesArgs C} {rf' : Raft C}
      → append_retry server reply args rf ≡ ok (args', rf')
      → rf' ≡ record rf { peer_alive = insert server true rf.peer_alive }
  unfolding append_retry
  append_retry-maps server reply args rf h =
      let (prev_term, read, h') = >>=-Returns (term_for_log rf _) h in
      let (entries, cut, h'') = >>=-Returns (slice_from rf.log _) h' in
      sym (ap (λ (p : AppendEntriesArgs C × Raft C). p.1) (ok-injective h''))

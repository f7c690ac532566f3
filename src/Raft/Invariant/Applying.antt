-- ===== src/Raft/Invariant/Applying.antt =====
-- `startApply` and `HandleAppendEntries`' commit branch keep the invariant.
use sharded_raft_key_value_s.Prelude.{
  ℕ, zero, suc, ◌-◌, ◌≤◌, ◌≡◌, refl, ap, subst, List, [], ◌∷◌, map, ok, arith, length,
  length-append, take, drop,
}
use sharded_raft_key_value_s.Prelude.Int.{ℤ, pos, ◌≤ℤ◌}
use sharded_raft_key_value_s.Raft.Types.{Entry, AppendEntriesArgs}
use sharded_raft_key_value_s.Raft.Node.{Raft}
use sharded_raft_key_value_s.Raft.Log.{get_last_log_entry, min_ℤ}
use sharded_raft_key_value_s.Raft.Apply.{start_apply}
use sharded_raft_key_value_s.Raft.Apply.Order.{message, applied, due, start_apply-applied}
use sharded_raft_key_value_s.Raft.Handler.{commit_log}
use sharded_raft_key_value_s.Raft.Indexed.{
  IsIndexed, IsIndexed-take, IsIndexed-drop, index-get_last_log_entry,
}
use sharded_raft_key_value_s.Raft.Invariant.{IsValid, IsNumbered, IsNumbered-append}

min_ℤ-le_right : (a b : ℤ) → min_ℤ a b ≤ℤ b
unfolding min_ℤ
min_ℤ-le_right a b = ground arith

min_ℤ-nonneg : (a b : ℤ) → pos 0 ≤ℤ a → pos 0 ≤ℤ b → pos 0 ≤ℤ min_ℤ a b
unfolding min_ℤ
min_ℤ-nonneg a b h k = ground arith

module _ {C : Type 0} where
  IsNumbered-map : (k : ℕ) (log : List (Entry C)) → IsIndexed k log → IsNumbered k (map message log)
  IsNumbered-map k [] w = tt
  IsNumbered-map k (e ∷ log) w = (w.0, refl, IsNumbered-map (suc k) log w.1)

  length-take-drop :
      (a n : ℕ) (log : List (Entry C))
      → n ≤ length log - a
      → length (map message (take n (drop a log))) ≡ n
  length-take-drop zero zero log h = refl
  length-take-drop zero (suc n) [] h = absurd (omega arith)
  length-take-drop zero (suc n) (e ∷ log) h = ap suc (length-take-drop zero n log (omega arith))
  length-take-drop (suc a) n (e ∷ log) h = length-take-drop a n log (omega arith)
  length-take-drop (suc a) zero [] h = refl
  length-take-drop (suc a) (suc n) [] h = absurd (omega arith)

  applied-IsValid :
      (rf : Raft C) (n : ℕ)
      → IsValid rf
      → n ≤ length rf.log - length rf.apply_chan
      → IsValid (applied (length rf.apply_chan) n rf)
  applied-IsValid rf n v h = record {
    indexed = v.indexed;
    bounded = v.bounded;
    numbered = IsNumbered-append 0 rf.apply_chan _ v.numbered (
        IsNumbered-map _ _ (
          IsIndexed-take _ n (drop (length rf.apply_chan) rf.log)
            (IsIndexed-drop 0 (length rf.apply_chan) rf.log v.indexed)));
    committed = v.committed;
    applied = ap pos (
        omega (
          arith,
          length-append rf.apply_chan (map message (take n (drop (length rf.apply_chan) rf.log))),
          length-take-drop (length rf.apply_chan) n rf.log h,
        ));
    leads = v.leads;
  }

  -- the commit index stays within the log
  pub start_apply-IsValid :
      (c : ℤ) (rf : Raft C)
      → IsValid rf
      → c ≤ℤ pos (length rf.log)
      → (n : ℕ) × (start_apply c rf ≡ ok (applied (length rf.apply_chan) n rf))
        × IsValid (applied (length rf.apply_chan) n rf)
  start_apply-IsValid c rf v h =
      let a = length rf.apply_chan in
      let n = due a c rf in
      let fits : n ≤ length rf.log - a = ground arith in
      (n, start_apply-applied a rf v.indexed v.applied c h, applied-IsValid rf n v fits)

  pub commit_log-IsValid :
      (args : AppendEntriesArgs C) (rf : Raft C)
      → pos 0 ≤ℤ args.leader_commit
      → IsValid rf
      → (c : ℤ) × (n : ℕ) × (commit_log args rf
          ≡ ok (applied (length rf.apply_chan) n (record rf { commit_index = c })))
        × IsValid (applied (length rf.apply_chan) n (record rf { commit_index = c }))
  unfolding commit_log
  commit_log-IsValid args rf nn v =
      let last = (get_last_log_entry rf).index in
      let c = min_ℤ args.leader_commit last in
      let e : last ≡ pos (length rf.log) = index-get_last_log_entry rf v.indexed in
      let b : c ≤ℤ pos (length rf.log) =
        subst (λ i. c ≤ℤ i) e (min_ℤ-le_right args.leader_commit last) in
      let moved : IsValid (record rf { commit_index = c }) = record {
        indexed = v.indexed;
        bounded = v.bounded;
        numbered = v.numbered;
        committed = min_ℤ-nonneg args.leader_commit last nn (rw e (omega arith));
        applied = v.applied;
        leads = v.leads;
      } in
      let (n, runs, valid) = start_apply-IsValid c (record rf { commit_index = c }) moved b in
      (c, n, runs, valid)

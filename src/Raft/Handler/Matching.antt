-- ===== src/Raft/Handler/Matching.antt =====
-- The append branch of `HandleAppendEntries` (src/raft/handler.go), on numbered logs.
use native.Mathlib.Decide.{dec_lt}
use sharded_raft_key_value_s.Prelude.{
  ℕ, zero, suc, ◌-◌, ◌≤◌, ◌<◌, ◌≡◌, ◌≢◌, refl, sym, ap, ◌∙◌, true, false, Option, none, some, List,
  ◌++◌, ok, arith, length, take, get_elem?-none, get_elem?_of_lt, if◌then◌else◌,
}
use sharded_raft_key_value_s.Prelude.Int.{
  pos, minus_one, ◌≤ℤ◌, ◌+ℤ◌, eqb_ℤ, eqb_ℤ_eq, eqb_ℤ_ne, dec_eq,
}
use sharded_raft_key_value_s.Raft.Types.{Entry, AppendEntriesArgs, AppendEntriesReply}
use sharded_raft_key_value_s.Raft.Slice.{slice_to}
use sharded_raft_key_value_s.Raft.Node.{Raft}
use sharded_raft_key_value_s.Raft.Log.{get_log_at_index, index_in_log}
use sharded_raft_key_value_s.Raft.Handler.{set_last_term, append_log}
use sharded_raft_key_value_s.Raft.Indexed.{
  IsIndexed, entry_at, term_of, found_at, get_log_at_index-entry_at, index-get_last_log_entry,
  slice_to-take, slice_to-take_before,
}

module _ {C : Type 0} where
  -- what a leader sends: entries numbered on from the previous index, whose term is 0 at index 0
  pub record IsRequest (args : AppendEntriesArgs C) : Type 0 where
    pub prev : ℕ
    pub at_prev : args.prev_log_index ≡ pos prev
    pub base : prev ≡ 0 → args.prev_log_term ≡ pos 0
    pub numbered : IsIndexed prev args.entries
    pub commit : pos 0 ≤ℤ args.leader_commit

  pub entry_at_le :
      (n : ℕ) (log : List (Entry C)) (e : Entry C) → entry_at n log ≡ some e → n ≤ length log
  entry_at_le zero log e h = omega arith
  entry_at_le (suc n) log e h = elim (dec_lt n (length log)) [
    | yes lt ↦ lt
    | no ge ↦ cc (get_elem?-none log n (omega arith), h)
  ]

  pub lt_of_entry_at-none : (n : ℕ) (log : List (Entry C)) → entry_at n log ≡ none → length log < n
  lt_of_entry_at-none zero log h = cc
  lt_of_entry_at-none (suc n) log h = elim (dec_lt n (length log)) [
    | yes lt ↦ let (x, g) = get_elem?_of_lt log n lt in cc (g, h)
    | no ge ↦ omega arith
  ]

  entry_at-none : (n : ℕ) (log : List (Entry C)) → length log < n → entry_at n log ≡ none
  entry_at-none zero log h = absurd (omega arith)
  entry_at-none (suc n) log h = get_elem?-none log n (omega arith)

  module _ (args : AppendEntriesArgs C) (reply : AppendEntriesReply) (rf : Raft C)
      (q : IsRequest args) (w : IsIndexed 0 rf.log) where
    read_prev :
        (o : Option (Entry C))
        → entry_at q.prev rf.log ≡ o
        → get_log_at_index rf args.prev_log_index ≡ ok (found_at o)
    read_prev o h =
        ap (get_log_at_index rf) q.at_prev
        ∙ get_log_at_index-entry_at rf q.prev w
        ∙ ap (λ x. ok (found_at x)) h

    prev-ne-zero :
        (e : Entry C) → entry_at q.prev rf.log ≡ some e → e.term ≢ args.prev_log_term → q.prev ≢ 0
    prev-ne-zero e h ne z = ne (
        sym (ap (λ (o : Option (Entry C)). term_of o) (ap (λ n. entry_at n rf.log) (sym z) ∙ h))
        ∙ sym (q.base z))

    cut_before :
        (e : Entry C)
        → entry_at q.prev rf.log ≡ some e
        → e.term ≢ args.prev_log_term
        → slice_to rf.log (index_in_log args.prev_log_index) ≡ ok (take (q.prev - 1) rf.log)
    cut_before e h ne =
        let nz = prev-ne-zero e h ne in
        let s : q.prev ≡ suc (q.prev - 1) = omega arith in
        ap (λ i. slice_to rf.log (index_in_log i)) (q.at_prev ∙ ap pos s)
        ∙ slice_to-take_before rf.log (q.prev - 1) (omega (arith, entry_at_le q.prev rf.log e h))

    cut_after :
        (e : Entry C)
        → entry_at q.prev rf.log ≡ some e
        → slice_to rf.log (index_in_log (args.prev_log_index +ℤ pos 1)) ≡ ok (take q.prev rf.log)
    cut_after e h =
        ap (λ i. slice_to rf.log (index_in_log (i +ℤ pos 1))) q.at_prev
        ∙ slice_to-take rf.log q.prev (entry_at_le q.prev rf.log e h)

    pub append_log-beyond :
        length rf.log < q.prev
        → append_log args reply rf
          ≡ ok (record reply { last_index = pos (length rf.log); success = false }, rf)
    unfolding append_log
    append_log-beyond h =
        rw (read_prev none (entry_at-none q.prev rf.log h), index-get_last_log_entry rf w)

    pub append_log-conflict :
        (e : Entry C)
        → entry_at q.prev rf.log ≡ some e
        → e.term ≢ args.prev_log_term
        → append_log args reply rf
          ≡ ok (
            record reply { last_index = minus_one; success = false },
            record rf { log = take (q.prev - 1) rf.log },
          )
    unfolding append_log
    append_log-conflict e h ne =
        rw (read_prev (some e) h, eqb_ℤ_ne e.term args.prev_log_term ne, cut_before e h ne) refl

    pub append_log-match :
        (e : Entry C)
        → entry_at q.prev rf.log ≡ some e
        → e.term ≡ args.prev_log_term
        → append_log args reply rf
          ≡ ok (
            record reply { last_index = minus_one; success = true },
            record rf { log = set_last_term args.term (take q.prev rf.log ++ args.entries) },
          )
    unfolding append_log
    append_log-match e h eq =
        rw (read_prev (some e) h, eqb_ℤ_eq e.term args.prev_log_term eq, cut_after e h) refl

    -- the answer to an append request, from the entry at its previous index
    abbrev pub answer : Option (Entry C) → AppendEntriesReply × Raft C
    answer none = (record reply { last_index = pos (length rf.log); success = false }, rf)
    answer (some e) =
        if eqb_ℤ e.term args.prev_log_term
        then (
          record reply { last_index = minus_one; success = true },
          record rf { log = set_last_term args.term (take q.prev rf.log ++ args.entries) },
        )
        else (
          record reply { last_index = minus_one; success = false },
          record rf { log = take (q.prev - 1) rf.log },
        )

    append_log-found :
        (o : Option (Entry C))
        → entry_at q.prev rf.log ≡ o
        → append_log args reply rf ≡ ok (answer o)
    append_log-found none h = append_log-beyond (lt_of_entry_at-none q.prev rf.log h)
    append_log-found (some e) h = elim (dec_eq e.term args.prev_log_term) [
      | yes eq ↦ append_log-match e h eq ∙ rw (eqb_ℤ_eq e.term args.prev_log_term eq) refl
      | no ne ↦ append_log-conflict e h ne ∙ rw (eqb_ℤ_ne e.term args.prev_log_term ne) refl
    ]

    -- On a numbered log, an append request whose previous index is at least 0, with the previous
    -- term 0 if it is 0, whose entries are numbered on from it, and whose commit index is at
    -- least 0, never panics. If the log ends before the previous index, it stays, and the reply
    -- names its last index; if the entry there is of another term, it is dropped with all behind
    -- it; else the entries replace all behind it, and the last one takes the request's term.
    pub append_log-answer : append_log args reply rf ≡ ok (answer (entry_at q.prev rf.log))
    append_log-answer = append_log-found (entry_at q.prev rf.log) refl

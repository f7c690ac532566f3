-- ===== src/Raft/Replicate/Request.antt =====
-- The requests of `StartOnePeerAppend` (src/raft/raft.go): which entries a leader sends.
use mathlib.Core.List.{append_assoc, append-nil}
use sharded_raft_key_value_s.Prelude.{
  ℕ, zero, suc, ◌+◌, ◌-◌, ◌≤◌, ◌≡◌, refl, sym, ap, subst, nat_eq, ◌∙◌, true, not, List, [], ◌∷◌,
  ◌++◌, ok, arith, length, drop, get_elem?_of_lt, drop_of_get_elem?, if◌then◌else◌,
}
use sharded_raft_key_value_s.Prelude.Int.{ℤ, pos, minus_one, ◌+ℤ◌, ◌-ℤ◌, eqb_ℤ, pos_part}
use sharded_raft_key_value_s.Prelude.Dict.{get_or, insert}
use sharded_raft_key_value_s.Raft.Types.{append, Entry, AppendEntriesArgs, AppendEntriesReply}
use sharded_raft_key_value_s.Raft.Node.{Raft}
use sharded_raft_key_value_s.Raft.Handler.Matching.{IsRequest}
use sharded_raft_key_value_s.Raft.Leader.{heart_beat_args}
use sharded_raft_key_value_s.Raft.Replicate.{collect_entries, append_args, append_retry}
use sharded_raft_key_value_s.Raft.Indexed.{
  IsIndexed, IsIndexed-drop, term_at, get_log_at_index-entry_at, index-get_last_log_entry,
  term_for_log-term_at, slice_from-drop,
}
use sharded_raft_key_value_s.Raft.Invariant.{IsBounded, IsValid}

module _ {C : Type 0} where
  -- the leader's request that sends all behind entry `k`
  abbrev pub request_from : ℕ → Raft C → AppendEntriesArgs C
  request_from k rf = record {
    job = append;
    term = rf.term;
    leader_id = pos rf.me;
    entries = drop k rf.log;
    prev_log_index = pos k;
    prev_log_term = term_at k rf.log;
    leader_commit = rf.commit_index;
  }

  drop_all : (k : ℕ) (log : List (Entry C)) → length log ≤ k → drop k log ≡ []
  drop_all zero [] h = refl
  drop_all zero (e ∷ log) h = absurd (omega arith)
  drop_all (suc k) [] h = refl
  drop_all (suc k) (e ∷ log) h = drop_all k log (omega arith)

  collect_entries-drop :
      (n k : ℕ) (entries : List (Entry C)) (rf : Raft C)
      → IsIndexed 0 rf.log
      → k + n ≡ length rf.log
      → collect_entries n (pos (suc k)) entries rf ≡ ok (entries ++ drop k rf.log)
  unfolding collect_entries
  collect_entries-drop zero k entries rf w e =
      ap ok (sym (ap (λ l. entries ++ l) (drop_all k rf.log (omega arith)) ∙ append-nil entries))
  collect_entries-drop (suc n) k entries rf w e =
      let (x, g) = get_elem?_of_lt rf.log k (omega arith) in
      let next : pos (suc k) +ℤ pos 1 ≡ pos (suc (suc k)) = ground arith in
      rw
        (
          get_log_at_index-entry_at rf (suc k) w,
          g,
          next,
          collect_entries-drop n (suc k) (entries ++ x ∷ []) rf w (omega arith),
          drop_of_get_elem? rf.log k x g,
        )
        (ap ok (append_assoc entries (x ∷ []) (drop (suc k) rf.log)))

  -- On a numbered log the first request to a peer that is known to hold the first k entries, k
  -- not beyond the log, sends exactly the entries behind them, with the term of entry k.
  pub append_args-request_from :
      (server k : ℕ) (rf : Raft C)
      → IsIndexed 0 rf.log
      → get_or server (pos 0) rf.match_index ≡ pos k
      → k ≤ length rf.log
      → append_args server rf ≡ ok (request_from k rf)
  unfolding append_args
  append_args-request_from server k rf w known le =
      let last = index-get_last_log_entry rf w in
      let rounds : pos_part (pos (length rf.log) -ℤ pos k) ≡ length rf.log - k = ground arith in
      let next : pos k +ℤ pos 1 ≡ pos (suc k) = ground arith in
      rw
        (
          known,
          last,
          rounds,
          next,
          collect_entries-drop (length rf.log - k) k [] rf w (omega arith),
          term_for_log-term_at rf k w,
        )
        refl

  -- What a leader sends is a request that `HandleAppendEntries` can take.
  abbrev pub request_from-IsRequest :
      (k : ℕ) (rf : Raft C) → IsValid rf → IsRequest (request_from k rf)
  request_from-IsRequest k rf v = record {
    prev = k;
    at_prev = refl;
    base = λ z. rw z refl;
    numbered =
        subst (λ n. IsIndexed n (drop k rf.log)) (omega arith)
          (IsIndexed-drop 0 k rf.log v.indexed);
    commit = v.committed;
  }

  pub IsBounded-drop :
      (t : ℤ) (k : ℕ) (log : List (Entry C)) → IsBounded t log → IsBounded t (drop k log)
  IsBounded-drop t zero log b = b
  IsBounded-drop t (suc k) [] b = tt
  IsBounded-drop t (suc k) (e ∷ log) b = IsBounded-drop t k log b.1

  module _ (server k j : ℕ) (reply : AppendEntriesReply) (rf : Raft C) (w : IsIndexed 0 rf.log)
      (le : j ≤ length rf.log) where
    -- the next request, when the last one was not taken: from the peer's last entry, or one back
    pub append_retry-request_from :
        (if not (eqb_ℤ reply.last_index minus_one) then reply.last_index else pos k -ℤ pos 1)
          ≡ pos j
        → append_retry server reply (request_from k rf) rf
          ≡ ok (request_from j rf, record rf { peer_alive = insert server true rf.peer_alive })
    unfolding append_retry
    append_retry-request_from prev =
        rw (prev, term_for_log-term_at rf j w, slice_from-drop rf.log j le) refl

  -- Of a leader with a well-formed state: the first request to a peer that is known to hold the
  -- first k entries, k not beyond the log, is prepared without a panic and is, like every
  -- heartbeat, a request that HandleAppendEntries can take: its entries are numbered on from its
  -- previous index and of no later term, an index of 0 comes with the term 0, and the commit
  -- index is not negative.
  pub append_args-IsRequest :
      (server k : ℕ) (rf : Raft C)
      → IsValid rf
      → get_or server (pos 0) rf.match_index ≡ pos k
      → k ≤ length rf.log
      → (args : AppendEntriesArgs C) × (append_args server rf ≡ ok args)
        × IsRequest args
        × IsBounded args.term args.entries
        × IsRequest (heart_beat_args server rf)
        × IsBounded rf.term (heart_beat_args server rf).entries
  unfolding heart_beat_args
  append_args-IsRequest server k rf v known le = (
    request_from k rf,
    append_args-request_from server k rf v.indexed known le,
    request_from-IsRequest k rf v,
    IsBounded-drop rf.term k rf.log v.bounded,
    record { prev = 0; at_prev = refl; base = λ _. refl; numbered = tt; commit = v.committed },
    tt,
  )

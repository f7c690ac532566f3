-- ===== src/Raft/Replicate/Commits.antt =====
-- A command that `Start` (src/raft/raft.go) is given, and one peer that answers: the way to the
-- commit.
use mathlib.Core.List.{append_assoc}
use native.Mathlib.Decide.{dec_le}
use sharded_raft_key_value_s.Prelude.{
  ℕ, zero, suc, ◌+◌, ◌≤◌, ◌<◌, ◌≡◌, refl, sym, ap, ap₂, subst, ◌∙◌, inl, inr, Bool, true, false,
  ◌&&◌, Option, some, List, [], ◌∷◌, ◌++◌, map, Outcome, ok, ok_unique, arith, ◌==◌, nat_eq, length,
  take, drop, length-append, length-drop, if◌then◌else◌,
}
use sharded_raft_key_value_s.Prelude.Int.{ℤ, pos, ◌+ℤ◌, ◌≤ℤ◌, leb_ℤ}
use sharded_raft_key_value_s.Prelude.Dict.{Dict, insert, get_or, get_or-insert, =?_refl}
use sharded_raft_key_value_s.Raft.Types.{leader, ApplyMsg, Entry}
use sharded_raft_key_value_s.Raft.Codec.{Codec}
use sharded_raft_key_value_s.Raft.Node.{Raft, persist}
use sharded_raft_key_value_s.Raft.Log.{get_last_log_entry}
use sharded_raft_key_value_s.Raft.Apply.{start_apply}
use sharded_raft_key_value_s.Raft.Apply.Order.{message, applied, due, start_apply-applied}
use sharded_raft_key_value_s.Raft.Leader.{
  start, start_waits, start_result, count_granted, granted, has_majority,
}
use sharded_raft_key_value_s.Raft.Leader.Majority.{
  has_majority-IsMajority, update_commit_for_leader-Committed,
}
use sharded_raft_key_value_s.Raft.Replicate.{
  may_send, commit_for_leader, append_success, start_one_peer_append, undisturbed,
}
use sharded_raft_key_value_s.Raft.Handler.{set_last_term}
use sharded_raft_key_value_s.Raft.Replicate.Delivery.{deliver}
use sharded_raft_key_value_s.Raft.Replicate.Matches.{Matching}
use sharded_raft_key_value_s.Raft.Replicate.Converges.{leads, start_one_peer_append-Acknowledged}
use sharded_raft_key_value_s.Raft.Replicate.Request.{request_from}
use sharded_raft_key_value_s.Raft.Indexed.{index-get_last_log_entry}
use sharded_raft_key_value_s.Raft.Invariant.{IsValid}
use sharded_raft_key_value_s.Raft.Invariant.Leading.{with_maps, proposed, start-IsValid}

-- a live peer that holds the entry is counted
count_granted-insert :
    (me server m : ℕ) (alive : Dict ℕ Bool) (i : ℤ) (d : Dict ℕ ℤ)
    → (server == me) ≡ false
    → get_or server false alive ≡ true
    → leb_ℤ i (pos m) ≡ true
    → 1 ≤ count_granted me alive i (insert server (pos m) d)
unfolding count_granted insert
count_granted-insert me server m alive i [] other live holds = ground arith
count_granted-insert me server m alive i ((j, x) ∷ d) other live holds =
    let rest = count_granted-insert me server m alive i d other live holds in ground arith

take-all : {A : Type 0} (xs : List A) → take (length xs) xs ≡ xs
take-all [] = refl
take-all (x ∷ xs) = ap (λ l. x ∷ l) (take-all xs)

module _ {C : Type 0} where
  -- two of at most three peers are a majority
  two_of_three :
      (rf : Raft C) (server m : ℕ) (i : ℤ) (d : Dict ℕ ℤ)
      → rf.match_index ≡ insert server (pos m) d
      → rf.peer_number ≤ 3
      → (server == rf.me) ≡ false
      → get_or server false rf.peer_alive ≡ true
      → leb_ℤ i (pos m) ≡ true
      → has_majority rf i ≡ true
  unfolding has_majority granted
  two_of_three rf server m i d e small other live holds =
      let one = count_granted-insert rf.me server m rf.peer_alive i d other live holds in
      rw e (ground arith)

  -- the leader of term `t` that has committed and handed over its whole log
  abbrev pub Caught : Raft C → Raft C → Type 0
  Caught rf rf' =
      (rf'.commit_index ≡ pos (length rf.log))
      × (rf'.apply_chan ≡ rf.apply_chan ++ map message (drop (length rf.apply_chan) rf.log))
      × (rf'.log ≡ rf.log)
      × (rf'.is_leader ≡ rf.is_leader)
      × (rf'.peer_number ≡ rf.peer_number)

  abbrev apply_if : Bool → Raft C → Outcome (Raft C)
  apply_if updated rf = if updated && rf.is_leader then start_apply rf.commit_index rf else ok rf

  due-all :
      (rf : Raft C) (n : ℕ)
      → rf.dead ≡ false
      → n ≡ length rf.log
      → take (due (length rf.apply_chan) (pos n) rf) (drop (length rf.apply_chan) rf.log)
        ≡ drop (length rf.apply_chan) rf.log
  due-all rf n alive e =
      let a = length rf.apply_chan in
      let rest = drop a rf.log in
      let all : due a (pos n) rf ≡ length rest = ground (arith, length-drop a rf.log) in
      ap (λ k. take k rest) all ∙ take-all rest

  commit_for_leader-Caught :
      (rf : Raft C) (c : ℕ)
      → IsValid rf
      → rf.is_leader ≡ true
      → rf.dead ≡ false
      → rf.commit_index ≡ pos c
      → c < length rf.log
      → has_majority rf (pos (length rf.log)) ≡ true
      → (rf' : Raft C) × (commit_for_leader rf ≡ ok rf') × Caught rf rf'
  unfolding commit_for_leader
  commit_for_leader-Caught rf c v lead alive at_c lt most =
      let majority = (has_majority-IsMajority rf (length rf.log)).0 most in
      elim (update_commit_for_leader-Committed rf c v.indexed at_c) [
        | inl (u, _, (k, e, _, le, _, best)) ↦
            let top : k ≡ length rf.log = elim (dec_le (length rf.log) k) [
              | yes h ↦ omega arith
              | no h ↦ absurd (best (length rf.log) (omega arith) (omega arith) majority)
            ] in
            let moved = record rf { commit_index = pos k } in
            let runs =
              start_apply-applied (length rf.apply_chan) moved v.indexed v.applied (pos k)
                (omega arith) in
            let go = ap (λ b. if b then start_apply (pos k) moved else ok moved) lead in
            (
              applied (length rf.apply_chan) (due (length rf.apply_chan) (pos k) moved) moved,
              ap₂ apply_if u e ∙ go ∙ runs,
              (
                ap pos top,
                ap (λ es. rf.apply_chan ++ map message es) (due-all moved k alive top),
                refl,
                refl,
                refl,
              ),
            )
        | inr (_, _, nothing) ↦ absurd (nothing lead (length rf.log) lt (omega arith) majority)
      ]

  -- what two of at most three peers hold is committed
  append_success-Caught :
      (server j c : ℕ) (rf : Raft C)
      → IsValid rf
      → rf.is_leader ≡ true
      → rf.dead ≡ false
      → rf.peer_number ≤ 3
      → (server == rf.me) ≡ false
      → rf.commit_index ≡ pos c
      → c < length rf.log
      → j ≤ length rf.log
      → (rf' : Raft C) × (append_success server (request_from j rf) rf ≡ ok rf') × Caught rf rf'
  unfolding append_success
  append_success-Caught server j c rf v lead alive small other at_c lt le =
      let known : pos (length (drop j rf.log)) +ℤ pos j ≡ pos (length rf.log) =
        ground (arith, length-drop j rf.log) in
      let before : Raft C = record rf {
        match_index = insert server (pos (length rf.log)) rf.match_index;
        next_index = insert server (pos (length rf.log) +ℤ pos 1) rf.next_index;
        open_commit = insert server true rf.open_commit;
        peer_alive = insert server true rf.peer_alive;
      } in
      let (valid, _) = with_maps rf before refl refl refl refl refl refl refl v.leads v in
      let live : get_or server false before.peer_alive ≡ true =
        ground (arith, get_or-insert server server true false rf.peer_alive, =?_refl server) in
      let most =
        two_of_three before server (length rf.log) (pos (length rf.log)) rf.match_index refl small
          other live (ground arith) in
      let (rf', runs, caught) = commit_for_leader-Caught before c valid lead alive at_c lt most in
      (rf', rw known runs, caught)

  set_last_term-append :
      (t : ℤ) (log : List (Entry C)) (e : Entry C)
      → e.term ≡ t
      → set_last_term t (log ++ e ∷ []) ≡ log ++ e ∷ []
  unfolding set_last_term
  set_last_term-append t [] e h = rw (← h) refl
  set_last_term-append t (x ∷ []) e h = rw (← h) refl
  set_last_term-append t (x ∷ y ∷ log) e h = ap (λ l. x ∷ l) (set_last_term-append t (y ∷ log) e h)

  drop-append :
      (n : ℕ) (xs ys : List (Entry C)) → n ≤ length xs → drop n (xs ++ ys) ≡ drop n xs ++ ys
  drop-append zero xs ys h = refl
  drop-append (suc n) [] ys h = absurd (omega arith)
  drop-append (suc n) (x ∷ xs) ys h = drop-append n xs ys (omega arith)

  map-append : (xs ys : List (Entry C)) → map message (xs ++ ys) ≡ map message xs ++ map message ys
  map-append [] ys = refl
  map-append (x ∷ xs) ys = ap (λ l. message x ∷ l) (map-append xs ys)

  module _ {i : ℤ} {n : ℕ} where
    -- the loop around `cond.Wait()` of `Start` ends
    ended : (rf' : Raft C) → i ≡ pos n → rf'.commit_index ≡ pos n → start_waits 1 i rf' ≡ false
    unfolding start_waits
    ended rf' e e' = ground arith

    answers :
        (term : ℤ) (rf' : Raft C)
        → i ≡ pos n
        → rf'.is_leader ≡ true
        → start_result i term rf' ≡ (pos n, term, true)
    unfolding start_result
    answers term rf' e e' = ground arith

module _ {C : Type 0} ⦃codec : Codec C⦄ where
  -- the command has come to the peer and back: the peer has the leader's log, the leader has
  -- committed it and handed it over, and `Start` returns its index and term
  abbrev pub Served : ℕ → ℕ → Option C → Raft C → Raft C → Type 0
  Served server k command rf w =
      (rf' : Raft C) × (w' : Raft C) × (ms : List (ApplyMsg C)) × (start_one_peer_append undisturbed
          deliver (k + 1) server (start command rf).2 w
        ≡ ok (some true, rf', w'))
      × (w'.log ≡ rf.log ++ proposed command rf ∷ [])
      × (rf'.apply_chan ≡ ms ++ message (proposed command rf) ∷ [])
      × (rf'.commit_index ≡ pos (length rf.log + 1))
      × (start_waits 1 (start command rf).0 rf' ≡ false)
      × (start_result (start command rf).0 (start command rf).1 rf'
          ≡ (pos (length rf.log + 1), rf.term, true))

  -- A live leader of at most three peers with a well-formed state, whose other goroutines do
  -- nothing meanwhile, that has committed and handed over no more than its log: if it is given a
  -- command and holds another peer for alive, whose term is not later, which answers every
  -- request, whose log matches the leader's with the command, and of which it knows that it has
  -- the first k entries: StartOnePeerAppend succeeds within k + 1 rounds, the peer then has the
  -- leader's log with the command, the leader has committed the command and handed it over as its
  -- last message, and Start waits no more and returns the command's index, the leader's term and
  -- true.
  pub start-Served :
      (server k c : ℕ) (command : Option C) (rf w : Raft C)
      → IsValid rf
      → IsValid w
      → w.term ≤ℤ rf.term
      → leads server rf ≡ true
      → rf.peer_number ≤ 3
      → (server == rf.me) ≡ false
      → Matching (rf.log ++ proposed command rf ∷ []) w.log
      → get_or server (pos 0) rf.match_index ≡ pos k
      → k ≤ length rf.log
      → rf.commit_index ≡ pos c
      → c ≤ length rf.log
      → length rf.apply_chan ≤ length rf.log
      → Served server k command rf w
  unfolding start persist may_send get_last_log_entry
  start-Served server k c command rf w v vw le lead small other m known lk at_c lc applies =
      let started = (start command rf).2 in
      let entry = proposed command rf in
      let (valid, _) = start-IsValid command rf v in
      let longer : length started.log ≡ length rf.log + 1 =
        omega (arith, length-append rf.log (entry ∷ [])) in
      let state : rf.state ≡ leader = ground arith in
      let alive : rf.dead ≡ false = ground arith in
      let (rf', w', runs, _, equal, (j, p, lj, success)) =
        start_one_peer_append-Acknowledged server k started w valid vw le lead m known (omega arith)
          (set_last_term-append rf.term rf.log entry refl) in
      let before = record started { peer_alive = p } in
      let (valid', _) =
        with_maps started before refl refl refl refl refl refl refl valid.leads valid in
      let (rf'', runs', caught) =
        append_success-Caught server j c before valid' (v.leads state) alive small other at_c
          (omega arith) lj in
      let (commit, chan, _, still, _) =
        subst (λ x. Caught before x) (ok_unique runs' success) caught in
      let index : (start command rf).0 ≡ pos (length rf.log + 1) =
        index-get_last_log_entry started valid.indexed ∙ ap pos longer in
      let split = drop-append (length rf.apply_chan) rf.log (entry ∷ []) applies in
      (
        rf',
        w',
        rf.apply_chan ++ map message (drop (length rf.apply_chan) rf.log),
        runs,
        equal,
        chan
            ∙ ap (λ es. rf.apply_chan ++ map message es) split
            ∙ ap (λ ms. rf.apply_chan ++ ms)
                (map-append (drop (length rf.apply_chan) rf.log) (entry ∷ []))
            ∙ sym (
                append_assoc rf.apply_chan (map message (drop (length rf.apply_chan) rf.log))
                  (message entry ∷ [])),
        commit ∙ ap pos longer,
        ended rf' index (commit ∙ ap pos longer),
        answers rf.term rf' index (still ∙ v.leads state),
      )

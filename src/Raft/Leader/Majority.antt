-- ===== src/Raft/Leader/Majority.antt =====
-- What `updateCommitForLeader` (src/raft/raft.go) commits.
use native.Mathlib.Decide.{dec_le}
use sharded_raft_key_value_s.Prelude.{
  ℕ, zero, suc, ◌+◌, ◌-◌, ◌*◌, ◌/◌, ◌≤◌, ◌<◌, ◌≡◌, refl, sym, ap, ap₂, subst, ◌⊎◌, inl, inr, Bool,
  true, false, not, ◌&&◌, ◌↔◌, List, [], ◌∷◌, leb, ◌==◌, nat_eq, arith, length, Bool-cases,
  if◌then◌else◌,
}
use sharded_raft_key_value_s.Prelude.Int.{
  ℤ, pos, minus_one, ◌+ℤ◌, ◌-ℤ◌, ◌<ℤ◌, ltb_ℤ, leb_ℤ, pos_part,
}
use sharded_raft_key_value_s.Prelude.Dict.{Dict, get_or}
use sharded_raft_key_value_s.Raft.Node.{Raft}
use sharded_raft_key_value_s.Raft.Log.{get_last_log_entry}
use sharded_raft_key_value_s.Raft.Indexed.{IsIndexed, index-get_last_log_entry}
use sharded_raft_key_value_s.Raft.Leader.{
  count_granted, granted, has_majority, last_committed, update_commit_for_leader,
}

-- of how many elements the test is true
abbrev pub number_of : {A : Type 0} → (A → Bool) → List A → ℕ
number_of test [] = 0
number_of test (x ∷ xs) = (if test x then 1 else 0) + number_of test xs

module _ {C : Type 0} (rf : Raft C) where
  -- the other peer is alive, and known to hold the entries up to index `i`
  abbrev pub holds : ℕ → ℕ × ℤ → Bool
  holds i (server, known) =
      not (server == rf.me) && (get_or server false rf.peer_alive && leb_ℤ (pos i) known)

  -- the leader and the others that hold entry `i` are more than half of the peers
  abbrev pub IsMajority : ℕ → Type 0
  IsMajority i = rf.peer_number < 2 * (1 + number_of (holds i) rf.match_index)

  count_granted-number_of :
      (i : ℕ) (known : Dict ℕ ℤ)
      → count_granted rf.me rf.peer_alive (pos i) known ≡ number_of (holds i) known
  unfolding count_granted
  count_granted-number_of i [] = refl
  count_granted-number_of i ((server, m) ∷ known) =
      let rest = count_granted-number_of i known in
      ground (
        arith,
        Bool-cases (server == rf.me),
        Bool-cases (get_or server false rf.peer_alive),
        Bool-cases (leb_ℤ (pos i) m),
      )

  majority_iff : (n g : ℕ) → (leb (n / 2 + 1) g ≡ true) ↔ (n < 2 * g)
  majority_iff n g = ground arith

  pub has_majority-IsMajority : (i : ℕ) → (has_majority rf (pos i) ≡ true) ↔ IsMajority i
  unfolding has_majority granted
  has_majority-IsMajority i =
      let same = count_granted-number_of i rf.match_index in
      rw same (majority_iff rf.peer_number (1 + number_of (holds i) rf.match_index))

  has_majority-minority : (i : ℕ) → has_majority rf (pos i) ≡ false → ¬ IsMajority i
  has_majority-minority i e most = cc ((has_majority-IsMajority i).1 most, e)

  -- the best index of a majority among those from `lo` on and below `hi`: `found`, or `d` if none
  pub record IsBest (lo hi : ℕ) (d found : ℤ) : Type 0 where
    pub hit : (found ≡ d) ⊎ ((k : ℕ) × (found ≡ pos k) × (lo ≤ k) × (k < hi) × IsMajority k)
    pub missed : (i : ℕ) → lo ≤ i → i < hi → (found ≡ d) ⊎ (found <ℤ pos i) → ¬ IsMajority i

  -- an index with a majority replaces what was found before it
  IsBest-hit :
      (n lo : ℕ) (d r : ℤ)
      → d <ℤ pos lo
      → IsMajority lo
      → IsBest (suc lo) (suc lo + n) (pos lo) r
      → IsBest lo (lo + suc n) d r
  IsBest-hit n lo d r h m b = record {
    hit = inr (elim b.hit [
      | inl e ↦ (lo, e, omega arith, omega arith, m)
      | inr (k, e, l, u, g) ↦ (k, e, omega arith, omega arith, g)
    ]);
    missed = λ i l u o. elim (dec_le i lo) [
      | yes le ↦ absurd (elim b.hit [ inl e ↦ ground arith | inr (k, e, l', u', g) ↦ ground arith ])
      | no gt ↦ b.missed i (omega arith) (omega arith) (elim o [
        | inl e ↦
            absurd (elim b.hit [ inl e' ↦ ground arith | inr (k, e', l', u', g) ↦ ground arith ])
        | inr lt ↦ inr lt
      ])
    ];
  }

  IsBest-miss :
      (n lo : ℕ) (d r : ℤ)
      → ¬ IsMajority lo
      → IsBest (suc lo) (suc lo + n) d r
      → IsBest lo (lo + suc n) d r
  IsBest-miss n lo d r m b = record {
    hit = elim b.hit [
      | inl e ↦ inl e
      | inr (k, e, l, u, g) ↦ inr (k, e, omega arith, omega arith, g)
    ];
    missed = λ i l u o. elim (dec_le i lo) [
      | yes le ↦ let e : i ≡ lo = omega arith in rw e m
      | no gt ↦ b.missed i (omega arith) (omega arith) o
    ];
  }

  next_pos : (n : ℕ) → pos n +ℤ pos 1 ≡ pos (suc n)
  next_pos n = ground arith

  last_committed-IsBest :
      (n lo : ℕ) (d : ℤ) → d <ℤ pos lo → IsBest lo (lo + n) d (last_committed n (pos lo) d rf)
  unfolding last_committed
  last_committed-IsBest zero lo d h = record {
    hit = inl refl;
    missed = λ i a b. absurd (omega arith);
  }
  last_committed-IsBest (suc n) lo d h = elim (Bool-cases (has_majority rf (pos lo))) [
    | inl m ↦
        rw (m, next_pos lo)
          (IsBest-hit n lo d _ h ((has_majority-IsMajority lo).0 m)
            (last_committed-IsBest n (suc lo) (pos lo) (omega arith)))
    | inr m ↦
        rw (m, next_pos lo)
          (IsBest-miss n lo d _ (has_majority-minority lo m)
            (last_committed-IsBest n (suc lo) d (omega arith)))
  ]

  -- the leader's commit index after the call, against the index `c` before it
  abbrev pub Committed : ℕ → Bool → Raft C → Type 0
  Committed c updated rf' =
      ((updated ≡ true)
        × (rf.is_leader ≡ true)
        × ((k : ℕ) × (rf' ≡ record rf { commit_index = pos k })
            × (c < k)
            × (k ≤ length rf.log)
            × IsMajority k
            × ((i : ℕ) → k < i → i ≤ length rf.log → ¬ IsMajority i)))
      ⊎ ((updated ≡ false)
          × (rf' ≡ rf)
          × (rf.is_leader ≡ true → (i : ℕ) → c < i → i ≤ length rf.log → ¬ IsMajority i))

  abbrev choose : ℤ → Bool × Raft C
  choose found =
      if ltb_ℤ rf.commit_index found && rf.is_leader
      then (true, record rf { commit_index = found })
      else (false, rf)

  module _ (c : ℕ) (e : rf.commit_index ≡ pos c) (found : ℤ)
      (b : IsBest (suc c) (suc c + (length rf.log - c)) minus_one found) where
    choose-none : found ≡ minus_one → Committed c (choose found).0 (choose found).1
    choose-none none_found =
        let test : (ltb_ℤ rf.commit_index found && rf.is_leader) ≡ false = ground arith in
        rw test
          (inr (refl, refl, λ _ i l u. b.missed i (omega arith) (omega arith) (inl none_found)))

    choose-some :
        (k : ℕ)
        → found ≡ pos k
        → c < k
        → k < suc c + (length rf.log - c)
        → IsMajority k
        → Committed c (choose found).0 (choose found).1
    choose-some k f l u m = elim (Bool-cases rf.is_leader) [
      | inl lead ↦
          let test : (ltb_ℤ rf.commit_index found && rf.is_leader) ≡ true = ground arith in
          rw test (
            inl (
              refl,
              lead,
              (
                k,
                ap (λ i. record rf { commit_index = i }) f,
                l,
                omega arith,
                m,
                λ i lo hi. b.missed i (omega arith) (omega arith) (inr (ground arith)),
              ),
            ))
      | inr lead ↦
          let test : (ltb_ℤ rf.commit_index found && rf.is_leader) ≡ false = ground arith in
          rw test (inr (refl, refl, λ led. cc))
    ]

    choose-Committed : Committed c (choose found).0 (choose found).1
    choose-Committed = elim b.hit [
      | inl none_found ↦ choose-none none_found
      | inr (k, f, l, u, m) ↦ choose-some k f l u m
    ]

  found_lem :
      (c : ℕ)
      → IsIndexed 0 rf.log
      → rf.commit_index ≡ pos c
      → last_committed
          (pos_part ((get_last_log_entry rf).index -ℤ rf.commit_index))
          (rf.commit_index +ℤ pos 1)
          minus_one
          rf
        ≡ last_committed (length rf.log - c) (pos (suc c)) minus_one rf
  found_lem c w e =
      let last = index-get_last_log_entry rf w in
      let rounds : pos_part ((get_last_log_entry rf).index -ℤ rf.commit_index) ≡ length rf.log - c =
        ground arith in
      let begin : rf.commit_index +ℤ pos 1 ≡ pos (suc c) = ground arith in
      ap₂ (λ n b. last_committed n b minus_one rf) rounds begin

  -- On a numbered log, with a commit index of at least 0: a leader commits the last entry behind
  -- its commit index that a majority holds, and nothing if there is none; a peer that does not
  -- lead commits nothing. A majority holds an entry if the leader and the other peers that it
  -- holds for alive and knows to have the entry are more than half of the peers.
  pub update_commit_for_leader-Committed :
      (c : ℕ)
      → IsIndexed 0 rf.log
      → rf.commit_index ≡ pos c
      → Committed c (update_commit_for_leader rf).0 (update_commit_for_leader rf).1
  unfolding update_commit_for_leader
  update_commit_for_leader-Committed c w e = choose-Committed c e _ (
      subst (IsBest (suc c) (suc c + (length rf.log - c)) minus_one) (sym (found_lem c w e))
        (last_committed-IsBest (length rf.log - c) (suc c) minus_one (omega arith)))

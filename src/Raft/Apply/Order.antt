-- ===== src/Raft/Apply/Order.antt =====
-- Which commands `startApply` hands over, and in which order.
use mathlib.Core.List.{append_assoc, append-nil}
use native.Mathlib.Decide.{dec_le}
use sharded_raft_key_value_s.Prelude.{
  ℕ, zero, suc, ◌+◌, ◌-◌, ◌≤◌, ◌≡◌, refl, sym, ap, ◌∙◌, true, false, not, ◌&&◌, some, List, [], ◌∷◌,
  ◌++◌, map, ok, arith, length, get_elem?, take, drop, get_elem?_of_lt, drop_of_get_elem?,
  Bool-cases, inl, inr, if◌then◌else◌,
}
use sharded_raft_key_value_s.Prelude.Int.{ℤ, pos, negsuc, ◌-ℤ◌, ◌≤ℤ◌, ltb_ℤ, pos_part}
use sharded_raft_key_value_s.Raft.Types.{ApplyMsg, Entry}
use sharded_raft_key_value_s.Raft.Slice.{at}
use sharded_raft_key_value_s.Raft.Node.{Raft}
use sharded_raft_key_value_s.Raft.Log.{index_in_log}
use sharded_raft_key_value_s.Raft.Indexed.{IsIndexed}
use sharded_raft_key_value_s.Raft.Apply.{apply_one, apply_loop, start_apply}

module _ {C : Type 0} where
  abbrev pub message : Entry C → ApplyMsg C
  message e = record { command = e.command; command_valid = true; command_index = e.index }

  -- the peer after it has handed over the `n` entries behind the first `a`
  abbrev pub applied : ℕ → ℕ → Raft C → Raft C
  applied a n rf = record rf {
    last_apply = pos (a + n);
    apply_chan = rf.apply_chan ++ map message (take n (drop a rf.log));
  }

  index-get_elem? :
      (k i : ℕ) (log : List (Entry C)) (e : Entry C)
      → IsIndexed k log
      → get_elem? log i ≡ some e
      → e.index ≡ pos (suc (k + i))
  index-get_elem? k i [] e w g = cc
  index-get_elem? k zero (x ∷ log) e w g = ground arith
  index-get_elem? k (suc i) (x ∷ log) e w g =
      index-get_elem? (suc k) i log e w.1 g ∙ ap pos (omega arith)

  apply_one_lem :
      (rf : Raft C) (a : ℕ) (e : Entry C)
      → IsIndexed 0 rf.log
      → rf.last_apply ≡ pos a
      → get_elem? rf.log a ≡ some e
      → apply_one rf
        ≡ ok (record rf { last_apply = pos (suc a); apply_chan = rf.apply_chan ++ message e ∷ [] })
  unfolding apply_one at index_in_log
  apply_one_lem rf a e w l g = ground (arith, index-get_elem? 0 a rf.log e w g)

  apply_loop_lem :
      (n a k : ℕ) (rf : Raft C)
      → IsIndexed 0 rf.log
      → rf.last_apply ≡ pos a
      → rf.dead ≡ false
      → a + n ≡ k
      → k ≤ length rf.log
      → apply_loop n (pos k) rf ≡ ok (applied a n rf)
  unfolding apply_loop
  apply_loop_lem zero a k rf w l d e b = ground (arith, append-nil rf.apply_chan)
  apply_loop_lem (suc n) a k rf w l d e b =
      let (x, g) = get_elem?_of_lt rf.log a (omega arith) in
      let here = apply_one_lem rf a x w l g in
      let rest =
        apply_loop_lem n (suc a) k
          (record rf { last_apply = pos (suc a); apply_chan = rf.apply_chan ++ message x ∷ [] }) w
          refl d (omega arith) b in
      let go : (ltb_ℤ rf.last_apply (pos k) && not rf.dead) ≡ true = ground arith in
      let more =
        append_assoc rf.apply_chan (message x ∷ []) (map message (take n (drop (suc a) rf.log))) in
      let split : drop a rf.log ≡ x ∷ drop (suc a) rf.log = drop_of_get_elem? rf.log a x g in
      rw (go, here, rest, split) (ground (arith, more))

  applied_none : (a : ℕ) (rf : Raft C) → rf.last_apply ≡ pos a → ok rf ≡ ok (applied a 0 rf)
  applied_none a rf l = ground (arith, append-nil rf.apply_chan)

  -- how many entries `startApply` hands over
  abbrev pub due : ℕ → ℤ → Raft C → ℕ
  due a c rf = if rf.dead then 0 else pos_part (c -ℤ pos a)

  apply_loop_dead : (n : ℕ) (c : ℤ) (rf : Raft C) → rf.dead ≡ true → apply_loop n c rf ≡ ok rf
  unfolding apply_loop
  apply_loop_dead zero c rf d = refl
  apply_loop_dead (suc n) c rf d = ground arith

  module _ (a : ℕ) (rf : Raft C) (w : IsIndexed 0 rf.log) (l : rf.last_apply ≡ pos a) where
    -- the loop runs for `n` rounds, and so does its description
    same_rounds :
        (n : ℕ) (c : ℤ)
        → pos_part (c -ℤ pos a) ≡ n
        → apply_loop n c rf ≡ ok (applied a n rf)
        → start_apply c rf ≡ ok (applied a (pos_part (c -ℤ pos a)) rf)
    unfolding start_apply
    same_rounds n c e h =
        ap (λ i. apply_loop (pos_part (c -ℤ i)) c rf) l
        ∙ ap (λ m. apply_loop m c rf) e
        ∙ h
        ∙ ap (λ m. ok (applied a m rf)) (sym e)

    start_apply-alive :
        (c : ℤ)
        → rf.dead ≡ false
        → c ≤ℤ pos (length rf.log)
        → start_apply c rf ≡ ok (applied a (pos_part (c -ℤ pos a)) rf)
    unfolding apply_loop
    start_apply-alive (negsuc k) d b = same_rounds 0 (negsuc k) (ground arith) (applied_none a rf l)
    start_apply-alive (pos k) d b = elim (dec_le a k) [
      | yes h ↦
          same_rounds (k - a) (pos k) (ground arith)
            (apply_loop_lem (k - a) a k rf w l d (omega arith) (omega arith))
      | no h ↦ same_rounds 0 (pos k) (ground arith) (applied_none a rf l)
    ]

    start_apply-dead : (c : ℤ) → rf.dead ≡ true → start_apply c rf ≡ ok (applied a 0 rf)
    unfolding start_apply
    start_apply-dead c d =
        apply_loop_dead (pos_part (c -ℤ rf.last_apply)) c rf d ∙ applied_none a rf l

    -- On a numbered log, with the last index applied known and a commit index that is not beyond
    -- the log, startApply never panics: a live peer hands over exactly the entries behind the
    -- last one applied, up to the commit index and in order, and a killed peer none.
    pub start_apply-applied :
        (c : ℤ) → c ≤ℤ pos (length rf.log) → start_apply c rf ≡ ok (applied a (due a c rf) rf)
    start_apply-applied c b = elim (Bool-cases rf.dead) [
      | inl d ↦
          start_apply-dead c d
          ∙ ap (λ x. ok (applied a (if x then 0 else pos_part (c -ℤ pos a)) rf)) (sym d)
      | inr d ↦
          start_apply-alive c d b
          ∙ ap (λ x. ok (applied a (if x then 0 else pos_part (c -ℤ pos a)) rf)) (sym d)
    ]

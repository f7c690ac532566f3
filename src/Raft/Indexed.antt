-- ===== src/Raft/Indexed.antt =====
-- Logs whose entries are numbered 1, 2, ... : what src/raft/getters.go reads from them.
use native.Mathlib.Decide.{dec_lt}
use sharded_raft_key_value_s.Prelude.{
  ℕ, zero, suc, ◌+◌, ◌≤◌, ◌<◌, ◌≡◌, refl, ap, ◌∙◌, Bool, true, false, Option, none, some, List, [],
  ◌∷◌, ◌++◌, ok, arith, length, get_elem?, take, drop, get_elem?_of_lt, get_elem?-none,
  if◌then◌else◌,
}
use sharded_raft_key_value_s.Prelude.Int.{ℤ, pos, minus_one, ◌+ℤ◌, ◌-ℤ◌}
use sharded_raft_key_value_s.Raft.Types.{Entry, zero_entry}
use sharded_raft_key_value_s.Raft.Slice.{slice_to, slice_from, last_or}
use sharded_raft_key_value_s.Raft.Node.{Raft}
use sharded_raft_key_value_s.Raft.Log.{
  get_last_log_entry, get_log_at_index, term_for_log, index_in_log,
}
use sharded_raft_key_value_s.Raft.Handler.{set_last_term}

local_index : (n : ℕ) (i : ℤ) → i ≡ pos 1 → pos (suc n) -ℤ i ≡ pos n
local_index n i h = ground arith

module _ {C : Type 0} where
  -- the entries carry the indices k + 1, k + 2, ...
  abbrev pub IsIndexed : ℕ → List (Entry C) → Type 0
  IsIndexed k [] = Unit
  IsIndexed k (e ∷ log) = (e.index ≡ pos (suc k)) × IsIndexed (suc k) log

  -- the entry of index `n`, and the zero entry at 0
  abbrev pub entry_at : ℕ → List (Entry C) → Option (Entry C)
  entry_at zero log = some zero_entry
  entry_at (suc i) log = get_elem? log i

  abbrev pub found_at : Option (Entry C) → Entry C × Bool
  found_at none = (zero_entry, false)
  found_at (some e) = (e, true)

  pub index-last_or :
      (k : ℕ) (d : Entry C) (log : List (Entry C))
      → d.index ≡ pos k
      → IsIndexed k log
      → (last_or d log).index ≡ pos (k + length log)
  unfolding last_or
  index-last_or k d [] h w = rw h (ap pos (omega arith))
  index-last_or k d (e ∷ log) h w = index-last_or (suc k) e log w.0 w.1 ∙ ap pos (omega arith)

  -- the last index of a numbered log is its length
  pub index-get_last_log_entry :
      (rf : Raft C) → IsIndexed 0 rf.log → (get_last_log_entry rf).index ≡ pos (length rf.log)
  unfolding get_last_log_entry
  index-get_last_log_entry rf w = index-last_or 0 zero_entry rf.log refl w ∙ ap pos (omega arith)

  pub IsIndexed-append :
      (k : ℕ) (xs ys : List (Entry C))
      → IsIndexed k xs
      → IsIndexed (k + length xs) ys
      → IsIndexed k (xs ++ ys)
  IsIndexed-append k [] ys wx wy = let e : k + 0 ≡ k = omega arith in rw (← e) wy
  IsIndexed-append k (x ∷ xs) ys wx wy =
      let e : k + suc (length xs) ≡ suc k + length xs = omega arith in
      (wx.0, IsIndexed-append (suc k) xs ys wx.1 (rw (← e) wy))

  pub IsIndexed-take : (k n : ℕ) (log : List (Entry C)) → IsIndexed k log → IsIndexed k (take n log)
  IsIndexed-take k zero log w = tt
  IsIndexed-take k (suc n) [] w = tt
  IsIndexed-take k (suc n) (e ∷ log) w = (w.0, IsIndexed-take (suc k) n log w.1)

  pub IsIndexed-drop :
      (k n : ℕ) (log : List (Entry C)) → IsIndexed k log → IsIndexed (k + n) (drop n log)
  IsIndexed-drop k zero log w = let e : k + 0 ≡ k = omega arith in rw e w
  IsIndexed-drop k (suc n) [] w = tt
  IsIndexed-drop k (suc n) (e ∷ log) w =
      let e : k + suc n ≡ suc k + n = omega arith in rw e (IsIndexed-drop (suc k) n log w.1)

  pub IsIndexed-set_last_term :
      (k : ℕ) (t : ℤ) (log : List (Entry C)) → IsIndexed k log → IsIndexed k (set_last_term t log)
  unfolding set_last_term
  IsIndexed-set_last_term k t [] w = tt
  IsIndexed-set_last_term k t (e ∷ []) w = w
  IsIndexed-set_last_term k t (e ∷ f ∷ log) w =
      (w.0, IsIndexed-set_last_term (suc k) t (f ∷ log) w.1)

  pub length-set_last_term :
      (t : ℤ) (log : List (Entry C)) → length (set_last_term t log) ≡ length log
  unfolding set_last_term
  length-set_last_term t [] = refl
  length-set_last_term t (e ∷ []) = refl
  length-set_last_term t (e ∷ f ∷ log) = ap suc (length-set_last_term t (f ∷ log))

  -- a read within the log, and one beyond it
  get_inside :
      (rf : Raft C) (e : Entry C) (log : List (Entry C)) (n : ℕ) (x : Entry C)
      → IsIndexed 0 (e ∷ log)
      → n < length (e ∷ log)
      → get_elem? (e ∷ log) n ≡ some x
      → get_log_at_index (record rf { log = e ∷ log }) (pos (suc n)) ≡ ok (x, true)
  unfolding get_log_at_index
  get_inside rf e log n x w h g =
      rw (local_index n e.index w.0)
        (ground (arith, index-get_last_log_entry (record rf { log = e ∷ log }) w))

  get_outside :
      (rf : Raft C) (e : Entry C) (log : List (Entry C)) (n : ℕ)
      → IsIndexed 0 (e ∷ log)
      → length (e ∷ log) ≤ n
      → get_log_at_index (record rf { log = e ∷ log }) (pos (suc n)) ≡ ok (zero_entry, false)
  unfolding get_log_at_index
  get_outside rf e log n w h =
      ground (arith, index-get_last_log_entry (record rf { log = e ∷ log }) w)

  read_log :
      (rf : Raft C) (log : List (Entry C)) (n : ℕ)
      → IsIndexed 0 log
      → get_log_at_index (record rf { log = log }) (pos n) ≡ ok (found_at (entry_at n log))
  read_log rf log zero w = unfold get_log_at_index in refl
  read_log rf [] (suc n) w = unfold get_log_at_index in ground arith
  read_log rf (e ∷ log) (suc n) w = elim (dec_lt n (length (e ∷ log))) [
    | yes h ↦ let (x, g) = get_elem?_of_lt (e ∷ log) n h in rw g (get_inside rf e log n x w h g)
    | no h ↦
        let out : length (e ∷ log) ≤ n = omega arith in
        rw (get_elem?-none (e ∷ log) n out) (get_outside rf e log n w out)
  ]

  -- On a numbered log a read at n finds exactly the entry of index n (the zero entry at 0,
  -- nothing beyond the end), and never panics.
  pub get_log_at_index-entry_at :
      (rf : Raft C) (n : ℕ)
      → IsIndexed 0 rf.log
      → get_log_at_index rf (pos n) ≡ ok (found_at (entry_at n rf.log))
  get_log_at_index-entry_at rf n w = read_log rf rf.log n w

  abbrev pub term_of : Option (Entry C) → ℤ
  term_of none = minus_one
  term_of (some e) = e.term

  -- the term of the entry of index `n`, and -1 beyond the log
  abbrev pub term_at : ℕ → List (Entry C) → ℤ
  term_at n log = term_of (entry_at n log)

  term-found_at :
      (o : Option (Entry C))
      → ok (if (found_at o).1 then (found_at o).0.term else minus_one) ≡ ok (term_of o)
  term-found_at none = refl
  term-found_at (some e) = refl

  pub term_for_log-term_at :
      (rf : Raft C) (n : ℕ) → IsIndexed 0 rf.log → term_for_log rf (pos n) ≡ ok (term_at n rf.log)
  unfolding term_for_log
  term_for_log-term_at rf n w =
      rw (get_log_at_index-entry_at rf n w) (term-found_at (entry_at n rf.log))

  pub slice_to-take :
      (log : List (Entry C)) (n : ℕ)
      → n ≤ length log
      → slice_to log (index_in_log (pos n +ℤ pos 1)) ≡ ok (take n log)
  unfolding slice_to index_in_log
  slice_to-take log n h = ground arith

  pub slice_to-take_before :
      (log : List (Entry C)) (n : ℕ)
      → n < length log
      → slice_to log (index_in_log (pos (suc n))) ≡ ok (take n log)
  unfolding slice_to index_in_log
  slice_to-take_before log n h = ground arith

  pub slice_from-drop :
      (log : List (Entry C)) (n : ℕ)
      → n ≤ length log
      → slice_from log (index_in_log (pos n +ℤ pos 1)) ≡ ok (drop n log)
  unfolding slice_from index_in_log
  slice_from-drop log n h = ground arith

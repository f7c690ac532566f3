-- ===== src/Raft/Durable.antt =====
-- What a restart of the peer reads back from its disk (src/raft/persister.go, `persist`,
-- `readPersist`, and `readPersistRun` of src/kvraft/serverRun.go).
use sharded_raft_key_value_s.Prelude.{
  ℕ, suc, ◌∷◌, map, ◌≡◌, refl, ap, Bool, true, false, none, List, [], String, arith,
}
use sharded_raft_key_value_s.Prelude.Int.{ℤ, pos, minus_one}
use sharded_raft_key_value_s.Raft.Types.{follwer, Entry}
use sharded_raft_key_value_s.Raft.Codec.{
  fill, Decoded, decoded_or, Codec, decode-encode, decode_run-encode_run, decode-nil,
  decode_run-nil,
}
use sharded_raft_key_value_s.Raft.Node.{
  Raft, persist, persist_created, restart, make, make_run, read_persist_run, new_raft,
}
use sharded_raft_key_value_s.Raft.Persister.{make_persister}
use sharded_raft_key_value_s.Raft.Indexed.{IsIndexed}
use sharded_raft_key_value_s.Raft.Invariant.{IsBounded, SameDisk}

module _ {C : Type 0} ⦃codec : Codec C⦄ where
  -- a restart would find the term and the vote that the peer has now, and a well-formed log
  pub record IsDurable (rf : Raft C) : Type 0 where
    pub term_saved : (ps : List String) → (restart ps rf).term ≡ rf.term
    pub vote_saved : (ps : List String) → (restart ps rf).voted_for ≡ rf.voted_for
    pub log_indexed : (ps : List String) → IsIndexed 0 (restart ps rf).log
    pub log_bounded : (ps : List String) → IsBounded rf.term (restart ps rf).log

  -- the log that a restart reads: a JSON file does not keep a nil command apart from `Op{}`
  abbrev pub read_back : Bool → List (Entry C) → List (Entry C)
  read_back true log = log
  read_back false log = map (fill codec.zero_command) log

  IsIndexed-fill :
      (k : ℕ) (c : C) (log : List (Entry C)) → IsIndexed k log → IsIndexed k (map (fill c) log)
  IsIndexed-fill k c [] w = tt
  IsIndexed-fill k c (e ∷ log) w = (w.0, IsIndexed-fill (suc k) c log w.1)

  IsBounded-fill :
      (t : ℤ) (c : C) (log : List (Entry C)) → IsBounded t log → IsBounded t (map (fill c) log)
  IsBounded-fill t c [] b = tt
  IsBounded-fill t c (e ∷ log) b = (b.0, IsBounded-fill t c log b.1)

  pub IsIndexed-read_back :
      (test : Bool) (log : List (Entry C)) → IsIndexed 0 log → IsIndexed 0 (read_back test log)
  IsIndexed-read_back true log w = w
  IsIndexed-read_back false log w = IsIndexed-fill 0 codec.zero_command log w

  pub IsBounded-read_back :
      (test : Bool) (t : ℤ) (log : List (Entry C))
      → IsBounded t log
      → IsBounded t (read_back test log)
  IsBounded-read_back true t log b = b
  IsBounded-read_back false t log b = IsBounded-fill t codec.zero_command log b

  -- If the encodings give back each value, a peer that has saved its state to the end and is
  -- started again finds its term and its vote, and the log: the same one in the tests, and in the
  -- running server, which writes and reads the entries field by field, the one with Op{} for a
  -- nil command.
  pub persist-restart :
      (ps : List String) (rf : Raft C)
      → ((restart ps (persist rf)).term ≡ rf.term)
        × ((restart ps (persist rf)).voted_for ≡ rf.voted_for)
        × ((restart ps (persist rf)).log ≡ read_back rf.test rf.log)
  unfolding persist restart
  persist-restart ps rf = ground (
    arith,
    decode-encode rf.term rf.voted_for rf.log,
    decode_run-encode_run rf.term rf.voted_for rf.log,
  )

  -- A running server that crashes in persist after os.Create has emptied its file starts again in
  -- term 0 with a vote for peer 0 and an empty log, whatever it had saved before.
  pub persist_created-restart :
      (ps : List String) (rf : Raft C)
      → rf.test ≡ false
      → ((restart ps (persist_created rf)).term ≡ pos 0)
        × ((restart ps (persist_created rf)).voted_for ≡ pos 0)
        × ((restart ps (persist_created rf)).log ≡ [])
  unfolding restart persist_created
  persist_created-restart ps rf h = rw (h, decode_run-nil) (refl, refl, refl)

  pub restart-disk :
      (ps : List String) (rf rf' : Raft C)
      → SameDisk rf rf'
      → ((restart ps rf').term ≡ (restart ps rf).term)
        × ((restart ps rf').voted_for ≡ (restart ps rf).voted_for)
        × ((restart ps rf').log ≡ (restart ps rf).log)
  unfolding restart
  restart-disk ps rf rf' d = ground arith

  pub restart-restart :
      (ps qs : List String) (rf : Raft C)
      → ((restart ps (restart qs rf)).term ≡ (restart qs rf).term)
        × ((restart ps (restart qs rf)).voted_for ≡ (restart qs rf).voted_for)
        × ((restart ps (restart qs rf)).log ≡ (restart qs rf).log)
  unfolding restart
  restart-restart ps qs rf = ground arith

  -- A restarted peer is a follower that has applied nothing.
  pub restart-fresh :
      (ps : List String) (rf : Raft C)
      → ((restart ps rf).apply_chan ≡ [])
        × ((restart ps rf).last_apply ≡ pos 0)
        × ((restart ps rf).commit_index ≡ pos 0)
        × ((restart ps rf).state ≡ follwer)
  unfolding restart
  restart-fresh ps rf = ground arith

module _ {C : Type 0} ⦃codec : Codec C⦄ where
  pub restart-me : (ps : List String) (rf : Raft C) → (restart ps rf).me ≡ rf.me
  unfolding restart
  restart-me ps rf = ground arith

-- A peer made by Make on an empty disk holds a vote for peer 0, while one that the server makes
-- without a file has not voted.
pub make-first_vote :
    (C : Type 0) ⦃codec : Codec C⦄ (peers me : ℕ) (peers_run : List String)
    → ((make {C = C} peers me make_persister).voted_for ≡ pos 0)
      × ((read_persist_run (make_run (new_raft {C = C} make_persister none) peers_run me)).voted_for
          ≡ minus_one)
unfolding make make_persister read_persist_run make_run
make-first_vote C ⦃codec⦄ peers me peers_run =
    (ap (λ (d : Decoded C). decoded_or (pos 0) d.voted_for) decode-nil, refl)

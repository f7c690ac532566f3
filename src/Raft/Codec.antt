-- ===== src/Raft/Codec.antt =====
-- How raft.go and serverRun.go write a peer's state and read it back, value by value. What
-- encoding/gob and encoding/json do with one value is the parameter `Codec`: a writer puts the
-- value in front of what is written after it. A `Decode` that fails leaves its variable as it was,
-- and the callers ignore the error, so a reader gives an `Option`, and the bytes that are left.
use sharded_raft_key_value_s.Prelude.{
  ℕ, zero, suc, ◌≡◌, refl, Option, none, some, List, [], ◌∷◌, map, length,
}
use sharded_raft_key_value_s.Prelude.Int.{ℤ, pos, pos_part}
use sharded_raft_key_value_s.Prelude.Dict.{or_default}
use sharded_raft_key_value_s.Raft.Types.{Entry}
use sharded_raft_key_value_s.Raft.Persister.{Bytes}

abbrev pub fill : {C : Type 0} → C → Entry C → Entry C
fill zero_value e = record e { command = some (or_default zero_value e.command) }

pub record Decoded (C : Type 0) : Type 0 where
  pub term : Option ℤ
  pub voted_for : Option ℤ
  pub logs : Option (List (Entry C))

pub record Codec (C : Type 0) : Type 0 where
  -- `Op{}`: the `null` of a nil command is read into an `Op`, which it leaves as it was
  pub zero_command : C
  -- gob, for the tests
  pub gob_int : ℤ → Bytes → Bytes
  pub gob_log : List (Entry C) → Bytes → Bytes
  pub read_gob_int : Bytes → Option ℤ × Bytes
  pub read_gob_log : Bytes → Option (List (Entry C)) × Bytes
  -- JSON values in a file, for the running server
  pub json_int : ℤ → Bytes → Bytes
  pub json_command : Option C → Bytes → Bytes
  pub read_json_int : Bytes → Option ℤ × Bytes
  pub read_json_command : Bytes → Option C × Bytes
  -- a value that was written is read back, whatever follows it
  pub gob_int_read : (i : ℤ) (rest : Bytes) → read_gob_int (gob_int i rest) ≡ (some i, rest)
  pub gob_log_read :
      (log : List (Entry C)) (rest : Bytes) → read_gob_log (gob_log log rest) ≡ (some log, rest)
  pub json_int_read : (i : ℤ) (rest : Bytes) → read_json_int (json_int i rest) ≡ (some i, rest)
  pub json_command_read :
      (c : Option C) (rest : Bytes)
      → read_json_command (json_command c rest) ≡ (some (or_default zero_command c), rest)
  -- an empty stream has no value
  pub gob_int_end : read_gob_int [] ≡ (none, [])
  pub gob_log_end : read_gob_log [] ≡ (none, [])
  pub json_int_end : read_json_int [] ≡ (none, [])

-- what a variable holds after a `Decode` whose error is ignored
abbrev pub decoded_or : {A : Type 0} → A → Option A → A
decoded_or zero_value none = zero_value
decoded_or zero_value (some a) = a

module _ {C : Type 0} ⦃codec : Codec C⦄ where
  -- the three values of `persist` in the tests
  unfoldable pub encode : ℤ → ℤ → List (Entry C) → Bytes
  encode term voted_for log = codec.gob_int term (codec.gob_int voted_for (codec.gob_log log []))

  -- the three `Decode` of `readPersist`
  unfoldable pub decode : Bytes → Decoded C
  decode bytes =
      let (term, bytes) = codec.read_gob_int bytes in
      let (voted_for, bytes) = codec.read_gob_int bytes in
      let (logs, _) = codec.read_gob_log bytes in
      record { term = term; voted_for = voted_for; logs = logs }

  -- the loop of `persist` over the log
  unfoldable pub encode_entries : List (Entry C) → Bytes
  encode_entries [] = []
  encode_entries (e ∷ log) =
      codec.json_command e.command
        (codec.json_int e.id (codec.json_int e.index (codec.json_int e.term (encode_entries log))))

  -- the file that `persist` writes in the server
  unfoldable pub encode_run : ℤ → ℤ → List (Entry C) → Bytes
  encode_run term voted_for log =
      codec.json_int term
        (codec.json_int voted_for (codec.json_int (pos (length log)) (encode_entries log)))

  -- the loop of `readPersistRun`, on the rounds left
  unfoldable pub decode_entries : ℕ → Bytes → List (Entry C)
  decode_entries zero bytes = []
  decode_entries (suc n) bytes =
      let (op, bytes) = codec.read_json_command bytes in
      let (id, bytes) = codec.read_json_int bytes in
      let (index, bytes) = codec.read_json_int bytes in
      let (term, bytes) = codec.read_json_int bytes in
      let e : Entry C = record {
        index = decoded_or (pos 0) index;
        command = some (decoded_or codec.zero_command op);
        term = decoded_or (pos 0) term;
        id = decoded_or (pos 0) id;
      } in
      e ∷ decode_entries n bytes

  -- what `readPersistRun` reads
  unfoldable pub decode_run : Bytes → Decoded C
  decode_run bytes =
      let (term, bytes) = codec.read_json_int bytes in
      let (voted_for, bytes) = codec.read_json_int bytes in
      let (len, bytes) = codec.read_json_int bytes in
      let logs = decode_entries (pos_part (decoded_or (pos 0) len)) bytes in
      record { term = term; voted_for = voted_for; logs = some logs }

  pub decode-encode :
      (term voted_for : ℤ) (log : List (Entry C))
      → decode (encode term voted_for log)
        ≡ record { term = some term; voted_for = some voted_for; logs = some log }
  unfolding decode encode
  decode-encode term voted_for log =
      rw
        (
          codec.gob_int_read term (codec.gob_int voted_for (codec.gob_log log [])),
          codec.gob_int_read voted_for (codec.gob_log log []),
          codec.gob_log_read log [],
        )
        refl

  pub decode-nil : decode [] ≡ record { term = none; voted_for = none; logs = none }
  unfolding decode
  decode-nil = rw (codec.gob_int_end, codec.gob_int_end, codec.gob_log_end) refl

  -- an empty file ends before its first value
  pub decode_run-nil : decode_run [] ≡ record { term = none; voted_for = none; logs = some [] }
  unfolding decode_run decode_entries
  decode_run-nil = rw (codec.json_int_end, codec.json_int_end, codec.json_int_end) refl

  decode_entries-encode_entries :
      (log : List (Entry C))
      → decode_entries (length log) (encode_entries log) ≡ map (fill codec.zero_command) log
  unfolding decode_entries encode_entries
  decode_entries-encode_entries [] = refl
  decode_entries-encode_entries (e ∷ log) =
      let rest = encode_entries log in
      let after_index = codec.json_int e.term rest in
      let after_id = codec.json_int e.index after_index in
      rw
        (
          codec.json_command_read e.command (codec.json_int e.id after_id),
          codec.json_int_read e.id after_id,
          codec.json_int_read e.index after_index,
          codec.json_int_read e.term rest,
          decode_entries-encode_entries log,
        )
        refl

  pub decode_run-encode_run :
      (term voted_for : ℤ) (log : List (Entry C))
      → decode_run (encode_run term voted_for log) ≡ record {
        term = some term;
        voted_for = some voted_for;
        logs = some (map (fill codec.zero_command) log);
      }
  unfolding decode_run encode_run
  decode_run-encode_run term voted_for log =
      let rest = encode_entries log in
      let after_vote = codec.json_int (pos (length log)) rest in
      rw
        (
          codec.json_int_read term (codec.json_int voted_for after_vote),
          codec.json_int_read voted_for after_vote,
          codec.json_int_read (pos (length log)) rest,
          decode_entries-encode_entries log,
        )
        refl

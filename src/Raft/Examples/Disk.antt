-- ===== src/Raft/Examples/Disk.antt =====
-- A codec for commands that are numbers: an integer is a sign and a number, an entry is eight
-- numbers.
use sharded_raft_key_value_s.Prelude.{
  ℕ, zero, suc, ◌≡◌, refl, Option, none, some, List, [], ◌∷◌, length,
}
use sharded_raft_key_value_s.Prelude.Int.{ℤ, pos, negsuc}
use sharded_raft_key_value_s.Prelude.Dict.{or_default}
use sharded_raft_key_value_s.Raft.Types.{Entry}
use sharded_raft_key_value_s.Raft.Persister.{Bytes}
use sharded_raft_key_value_s.Raft.Codec.{Codec}

abbrev pub sign : ℤ → ℕ
sign (pos n) = 0
sign (negsuc n) = 1

abbrev pub size : ℤ → ℕ
size (pos n) = n
size (negsuc n) = n

abbrev pub int : ℕ → ℕ → ℤ
int zero n = pos n
int (suc _) n = negsuc n

abbrev pub tag : Option ℕ → ℕ
tag none = 0
tag (some _) = 1

abbrev pub content : Option ℕ → ℕ
content none = 0
content (some c) = c

abbrev pub command : ℕ → ℕ → Option ℕ
command zero c = none
command (suc _) c = some c

abbrev pub write_int : ℤ → Bytes → Bytes
write_int i rest = sign i ∷ size i ∷ rest

abbrev pub read_int : Bytes → Option ℤ × Bytes
read_int (a ∷ b ∷ rest) = (some (int a b), rest)
read_int _ = (none, [])

abbrev pub write_entries : List (Entry ℕ) → Bytes → Bytes
write_entries [] rest = rest
write_entries (e ∷ log) rest =
    sign e.index
    ∷ size e.index
    ∷ tag e.command
    ∷ content e.command
    ∷ sign e.term
    ∷ size e.term
    ∷ sign e.id
    ∷ size e.id
    ∷ write_entries log rest

abbrev read_entries : ℕ → Bytes → List (Entry ℕ) × Bytes
read_entries zero bytes = ([], bytes)
read_entries (suc n) (a ∷ b ∷ c ∷ d ∷ e ∷ f ∷ g ∷ h ∷ rest) =
    let (log, rest) = read_entries n rest in
    let entry : Entry ℕ = record {
      index = int a b;
      command = command c d;
      term = int e f;
      id = int g h;
    } in
    (entry ∷ log, rest)
read_entries (suc n) _ = ([], [])

-- a log is its length and its entries
abbrev pub write_log : List (Entry ℕ) → Bytes → Bytes
write_log log rest = length log ∷ write_entries log rest

abbrev read_log : Bytes → Option (List (Entry ℕ)) × Bytes
read_log [] = (none, [])
read_log (n ∷ bytes) = let (log, rest) = read_entries n bytes in (some log, rest)

-- a JSON command, in which nil is read as zero
abbrev write_command : Option ℕ → Bytes → Bytes
write_command o rest = tag o ∷ content o ∷ rest

abbrev read_command : Bytes → Option ℕ × Bytes
read_command (c ∷ d ∷ rest) = (some (or_default 0 (command c d)), rest)
read_command _ = (none, [])

pub int-sign : (i : ℤ) → int (sign i) (size i) ≡ i
int-sign (pos n) = refl
int-sign (negsuc n) = refl

command-tag : (o : Option ℕ) → command (tag o) (content o) ≡ o
command-tag none = refl
command-tag (some c) = refl

pub read_int-write_int : (i : ℤ) (rest : Bytes) → read_int (write_int i rest) ≡ (some i, rest)
read_int-write_int i rest = rw (int-sign i) refl

read_entries-write_entries :
    (log : List (Entry ℕ)) (rest : Bytes)
    → read_entries (length log) (write_entries log rest) ≡ (log, rest)
read_entries-write_entries [] rest = refl
read_entries-write_entries (e ∷ log) rest =
    rw
      (
        int-sign e.index,
        command-tag e.command,
        int-sign e.term,
        int-sign e.id,
        read_entries-write_entries log rest,
      )
      refl

pub read_log-write_log :
    (log : List (Entry ℕ)) (rest : Bytes) → read_log (write_log log rest) ≡ (some log, rest)
read_log-write_log log rest = rw (read_entries-write_entries log rest) refl

pub read_command-write_command :
    (o : Option ℕ) (rest : Bytes)
    → read_command (write_command o rest) ≡ (some (or_default 0 o), rest)
read_command-write_command o rest = rw (command-tag o) refl

instance abbrev pub number_codec : Codec ℕ
number_codec = record {
  zero_command = 0;
  gob_int = write_int;
  gob_log = write_log;
  read_gob_int = read_int;
  read_gob_log = read_log;
  json_int = write_int;
  json_command = write_command;
  read_json_int = read_int;
  read_json_command = read_command;
  gob_int_read = read_int-write_int;
  gob_log_read = read_log-write_log;
  json_int_read = read_int-write_int;
  json_command_read = read_command-write_command;
  gob_int_end = refl;
  gob_log_end = refl;
  json_int_end = refl;
}

-- the disk of a peer in the tests
abbrev pub write : ℤ → ℤ → List (Entry ℕ) → Bytes
write term voted_for log = write_int term (write_int voted_for (write_log log []))

-- ===== src/Kv/Examples/Disk.antt =====
-- A codec for operations: a text is the numbers of its characters, each one more, and a zero; an
-- integer is a sign and a number; a log is its length and its entries.
use Prim.Native.Nat.{Ordering, compare}
use Prim.Native.Char.{Char, char, code, nul, IsLt, IsScalar}
use Prim.Native.String.{[] as empty, ◌∷◌ as ◌∷ₛ◌}
use text.Mathlib.TextEquality.{Char-path}
use sharded_raft_key_value_s.Prelude.{
  ℕ, zero, suc, ◌≡◌, refl, ap, ◌∙◌, Option, none, some, List, [], ◌∷◌, String, length,
}
use sharded_raft_key_value_s.Prelude.Int.{pos}
use sharded_raft_key_value_s.Prelude.Dict.{or_default}
use sharded_raft_key_value_s.Raft.Types.{Entry}
use sharded_raft_key_value_s.Raft.Persister.{Bytes}
use sharded_raft_key_value_s.Raft.Codec.{Codec}
use sharded_raft_key_value_s.Raft.Examples.Disk.{int-sign, write_int, read_int, read_int-write_int}
use sharded_raft_key_value_s.Kv.Types.{Op}

-- the two comparisons of `IsScalar`, decided
abbrev Both : Ordering → Ordering → Type 0
Both Ordering.lt o = IsLt o
Both Ordering.eq _ = ⊥
Both Ordering.gt _ = ⊥

abbrev Scalar : Ordering → Ordering → Ordering → Type 0
Scalar Ordering.lt _ _ = Unit
Scalar Ordering.eq o p = Both o p
Scalar Ordering.gt o p = Both o p

abbrev dec_lt : (o : Ordering) → Dec (IsLt o)
dec_lt Ordering.lt = yes tt
dec_lt Ordering.eq = no λ x. x
dec_lt Ordering.gt = no λ x. x

abbrev dec_both : (o p : Ordering) → Dec (Both o p)
dec_both Ordering.lt p = dec_lt p
dec_both Ordering.eq p = no λ x. x
dec_both Ordering.gt p = no λ x. x

abbrev dec_scalar : (o p q : Ordering) → Dec (Scalar o p q)
dec_scalar Ordering.lt p q = yes tt
dec_scalar Ordering.eq p q = dec_both p q
dec_scalar Ordering.gt p q = dec_both p q

abbrev char_of : (n : ℕ) → Dec (IsScalar n) → Char
char_of n (yes h) = char n h
char_of n (no h) = nul

abbrev read_char : ℕ → Char
read_char n = char_of n (dec_scalar (compare n 55296) (compare 57343 n) (compare n 1114112))

code-char_of : (n : ℕ) (h : IsScalar n) (d : Dec (IsScalar n)) → code (char_of n d) ≡ n
code-char_of n h (yes p) = refl
code-char_of n h (no p) = absurd (p h)

read_char-code : (c : Char) → read_char (code c) ≡ c
read_char-code (char n h) =
    Char-path (read_char n) (char n h)
      (code-char_of n h (dec_scalar (compare n 55296) (compare 57343 n) (compare n 1114112)))

abbrev pub write_text : String → Bytes → Bytes
write_text empty rest = 0 ∷ rest
write_text (c ∷ₛ s) rest = suc (code c) ∷ write_text s rest

abbrev read_text : Bytes → String × Bytes
read_text [] = ("", [])
read_text (zero ∷ rest) = ("", rest)
read_text (suc n ∷ rest) = let (s, rest) = read_text rest in (read_char n ∷ₛ s, rest)

read_text-write_text : (s : String) (rest : Bytes) → read_text (write_text s rest) ≡ (s, rest)
read_text-write_text empty rest = refl
read_text-write_text (c ∷ₛ s) rest = rw (read_char-code c, read_text-write_text s rest) refl

-- `Op{}`
abbrev pub zero_op : Op
zero_op = record { op_task = ""; key = ""; value = ""; client = pos 0; id = pos 0 }

abbrev pub write_op : Op → Bytes → Bytes
write_op op rest =
    write_text op.op_task
      (write_text op.key (write_text op.value (write_int op.client (write_int op.id rest))))

abbrev read_op : Bytes → Op × Bytes
read_op bytes =
    let (op_task, bytes) = read_text bytes in
    let (key, bytes) = read_text bytes in
    let (value, bytes) = read_text bytes in
    let (client, bytes) = read_int bytes in
    let (id, bytes) = read_int bytes in
    let client = or_default (pos 0) client in
    let id = or_default (pos 0) id in
    (record { op_task = op_task; key = key; value = value; client = client; id = id }, bytes)

read_op-write_op : (op : Op) (rest : Bytes) → read_op (write_op op rest) ≡ (op, rest)
read_op-write_op op rest =
    rw
      (
        read_text-write_text op.op_task,
        read_text-write_text op.key,
        read_text-write_text op.value,
        int-sign op.client,
        int-sign op.id,
      )
      refl

abbrev pub write_command : Option Op → Bytes → Bytes
write_command none rest = 0 ∷ rest
write_command (some op) rest = 1 ∷ write_op op rest

abbrev read_command : Bytes → Option Op × Bytes
read_command [] = (none, [])
read_command (zero ∷ rest) = (none, rest)
read_command (suc _ ∷ rest) = let (op, rest) = read_op rest in (some op, rest)

read_command-write_command :
    (o : Option Op) (rest : Bytes) → read_command (write_command o rest) ≡ (o, rest)
read_command-write_command none rest = refl
read_command-write_command (some op) rest =
    ap (λ (p : Op × Bytes). (some p.0, p.1)) (read_op-write_op op rest)

abbrev pub write_entry : Entry Op → Bytes → Bytes
write_entry e rest =
    write_command e.command (write_int e.index (write_int e.term (write_int e.id rest)))

abbrev read_entry : Bytes → Entry Op × Bytes
read_entry bytes =
    let (command, bytes) = read_command bytes in
    let (index, bytes) = read_int bytes in
    let (term, bytes) = read_int bytes in
    let (id, bytes) = read_int bytes in
    (
      record {
        index = or_default (pos 0) index;
        command = command;
        term = or_default (pos 0) term;
        id = or_default (pos 0) id;
      },
      bytes,
    )

read_entry-write_entry : (e : Entry Op) (rest : Bytes) → read_entry (write_entry e rest) ≡ (e, rest)
read_entry-write_entry e rest =
    rw (read_command-write_command e.command, int-sign e.index, int-sign e.term, int-sign e.id) refl

abbrev pub write_entries : List (Entry Op) → Bytes → Bytes
write_entries [] rest = rest
write_entries (e ∷ log) rest = write_entry e (write_entries log rest)

abbrev read_entries : ℕ → Bytes → List (Entry Op) × Bytes
read_entries zero bytes = ([], bytes)
read_entries (suc n) bytes =
    let (e, bytes) = read_entry bytes in let (log, bytes) = read_entries n bytes in (e ∷ log, bytes)

read_entries-write_entries :
    (log : List (Entry Op)) (rest : Bytes)
    → read_entries (length log) (write_entries log rest) ≡ (log, rest)
read_entries-write_entries [] rest = refl
read_entries-write_entries (e ∷ log) rest =
    ap
      (λ (p : Entry Op × Bytes).
        (p.0 ∷ (read_entries (length log) p.1).0, (read_entries (length log) p.1).1))
      (read_entry-write_entry e (write_entries log rest))
    ∙ ap (λ (p : List (Entry Op) × Bytes). (e ∷ p.0, p.1)) (read_entries-write_entries log rest)

-- a log is its length and its entries
abbrev pub write_log : List (Entry Op) → Bytes → Bytes
write_log log rest = length log ∷ write_entries log rest

abbrev read_log : Bytes → Option (List (Entry Op)) × Bytes
read_log [] = (none, [])
read_log (n ∷ bytes) = let (log, rest) = read_entries n bytes in (some log, rest)

pub read_log-write_log :
    (log : List (Entry Op)) (rest : Bytes) → read_log (write_log log rest) ≡ (some log, rest)
read_log-write_log log rest =
    ap (λ (p : List (Entry Op) × Bytes). (some p.0, p.1)) (read_entries-write_entries log rest)

-- a JSON command, in which nil is read as `Op{}`
abbrev read_json_op : Bytes → Option Op × Bytes
read_json_op bytes = let (o, rest) = read_command bytes in (some (or_default zero_op o), rest)

pub read_json_op-write_command :
    (o : Option Op) (rest : Bytes)
    → read_json_op (write_command o rest) ≡ (some (or_default zero_op o), rest)
read_json_op-write_command o rest =
    ap (λ (p : Option Op × Bytes). (some (or_default zero_op p.0), p.1))
      (read_command-write_command o rest)

instance abbrev pub op_codec : Codec Op
op_codec = record {
  zero_command = zero_op;
  gob_int = write_int;
  gob_log = write_log;
  read_gob_int = read_int;
  read_gob_log = read_log;
  json_int = write_int;
  json_command = write_command;
  read_json_int = read_int;
  read_json_command = read_json_op;
  gob_int_read = read_int-write_int;
  gob_log_read = read_log-write_log;
  json_int_read = read_int-write_int;
  json_command_read = read_json_op-write_command;
  gob_int_end = refl;
  gob_log_end = refl;
  json_int_end = refl;
}

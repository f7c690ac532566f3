-- ===== src/Runner/Fields.antt =====
-- The file of the servers, and which of them the program is (src/runner/srunner/main/sRun.go).
use Prim.Native.Char.{Char}
use Prim.Native.String.{[] as empty, ◌∷◌ as ◌∷ₛ◌}
use sharded_raft_key_value_s.Prelude.{
  ℕ, zero, suc, ◌+◌, ◌≡◌, refl, ap, ◌∙◌, Bool, true, false, Option, List, [], ◌∷◌, String, ok,
  panicked, arith, All,
}
use sharded_raft_key_value_s.Prelude.Int.{minus_one}
use sharded_raft_key_value_s.Raft.Persister.{Bytes, Persister}
use sharded_raft_key_value_s.Raft.Codec.{Codec}
use sharded_raft_key_value_s.Kv.Types.{Op}
use sharded_raft_key_value_s.Kv.Node.{start_node_run}
use sharded_raft_key_value_s.Runner.{
  add_field, first_field, fields_func, contains_text, read_file, own_index, server_main,
}

module _ (is_space : Char → Bool) where
  -- no character of the text is a space
  abbrev pub IsSpaceless : String → Type 0
  IsSpaceless empty = Unit
  IsSpaceless (c ∷ₛ text) = (is_space c ≡ false) × IsSpaceless text

  abbrev pub IsWord : String → Type 0
  IsWord empty = ⊥
  IsWord (c ∷ₛ text) = (is_space c ≡ false) × IsSpaceless text

  -- the text `word` in front of another
  abbrev pub before : String → String → String
  before empty text = text
  before (c ∷ₛ word) text = c ∷ₛ before word text

  -- each word with the character `c` behind it
  abbrev pub lines : Char → List String → String
  lines c [] = ""
  lines c (word ∷ words) = before word (c ∷ₛ lines c words)

  first_field-before :
      (c : Char) (word text : String)
      → is_space c ≡ true
      → IsSpaceless word
      → first_field is_space (before word (c ∷ₛ text)) ≡ (word, fields_func is_space text)
  unfolding fields_func
  first_field-before c empty text s h = rw s refl
  first_field-before c (d ∷ₛ word) text s (h, hs) =
      rw h
        (ap (λ (p : String × List String). (d ∷ₛ p.0, p.1)) (first_field-before c word text s hs))

  add_field_lem :
      (word : String) (fields : List String) → IsWord word → add_field word fields ≡ word ∷ fields
  add_field_lem empty fields h = elim h [ ]
  add_field_lem (c ∷ₛ word) fields h = refl

  IsWord-IsSpaceless : (word : String) → IsWord word → IsSpaceless word
  IsWord-IsSpaceless empty h = elim h [ ]
  IsWord-IsSpaceless (c ∷ₛ word) h = h

  -- The servers that a file lists, words without a space, each with one space character behind
  -- it, are what readfile reads.
  pub fields_func-lines :
      (c : Char) (words : List String)
      → is_space c ≡ true
      → All IsWord words
      → fields_func is_space (lines c words) ≡ words
  unfolding fields_func
  fields_func-lines c [] s h = refl
  fields_func-lines c (word ∷ words) s (h, hs) =
      ap (λ (p : String × List String). add_field p.0 p.1)
        (first_field-before c word (lines c words) s (IsWord-IsSpaceless word h))
      ∙ add_field_lem word (fields_func is_space (lines c words)) h
      ∙ ap (λ ws. word ∷ ws) (fields_func-lines c words s hs)

-- `k` is the first position of a server whose name contains the address
abbrev pub IsFirst : String → ℕ → List String → Type 0
IsFirst ip k [] = ⊥
IsFirst ip zero (server ∷ servers) = contains_text server ip ≡ true
IsFirst ip (suc k) (server ∷ servers) = (contains_text server ip ≡ false) × IsFirst ip k servers

own_index-IsFirst :
    (ip : String) (b k : ℕ) (servers : List String)
    → IsFirst ip k servers
    → own_index ip b servers ≡ ok (b + k)
unfolding own_index
own_index-IsFirst ip b k [] h = elim h [ ]
own_index-IsFirst ip b zero (server ∷ servers) h = rw h (ap ok (omega arith))
own_index-IsFirst ip b (suc k) (server ∷ servers) (h, hs) =
    rw h (own_index-IsFirst ip (b + 1) k servers hs ∙ ap ok (omega arith))

own_index-none :
    (ip : String) (b : ℕ) (servers : List String)
    → All (λ server. contains_text server ip ≡ false) servers
    → own_index ip b servers ≡ panicked
unfolding own_index
own_index-none ip b [] h = refl
own_index-none ip b (server ∷ servers) (h, hs) = rw h (own_index-none ip (b + 1) servers hs)

-- On a file that lists words without a space, the program starts the server whose name is the
-- first to contain the machine's address, and panics if none does.
pub server_main-IsFirst :
    ⦃codec : Codec Op⦄ (is_space : Char → Bool) (c : Char) (servers : List String) (ip : String)
    (ps : Persister) (file : Option Bytes)
    → is_space c ≡ true
    → All (IsWord is_space) servers
    → ((k : ℕ)
        → IsFirst ip k servers
        → server_main is_space (lines is_space c servers) ip ps file
          ≡ ok (start_node_run servers k ps file minus_one))
      × (All (λ server. contains_text server ip ≡ false) servers
          → server_main is_space (lines is_space c servers) ip ps file ≡ panicked)
unfolding server_main read_file
server_main-IsFirst is_space c servers ip ps file s h =
    let read = fields_func-lines is_space c servers s h in
    (
      (λ k first.
          let same : 0 + k ≡ k = omega arith in
          rw (read, own_index-IsFirst ip 0 k servers first)
            (ap (λ i. ok (start_node_run servers i ps file minus_one)) same)),
      (λ missing. rw (read, own_index-none ip 0 servers missing) refl),
    )

-- ===== src/Runner.antt =====
-- The programs that start a server and a client: src/runner/srunner/main/sRun.go and
-- src/runner/crunner/main/cRun.go. `is_space` stands for `unicode.IsSpace`; the content of the file
-- and the machine's address are arguments.
pub mod Fields
pub mod Examples
use Prim.Native.Char.{Char}
use Prim.Native.String.{[] as empty, ◌∷◌ as ◌∷ₛ◌}
use text.Mathlib.Text.{starts_with}
use sharded_raft_key_value_s.Prelude.{
  ℕ, zero, suc, ◌+◌, Bool, true, false, ◌||◌, Option, List, [], ◌∷◌, String, Outcome, ok, panicked,
  ◌>>=◌, if◌then◌else◌,
}
use sharded_raft_key_value_s.Prelude.Int.{ℤ, minus_one}
use sharded_raft_key_value_s.Raft.Persister.{Bytes, Persister}
use sharded_raft_key_value_s.Raft.Codec.{Codec}
use sharded_raft_key_value_s.Kv.Types.{Op}
use sharded_raft_key_value_s.Kv.Clerk.{Clerk, make_clerk_run}
use sharded_raft_key_value_s.Kv.Node.{Node, start_node_run}

-- `strings.FieldsFunc` of the standard library: a field, unless it is empty
abbrev pub add_field : String → List String → List String
add_field empty fields = fields
add_field (c ∷ₛ word) fields = (c ∷ₛ word) ∷ fields

module _ (is_space : Char → Bool) where
  -- the word that the text begins with, and the fields behind it
  abbrev pub first_field : String → String × List String
  first_field empty = ("", [])
  first_field (c ∷ₛ text) =
      let (word, fields) = first_field text in
      if is_space c then ("", add_field word fields) else (c ∷ₛ word, fields)

  -- `strings.FieldsFunc`
  unfoldable pub fields_func : String → List String
  fields_func text = let (word, fields) = first_field text in add_field word fields

-- `strings.Contains` of the standard library
abbrev pub contains_text : String → String → Bool
contains_text empty part = starts_with "" part
contains_text (c ∷ₛ text) part = starts_with (c ∷ₛ text) part || contains_text text part

-- `readfile`, on the content of the file
unfoldable pub read_file : (Char → Bool) → String → List String
unfolding fields_func
read_file is_space content = fields_func is_space content

-- the loop that looks for `me`; the result of no server is a panic
unfoldable pub own_index : String → ℕ → List String → Outcome ℕ
own_index ip k [] = panicked
own_index ip k (server ∷ servers) =
    let rest = own_index ip (k + 1) servers in if contains_text server ip then ok k else rest

module _ (is_space : Char → Bool) where
  -- `main` of the server, on the content of servers.txt and on the disk
  unfoldable pub server_main :
      ⦃codec : Codec Op⦄ → String → String → Persister → Option Bytes → Outcome Node
  unfolding read_file own_index
  server_main content ip ps file = do
    let servers = read_file is_space content
    me ← own_index ip 0 servers
    ok (start_node_run servers me ps file minus_one)

  -- `main` of the client, at the time `now`
  unfoldable pub client_main : String → ℤ → Clerk
  unfolding read_file
  client_main content now = make_clerk_run (read_file is_space content) now

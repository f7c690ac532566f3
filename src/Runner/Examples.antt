-- ===== src/Runner/Examples.antt =====
-- A file of two servers, of which the second has the machine's address, and the first one that
-- begins with it.
use Prim.Native.Char.{Char, code}
use sharded_raft_key_value_s.Prelude.{
  ℕ, ◌≡◌, refl, Bool, true, false, ◌||◌, ◌==◌, none, List, [], ◌∷◌, String, ok, panicked, All,
}
use sharded_raft_key_value_s.Prelude.Int.{minus_one}
use sharded_raft_key_value_s.Raft.Persister.{make_persister}
use sharded_raft_key_value_s.Kv.Node.{start_node_run}
use sharded_raft_key_value_s.Runner.{contains_text, server_main}
use sharded_raft_key_value_s.Runner.Fields.{IsWord, IsFirst, server_main-IsFirst}
use sharded_raft_key_value_s.Kv.Examples.Disk.{op_codec}

abbrev is_blank : Char → Bool
is_blank c = code c == 32 || code c == 10

abbrev servers : List String
servers = "1.2:1" ∷ "1.3:1" ∷ []

servers-IsWord : All (IsWord is_blank) servers
servers-IsWord =
    ((refl, (refl, (refl, (refl, (refl, tt))))), ((refl, (refl, (refl, (refl, (refl, tt))))), tt))

server_main-IsFirst_example :
    ((k : ℕ)
      → IsFirst "1.3" k servers
      → server_main is_blank "1.2:1 1.3:1 " "1.3" make_persister none
        ≡ ok (start_node_run servers k make_persister none minus_one))
    × (All (λ server. contains_text server "1.3" ≡ false) servers
        → server_main is_blank "1.2:1 1.3:1 " "1.3" make_persister none ≡ panicked)
server_main-IsFirst_example =
    server_main-IsFirst is_blank " " servers "1.3" make_persister none refl servers-IsWord

-- the address of the second server stands in the name of the first
wrong_server : contains_text "10.0.0.12:80" "10.0.0.1" ≡ true
wrong_server = refl

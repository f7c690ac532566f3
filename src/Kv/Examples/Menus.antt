-- ===== src/Kv/Examples/Menus.antt =====
-- A user at each of the two menus.
use sharded_raft_key_value_s.Prelude.{◌≡◌, [], ◌∷◌, none}
use sharded_raft_key_value_s.Raft.Types.{disconnect}
use sharded_raft_key_value_s.Raft.Persister.{make_persister}
use sharded_raft_key_value_s.Raft.Node.{Raft, new_raft}
use sharded_raft_key_value_s.Kv.Types.{Op}
use sharded_raft_key_value_s.Kv.Menu.{put, append, get, read_requests, user_interface}
use sharded_raft_key_value_s.Kv.Menu.Words.{read_requests-all_words, user_interface-last_link}

read_requests-all_words_example :
    read_requests 3 ("3" ∷ "x" ∷ "a" ∷ "1" ∷ "x" ∷ "b" ∷ "2" ∷ "x" ∷ "c" ∷ [])
    ≡ (put "x" "a" ∷ append "x" "b" ∷ get "x" ∷ [], "c" ∷ [])
read_requests-all_words_example =
    read_requests-all_words (put "x" "a" ∷ append "x" "b" ∷ get "x" ∷ []) ("c" ∷ [])
      (tt, (tt, (tt, tt)))

abbrev idle : Raft Op
idle = new_raft make_persister none

user_interface-last_link_example :
    user_interface 4 ("b" ∷ "c" ∷ "a" ∷ "e" ∷ []) idle ≡ record idle { network = disconnect }
user_interface-last_link_example = user_interface-last_link ("b" ∷ "c" ∷ "a" ∷ "e" ∷ []) idle

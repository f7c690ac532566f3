-- ===== src/Network/Servers/Examples.antt =====
-- A call to a service `Counter` of one server, whose method `Add` gives the number before.
use sharded_raft_key_value_s.Prelude.{
  ℕ, ◌+◌, ◌≡◌, refl, true, false, some, none, [], ◌∷◌, ok, panicked, nat_eq, string_eq,
}
use sharded_raft_key_value_s.Prelude.Dict.{get_or, lookup, insert}
use sharded_raft_key_value_s.Network.Examples.{network, chances, network-Routed, network-alive}
use sharded_raft_key_value_s.Network.Servers.{
  Reflection, Method, add_service, Server, split_last, make_server, make_service, unsuitable,
  handlers, get_count, call,
}
use sharded_raft_key_value_s.Network.Servers.Calls.{serving, counted, call-handled}

-- numbers are the only values, and of one type
abbrev numbers : Reflection ℕ ℕ
numbers = record {
  type_of = λ v. 0;
  zero = λ t. 0;
  encode = λ v. v ∷ [];
  decode = λ bytes reply. elim bytes [ [] ↦ (reply, false) | v ∷ _ ↦ (v, true) ];
}

abbrev add : Method ℕ ℕ ℕ
add = record {
  name = "Add";
  pkg_path = "";
  num_in = 3;
  reply_is_ptr = true;
  num_out = 0;
  args_type = 0;
  reply_type = 0;
  run = λ args reply s. (s + args, s);
}

-- not a handler, since it has a result
abbrev read : Method ℕ ℕ ℕ
read = record add { name = "Read"; num_out = 1 }

abbrev counter : Server ℕ ℕ ℕ
counter = serving "Counter" (read ∷ add ∷ read ∷ []) make_server

last_dot : split_last "a.Counter.Add" ≡ some ("a.Counter", "Add")
unfolding split_last
last_dot = refl

no_dot : split_last "Add" ≡ none
unfolding split_last
no_dot = refl

listed_once : (make_service "Counter" (read ∷ add ∷ read ∷ [])).methods ≡ ("Add", add) ∷ []
unfolding make_service handlers unsuitable insert
listed_once = refl

counts :
    (get_count 8 network ((100, counter) ∷ []) ≡ ok 0)
    × (get_count 9 network ((100, counter) ∷ []) ≡ panicked)
unfolding get_count lookup get_or add_service make_server
counts = (refl, refl)

call-handled_example :
    call numbers chances false 5 "Counter.Add" 40 0 (λ t. network) ((100, counter) ∷ []) 2
    ≡ ok ((true, 2), insert 100 (counted counter) ((100, counter) ∷ []), 42)
unfolding lookup unsuitable
call-handled_example =
    call-handled numbers chances 5 "Counter" (read ∷ []) (read ∷ []) add 40 2 (λ t. network)
      ((100, counter) ∷ []) 8 100 make_server (refl, (refl, (refl, tt))) refl (refl, tt) refl refl
      refl refl network-Routed refl (λ u. network-alive)

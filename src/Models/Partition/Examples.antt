-- ===== src/Models/Partition/Examples.antt =====
-- A history of three operations on two keys.
use sharded_raft_key_value_s.Prelude.{ℕ, ◌≡◌, List, [], ◌∷◌, map, String}
use sharded_raft_key_value_s.Prelude.Int.{pos}
use sharded_raft_key_value_s.Models.Partition.{Operation, partition}
use sharded_raft_key_value_s.Models.Partition.Groups.{
  of_key, has_key, count, once, partition-of_key,
}

-- `put(k, v)` by client `c` at time `t`
abbrev put_at : ℕ → ℕ → String → String → Operation
put_at c t k v = record {
  client_id = pos c;
  input = record { op = 1; key = k; value = v };
  call = pos t;
  output = record { value = "" };
  return_time = pos t;
}

abbrev history : List Operation
history = put_at 0 1 "y" "a" ∷ put_at 1 2 "x" "b" ∷ put_at 0 3 "y" "c" ∷ []

partition-of_key_example :
    (ks : List String) × (partition history ≡ map (λ k. of_key k history) ks)
    × ((k : String) → count k ks ≡ once (has_key k history))
partition-of_key_example = partition-of_key history

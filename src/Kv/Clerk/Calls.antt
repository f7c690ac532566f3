-- ===== src/Kv/Clerk/Calls.antt =====
-- `Clerk.Get` and `Clerk.PutAppend` (src/kvraft/client.go).
use sharded_raft_key_value_s.Prelude.{String}
use sharded_raft_key_value_s.Kv.Types.{Err, GetReply, PutAppendReply}
use sharded_raft_key_value_s.Kv.Clerk.{Clerk}

abbrev the_reply : Err → String → GetReply
the_reply e x = record { err = e; value = x }

abbrev the_answer : Err → PutAppendReply
the_answer e = record { err = e }

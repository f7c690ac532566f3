-- ===== src/Kv/Clerk.antt =====
-- src/kvraft/client.go: a client asks one server after the other until one replies OK, with the same
-- id in every request. `call` stands for the RPC to server `i` and for all that happens until its
-- reply is here, in state `W`: no reply is `ok == false`.
pub mod Retries
pub mod Calls
use sharded_raft_key_value_s.Prelude.{
  ℕ, zero, suc, ◌+◌, Bool, true, false, Option, none, some, List, [], ◌∷◌, String, length,
}
use sharded_raft_key_value_s.Prelude.Int.{ℤ}
use sharded_raft_key_value_s.Kv.Types.{
  Err, unset, ok, err_no_key, err_wrong_leader, putt, appendd, PutAppendArgs, PutAppendReply,
  GetArgs, GetReply,
}

-- the servers are the positions below `server_number`
pub record Clerk : Type 0 where
  pub client_id : ℤ
  pub test : Bool
  pub server_number : ℕ

-- `MakeClerk` and `MakeClerkRun`, at the time `now`
unfoldable pub make_clerk : {E : Type 0} → List E → ℤ → Clerk
make_clerk servers now = record { client_id = now; test = true; server_number = length servers }

unfoldable pub make_clerk_run : List String → ℤ → Clerk
make_clerk_run servers now = record {
  client_id = now;
  test = false;
  server_number = length servers;
}

-- the arguments of a request made at the time `now`
unfoldable pub get_request : Clerk → String → ℤ → GetArgs
get_request ck key now = record { key = key; client = ck.client_id; id = now }

unfoldable pub put_append_request : Clerk → String → String → String → ℤ → PutAppendArgs
put_append_request ck key value op now = record {
  key = key;
  value = value;
  op = op;
  client = ck.client_id;
  id = now;
}

-- `if ok { if reply.Err == OK { ... } }`
unfoldable pub accept_get : Option GetReply → Option String
accept_get none = none
accept_get (some reply) = elim reply.err [
  | ok ↦ some reply.value
  | unset ↦ none
  | err_no_key ↦ none
  | err_wrong_leader ↦ none
]

unfoldable pub accept_put_append : Option PutAppendReply → Option (Unit {0})
accept_put_append none = none
accept_put_append (some reply) = elim reply.err [
  | ok ↦ some tt
  | unset ↦ none
  | err_no_key ↦ none
  | err_wrong_leader ↦ none
]

-- return what there is, or go on
abbrev pub first_of : {V W : Type 0} → Option V → W → Option V × W → Option V × W
first_of (some v) w rest = (some v, w)
first_of none w rest = rest

module _ {A R V W : Type 0} (call : ℕ → A → W → Option R × W) (accept : Option R → Option V) where
  -- one pass over `n` servers from `i` on; the first accepted reply ends it
  unfoldable pub pass : ℕ → ℕ → A → W → Option V × W
  pass zero i args w = (none, w)
  pass (suc n) i args w =
      let rest = pass n (i + 1) args (call i args w).1 in
      first_of (accept (call i args w).0) (call i args w).1 rest

  -- the endless loop, on fuel
  unfoldable pub retry : ℕ → ℕ → A → W → Option V × W
  unfolding pass
  retry zero servers args w = (none, w)
  retry (suc n) servers args w =
      let rest = retry n servers args (pass servers 0 args w).1 in
      first_of (pass servers 0 args w).0 (pass servers 0 args w).1 rest

module _ {W : Type 0} where
  -- `Clerk.Get`, on `rounds` passes
  unfoldable pub clerk_get :
      (ℕ → GetArgs → W → Option GetReply × W) → ℕ → Clerk → String → ℤ → W → Option String × W
  unfolding retry
  clerk_get call rounds ck key now w =
      retry call accept_get rounds ck.server_number (get_request ck key now) w

  -- `Clerk.PutAppend`, `Put`, `Append`
  unfoldable pub clerk_put_append :
      (ℕ → PutAppendArgs → W → Option PutAppendReply × W)
      → ℕ
      → Clerk
      → String
      → String
      → String
      → ℤ
      → W
      → Option (Unit {0}) × W
  unfolding retry
  clerk_put_append call rounds ck key value op now w =
      retry call accept_put_append rounds ck.server_number (put_append_request ck key value op now)
        w

  unfoldable pub clerk_put :
      (ℕ → PutAppendArgs → W → Option PutAppendReply × W)
      → ℕ
      → Clerk
      → String
      → String
      → ℤ
      → W
      → Option (Unit {0}) × W
  unfolding clerk_put_append
  clerk_put call rounds ck key value now w = clerk_put_append call rounds ck key value putt now w

  unfoldable pub clerk_append :
      (ℕ → PutAppendArgs → W → Option PutAppendReply × W)
      → ℕ
      → Clerk
      → String
      → String
      → ℤ
      → W
      → Option (Unit {0}) × W
  unfolding clerk_put_append
  clerk_append call rounds ck key value now w =
      clerk_put_append call rounds ck key value appendd now w

-- ===== src/Kv/Menu.antt =====
-- The menus of the two programs: `startUserInterface` of src/kvraft/clientRun.go and of
-- src/kvraft/serverRun.go. The input is the sequence of its words, which `fmt.Scan` reads in turn; at
-- its end `fmt.Scan` leaves the variable empty. What is printed is left out.
pub mod Words
use sharded_raft_key_value_s.Prelude.{
  ℕ, zero, suc, Bool, Option, none, some, List, [], ◌∷◌, String, string_eq, ◌=?◌, if◌then◌else◌,
}
use sharded_raft_key_value_s.Prelude.Int.{ℤ}
use sharded_raft_key_value_s.Raft.Types.{Link, connect, disconnect}
use sharded_raft_key_value_s.Raft.Node.{Raft}
use sharded_raft_key_value_s.Raft.Handler.{set_network}
use sharded_raft_key_value_s.Kv.Types.{PutAppendArgs, PutAppendReply, GetArgs, GetReply, Op}
use sharded_raft_key_value_s.Kv.Clerk.{Clerk, clerk_get, clerk_put, clerk_append}

-- `fmt.Scan(&s)` on a new variable
unfoldable pub scan : List String → String × List String
scan [] = ("", [])
scan (word ∷ words) = (word, words)

-- what a user asks for in one round of the client's menu
pub data Request : Type 0 where
  put append : String → String → Request
  get : String → Request
  incorrect : Request

-- one round
unfoldable pub read_request : List String → Request × List String
unfolding scan
read_request words =
    let (op, words) = scan words in
    let (key, after_key) = scan words in
    let (value, after_value) = scan after_key in
    if op =? "3"
    then (put key value, after_value)
    else if op =? "2"
    then (get key, after_key)
    else if op =? "1"
    then (append key value, after_value)
    else (incorrect, words)

-- the endless loop, on the rounds
unfoldable pub read_requests : ℕ → List String → List Request × List String
unfolding read_request
read_requests zero words = ([], words)
read_requests (suc n) words =
    let (request, words) = read_request words in
    let (requests, words) = read_requests n words in (request ∷ requests, words)

module _ {W : Type 0} (call_get : ℕ → GetArgs → W → Option GetReply × W)
    (call_put_append : ℕ → PutAppendArgs → W → Option PutAppendReply × W) where
  -- what the client does in that round, at the time `now` and with `rounds` passes at most; the
  -- result is the value that is shown
  unfoldable pub perform : ℕ → Clerk → ℤ → Request → W → Option String × W
  perform rounds ck now (put key value) w =
      (none, (clerk_put call_put_append rounds ck key value now w).1)
  perform rounds ck now (append key value) w =
      (none, (clerk_append call_put_append rounds ck key value now w).1)
  perform rounds ck now (get key) w = clerk_get call_get rounds ck key now w
  perform rounds ck now incorrect w = (none, w)

-- what a user asks for in one round of the server's menu
pub data Command : Type 0 where
  print_log link_up link_down print_state_machine reselect : Command

unfoldable pub command_of : String → Command
command_of op =
    if op =? "b"
    then link_up
    else if op =? "c"
    then link_down
    else if op =? "a"
    then print_log
    else if op =? "d"
    then print_state_machine
    else reselect

-- `kv.Rf.Connect()`, `kv.Rf.Disconnect()`; the other commands print
unfoldable pub obey : Command → Raft Op → Raft Op
obey link_up rf = set_network connect rf
obey link_down rf = set_network disconnect rf
obey print_log rf = rf
obey print_state_machine rf = rf
obey reselect rf = rf

-- the endless loop, on the rounds
unfoldable pub user_interface : ℕ → List String → Raft Op → Raft Op
unfolding scan command_of obey
user_interface zero words rf = rf
user_interface (suc n) words rf =
    let (op, words) = scan words in user_interface n words (obey (command_of op) rf)

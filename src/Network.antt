-- ===== src/Network.antt =====
-- src/labrpc/labrpc.go: the simulated network. Names of ends and servers are of types `N` and `M`
-- (`interface{}` in Go), a server is its address, and a nil name or server is `none`.
pub mod Requests
pub mod Servers
pub mod Examples
use sharded_raft_key_value_s.Prelude.{
  ℕ, zero, suc, ◌+◌, ◌%◌, Bool, true, false, not, ◌&&◌, ◌||◌, Option, none, some, List, [], Eq,
  ◌=?◌, nat_eq, ltb, length, if◌then◌else◌,
}
use sharded_raft_key_value_s.Prelude.Dict.{Dict, lookup, insert, contains, get_or, is_some}

-- a `*Server`
abbrev pub Address : Type 0
Address = ℕ

pub record ReplyMsg : Type 0 where
  pub ok : Bool
  pub reply : List ℕ

-- `replyMsg{false, nil}`
abbrev pub failure : ReplyMsg
failure = record { ok = false; reply = [] }

-- `ends` is the set of the names that exist; `count` and `bytes` are the statistics
pub record Network (N M : Type 0) : Type 0 where
  pub reliable : Bool
  pub long_delays : Bool
  pub long_reordering : Bool
  pub ends : Dict N N
  pub enabled : Dict N Bool
  pub servers : Dict M (Option Address)
  pub connections : Dict N (Option M)
  pub count : ℕ
  pub bytes : ℕ

pub record EndnameInfo (M : Type 0) : Type 0 where
  pub enabled : Bool
  pub servername : Option M
  pub server : Option Address
  pub reliable : Bool
  pub long_reordering : Bool

-- the random numbers that one request draws, and how often the timer of 100 milliseconds fires
-- before the handler returns
pub record Chances : Type 0 where
  pub drop_request : ℕ
  pub drop_reply : ℕ
  pub reorder : ℕ
  pub waits : ℕ

-- what becomes of a request: whether the handler was called, whether the reply is sent by
-- a timer, the reply, and the bytes counted
pub record Fate : Type 0 where
  pub called : Bool
  pub delayed : Bool
  pub message : ReplyMsg
  pub counted : ℕ

-- the handler was called, and its reply is dropped
abbrev pub unanswered : Fate
unanswered = record { called = true; delayed = false; message = failure; counted = 0 }

-- the handler was not called
abbrev pub timed_out : Fate
timed_out = record { called = false; delayed = true; message = failure; counted = 0 }

abbrev pub eq_option : {A : Type 0} ⦃e : Eq A⦄ → Option A → Option A → Bool
eq_option none none = true
eq_option (some a) (some b) = a =? b
eq_option none (some b) = false
eq_option (some a) none = false

module _ {N M : Type 0} where
  unfoldable pub make_network : Network N M
  make_network = record {
    reliable = true;
    long_delays = false;
    long_reordering = false;
    ends = [];
    enabled = [];
    servers = [];
    connections = [];
    count = 0;
    bytes = 0;
  }

  unfoldable pub set_reliable : Bool → Network N M → Network N M
  set_reliable value rn = record rn { reliable = value }

  unfoldable pub set_long_reordering : Bool → Network N M → Network N M
  set_long_reordering value rn = record rn { long_reordering = value }

  unfoldable pub set_long_delays : Bool → Network N M → Network N M
  set_long_delays value rn = record rn { long_delays = value }

  -- the goroutine of `MakeNetwork` counts each request that arrives
  unfoldable pub count_request : List ℕ → Network N M → Network N M
  count_request args rn = record rn { count = rn.count + 1; bytes = rn.bytes + length args }

-- the end of `processReq`, from the test after the loop on
unfoldable pub deliver_reply :
    {M : Type 0} → Chances → EndnameInfo M → Bool → Bool → ReplyMsg → Fate
deliver_reply c info reply_ok server_dead reply =
    if not reply_ok || server_dead
    then unanswered
    else if not info.reliable && ltb (c.drop_reply % 1000) 100
    then unanswered
    else if info.long_reordering && ltb (c.reorder % 900) 600
    then record { called = true; delayed = true; message = reply; counted = length reply.reply }
    else record { called = true; delayed = false; message = reply; counted = length reply.reply }

module _ {N M : Type 0} ⦃en : Eq N⦄ ⦃em : Eq M⦄ where
  -- `none` is the fatal error of a name that exists
  unfoldable pub make_end : N → Network N M → Option (Network N M)
  make_end endname rn =
      if contains endname rn.ends
      then none
      else some (record rn {
        ends = insert endname endname rn.ends;
        enabled = insert endname false rn.enabled;
        connections = insert endname none rn.connections;
      })

  unfoldable pub add_server : M → Address → Network N M → Network N M
  add_server servername rs rn = record rn { servers = insert servername (some rs) rn.servers }

  unfoldable pub delete_server : M → Network N M → Network N M
  delete_server servername rn = record rn { servers = insert servername none rn.servers }

  unfoldable pub connect_end : N → Option M → Network N M → Network N M
  connect_end endname servername rn = record rn {
    connections = insert endname servername rn.connections;
  }

  unfoldable pub enable : N → Bool → Network N M → Network N M
  enable endname enabled rn = record rn { enabled = insert endname enabled rn.enabled }

  abbrev pub server_of : Option M → Network N M → Option Address
  server_of none rn = none
  server_of (some servername) rn = get_or servername none rn.servers

  -- `readEndnameInfo`
  unfoldable pub read_endname_info : N → Network N M → EndnameInfo M
  read_endname_info endname rn = record {
    enabled = get_or endname false rn.enabled;
    servername = get_or endname none rn.connections;
    server = server_of (get_or endname none rn.connections) rn;
    reliable = rn.reliable;
    long_reordering = rn.long_reordering;
  }

  -- `isServerDead`
  unfoldable pub is_server_dead : N → Option M → Option Address → Network N M → Bool
  is_server_dead endname servername server rn =
      not (get_or endname false rn.enabled) || not (eq_option (server_of servername rn) server)

  -- the loop that waits for the handler: whether it returned in time. `obs t` is the network when
  -- its lock is taken for the t-th time; the result also counts the times.
  unfoldable pub await : ℕ → ℕ → N → Option M → Option Address → (ℕ → Network N M) → Bool × ℕ
  await zero t endname servername server obs = (true, t)
  await (suc n) t endname servername server obs =
      let rest = await n (t + 1) endname servername server obs in
      if is_server_dead endname servername server (obs t) then (false, t + 1) else rest

  -- the branch of an enabled end that is connected to a server
  unfoldable pub dispatch_req : Chances → N → EndnameInfo M → ReplyMsg → (ℕ → Network N M) → Fate
  unfolding await deliver_reply
  dispatch_req c endname info reply obs =
      if not info.reliable && ltb (c.drop_request % 1000) 100
      then record { called = false; delayed = false; message = failure; counted = 0 }
      else let (reply_ok, t) = await c.waits 1 endname info.servername info.server obs in
        deliver_reply c info reply_ok (is_server_dead endname info.servername info.server (obs t))
          reply

  -- `processReq`, for a handler that gives `reply`
  unfoldable pub process_req : Chances → N → ReplyMsg → (ℕ → Network N M) → Fate
  unfolding dispatch_req
  process_req c endname reply obs =
      let info = read_endname_info endname (obs 0) in
      if info.enabled && is_some info.servername && is_some info.server
      then dispatch_req c endname info reply obs
      else timed_out

-- ===== src/Network/Servers/Calls.antt =====
-- What a remote call does (`Call`, `dispatch` and `MakeService` of src/labrpc/labrpc.go).
use sharded_raft_key_value_s.Prelude.{
  ℕ, ◌+◌, ◌≡◌, refl, true, false, some, List, [], ◌∷◌, ◌++◌, String, ok, Eq, ◌=?◌, nat_eq,
  string_eq, All,
}
use sharded_raft_key_value_s.Prelude.Dict.{Dict, lookup, insert, lookup-insert, =?_refl}
use sharded_raft_key_value_s.Network.{
  Address, ReplyMsg, failure, Network, Chances, read_endname_info, is_server_dead,
}
use sharded_raft_key_value_s.Network.Requests.{Routed, process_req-alive}
use sharded_raft_key_value_s.Network.Servers.Names.{
  IsDotless, full_name, split_last-full_name, lookup-handlers,
}
use sharded_raft_key_value_s.Network.Servers.{
  Reflection, Method, Service, Server, ReqMsg, add_service, unsuitable, make_service, dispatch,
  dispatch_service, call_method, receive, serve, exchange, call,
}

-- what `gob` documents: a value that is sent arrives in a fresh variable of its type
abbrev pub RoundTrips : {V T : Type 0} → Reflection V T → V → Type 0
RoundTrips rt value = rt.decode (rt.encode value) (rt.zero (rt.type_of value)) ≡ (value, true)

receive-sent :
    {V T : Type 0} (rt : Reflection V T) (value reply : V)
    → rt.decode (rt.encode value) reply ≡ (value, true)
    → receive rt (record { ok = true; reply = rt.encode value }) reply ≡ ok (true, value)
unfolding receive
receive-sent rt value reply h = rw h refl

module _ {V T S : Type 0} where
  -- a server with the service of a receiver whose type has the methods `typ`
  abbrev pub serving : String → List (Method V T S) → Server V T S → Server V T S
  serving service_name typ rs = add_service (make_service service_name typ) rs

  abbrev pub counted : Server V T S → Server V T S
  counted rs = record rs { count = rs.count + 1 }

  -- the server knows the method under the name of a service
  pub record Publishes (service_name : String) (method : Method V T S) (rs : Server V T S)
      : Type 0 where
    pub service : Service V T S
    pub dotless : IsDotless method.name
    pub known : lookup service_name rs.services ≡ some service
    pub listed : lookup method.name service.methods ≡ some method

  serving-Publishes :
      (service_name : String) (earlier later : List (Method V T S)) (method : Method V T S)
      (rs : Server V T S)
      → IsDotless method.name
      → unsuitable method ≡ false
      → All (λ (m : Method V T S). (m.name =? method.name) ≡ false) later
      → Publishes service_name method (serving service_name (earlier ++ method ∷ later) rs)
  unfolding add_service make_service
  serving-Publishes service_name earlier later method rs d u last =
      let svc = make_service service_name (earlier ++ method ∷ later) in
      record {
        service = svc;
        dotless = d;
        known =
            rw (lookup-insert service_name service_name svc rs.services, =?_refl service_name) refl;
        listed = lookup-handlers earlier later method [] u last;
      }

  -- what a method leaves
  abbrev pub result : Reflection V T → Method V T S → V → S → S × V
  result rt method args s = method.run args (rt.zero method.reply_type) s

  module _ ⦃et : Eq T⦄ (rt : Reflection V T) (service_name : String) (method : Method V T S)
      (args : V) (s : S) where
    abbrev pub request : {N : Type 0} → N → ReqMsg N T
    request endname = record {
      endname = endname;
      svc_meth = full_name service_name method.name;
      args_type = rt.type_of args;
      args = rt.encode args;
    }

    module _ (t : method.args_type ≡ rt.type_of args) (sent : RoundTrips rt args) where
      call_method-result :
          {N : Type 0} (endname : N)
          → call_method rt method (request endname) s
            ≡ ok (
              record { ok = true; reply = rt.encode (result rt method args s).1 },
              (result rt method args s).0,
            )
      unfolding call_method
      call_method-result endname = rw (sent, t, =?_refl (rt.type_of args)) refl

      dispatch-result :
          {N : Type 0} (endname : N) (rs : Server V T S)
          → Publishes service_name method rs
          → dispatch rt rs (request endname) s
            ≡ ok (
              record { ok = true; reply = rt.encode (result rt method args s).1 },
              counted rs,
              (result rt method args s).0,
            )
      unfolding dispatch dispatch_service
      dispatch-result endname rs p =
          rw
            (
              dispatch,
              dispatch_service,
              split_last-full_name service_name method.name p.dotless,
              p.known,
              p.listed,
              call_method-result endname,
            )
            refl

  module _ ⦃et : Eq T⦄ (rt : Reflection V T) {N M : Type 0} ⦃en : Eq N⦄ ⦃em : Eq M⦄ where
    call-published :
        (c : Chances) (endname : N) (service_name : String) (method : Method V T S) (args : V)
        (s : S) (obs : ℕ → Network N M) (servers : Dict Address (Server V T S)) (servername : M)
        (server : Address) (rs : Server V T S)
        → Publishes service_name method rs
        → method.args_type ≡ rt.type_of args
        → RoundTrips rt args
        → rt.decode (rt.encode (result rt method args s).1) (rt.zero method.reply_type)
          ≡ ((result rt method args s).1, true)
        → lookup server servers ≡ some rs
        → Routed endname (obs 0) servername server
        → (obs 0).reliable ≡ true
        → ((u : ℕ) → is_server_dead endname (some servername) (some server) (obs u) ≡ false)
        → call rt c false endname
            (full_name service_name method.name)
            args
            (rt.zero method.reply_type)
            obs
            servers
            s
          ≡ ok (
            (true, (result rt method args s).1),
            insert server (counted rs) servers,
            (result rt method args s).0,
          )
    unfolding call exchange serve read_endname_info
    call-published c endname service_name method args s obs servers servername server rs p t sent
          back here route r alive =
        let (enabled, connected, at) = route in
        let (called, _) = process_req-alive c endname failure obs servername server route r alive in
        let rep : ReplyMsg = record { ok = true; reply = rt.encode (result rt method args s).1 } in
        let (_, message) = process_req-alive c endname rep obs servername server route r alive in
        rw
          (
            called,
            exchange,
            serve,
            connected,
            at,
            here,
            dispatch-result rt service_name method args s t sent endname rs p,
            message,
            receive-sent rt (result rt method args s).1 (rt.zero method.reply_type) back,
          )
          refl

    -- Call of a method on an end that is enabled and connected, on a reliable network and all the
    -- time, to the server that has the service is the method run where it is: it returns true,
    -- the reply is what the method leaves in a fresh one, the receivers are as it leaves them,
    -- and the server has counted one call. Conditions: the network is not destroyed, the method's
    -- name has no dot, the method is suitable and the last one of its name in the receiver's
    -- type, the arguments have the type that it takes, and the encoding gives back the arguments
    -- and the reply.
    pub call-handled :
        (c : Chances) (endname : N) (service_name : String) (earlier later : List (Method V T S))
        (method : Method V T S) (args : V) (s : S) (obs : ℕ → Network N M)
        (servers : Dict Address (Server V T S)) (servername : M) (server : Address)
        (rs : Server V T S)
        → IsDotless method.name
        → unsuitable method ≡ false
        → All (λ (m : Method V T S). (m.name =? method.name) ≡ false) later
        → method.args_type ≡ rt.type_of args
        → RoundTrips rt args
        → rt.decode (rt.encode (result rt method args s).1) (rt.zero method.reply_type)
          ≡ ((result rt method args s).1, true)
        → lookup server servers ≡ some (serving service_name (earlier ++ method ∷ later) rs)
        → Routed endname (obs 0) servername server
        → (obs 0).reliable ≡ true
        → ((u : ℕ) → is_server_dead endname (some servername) (some server) (obs u) ≡ false)
        → call rt c false endname
            (full_name service_name method.name)
            args
            (rt.zero method.reply_type)
            obs
            servers
            s
          ≡ ok (
            (true, (result rt method args s).1),
            insert server (counted (serving service_name (earlier ++ method ∷ later) rs)) servers,
            (result rt method args s).0,
          )
    call-handled c endname service_name earlier later method args s obs servers servername server rs
          d u last t sent back here route r alive =
        call-published c endname service_name method args s obs servers servername server _
          (serving-Publishes service_name earlier later method rs d u last) t sent back here route r
          alive

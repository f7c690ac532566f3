-- ===== src/Network/Servers.antt =====
-- src/labrpc/labrpc.go: Server, Service and ClientEnd.Call. A Go value of any type is a `V` and a
-- type a `T`, with what `reflect` and `encoding/gob` do with them; `S` is the state of all
-- receivers. `panicked` is also the fatal error of an unknown name.
pub mod Names
pub mod Calls
mod Examples
use Prim.Native.Char.{Char}
use Prim.Native.String.{[] as empty, ◌∷◌ as ◌∷ₛ◌}
use text.Mathlib.Text.{starts_with}
use sharded_raft_key_value_s.Prelude.{
  ℕ, ◌+◌, Bool, true, false, not, ◌||◌, Option, none, some, List, [], ◌∷◌, String, Outcome, ok,
  panicked, ◌>>=◌, Eq, ◌=?◌, nat_eq, string_eq, ◌==◌, if◌then◌else◌,
}
use sharded_raft_key_value_s.Prelude.Dict.{Dict, lookup, insert, get_or}
use sharded_raft_key_value_s.Network.{
  Address, ReplyMsg, failure, Network, Chances, Fate, read_endname_info, process_req,
}

-- `reflect.TypeOf`, `reflect.New`, and the encoder and the decoder of package labgob. `decode` is the
-- variable after the call, and whether there was no error.
pub record Reflection (V T : Type 0) : Type 0 where
  pub type_of : V → T
  pub zero : T → V
  pub encode : V → List ℕ
  pub decode : List ℕ → V → V × Bool

-- a `reflect.Method`; `run` calls it on the arguments and on what the reply points to
pub record Method (V T S : Type 0) : Type 0 where
  pub name : String
  pub pkg_path : String
  pub num_in : ℕ
  pub reply_is_ptr : Bool
  pub num_out : ℕ
  pub args_type : T
  pub reply_type : T
  pub run : V → V → S → S × V

pub record Service (V T S : Type 0) : Type 0 where
  pub name : String
  pub methods : Dict String (Method V T S)

pub record Server (V T S : Type 0) : Type 0 where
  pub services : Dict String (Service V T S)
  pub count : ℕ

pub record ReqMsg (N T : Type 0) : Type 0 where
  pub endname : N
  pub svc_meth : String
  pub args_type : T
  pub args : List ℕ

abbrev pub is_dot : Char → Bool
is_dot c = starts_with (c ∷ₛ empty) "."

-- the text before the last dot and the text behind it
unfoldable pub split_last : String → Option (String × String)
split_last empty = none
split_last (c ∷ₛ text) = elim (split_last text) [
  | some (service_name, method_name) ↦ some (c ∷ₛ service_name, method_name)
  | none ↦ if is_dot c then some ("", text) else none
]

module _ {V T S : Type 0} where
  unfoldable pub make_server : Server V T S
  make_server = record { services = []; count = 0 }

  unfoldable pub add_service : Service V T S → Server V T S → Server V T S
  add_service svc rs = record rs { services = insert svc.name svc rs.services }

  -- the method is not suitable for a handler
  unfoldable pub unsuitable : Method V T S → Bool
  unsuitable method =
      not (method.pkg_path =? "")
      || not (method.num_in == 3)
      || not method.reply_is_ptr
      || not (method.num_out == 0)

  -- the loop of `MakeService`
  unfoldable pub handlers :
      List (Method V T S) → Dict String (Method V T S) → Dict String (Method V T S)
  handlers [] methods = methods
  handlers (method ∷ typ) methods =
      handlers typ (if unsuitable method then methods else insert method.name method methods)

  -- `MakeService`, for a receiver whose type has this name and these methods
  unfoldable pub make_service : String → List (Method V T S) → Service V T S
  make_service name typ = record { name = name; methods = handlers typ [] }

  -- `Network.GetCount`; a server that is not there, or deleted, is a nil pointer
  unfoldable pub get_count :
      {N M : Type 0} ⦃en : Eq N⦄ ⦃em : Eq M⦄
      → M
      → Network N M
      → Dict Address (Server V T S)
      → Outcome ℕ
  get_count servername rn servers = elim (get_or servername none rn.servers) [
    | none ↦ panicked
    | some server ↦ elim (lookup server servers) [ some svr ↦ ok svr.count | none ↦ panicked ]
  ]

  module _ ⦃et : Eq T⦄ (rt : Reflection V T) {N : Type 0} where
    -- the branch of `Service.dispatch` for a method that it has
    unfoldable pub call_method : Method V T S → ReqMsg N T → S → Outcome (ReplyMsg × S)
    call_method method req s =
        let args = (rt.decode req.args (rt.zero req.args_type)).0 in
        let (s', reply) = method.run args (rt.zero method.reply_type) s in
        if method.args_type =? req.args_type
        then ok (record { ok = true; reply = rt.encode reply }, s')
        else panicked

    unfoldable pub dispatch_service :
        Service V T S → String → ReqMsg N T → S → Outcome (ReplyMsg × S)
    unfolding call_method
    dispatch_service svc methname req s = elim (lookup methname svc.methods) [
      | some method ↦ call_method method req s
      | none ↦ panicked
    ]

    -- `Server.dispatch`
    unfoldable pub dispatch : Server V T S → ReqMsg N T → S → Outcome (ReplyMsg × Server V T S × S)
    unfolding dispatch_service split_last
    dispatch rs req s = elim (split_last req.svc_meth) [
      | none ↦ panicked
      | some (service_name, method_name) ↦ elim (lookup service_name rs.services) [
        | none ↦ panicked
        | some svc ↦ do
          (reply, s') ← dispatch_service svc method_name req s
          ok (reply, record rs { count = rs.count + 1 }, s')
      ]
    ]

    -- the request as a server handles it, at the address that the network finds when it arrives
    unfoldable pub serve :
        Option Address
        → ReqMsg N T
        → Dict Address (Server V T S)
        → S
        → Outcome (ReplyMsg × Dict Address (Server V T S) × S)
    unfolding dispatch
    serve none req servers s = panicked
    serve (some server) req servers s = elim (lookup server servers) [
      | none ↦ panicked
      | some rs ↦ do (reply, rs', s') ← dispatch rs req s; ok (reply, insert server rs' servers, s')
    ]

-- the end of `Call`: the reply variable afterwards, and whether the call succeeded
unfoldable pub receive : {V T : Type 0} → Reflection V T → ReplyMsg → V → Outcome (Bool × V)
receive rt rep reply =
    let (value, decoded) = rt.decode rep.reply reply in
    if not rep.ok then ok (false, reply) else if decoded then ok (true, value) else panicked

module _ {V T S : Type 0} ⦃et : Eq T⦄ (rt : Reflection V T) {N M : Type 0} ⦃en : Eq N⦄
    ⦃em : Eq M⦄ where
  -- what `Call` gets for its request, by whether the network calls the handler
  unfoldable pub exchange :
      Bool
      → Chances
      → ReqMsg N T
      → V
      → (ℕ → Network N M)
      → Dict Address (Server V T S)
      → S
      → Outcome ((Bool × V) × Dict Address (Server V T S) × S)
  exchange true c req reply obs servers s = do
    (rep, servers', s') ← serve rt (read_endname_info req.endname (obs 0)).server req servers s
    answer ← receive rt (process_req c req.endname rep obs).message reply
    ok (answer, servers', s')
  exchange false c req reply obs servers s = do
    answer ← receive rt (process_req c req.endname failure obs).message reply
    ok (answer, servers, s)

  -- `Call`, of an end of the name `endname`; `destroyed` if it finds the network gone. Whether the
  -- handler is called does not depend on its reply.
  unfoldable pub call :
      Chances
      → Bool
      → N
      → String
      → V
      → V
      → (ℕ → Network N M)
      → Dict Address (Server V T S)
      → S
      → Outcome ((Bool × V) × Dict Address (Server V T S) × S)
  call c destroyed endname svc_meth args reply obs servers s =
      let req : ReqMsg N T = record {
        endname = endname;
        svc_meth = svc_meth;
        args_type = rt.type_of args;
        args = rt.encode args;
      } in
      let called = (process_req c endname failure obs).called in
      let answer = exchange called c req reply obs servers s in
      if destroyed then ok ((false, reply), servers, s) else answer

-- ===== src/Kv/Node/Replays.antt =====
-- What a server holds after any run of its node: the effect of the commands that it has taken.
use sharded_raft_key_value_s.Prelude.{
  ℕ, zero, suc, ◌+◌, ◌≤◌, ◌≡◌, refl, sym, ap, ap₂, ◌∙◌, inl, inr, false, Option, some, List, [],
  ◌∷◌, ◌++◌, map, String, Outcome, ok, ok-injective, arith, length, take, get_elem?, length-append,
  Option-cases, string_eq,
}
use sharded_raft_key_value_s.Prelude.Dict.{get_or}
use sharded_raft_key_value_s.Prelude.Int.{pos, int_eq}
use sharded_raft_key_value_s.Raft.Types.{ApplyMsg}
use sharded_raft_key_value_s.Raft.Codec.{Codec}
use sharded_raft_key_value_s.Raft.Node.{Raft}
use sharded_raft_key_value_s.Raft.Trace.{kill as kill_peer}
use sharded_raft_key_value_s.Raft.Trace.Messages.{Extends, Step-Extends}
use sharded_raft_key_value_s.Models.{init}
use sharded_raft_key_value_s.Kv.Types.{Op}
use sharded_raft_key_value_s.Kv.Server.{
  KvServer, start_kv_server, exist_id, exist_key, write_storage, record_id, apply_op,
  listen_apply_ch, kill,
}
use sharded_raft_key_value_s.Kv.Server.Table.{value}
use sharded_raft_key_value_s.Kv.Server.Refines.{
  model_run, distinct, listen_apply_ch-live, value-listen_apply_ch,
}
use sharded_raft_key_value_s.Kv.Node.{
  Node, start_node, start_node_run, Started, in_test, in_run, NodeRuns, start, step, command_of,
  listen_once, kill_node, restart_node, NodeStep, act, listen, stop, crash,
}

module _ {A : Type 0} where
  take-append : (n : ℕ) (xs ys : List A) → n ≤ length xs → take n (xs ++ ys) ≡ take n xs
  take-append zero xs ys h = refl
  take-append (suc n) [] ys h = absurd (omega arith)
  take-append (suc n) (x ∷ xs) ys h = ap (λ z. x ∷ z) (take-append n xs ys (omega arith))

  take-next :
      (n : ℕ) (xs : List A) (x : A)
      → get_elem? xs n ≡ some x
      → (take (n + 1) xs ≡ take n xs ++ x ∷ []) × (n + 1 ≤ length xs)
  take-next n [] x h = cc
  take-next zero (y ∷ xs) x h = ground arith
  take-next (suc n) (y ∷ xs) x h =
      let (e, l) = take-next n xs x h in
      let shift : suc n + 1 ≡ suc (n + 1) = omega arith in
      (ap (λ k. take k (y ∷ xs)) shift ∙ ap (λ z. y ∷ z) e, omega arith)

  map-some_injective : (xs ys : List A) → map some xs ≡ map some ys → xs ≡ ys
  map-some_injective [] [] h = refl
  map-some_injective [] (y ∷ ys) h = cc
  map-some_injective (x ∷ xs) [] h = cc
  map-some_injective (x ∷ xs) (y ∷ ys) h = ground (arith, map-some_injective xs ys)

map-append : {A B : Type 0} (f : A → B) (xs ys : List A) → map f (xs ++ ys) ≡ map f xs ++ map f ys
map-append f [] ys = refl
map-append f (x ∷ xs) ys = ap (λ z. f x ∷ z) (map-append f xs ys)

-- the server that has applied `ops`
abbrev pub replay : List Op → KvServer
replay ops = listen_apply_ch ops (start_kv_server 0 (pos 0))

listen_apply_ch-append :
    (ops : List Op) (op : Op) (kv : KvServer)
    → kv.dead ≡ false
    → listen_apply_ch (ops ++ op ∷ []) kv ≡ apply_op op (listen_apply_ch ops kv)
unfolding listen_apply_ch apply_op
listen_apply_ch-append [] op kv live = listen_apply_ch-live op [] kv live
listen_apply_ch-append (o ∷ ops) op kv live =
    listen_apply_ch-live o (ops ++ op ∷ []) kv live
    ∙ listen_apply_ch-append ops op (apply_op o kv) live
    ∙ ap (apply_op op) (sym (listen_apply_ch-live o ops kv live))

-- the storage and the id table are the same
abbrev SameTables : KvServer → KvServer → Type 0
SameTables kv kv' = (kv.storage ≡ kv'.storage) × (kv.id_table ≡ kv'.id_table)

apply_op-SameTables :
    (op : Op) (kv kv' : KvServer)
    → SameTables kv kv'
    → SameTables (apply_op op kv) (apply_op op kv')
unfolding apply_op exist_id write_storage exist_key record_id
apply_op-SameTables op kv kv' (s, t) = (rw (s, t) refl, rw t refl)

abbrev pub commands : List (ApplyMsg Op) → List (Option Op)
commands ms = map (λ (m : ApplyMsg Op). m.command) ms

-- the messages that the server has taken
abbrev pub taken_of : Node → List (ApplyMsg Op)
taken_of node = take node.taken node.peer.apply_chan

-- the server has the tables that its commands `ops` make
record Replays (node : Node) : Type 0 where
  ops : List Op
  commands_eq : commands (taken_of node) ≡ map some ops
  taken_le : node.taken ≤ length node.peer.apply_chan
  tables : SameTables node.server (replay ops)

listen_once-Replays :
    (node node' : Node) → listen_once node ≡ ok node' → Replays node → Replays node'
unfolding listen_once command_of start_kv_server
listen_once-Replays node node' h r =
    elim (Option-cases (get_elem? node.peer.apply_chan node.taken)) [
      | inl e ↦ let no : Outcome.blocked ≡ ok node' = rw (e, listen_once) at h in cc
      | inr (m, e) ↦ elim (Option-cases m.command) [
        | inl e' ↦
            let no : Outcome.panicked ≡ ok node' = rw (e, e', listen_once, command_of) at h in cc
        | inr (op, e') ↦
            let next : ok (record node { server = apply_op op node.server; taken = node.taken + 1 })
                ≡ ok node' =
              rw (e, e', listen_once, command_of) at h in
            let (grown, fits) = take-next node.taken node.peer.apply_chan m e in
            rw (← ok-injective next) (record {
              ops = r.ops ++ op ∷ [];
              commands_eq =
                  ap commands grown
                  ∙ map-append (λ (x : ApplyMsg Op). x.command) (taken_of node) (m ∷ [])
                  ∙ ap₂ (λ xs x. xs ++ x ∷ []) r.commands_eq e'
                  ∙ sym (map-append some r.ops (op ∷ []));
              taken_le = fits;
              tables =
                  rw (listen_apply_ch-append r.ops op (start_kv_server 0 (pos 0)) refl)
                    (apply_op-SameTables op node.server (replay r.ops) r.tables);
            })
      ]
    ]

module _ ⦃codec : Codec Op⦄ where
  act-Replays :
      (node : Node) (rf' : Raft Op)
      → Extends node.peer rf'
      → Replays node
      → Replays (record node { peer = rf' })
  act-Replays node rf' (more, e) r =
      let kept : take node.taken rf'.apply_chan ≡ taken_of node =
        ap (take node.taken) e ∙ take-append node.taken node.peer.apply_chan more r.taken_le in
      record {
        ops = r.ops;
        commands_eq = ap commands kept ∙ r.commands_eq;
        taken_le = rw e (omega (arith, r.taken_le, length-append node.peer.apply_chan more));
        tables = r.tables;
      }

  NodeStep-Replays : {node node' : Node} → NodeStep node node' → Replays node → Replays node'
  unfolding kill_node kill_peer kill restart_node start_kv_server listen_apply_ch
  NodeStep-Replays (act {node} rf' st n) r = act-Replays node rf' (Step-Extends st n) r
  NodeStep-Replays (listen {node} {node'} h) r = listen_once-Replays node node' h r
  NodeStep-Replays (stop node) r = record {
    ops = r.ops;
    commands_eq = r.commands_eq;
    taken_le = r.taken_le;
    tables = r.tables;
  }
  NodeStep-Replays (crash servers node) r = record {
    ops = [];
    commands_eq = refl;
    taken_le = omega arith;
    tables = (refl, refl);
  }

  Started-Replays : {node : Node} → Started node → Replays node
  unfolding start_node start_node_run start_kv_server listen_apply_ch
  Started-Replays (in_test servers me ps m) = record {
    ops = [];
    commands_eq = refl;
    taken_le = omega arith;
    tables = (refl, refl);
  }
  Started-Replays (in_run servers me ps file m) = record {
    ops = [];
    commands_eq = refl;
    taken_le = omega arith;
    tables = (refl, refl);
  }

  NodeRuns-Replays : {node node' : Node} → NodeRuns node node' → Replays node → Replays node'
  NodeRuns-Replays start r = r
  NodeRuns-Replays (step runs st) r = NodeStep-Replays st (NodeRuns-Replays runs r)

  value-replay :
      (k : String) (kv : KvServer) (ops : List Op)
      → SameTables kv (replay ops)
      → value k kv ≡ model_run k init (distinct [] ops)
  value-replay k kv ops (s, t) = ap (λ m. get_or k "" m) s ∙ value-listen_apply_ch k 0 (pos 0) ops

  -- However a node runs from its start, crashes with restarts included: the messages that its
  -- server has taken since the last start carry operations, and the value under each key is the
  -- one that the sequential model of that key reaches on the distinct ones.
  pub value-NodeRuns :
      {node node' : Node}
      → Started node
      → NodeRuns node node'
      → (ops : List Op) × (commands (taken_of node') ≡ map some ops)
        × ((k : String) → value k node'.server ≡ model_run k init (distinct [] ops))
  value-NodeRuns {node} {node'} s runs =
      let r = NodeRuns-Replays runs (Started-Replays s) in
      (r.ops, r.commands_eq, λ k. value-replay k node'.server r.ops r.tables)

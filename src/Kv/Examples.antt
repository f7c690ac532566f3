-- ===== src/Kv/Examples.antt =====
-- The theorems of the key-value service at concrete operations.
pub mod Disk
mod Nodes
mod Menus
use sharded_raft_key_value_s.Prelude.{ℕ, none, All, ◌≡◌, ◌⊎◌, refl, true, List, [], ◌∷◌, ◌<◌}
use sharded_raft_key_value_s.Prelude.Int.{pos}
use sharded_raft_key_value_s.Prelude.Dict.{lookup, insert, contains, get_or}
use sharded_raft_key_value_s.Raft.Types.{leader}
use sharded_raft_key_value_s.Raft.Node.{Raft, new_raft}
use sharded_raft_key_value_s.Raft.Persister.{make_persister}
use sharded_raft_key_value_s.Models.{step}
use sharded_raft_key_value_s.Kv.Types.{
  ok, err_wrong_leader, putt, appendd, gett, PutAppendArgs, PutAppendReply, GetArgs, GetReply, Op,
}
use sharded_raft_key_value_s.Prelude.{arith, zero, suc, Option, none, some}
use sharded_raft_key_value_s.Kv.Clerk.{Clerk, get_request, accept_get, pass, retry, clerk_get}
use sharded_raft_key_value_s.Kv.Server.{
  apply_op, record_id, KvServer, start_kv_server, exist_id, exist_key, listen_apply_ch, Seen,
  is_leader, start_success, poll_get, get, put_append,
}
use sharded_raft_key_value_s.Kv.Server.Table.{value}
use sharded_raft_key_value_s.Kv.Server.Refines.{model_run, distinct, value-listen_apply_ch}
use sharded_raft_key_value_s.Kv.Server.Replies.{get-model_run}
use sharded_raft_key_value_s.Kv.Server.Writes.{WritesAs, put_append-ok}

-- client 7 puts, and appends; the append is delivered twice
abbrev pub put_x : Op
put_x = record { op_task = putt; key = "x"; value = "a"; client = pos 7; id = pos 1 }

abbrev append_x : Op
append_x = record { op_task = appendd; key = "x"; value = "b"; client = pos 7; id = pos 2 }

abbrev get_x : Op
get_x = record { op_task = gett; key = "x"; value = ""; client = pos 7; id = pos 3 }

abbrev operations : List Op
operations = put_x ∷ append_x ∷ append_x ∷ get_x ∷ []

value-listen_apply_ch_example :
    value "x" (listen_apply_ch operations (start_kv_server 0 (pos 0))) ≡ "ab"
unfolding model_run distinct step
value-listen_apply_ch_example = value-listen_apply_ch "x" 0 (pos 0) operations

unfoldable boss : Raft Op
unfolding new_raft make_persister
boss = let rf = new_raft make_persister none in record rf { is_leader = true; state = leader }

abbrev seen : Seen
seen = record { checked = boss; entered = boss; ended = boss }

abbrev get_args : GetArgs
get_args = record { key = "x"; client = pos 7; id = pos 3 }

abbrev append_args : PutAppendArgs
append_args = record { key = "x"; value = "b"; op = appendd; client = pos 7; id = pos 2 }

-- every poll finds the four operations applied
abbrev observed : ℕ → KvServer
observed t = listen_apply_ch operations (start_kv_server 0 (pos 0))

get_x-ok : (get seen observed get_args).err ≡ ok
unfolding get boss is_leader start_success poll_get listen_apply_ch start_kv_server exist_id lookup
    apply_op record_id insert contains get_or
get_x-ok = refl

get-model_run_example :
    (u : ℕ) × (u < 10)
    × (exist_id (pos 3) (pos 7) (observed u) ≡ true)
    × (((get seen observed get_args).value ≡ "ab") ⊎ ((get seen observed get_args).value ≡ "ab"))
unfolding model_run distinct step
get-model_run_example = get-model_run 0 (pos 0) (λ _. operations) seen get_args get_x-ok

writes-x : All (WritesAs append_args) operations
writes-x = ((λ e. refl), ((λ e. refl), ((λ e. refl), ((λ e. cc), tt))))

put_append-ok_example :
    ((put_append seen observed append_args).err ≡ err_wrong_leader)
    ⊎ (((put_append seen observed append_args).err ≡ ok)
        × (u : ℕ) × (u < 10)
        × (exist_id (pos 2) (pos 7) (observed u) ≡ true)
        × (exist_key "x" (observed u) ≡ true))
unfolding listen_apply_ch
put_append-ok_example =
    put_append-ok 0 (pos 0) operations (λ _. []) observed seen append_args refl (λ t. refl) writes-x
      (λ t. tt)

abbrev clerk : Clerk
clerk = record { client_id = pos 7; test = true; server_number = 3 }

-- a world of calls that count down: server 1 answers once the count is 0
abbrev get_call : ℕ → GetArgs → ℕ → Option GetReply × ℕ
get_call i args (suc n) = (none, n)
get_call zero args zero = (some (record { err = err_wrong_leader; value = "" }), 0)
get_call (suc i) args zero = (some (record { err = ok; value = args.key }), 0)

abbrev put_call : ℕ → PutAppendArgs → ℕ → Option PutAppendReply × ℕ
put_call i args (suc n) = (none, n)
put_call zero args zero = (some (record { err = err_wrong_leader }), 0)
put_call (suc i) args zero = (some (record { err = ok }), 0)

clerk_get-found : (clerk_get get_call 3 clerk "x" (pos 9) 4).0 ≡ some "x"
unfolding clerk_get retry pass accept_get get_request
clerk_get-found = refl

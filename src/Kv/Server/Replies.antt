-- ===== src/Kv/Server/Replies.antt =====
-- What the replies of `Get` and `PutAppend` (src/kvraft/server.go) promise.
use sharded_raft_key_value_s.Prelude.{
  ℕ, zero, suc, ◌+◌, ◌≤◌, ◌<◌, ◌≡◌, ◌≢◌, refl, sym, ap, subst, ◌∙◌, ◌⊎◌, inl, inr, true, false,
  ◌&&◌, List, [], String, string_eq, arith, Bool-cases, if◌then◌else◌,
}
use sharded_raft_key_value_s.Prelude.Int.{ℤ, int_eq}
use sharded_raft_key_value_s.Prelude.Dict.{get_or, contains}
use sharded_raft_key_value_s.Kv.Types.{
  unset, ok, err_wrong_leader, PutAppendArgs, PutAppendReply, GetArgs, GetReply, Op,
}
use sharded_raft_key_value_s.Kv.Server.{
  KvServer, start_kv_server, exist_id, exist_key, listen_apply_ch, Seen, is_leader, start_success,
  poll_get, poll_put_append, get,
}
use sharded_raft_key_value_s.Models.{init}
use sharded_raft_key_value_s.Kv.Server.Refines.{distinct, model_run, value-listen_apply_ch}
use sharded_raft_key_value_s.Kv.Server.Table.{value}

module _ (obs : ℕ → KvServer) where
  poll_get-again :
      (n t : ℕ) (args : GetArgs)
      → exist_id args.id args.client (obs t) ≡ false
      → poll_get (suc n) t args obs ≡ poll_get n (t + 1) args obs
  unfolding poll_get
  poll_get-again n t args e = rw e refl

  poll_put_append-again :
      (n t : ℕ) (args : PutAppendArgs)
      → exist_id args.id args.client (obs t) ≡ false
      → poll_put_append (suc n) t args obs ≡ poll_put_append n (t + 1) args obs
  unfolding poll_put_append
  poll_put_append-again n t args e = rw e refl

  -- A reply to `Get` that is right for the states that some poll met.
  abbrev pub Answered : ℕ → ℕ → GetArgs → GetReply → Type 0
  Answered t end args reply =
      (u : ℕ) × (t ≤ u)
      × (u < end)
      × (exist_id args.id args.client (obs u) ≡ true)
      × ((reply.value ≡ value args.key (obs (u + 1)))
          ⊎ (reply.value ≡ value args.key (obs (u + 2))))

  poll_get-Answered :
      (n t : ℕ) (args : GetArgs)
      → (poll_get n t args obs).err ≡ ok
      → Answered t (t + n) args (poll_get n t args obs)
  unfolding poll_get exist_key contains get_or
  poll_get-Answered zero t args h = cc
  poll_get-Answered (suc n) t args h = elim (Bool-cases (exist_id args.id args.client (obs t))) [
    | inl e ↦ (t, omega arith, omega arith, e, ground arith)
    | inr e ↦
        let same = poll_get-again n t args e in
        let (u, low, high, known, shown) =
          poll_get-Answered n (t + 1) args (sym (ap (λ r. r.err) same) ∙ h) in
        subst (Answered t (t + suc n) args) (sym same) (u, omega arith, omega arith, known, shown)
  ]

  abbrev pub Found : ℕ → ℕ → PutAppendArgs → PutAppendReply → Type 0
  Found t end args reply =
      (u : ℕ) × (t ≤ u)
      × (u < end)
      × (exist_id args.id args.client (obs u) ≡ true)
      × (reply.err ≡ (if exist_key args.key (obs (u + 1)) then ok else unset))

  pub poll_put_append-Found :
      (n t : ℕ) (args : PutAppendArgs)
      → (poll_put_append n t args obs).err ≢ err_wrong_leader
      → Found t (t + n) args (poll_put_append n t args obs)
  unfolding poll_put_append
  poll_put_append-Found zero t args h = absurd (h refl)
  poll_put_append-Found (suc n) t args h =
      elim (Bool-cases (exist_id args.id args.client (obs t))) [
        | inl e ↦ (t, omega arith, omega arith, e, rw e refl)
        | inr e ↦
            let same = poll_put_append-again n t args e in
            let (u, low, high, known, shown) =
              poll_put_append-Found n (t + 1) args (λ p. h (ap (λ r. r.err) same ∙ p)) in
            subst (Found t (t + suc n) args) (sym same) (u, omega arith, omega arith, known, shown)
      ]

-- A `Get` that replies OK.
get-Answered :
    (seen : Seen) (obs : ℕ → KvServer) (args : GetArgs)
    → (get seen obs args).err ≡ ok
    → Answered obs 0 10 args (get seen obs args)
unfolding get
get-Answered seen obs args h = elim (Bool-cases (is_leader seen && start_success seen)) [
  | inl e ↦
      let same : get seen obs args ≡ poll_get 10 0 args obs = rw e refl in
      subst (Answered obs 0 10 args) (sym same)
        (poll_get-Answered obs 10 0 args (sym (ap (λ r. r.err) same) ∙ h))
  | inr e ↦
      let same : get seen obs args ≡ record { err = err_wrong_leader; value = "" } = rw e refl in
      cc (h, ap (λ r. r.err) same)
]

-- For every sequence of committed operations that the server has applied when its lock is taken
-- for the t-th time: a Get that replies OK found the request's id applied at one of its ten polls
-- u, and its value is the one that the sequential model of the key reaches on the distinct
-- operations applied at one of the two following times the lock is taken.
pub get-model_run :
    (me : ℕ) (m : ℤ) (ops : ℕ → List Op) (seen : Seen) (args : GetArgs)
    → let obs : ℕ → KvServer = λ t. listen_apply_ch (ops t) (start_kv_server me m) in
      let result : ℕ → String = λ t. model_run args.key init (distinct [] (ops t)) in
      (get seen obs args).err ≡ ok
      → (u : ℕ) × (u < 10)
        × (exist_id args.id args.client (obs u) ≡ true)
        × (((get seen obs args).value ≡ result (u + 1))
            ⊎ ((get seen obs args).value ≡ result (u + 2)))
get-model_run me m ops seen args h =
    let (u, low, high, known, shown) =
      get-Answered seen (λ t. listen_apply_ch (ops t) (start_kv_server me m)) args h in
    (
      u,
      high,
      known,
      elim shown [
        | inl p ↦ inl (p ∙ value-listen_apply_ch args.key me m (ops (u + 1)))
        | inr p ↦ inr (p ∙ value-listen_apply_ch args.key me m (ops (u + 2)))
      ],
    )

-- ===== src/Kv/Server/Writes.antt =====
-- What an OK of `PutAppend` (src/kvraft/server.go) promises.
use sharded_raft_key_value_s.Prelude.{
  ℕ, zero, suc, ◌+◌, ◌<◌, ◌≡◌, ◌≢◌, refl, sym, ap, ap₂, subst, ◌∙◌, ◌⊎◌, inl, inr, true, ◌&&◌, List,
  [], ◌∷◌, string_eq, ◌=?◌, arith, All, Bool-cases,
}
use sharded_raft_key_value_s.Prelude.Int.{eqb_ℤ_iff, ℤ, int_eq}
use sharded_raft_key_value_s.Prelude.Dict.{lookup}
use sharded_raft_key_value_s.Kv.Types.{
  Err, unset, ok, err_no_key, err_wrong_leader, PutAppendArgs, Op,
}
use sharded_raft_key_value_s.Kv.Server.{
  KvServer, start_kv_server, exist_id, exist_key, apply_op, listen_apply_ch, Seen, is_leader,
  start_success, poll_put_append, put_append,
}
use sharded_raft_key_value_s.Kv.Server.Refines.{listen_apply_ch-live}
use sharded_raft_key_value_s.Kv.Server.Table.{
  has_id, is_write, exist_id-apply_op, exist_key-apply_op,
}
use sharded_raft_key_value_s.Kv.Server.Replies.{poll_put_append-Found}

-- An operation with the request's id is a write of the request's key.
abbrev pub WritesAs : PutAppendArgs → Op → Type 0
WritesAs args op = has_id args.id args.client op ≡ true → (is_write op && op.key =? args.key) ≡ true

module _ (args : PutAppendArgs) where
  -- A recorded request left its key in the storage.
  abbrev Kept : KvServer → Type 0
  Kept kv = exist_id args.id args.client kv ≡ true → exist_key args.key kv ≡ true

  Kept-apply_op : (op : Op) (kv : KvServer) → WritesAs args op → Kept kv → Kept (apply_op op kv)
  Kept-apply_op op kv w h p = elim (Bool-cases (has_id args.id args.client op)) [
    | inl e ↦
        let same_client : op.client ≡ args.client =
          (eqb_ℤ_iff op.client args.client).0 (ground arith) in
        let same_id : op.id ≡ args.id = (eqb_ℤ_iff op.id args.id).0 (ground arith) in
        let known = ap₂ (λ i c. exist_id i c kv) same_id same_client in
        ground (arith, exist_key-apply_op args.key op kv, w e, h)
    | inr e ↦ ground (
      arith,
      exist_key-apply_op args.key op kv,
      h (ground (arith, exist_id-apply_op args.id args.client op kv)),
    )
  ]

  exist_key-listen :
      (ops : List Op) (kv : KvServer)
      → exist_key args.key kv ≡ true
      → exist_key args.key (listen_apply_ch ops kv) ≡ true
  unfolding listen_apply_ch
  exist_key-listen [] kv h = h
  exist_key-listen (op ∷ ops) kv h = ground (
    arith,
    exist_key-listen ops (apply_op op kv) (ground (arith, exist_key-apply_op args.key op kv)),
  )

  Kept-listen :
      (ops : List Op) (kv : KvServer)
      → All (WritesAs args) ops
      → Kept kv
      → Kept (listen_apply_ch ops kv)
  unfolding listen_apply_ch
  Kept-listen [] kv w h = h
  Kept-listen (op ∷ ops) kv w h = elim (Bool-cases kv.dead) [
    | inl e ↦ subst Kept (sym (rw e refl)) h
    | inr e ↦
        subst Kept (sym (listen_apply_ch-live op ops kv e))
          (Kept-listen ops (apply_op op kv) w.1 (Kept-apply_op op kv w.0 h))
  ]

  Kept-start : (me : ℕ) (m : ℤ) → Kept (start_kv_server me m)
  unfolding start_kv_server exist_id lookup
  Kept-start me m h = cc

  Kept-obs :
      (obs : ℕ → KvServer) (more : ℕ → List Op)
      → Kept (obs 0)
      → ((t : ℕ) → obs (t + 1) ≡ listen_apply_ch (more t) (obs t))
      → ((t : ℕ) → All (WritesAs args) (more t))
      → (t : ℕ) → Kept (obs t)
  Kept-obs obs more h next w zero = h
  Kept-obs obs more h next w (suc t) =
      subst (λ n. Kept (obs n)) (omega arith)
        (subst Kept (sym (next t))
          (Kept-listen (more t) (obs t) (w t) (Kept-obs obs more h next w t)))

wrong_leader-cases : (e : Err) → (e ≡ err_wrong_leader) ⊎ (e ≢ err_wrong_leader)
wrong_leader-cases unset = inr λ p. cc
wrong_leader-cases ok = inr λ p. cc
wrong_leader-cases err_no_key = inr λ p. cc
wrong_leader-cases err_wrong_leader = inl refl

-- For a server that has applied the operations before when a PutAppend takes its lock first, and
-- the operations more t between the t-th time and the next, among which those that carry the
-- request's client and id write the request's key: the reply is OK or ErrWrongLeader, never left
-- unset, and an OK means that at one of the ten polls the request's id is recorded, and the key
-- exists then.
pub put_append-ok :
    (me : ℕ) (m : ℤ) (before : List Op) (more : ℕ → List Op) (obs : ℕ → KvServer) (seen : Seen)
    (args : PutAppendArgs)
    → obs 0 ≡ listen_apply_ch before (start_kv_server me m)
    → ((t : ℕ) → obs (t + 1) ≡ listen_apply_ch (more t) (obs t))
    → All (WritesAs args) before
    → ((t : ℕ) → All (WritesAs args) (more t))
    → ((put_append seen obs args).err ≡ err_wrong_leader)
      ⊎ (((put_append seen obs args).err ≡ ok)
          × (u : ℕ) × (u < 10)
          × (exist_id args.id args.client (obs u) ≡ true)
          × (exist_key args.key (obs u) ≡ true))
unfolding put_append
put_append-ok me m before more obs seen args first next w w' =
    elim (Bool-cases (is_leader seen && start_success seen)) [
      | inr e ↦ inl (rw e refl)
      | inl e ↦
          let same : put_append seen obs args ≡ poll_put_append 10 0 args obs = rw e refl in
          let same_err = ap (λ r. r.err) same in
          elim (wrong_leader-cases (poll_put_append 10 0 args obs).err) [
            | inl p ↦ inl (same_err ∙ p)
            | inr p ↦
                let (u, low, high, known, shown) = poll_put_append-Found obs 10 0 args p in
                let kept =
                  Kept-obs args obs more
                    (subst (Kept args) (sym first)
                      (Kept-listen args before (start_kv_server me m) w (Kept-start args me m)))
                    next w' u known in
                let still : exist_key args.key (obs (u + 1)) ≡ true =
                  ap (exist_key args.key) (next u) ∙ exist_key-listen args (more u) (obs u) kept in
                inr (same_err ∙ shown ∙ rw still refl, u, high, known, kept)
          ]
    ]

-- ===== src/Network/Requests.antt =====
-- `processReq` (src/labrpc/labrpc.go): when a reply arrives, and when one must.
use sharded_raft_key_value_s.Prelude.{
  ℕ, zero, suc, ◌+◌, ◌%◌, ◌≤◌, ◌≡◌, refl, sym, ap, subst, ◌∙◌, ◌⊎◌, inl, inr, Bool, true, false,
  not, ◌&&◌, none, some, Eq, nat_eq, ltb, length, arith, Bool-cases, Option-cases,
}
use sharded_raft_key_value_s.Prelude.Dict.{insert, get_or, get_or-insert, =?_refl}
use sharded_raft_key_value_s.Network.{
  Address, ReplyMsg, failure, Network, EndnameInfo, Chances, Fate, add_server, delete_server,
  connect_end, enable, read_endname_info, is_server_dead, await, timed_out, deliver_reply,
  dispatch_req, process_req,
}

deliver_reply-ok :
    {M : Type 0} (c : Chances) (info : EndnameInfo M) (reply_ok server_dead : Bool)
    (reply : ReplyMsg)
    → (deliver_reply c info reply_ok server_dead reply).message.ok ≡ true
    → ((deliver_reply c info reply_ok server_dead reply).called ≡ true)
      × ((deliver_reply c info reply_ok server_dead reply).message ≡ reply)
      × ((deliver_reply c info reply_ok server_dead reply).counted ≡ length reply.reply)
      × (server_dead ≡ false)
unfolding deliver_reply
deliver_reply-ok c info reply_ok server_dead reply h = ground arith

module _ {N M : Type 0} ⦃en : Eq N⦄ ⦃em : Eq M⦄ where
  module _ (c : Chances) (endname : N) (info : EndnameInfo M) (reply : ReplyMsg)
      (obs : ℕ → Network N M) where
    await-alive :
        (n t : ℕ)
        → ((u : ℕ) → is_server_dead endname info.servername info.server (obs u) ≡ false)
        → await n t endname info.servername info.server obs ≡ (true, t + n)
    unfolding await
    await-alive zero t h = ap (λ x. (true, x)) (omega arith)
    await-alive (suc n) t h = rw (h t) (await-alive n (t + 1) h ∙ ap (λ x. (true, x)) (omega arith))

    -- the lock was taken at least once before the last test
    await_le : (n t : ℕ) → t ≤ (await n t endname info.servername info.server obs).1
    unfolding await
    await_le zero t = omega arith
    await_le (suc n) t = ground (
      arith,
      await_le n (t + 1),
      Bool-cases (is_server_dead endname info.servername info.server (obs t)),
    )

    abbrev Answered : Fate → Type 0
    Answered fate =
        (fate.called ≡ true)
        × (fate.message ≡ reply)
        × (fate.counted ≡ length reply.reply)
        × (u : ℕ) × (1 ≤ u)
        × (is_server_dead endname info.servername info.server (obs u) ≡ false)

    dispatch_req-Answered :
        (dispatch_req c endname info reply obs).message.ok ≡ true
        → Answered (dispatch_req c endname info reply obs)
    unfolding dispatch_req deliver_reply
    dispatch_req-Answered h =
        elim (Bool-cases (not info.reliable && ltb (c.drop_request % 1000) 100)) [
          | inl e ↦
              let dropped : dispatch_req c endname info reply obs
                  ≡ record { called = false; delayed = false; message = failure; counted = 0 } =
                rw e refl in
              cc (h, ap (λ f. f.message.ok) dropped)
          | inr e ↦
              let (reply_ok, t) = await c.waits 1 endname info.servername info.server obs in
              let last = is_server_dead endname info.servername info.server (obs t) in
              let same : dispatch_req c endname info reply obs
                  ≡ deliver_reply c info reply_ok last reply =
                rw e refl in
              let (called, message, counted, alive) =
                deliver_reply-ok c info reply_ok last reply
                  (sym (ap (λ f. f.message.ok) same) ∙ h) in
              subst Answered (sym same) (called, message, counted, t, await_le c.waits 1, alive)
        ]

    dispatch_req-alive :
        info.reliable ≡ true
        → ((u : ℕ) → is_server_dead endname info.servername info.server (obs u) ≡ false)
        → ((dispatch_req c endname info reply obs).called ≡ true)
          × ((dispatch_req c endname info reply obs).message ≡ reply)
    unfolding dispatch_req deliver_reply
    dispatch_req-alive r h = rw (r, await-alive c.waits 1 h, h (1 + c.waits)) (ground arith)

  -- the way of a request, as it was when the request arrived
  abbrev pub Routed : N → Network N M → M → Address → Type 0
  Routed endname rn servername server =
      (get_or endname false rn.enabled ≡ true)
      × (get_or endname none rn.connections ≡ some servername)
      × (get_or servername none rn.servers ≡ some server)

  abbrev info_at : Network N M → M → Address → EndnameInfo M
  info_at rn servername server = record {
    enabled = true;
    servername = some servername;
    server = some server;
    reliable = rn.reliable;
    long_reordering = rn.long_reordering;
  }

  module _ (c : Chances) (endname : N) (reply : ReplyMsg) (obs : ℕ → Network N M) where
    process_req-Routed :
        (servername : M) (server : Address)
        → Routed endname (obs 0) servername server
        → process_req c endname reply obs
          ≡ dispatch_req c endname (info_at (obs 0) servername server) reply obs
    unfolding process_req read_endname_info
    process_req-Routed servername server (e, n, s) = rw (e, n, s) refl

    -- every request is on its way to a server, or times out
    process_req-cases :
        ((servername : M) × (server : Address) × Routed endname (obs 0) servername server)
        ⊎ (process_req c endname reply obs ≡ timed_out)
    unfolding process_req read_endname_info
    process_req-cases = elim (Bool-cases (get_or endname false (obs 0).enabled)) [
      | inr e ↦ inr (rw e refl)
      | inl e ↦ elim (Option-cases (get_or endname none (obs 0).connections)) [
        | inl n ↦ inr (rw (e, n) refl)
        | inr (servername, n) ↦ elim (Option-cases (get_or servername none (obs 0).servers)) [
          | inl s ↦ inr (rw (e, n, s) refl)
          | inr (server, s) ↦ inl (servername, server, (e, n, s))
        ]
      ]
    ]

  -- A request that gets an answer of success was routed: its end was enabled and connected to a
  -- server when the request arrived, the handler was called, the answer is the handler's reply
  -- and its bytes are counted, and at a later time the end was enabled and that server was
  -- neither deleted nor replaced.
  pub process_req-ok :
      (c : Chances) (endname : N) (reply : ReplyMsg) (obs : ℕ → Network N M)
      → (process_req c endname reply obs).message.ok ≡ true
      → (servername : M) × (server : Address) × Routed endname (obs 0) servername server
        × ((process_req c endname reply obs).called ≡ true)
        × ((process_req c endname reply obs).message ≡ reply)
        × ((process_req c endname reply obs).counted ≡ length reply.reply)
        × (u : ℕ) × (1 ≤ u)
        × (is_server_dead endname (some servername) (some server) (obs u) ≡ false)
  process_req-ok c endname reply obs h = elim (process_req-cases c endname reply obs) [
    | inr out ↦ cc (h, ap (λ f. f.message.ok) out)
    | inl (servername, server, route) ↦
        let same = process_req-Routed c endname reply obs servername server route in
        let (called, message, counted, u, late, alive) =
          dispatch_req-Answered c endname (info_at (obs 0) servername server) reply obs
            (sym (ap (λ f. f.message.ok) same) ∙ h) in
        (
          servername,
          server,
          route,
          ap (λ f. f.called) same ∙ called,
          ap (λ f. f.message) same ∙ message,
          ap (λ f. f.counted) same ∙ counted,
          u,
          late,
          alive,
        )
  ]

  -- On a reliable network, a request of an enabled end that is connected to a server, and stays
  -- so, is handed to the handler and gets its reply, for every random draw and however long the
  -- handler takes.
  pub process_req-alive :
      (c : Chances) (endname : N) (reply : ReplyMsg) (obs : ℕ → Network N M) (servername : M)
      (server : Address)
      → Routed endname (obs 0) servername server
      → (obs 0).reliable ≡ true
      → ((u : ℕ) → is_server_dead endname (some servername) (some server) (obs u) ≡ false)
      → ((process_req c endname reply obs).called ≡ true)
        × ((process_req c endname reply obs).message ≡ reply)
  process_req-alive c endname reply obs servername server route r alive =
      let same = process_req-Routed c endname reply obs servername server route in
      let (called, message) =
        dispatch_req-alive c endname (info_at (obs 0) servername server) reply obs r alive in
      (ap (λ f. f.called) same ∙ called, ap (λ f. f.message) same ∙ message)

  -- After a server is added, an end connected to it and enabled, requests of the end are routed
  -- to the server, and it does not count as dead; it does as soon as the server is deleted or the
  -- end disabled.
  pub enable-Routed :
      (endname : N) (servername : M) (server : Address) (rn : Network N M)
      → let up =
          enable endname true
            (connect_end endname (some servername) (add_server servername server rn)) in
        Routed endname up servername server
        × (is_server_dead endname (some servername) (some server) up ≡ false)
        × (is_server_dead endname (some servername) (some server) (delete_server servername up)
            ≡ true)
        × (is_server_dead endname (some servername) (some server) (enable endname false up) ≡ true)
  unfolding enable connect_end add_server delete_server is_server_dead
  enable-Routed endname servername server rn =
      let same = =?_refl endname in
      let same' = =?_refl servername in
      let self = =?_refl server in
      rw
        (
          get_or-insert endname endname true false rn.enabled,
          get_or-insert endname endname (some servername) none rn.connections,
          get_or-insert servername servername (some server) none rn.servers,
          same,
          same',
        )
        (
          (refl, refl, refl),
          rw self refl,
          rw
              (
                get_or-insert servername servername none none
                    (insert servername (some server) rn.servers),
                same',
              )
              refl,
          rw (get_or-insert endname endname false false (insert endname true rn.enabled), same)
              refl,
        )

-- ===== src/Raft/Invariant/Leading.antt =====
-- What a leader does (src/raft/raft.go `startAsLeader`, `sendHeartBeat`, `Start`,
-- `StartOnePeerAppend`) keeps the invariant.
use sharded_raft_key_value_s.Prelude.{
  ℕ, zero, suc, ◌+◌, ◌≡◌, refl, ap, ◌⊎◌, inl, inr, Bool, true, false, not, ◌&&◌, Option, [], ◌∷◌,
  ok, arith, length, Bool-cases, nat_eq,
}
use sharded_raft_key_value_s.Prelude.Int.{ℤ, pos, ◌+ℤ◌, ◌<ℤ◌, ltb_ℤ, pos_part, neg_part}
use sharded_raft_key_value_s.Prelude.Dict.{Dict}
use sharded_raft_key_value_s.Raft.Types.{leader, follwer, Entry, AppendEntriesReply}
use sharded_raft_key_value_s.Raft.Codec.{Codec}
use sharded_raft_key_value_s.Raft.Node.{Raft, set_leader, set_follwer, persist}
use sharded_raft_key_value_s.Raft.Log.{get_last_log_entry}
use sharded_raft_key_value_s.Raft.Handler.{send_become_follwer}
use sharded_raft_key_value_s.Raft.Leader.{
  is_leader_state, init_peer, init_peers, start_as_leader, mark_dead, receive_heart_beat, start,
}
use sharded_raft_key_value_s.Raft.Indexed.{
  IsIndexed-append, IsIndexed-set_last_term, index-get_last_log_entry,
}
use sharded_raft_key_value_s.Raft.Invariant.{
  IsBounded-append, IsBounded-mono, IsBounded-set_last_term, IsValid, Advances, SameDisk,
  persist-IsValid,
}

module _ {C : Type 0} where
  pub Advances-same :
      {rf rf' : Raft C}
      → rf'.term ≡ rf.term
      → rf'.voted_for ≡ rf.voted_for
      → rf'.me ≡ rf.me
      → Advances rf rf'
  Advances-same t v m = record { term_le = rw t (omega arith); vote = λ _ _. v; me_eq = m }

  init_peer-IsValid : (server : ℕ) (rf : Raft C) → IsValid rf → IsValid (init_peer server rf)
  unfolding init_peer
  init_peer-IsValid server rf v = record {
    indexed = IsIndexed-set_last_term 0 rf.term rf.log v.indexed;
    bounded = IsBounded-set_last_term rf.term rf.term rf.log (omega arith) v.bounded;
    numbered = v.numbered;
    committed = v.committed;
    applied = v.applied;
    leads = v.leads;
  }

  init_peers-IsValid :
      (n server : ℕ) (rf : Raft C)
      → IsValid rf
      → IsValid (init_peers n server rf)
        × Advances rf (init_peers n server rf)
        × SameDisk rf (init_peers n server rf)
  unfolding init_peers init_peer
  init_peers-IsValid zero server rf v = (v, Advances-same refl refl refl, ground arith)
  init_peers-IsValid (suc n) server rf v =
      let (valid, adv, disk) =
        init_peers-IsValid n (server + 1) (init_peer server rf) (init_peer-IsValid server rf v) in
      (valid, record { term_le = adv.term_le; vote = adv.vote; me_eq = adv.me_eq }, ground arith)

  pub start_as_leader-IsValid :
      (rf : Raft C)
      → IsValid rf
      → IsValid (start_as_leader rf)
        × Advances rf (start_as_leader rf)
        × SameDisk rf (start_as_leader rf)
  unfolding start_as_leader set_leader
  start_as_leader-IsValid rf v =
      let (valid, adv, disk) = init_peers-IsValid rf.peer_number 0 rf v in
      (
        record {
          indexed = valid.indexed;
          bounded = valid.bounded;
          numbered = valid.numbered;
          committed = valid.committed;
          applied = valid.applied;
          leads = λ _. refl;
        },
        record { term_le = adv.term_le; vote = adv.vote; me_eq = adv.me_eq },
        ground arith,
      )

  -- `HandleAppendEntries` never reads what only the maps of a leader say
  pub with_maps :
      (rf rf' : Raft C)
      → rf'.log ≡ rf.log
      → rf'.term ≡ rf.term
      → rf'.voted_for ≡ rf.voted_for
      → rf'.me ≡ rf.me
      → rf'.apply_chan ≡ rf.apply_chan
      → rf'.commit_index ≡ rf.commit_index
      → rf'.last_apply ≡ rf.last_apply
      → (rf'.state ≡ leader → rf'.is_leader ≡ true)
      → IsValid rf
      → IsValid rf' × Advances rf rf'
  with_maps rf rf' log term vote same chan commit last leads v = (
    record {
      indexed = rw log v.indexed;
      bounded = rw (log, term) v.bounded;
      numbered = rw chan v.numbered;
      committed = rw commit v.committed;
      applied = rw (chan, last) v.applied;
      leads = leads;
    },
    Advances-same term vote same,
  )

  -- a leader that hears of a later term
  abbrev pub deposed : ℤ → Raft C → Raft C
  deposed term rf = record rf {
    term = term;
    become_follwer_from_leader = true;
    state = follwer;
    is_leader = false;
  }

  deposed-IsValid :
      (rf : Raft C) (term : ℤ)
      → rf.term <ℤ term
      → IsValid rf
      → IsValid (deposed term rf) × Advances rf (deposed term rf)
  deposed-IsValid rf term h v = (
    record {
      indexed = v.indexed;
      bounded = IsBounded-mono rf.term term rf.log (omega arith) v.bounded;
      numbered = v.numbered;
      committed = v.committed;
      applied = v.applied;
      leads = λ e. cc;
    },
    record {
      term_le = omega arith;
      vote = λ same _. absurd (omega (arith, ap pos_part same, ap neg_part same));
      me_eq = refl;
    },
  )

module _ {C : Type 0} ⦃codec : Codec C⦄ where
  saved :
      {rf rf' : Raft C}
      → IsValid rf' × Advances rf rf'
      → IsValid (persist rf') × Advances rf (persist rf')
  unfolding persist
  saved (v, a) =
      (persist-IsValid _ v, record { term_le = a.term_le; vote = a.vote; me_eq = a.me_eq })

  pub receive_heart_beat-step :
      (server : ℕ) (arrived : Bool) (reply : AppendEntriesReply) (rf : Raft C) {starts : Bool}
      {rf' : Raft C}
      → receive_heart_beat server arrived reply rf ≡ ok (starts, rf')
      → ((rf' ≡ persist (deposed reply.term rf)) × (rf.term <ℤ reply.term))
        ⊎ ((p : Dict ℕ Bool) × (o : Dict ℕ Bool) × (rf'
              ≡ record rf { peer_alive = p; open_commit = o }))
  unfolding receive_heart_beat mark_dead send_become_follwer set_follwer
  receive_heart_beat-step server arrived reply rf {rf'} h = elim (Bool-cases (not arrived)) [
    | inl a ↦ inr (rf'.peer_alive, rf'.open_commit, ground arith)
    | inr a ↦ elim (Bool-cases (ltb_ℤ rf.term reply.term && is_leader_state rf.state)) [
      | inl t ↦ inl (ground arith)
      | inr t ↦ inr (rf'.peer_alive, rf'.open_commit, ground arith)
    ]
  ]

  pub receive_heart_beat-IsValid :
      (server : ℕ) (arrived : Bool) (reply : AppendEntriesReply) (rf : Raft C) {starts : Bool}
      {rf' : Raft C}
      → receive_heart_beat server arrived reply rf ≡ ok (starts, rf')
      → IsValid rf
      → IsValid rf' × Advances rf rf'
  receive_heart_beat-IsValid server arrived reply rf h v =
      elim (receive_heart_beat-step server arrived reply rf h) [
        | inl (e, later) ↦ rw e (saved (deposed-IsValid rf reply.term later v))
        | inr (p, o, e) ↦ rw e (with_maps rf _ refl refl refl refl refl refl refl v.leads v)
      ]

  -- the entry that `Start` appends
  abbrev pub proposed : Option C → Raft C → Entry C
  proposed command rf = record {
    index = (get_last_log_entry rf).index +ℤ pos 1;
    command = command;
    term = rf.term;
    id = pos 0;
  }

  pub start-IsValid :
      (command : Option C) (rf : Raft C)
      → IsValid rf
      → IsValid (start command rf).2 × Advances rf (start command rf).2
  unfolding start
  start-IsValid command rf v =
      let last = index-get_last_log_entry rf v.indexed in
      let next : (get_last_log_entry rf).index +ℤ pos 1 ≡ pos (suc (0 + length rf.log)) =
        ground arith in
      saved {rf = rf} (
        record {
          indexed = IsIndexed-append 0 rf.log (proposed command rf ∷ []) v.indexed (next, tt);
          bounded =
              IsBounded-append rf.term rf.log (proposed command rf ∷ []) v.bounded
                (omega arith, tt);
          numbered = v.numbered;
          committed = v.committed;
          applied = v.applied;
          leads = v.leads;
        },
        Advances-same refl refl refl,
      )

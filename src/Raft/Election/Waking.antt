-- ===== src/Raft/Election/Waking.antt =====
-- The wake-up channels (src/raft/raft.go `startElection`, src/raft/handler.go): a goroutine that is
-- where the role of its peer wants it takes from them, and one that is not leaves the peer stuck.
use sharded_raft_key_value_s.Prelude.{
  ℕ, ◌≡◌, ◌≢◌, refl, sym, ap, subst, ◌∙◌, ◌⊎◌, inl, inr, true, false, ok, ok_unique, blocked, arith,
  Bool-cases,
}
use sharded_raft_key_value_s.Prelude.Int.{◌<ℤ◌}
use sharded_raft_key_value_s.Raft.Types.{leader, follwer, RequestVoteReply}
use sharded_raft_key_value_s.Raft.Codec.{Codec}
use sharded_raft_key_value_s.Raft.Node.{Raft, persist}
use sharded_raft_key_value_s.Raft.Handler.{room, send_receive_hb}
use sharded_raft_key_value_s.Raft.Candidate.{Ballot, receive_vote}
use sharded_raft_key_value_s.Raft.Invariant.Standing.{beaten, receive_vote-beaten}
use sharded_raft_key_value_s.Raft.Trace.{take_receive_hb, take_become_follwer}
use sharded_raft_key_value_s.Raft.Election.{
  choosing, awaiting, Elector, on_receive_hb, on_become_follwer, begin_round, Turn, tick, hear,
  report, learn, give_up, return,
}

pub data Turns {C : Type 0} (s : Elector × Raft C) : Elector × Raft C → Type 0 where
  idle : Turns s s
  and_then : {a b : Elector × Raft C} (now time : ℕ) → Turns s a → Turn now time a b → Turns s b

module _ {C : Type 0} where
  -- in the loop and not a leader; or waiting, and either a leader or no longer one and told so
  abbrev pub Fits : Elector → Raft C → Type 0
  Fits e rf =
      ((e.stage ≡ choosing) × (rf.is_leader ≡ false))
      ⊎ ((e.stage ≡ awaiting)
          × (((rf.is_leader ≡ true) × (rf.become_follwer_from_leader ≡ false))
              ⊎ ((rf.is_leader ≡ false) × (rf.become_follwer_from_leader ≡ true))))

  -- `s` goes on by turns to a state in which the peer's wake-up channel has room
  abbrev pub Wakes : Elector × Raft C → Type 0
  Wakes s = (e' : Elector) × (rf' : Raft C) × Turns s (e', rf') × (room rf' ≡ true)

  -- in the loop
  choosing-Wakes :
      (s : Elector × Raft C) (e : Elector) (rf : Raft C)
      → Turns s (e, rf)
      → e.stage ≡ choosing
      → rf.is_leader ≡ false
      → Wakes s
  unfolding take_receive_hb
  choosing-Wakes s e rf r c l = elim (Bool-cases rf.receive_hb) [
    | inr empty ↦ (e, rf, r, ground arith)
    | inl full ↦
        (on_receive_hb 0 0 e, take_receive_hb rf, and_then 0 0 r (hear e rf c full), ground arith)
  ]

  -- A live peer whose goroutine fits its role comes, by turns of this goroutine alone, to a state
  -- in which the handlers' wake-up channel has room.
  pub Fits-Wakes : (e : Elector) (rf : Raft C) → rf.dead ≡ false → Fits e rf → Wakes (e, rf)
  unfolding on_become_follwer begin_round take_become_follwer
  Fits-Wakes e rf alive (inl (c, l)) = choosing-Wakes (e, rf) e rf idle c l
  Fits-Wakes e rf alive (inr (w, inl (l, empty))) = (e, rf, idle, ground arith)
  Fits-Wakes e rf alive (inr (w, inr (l, full))) =
      let told : Turn 0 0 (e, rf) (begin_round 0 0, take_become_follwer rf) =
        subst (λ d. Turn 0 0 (e, rf) (on_become_follwer 0 0 d e, take_become_follwer rf)) alive
          (return e rf w full) in
      choosing-Wakes (e, rf) (begin_round 0 0) (take_become_follwer rf) (and_then 0 0 idle told)
        refl l

  -- a goroutine that waits for a channel that is empty
  record Waits (s : Elector × Raft C) : Type 0 where
    stage_eq : s.0.stage ≡ awaiting
    untold : s.1.become_follwer_from_leader ≡ false

  Turn-Waits :
      {now time : ℕ} {s t : Elector × Raft C} → Turn now time s t → Waits s → Waits t × (t.1 ≡ s.1)
  Turn-Waits (tick e rf delay c h) w = let clash = sym c ∙ w.stage_eq in cc
  Turn-Waits (hear e rf c h) w = let clash = sym c ∙ w.stage_eq in cc
  Turn-Waits (report e rf a h) w = (record { stage_eq = w.stage_eq; untold = w.untold }, refl)
  Turn-Waits (learn e rf a c h) w = let clash = sym c ∙ w.stage_eq in cc
  Turn-Waits (give_up e rf c h) w = let clash = sym c ∙ w.stage_eq in cc
  Turn-Waits (return e rf c h) w = let clash = sym h ∙ w.untold in cc

  Turns-Waits : {s t : Elector × Raft C} → Turns s t → Waits s → Waits t × (t.1 ≡ s.1)
  Turns-Waits idle w = (w, refl)
  Turns-Waits (and_then now time r t) w =
      let (w', e) = Turns-Waits r w in let (w'', e') = Turn-Waits t w' in (w'', e' ∙ e)

module _ {C : Type 0} ⦃codec : Codec C⦄ where
  receive_vote-full :
      (reply : RequestVoteReply) (b : Ballot) (rf : Raft C)
      → b.need_return ≡ false
      → rf.term <ℤ reply.term
      → rf.state ≡ leader
      → rf.receive_hb ≡ true
      → receive_vote true reply b rf ≡ blocked
  unfolding receive_vote send_receive_hb
  receive_vote-full reply b rf live later l full = ground arith

  -- the candidacy is over: with the channel full the call would not have returned
  leader-beaten :
      (b b' : Ballot) (reply : RequestVoteReply) (rf rf' : Raft C)
      → rf.state ≡ leader
      → b.need_return ≡ false
      → rf.term <ℤ reply.term
      → receive_vote true reply b rf ≡ ok (b', rf')
      → rf' ≡ persist (beaten reply.term rf)
  leader-beaten b b' reply rf rf' l live later h =
      let other : rf.state ≢ follwer = λ z. let clash = sym l ∙ z in cc in
      elim (Bool-cases rf.receive_hb) [
        | inl full ↦ cc (receive_vote-full reply b rf live later l full, h)
        | inr empty ↦
            ap (λ (p : Ballot × Raft C). p.1)
              (ok_unique h (receive_vote-beaten reply b rf live later other empty))
      ]

  -- A leader whose goroutine waits to be told that it is none, and that hears within the interval
  -- of its election of a vote reply of a later term: it becomes a follower of that term without
  -- telling the goroutine, and its wake-up channel is full and stays so whatever turns follow.
  pub receive_vote-stuck :
      (e e' : Elector) (b b' : Ballot) (reply : RequestVoteReply) (rf rf' rf'' : Raft C)
      → e.stage ≡ awaiting
      → rf.state ≡ leader
      → rf.become_follwer_from_leader ≡ false
      → b.need_return ≡ false
      → rf.term <ℤ reply.term
      → receive_vote true reply b rf ≡ ok (b', rf')
      → Turns (e, rf') (e', rf'')
      → (rf''.term ≡ reply.term)
        × (rf''.is_leader ≡ false)
        × (e'.stage ≡ awaiting)
        × (room rf'' ≡ false)
  unfolding persist
  receive_vote-stuck e e' b b' reply rf rf' rf'' s l untold live later h r =
      let beat = leader-beaten b b' reply rf rf' l live later h in
      let silent : rf'.become_follwer_from_leader ≡ false = rw beat untold in
      let (w, same) = Turns-Waits r (record { stage_eq = s; untold = silent }) in
      let now : rf'' ≡ persist (beaten reply.term rf) = same ∙ beat in
      (
        ap (λ (x : Raft C). x.term) now,
        ap (λ (x : Raft C). x.is_leader) now,
        w.stage_eq,
        ap (λ (x : Raft C). room x) now,
      )

-- ===== src/Raft/Election/Timing.antt =====
-- The timer of `startElection` (src/raft/raft.go): what the random intervals make sure of.
use sharded_raft_key_value_s.Prelude.{
  ℕ, ◌+◌, ◌≤◌, ◌<◌, ◌≡◌, false, List, [], ◌∷◌, arith, inl, inr, All, Bool-cases,
}
use sharded_raft_key_value_s.Raft.Types.{did_not_win, win}
use sharded_raft_key_value_s.Raft.Node.{Raft}
use sharded_raft_key_value_s.Raft.Election.{
  Elector, time_range, generate_time, begin_round, on_tick, on_result, on_killed, on_become_follwer,
  Turn, tick, hear, report, learn, give_up, return,
}

-- a call of `startAsCand` that the turn starts is at most `late` milliseconds late
abbrev pub IsPrompt :
    {C : Type 0} {now time : ℕ} {a b : Elector × Raft C} → ℕ → Turn now time a b → Type 0
IsPrompt late (tick e rf delay s h) = delay ≤ late
IsPrompt late (hear e rf s h) = Unit
IsPrompt late (report e rf a h) = Unit
IsPrompt late (learn e rf a s h) = Unit
IsPrompt late (give_up e rf s h) = Unit
IsPrompt late (return e rf s h) = Unit

-- Turns of the goroutine at peers whose channel `ReceiveHB` is empty, whatever else the peers do
-- in between. `intn` is what `rand.Intn` answers to each number.
pub data Quiet (C : Type 0) (late : ℕ) (e : Elector) : Elector → Type 0 where
  still : Quiet C late e e
  turn :
      {a b : Elector} (now : ℕ) (intn : ℕ → ℕ) (rf rf' : Raft C)
      → Quiet C late e a
      → intn time_range < time_range
      → rf.receive_hb ≡ false
      → (t : Turn now (generate_time intn) (a, rf) (b, rf')) → IsPrompt late t
      → Quiet C late e b

-- every call of `startAsCand` gives up 20 milliseconds before the time `t`, or up to `late` later
abbrev pub GivenUp : ℕ → ℕ → List ℕ → Type 0
GivenUp late t deadlines = All (λ d. d + 20 ≤ t + late) deadlines

GivenUp-le : (late t u : ℕ) (ds : List ℕ) → t ≤ u → GivenUp late t ds → GivenUp late u ds
GivenUp-le late t u [] h g = tt
GivenUp-le late t u (d ∷ ds) h g = (omega arith, GivenUp-le late t u ds h g.1)

pub generate_time-range :
    (intn : ℕ → ℕ)
    → intn time_range < time_range
    → (350 ≤ generate_time intn) × (generate_time intn < 700)
unfolding generate_time
generate_time-range intn h = (omega arith, omega arith)

module _ {C : Type 0} (late : ℕ) where
  Turn-GivenUp :
      {now : ℕ} (intn : ℕ → ℕ) {a b : Elector} {rf rf' : Raft C}
      (t : Turn now (generate_time intn) (a, rf) (b, rf'))
      → IsPrompt late t
      → intn time_range < time_range
      → rf.receive_hb ≡ false
      → GivenUp late a.ticks_at a.deadlines
      → GivenUp late b.ticks_at b.deadlines
  unfolding on_tick on_result on_killed on_become_follwer begin_round
  Turn-GivenUp {now} intn (tick e rf delay s h) p r q g =
      let (low, _) = generate_time-range intn r in
      (
        omega arith,
        GivenUp-le late e.ticks_at (now + generate_time intn) e.deadlines (omega arith) g,
      )
  Turn-GivenUp intn (hear e rf s full) p r q g = cc
  Turn-GivenUp intn (report e rf a h) p r q g = g
  Turn-GivenUp intn (learn e rf win s h) p r q g = g
  Turn-GivenUp intn (learn e rf did_not_win s h) p r q g = g
  Turn-GivenUp intn (give_up e rf s h) p r q g = g
  Turn-GivenUp intn (return e rf s h) p r q g = elim (Bool-cases rf.dead) [
    | inl d ↦ rw d g
    | inr d ↦ rw d tt
  ]

  Quiet-GivenUp :
      {e a : Elector}
      → Quiet C late e a
      → GivenUp late e.ticks_at e.deadlines
      → GivenUp late a.ticks_at a.deadlines
  Quiet-GivenUp still g = g
  Quiet-GivenUp (turn now intn rf rf' q r s t p) g = Turn-GivenUp intn t p r s (Quiet-GivenUp q g)

-- If rand.Intn answers below its argument, and no wake-up has been waiting since a round of
-- startElection began, and no call of startAsCand in the round gave up more than L milliseconds
-- after its interval, for the starts of its goroutines and the lock: whenever the ticker fires,
-- each call that the round has started gave up at least 20 - L milliseconds before (at most L -
-- 20 after it, if L is larger), and the ticker fires again after at least 350 and less than 700
-- milliseconds.
pub on_tick-GivenUp :
    (C : Type 0) (late begun time now delay : ℕ) (intn : ℕ → ℕ) (e : Elector)
    → Quiet C late (begin_round begun time) e
    → e.ticks_at ≤ now
    → intn time_range < time_range
    → GivenUp late now e.deadlines
      × (now + 350 ≤ (on_tick now (generate_time intn) delay e).ticks_at)
      × ((on_tick now (generate_time intn) delay e).ticks_at < now + 700)
unfolding on_tick begin_round
on_tick-GivenUp C late begun time now delay intn e q h r =
    let (low, high) = generate_time-range intn r in
    (
      GivenUp-le late e.ticks_at now e.deadlines h (Quiet-GivenUp late q tt),
      omega arith,
      omega arith,
    )

-- ===== src/Kv/Clerk/Retries.antt =====
-- The retries of a client (src/kvraft/client.go): what ends them, and what goes before.
use sharded_raft_key_value_s.Prelude.{
  ℕ, zero, suc, ◌+◌, ◌<◌, ◌≡◌, refl, sym, subst, ◌∙◌, inl, inr, Option, none, some, arith,
  Option-cases,
}
use sharded_raft_key_value_s.Kv.Clerk.{pass, retry}

module _ {A R V W : Type 0} (call : ℕ → A → W → Option R × W) (accept : Option R → Option V) where
  -- the calls of one request from the state `w` on, all refused: `p` passes over the servers and `i`
  -- calls of the next, each in the state that the one before has left, end in the state `x`
  pub data Refusals (servers : ℕ) (args : A) (w : W) : ℕ → ℕ → W → Type 0 where
    none_yet : Refusals servers args w 0 0 w
    refused :
        (p i : ℕ) (x : W)
        → Refusals servers args w p i x
        → i < servers
        → accept (call i args x).0 ≡ none
        → Refusals servers args w p (i + 1) (call i args x).1
    around :
        (p : ℕ) (x : W) → Refusals servers args w p servers x → Refusals servers args w (p + 1) 0 x

  -- a call after refused ones has got the reply that is accepted, and left the state `w'`
  abbrev pub Accepted : ℕ → A → W → V → W → Type 0
  Accepted servers args w v w' =
      (p : ℕ) × (i : ℕ) × (x : W) × Refusals servers args w p i x
      × (i < servers)
      × (accept (call i args x).0 ≡ some v)
      × (w' ≡ (call i args x).1)

  pass-none :
      (n i : ℕ) (args : A) (w : W)
      → accept (call i args w).0 ≡ none
      → pass call accept (suc n) i args w ≡ pass call accept n (i + 1) args (call i args w).1
  unfolding pass
  pass-none n i args w e = rw e refl

  pass-some :
      (n i : ℕ) (args : A) (w : W) {x : V}
      → accept (call i args w).0 ≡ some x
      → pass call accept (suc n) i args w ≡ (some x, (call i args w).1)
  unfolding pass
  pass-some n i args w e = rw e refl

  retry-none :
      (n servers : ℕ) (args : A) (w : W)
      → (pass call accept servers 0 args w).0 ≡ none
      → retry call accept (suc n) servers args w
        ≡ retry call accept n servers args (pass call accept servers 0 args w).1
  unfolding retry
  retry-none n servers args w e = rw e refl

  retry-some :
      (n servers : ℕ) (args : A) (w : W) {x : V}
      → (pass call accept servers 0 args w).0 ≡ some x
      → retry call accept (suc n) servers args w ≡ (some x, (pass call accept servers 0 args w).1)
  unfolding retry
  retry-some n servers args w e = rw e refl

  module _ (servers : ℕ) (args : A) (w : W) where
    -- what a run has done: it is accepted, or refused `p` passes and `i` calls
    abbrev Done : ℕ → ℕ → Option V × W → Type 0
    Done p i r =
        ((v : V) → r.0 ≡ some v → Accepted servers args w v r.1)
        × (r.0 ≡ none → Refusals servers args w p i r.1)

    pass-Done :
        (n i p : ℕ) (x : W)
        → i + n ≡ servers
        → Refusals servers args w p i x
        → Done p servers (pass call accept n i args x)
    unfolding pass
    pass-Done zero i p x e h =
        let all : i ≡ servers = omega arith in
        ((λ v q. cc), (λ q. subst (λ j. Refusals servers args w p j x) all h))
    pass-Done (suc n) i p x e h = elim (Option-cases (accept (call i args x).0)) [
      | inl q ↦
          subst (Done p servers) (sym (pass-none n i args x q)) (
            pass-Done n (i + 1) p (call i args x).1 (omega arith) (refused p i x h (omega arith) q))
      | inr (v, q) ↦
          subst (Done p servers) (sym (pass-some n i args x q))
            ((λ u same. (p, i, x, h, omega arith, q ∙ same, refl)), (λ same. cc))
    ]

    retry-Done :
        (n p : ℕ) (x : W)
        → Refusals servers args w p 0 x
        → Done (p + n) 0 (retry call accept n servers args x)
    unfolding retry
    retry-Done zero p x h =
        ((λ v q. cc), (λ q. subst (λ k. Refusals servers args w k 0 x) (omega arith) h))
    retry-Done (suc n) p x h =
        let (accepted, all_refused) = pass-Done servers 0 p x (omega arith) h in
        elim (Option-cases (pass call accept servers 0 args x).0) [
          | inl q ↦
              let y = (pass call accept servers 0 args x).1 in
              let rest = retry-Done n (p + 1) y (around p y (all_refused q)) in
              let count : p + 1 + n ≡ p + suc n = omega arith in
              subst (Done (p + suc n) 0) (sym (retry-none n servers args x q))
                (subst (λ k. Done k 0 (retry call accept n servers args y)) count rest)
          | inr (v, q) ↦
              subst (Done (p + suc n) 0) (sym (retry-some n servers args x q))
                ((λ u same. accepted u (q ∙ same)), (λ same. cc))
        ]

    pub retry-Accepted : (rounds : ℕ) → Done rounds 0 (retry call accept rounds servers args w)
    retry-Accepted rounds =
        subst (λ k. Done k 0 (retry call accept rounds servers args w)) (omega arith)
          (retry-Done rounds 0 w none_yet)

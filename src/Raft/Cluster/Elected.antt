-- ===== src/Raft/Cluster/Elected.antt =====
-- At most one peer wins the elections of a term (src/raft/raft.go `startAsCand`,
-- src/raft/handler.go `HandleRequestVote`).
use sharded_raft_key_value_s.Prelude.{
  ℕ, ◌+◌, ◌/◌, ◌≤◌, ◌<◌, ◌≡◌, ◌≢◌, refl, sym, ap, ◌∙◌, inl, inr, true, ◌&&◌, none, some, arith,
  ◌==◌, Bool-cases, Option-cases, if◌then◌else◌,
}
use sharded_raft_key_value_s.Prelude.Int.{eqb_ℤ, eqb_ℤ_iff}
use sharded_raft_key_value_s.Raft.Types.{RequestVoteArgs, win}
use sharded_raft_key_value_s.Raft.Codec.{Codec}
use sharded_raft_key_value_s.Raft.Candidate.{time_out, decide_election}
use sharded_raft_key_value_s.Raft.Trace.Safety.{IsSound, Step-Safe}
use sharded_raft_key_value_s.Raft.Cluster.{
  Campaign, Cluster, term_of, Move, act, begin, answer, hear, expire, Runs, start, move,
}
use sharded_raft_key_value_s.Raft.Cluster.Counts.{sum, sum-le, sum-disjoint, is_vote, one_if, tally}
use sharded_raft_key_value_s.Raft.Cluster.Promises.{Given, IsFair}
use sharded_raft_key_value_s.Raft.Cluster.Promises.Peers.{with_peer-IsFair}
use sharded_raft_key_value_s.Raft.Cluster.Promises.Campaigns.{some-injective}
use sharded_raft_key_value_s.Raft.Cluster.Promises.Beginning.{begin-IsFair, expire-IsFair}
use sharded_raft_key_value_s.Raft.Cluster.Promises.Answering.{
  answered, tally-answered, answer-IsFair,
}
use sharded_raft_key_value_s.Raft.Cluster.Promises.Hearing.{
  over, same_args, tally-over, hear-IsFair,
}

-- the campaign goes on, and keeps every vote
record Grows (k k' : Campaign) : Type 0 where
  owner_eq : k'.owner ≡ k.owner
  args_eq : k'.ballot.args ≡ k.ballot.args
  more : (j : ℕ) → tally k j ≤ tally k' j

Grows-refl : (k : Campaign) → Grows k k
Grows-refl k = record { owner_eq = refl; args_eq = refl; more = λ j. omega arith }

Grows-trans : {a b c : Campaign} → Grows a b → Grows b c → Grows a c
Grows-trans p q = record {
  owner_eq = q.owner_eq ∙ p.owner_eq;
  args_eq = q.args_eq ∙ p.args_eq;
  more = λ j. omega (arith, p.more j, q.more j);
}

-- a vote that is counted was given
tally-Given : (k : Campaign) (j : ℕ) → tally k j ≡ 1 → Given k j (term_of k)
tally-Given k j h = elim (Option-cases (k.replies j)) [
  | inl e ↦ let nothing : tally k j ≡ 0 = rw e (ground arith) in absurd (omega arith)
  | inr (reply, e) ↦
      let one : one_if (k.heard j && is_vote (term_of k) (some reply)) ≡ 1 = rw e at h in
      let granted : reply.vote_granted ≡ true = ground arith in
      let term : eqb_ℤ reply.term (term_of k) ≡ true = ground arith in
      (reply, e, granted, (eqb_ℤ_iff reply.term (term_of k)).0 term)
]

module _ {C : Type 0} ⦃codec : Codec C⦄ where
  -- the campaign `e` of a cluster, later
  abbrev Later : ℕ → Campaign → Cluster C → Type 0
  Later e k c = (k' : Campaign) × (c.campaigns e ≡ some k') × Grows k k'

  -- the campaign `i` is replaced, or another one is looked at
  replaced :
      (c : Cluster C) (i : ℕ) (k k' : Campaign) (e : ℕ) (k0 : Campaign)
      → c.campaigns i ≡ some k
      → Grows k k'
      → c.campaigns e ≡ some k0
      → (k1 : Campaign) × ((if i == e then some k' else c.campaigns e) ≡ some k1) × Grows k0 k1
  replaced c i k k' e k0 is g is0 = elim (Bool-cases (i == e)) [
    | inl q ↦
        let same : i ≡ e = ground arith in
        let same' : k ≡ k0 = some-injective (sym is ∙ ap c.campaigns same ∙ is0) in
        (k', rw q refl, rw same' at g)
    | inr q ↦ (k0, rw q is0, Grows-refl k0)
  ]

  Move-Later :
      {n : ℕ} {c c' : Cluster C}
      → Move n c c'
      → (e : ℕ) (k : Campaign) → c.campaigns e ≡ some k
      → Later e k c'
  unfolding time_out
  Move-Later (act i rf' st) e k is = (k, is, Grows-refl k)
  Move-Later (begin {c} e' i b rf' l free h) e k is = elim (Bool-cases (e' == e)) [
    | inl q ↦
        let same : e' ≡ e = ground arith in
        let clash : none ≡ some k = sym free ∙ ap c.campaigns same ∙ is in cc
    | inr q ↦ (k, rw q is, Grows-refl k)
  ]
  Move-Later (answer {c} i j k' reply rf' is' free h) e k is =
      replaced c i k' (answered j reply k') e k is'
        (record { owner_eq = refl; args_eq = refl; more = tally-answered j reply k' free }) is
  Move-Later {n} (hear {c} i j k' arrived reply b' rf' l is' waits sent h) e k is =
      replaced c i k' (over j b' k') e k is'
        (record {
          owner_eq = refl;
          args_eq = same_args j k' arrived reply b' (c.peers k'.owner) rf' h;
          more = tally-over j k' arrived reply b' (c.peers k'.owner) rf' h waits;
        })
        is
  Move-Later (expire {c} i k' is') e k is =
      replaced c i k' (record k' { ballot = time_out k'.ballot }) e k is'
        (record { owner_eq = refl; args_eq = refl; more = λ j. omega arith }) is

  Runs-Later :
      {n : ℕ} {c c' : Cluster C}
      → Runs n c c'
      → (e : ℕ) (k : Campaign) → c.campaigns e ≡ some k
      → Later e k c'
  Runs-Later start e k is = (k, is, Grows-refl k)
  Runs-Later (move r m) e k is =
      let (k1, is1, g1) = Runs-Later r e k is in
      let (k2, is2, g2) = Move-Later m e k1 is1 in (k2, is2, Grows-trans g1 g2)

  Move-IsFair : {n : ℕ} {c c' : Cluster C} → Move n c c' → IsFair n c → IsFair n c'
  Move-IsFair {n} (act {c} i rf' st) f = with_peer-IsFair n c i rf' (Step-Safe st (f.sound i)) f
  Move-IsFair {n} (begin {c} e i b rf' l free h) f = begin-IsFair n c e i b rf' l h f
  Move-IsFair {n} (answer {c} e j k reply rf' is free h) f =
      answer-IsFair n c e j k reply rf' is h f free
  Move-IsFair {n} (hear {c} e j k arrived reply b' rf' l is waits sent h) f =
      hear-IsFair n c e j k arrived reply b' rf' is waits sent h f l
  Move-IsFair {n} (expire {c} e k is) f = expire-IsFair n c e k is f

  Runs-IsFair : {n : ℕ} {c c' : Cluster C} → Runs n c c' → IsFair n c → IsFair n c'
  Runs-IsFair start f = f
  Runs-IsFair (move r m) f = Move-IsFair m (Runs-IsFair r f)

  -- a cluster in which no election has begun
  pub record IsFresh (c : Cluster C) : Type 0 where
    pub sound : (i : ℕ) → IsSound (c.peers i)
    pub me_eq : (i : ℕ) → (c.peers i).me ≡ i
    pub empty : (e : ℕ) → c.campaigns e ≡ none

  IsFresh-IsFair : (n : ℕ) (c : Cluster C) → IsFresh c → IsFair n c
  IsFresh-IsFair n c f = record {
    sound = f.sound;
    me_eq = f.me_eq;
    honest = λ e k is. let clash : none ≡ some k = sym (f.empty e) ∙ is in cc;
    once = λ e e' k k' j t is is' g g'. let clash : none ≡ some k = sym (f.empty e) ∙ is in cc;
  }

  -- campaign `e` decides now that its owner, still in its term, has won
  pub record Wins (n e : ℕ) (k : Campaign) (c : Cluster C) : Type 0 where
    pub is : c.campaigns e ≡ some k
    pub in_term : (c.peers k.owner).term ≡ term_of k
    pub size : (c.peers k.owner).peer_number ≡ n
    pub decides : decide_election k.ballot (c.peers k.owner) ≡ win

  -- more than half of the peers have given a winner their vote
  Wins-majority :
      {n e : ℕ} {k : Campaign} {c : Cluster C} → IsFair n c → Wins n e k c → n / 2 < sum (tally k) n
  unfolding decide_election
  Wins-majority {n} {e} {k} {c} f w =
      let counted = (f.honest e k w.is).counted w.in_term in
      let most : n / 2 < k.ballot.votes = ground (arith, w.decides, w.size) in omega arith

  -- the votes of different owners in one term are different peers'
  tally-disjoint :
      {n e e' : ℕ} {k k' : Campaign} {c : Cluster C}
      → IsFair n c
      → c.campaigns e ≡ some k
      → c.campaigns e' ≡ some k'
      → term_of k ≡ term_of k'
      → k.owner ≢ k'.owner
      → (j : ℕ) → tally k j + tally k' j ≤ 1
  tally-disjoint {n} {e} {e'} {k} {k'} f is is' same other j =
      elim (Bool-cases (tally k j + tally k' j == 2)) [
        | inl q ↦
            let given = tally-Given k j (ground arith) in
            let given' = tally-Given k' j (ground arith) in
            absurd (other (f.once e e' k k' j (term_of k) is is' given (rw (← same) at given')))
        | inr q ↦ ground arith
      ]

  -- In a cluster of n peers that starts with no election under way, whatever steps the peers
  -- take, crashes included, and however requests and replies are delayed and lost: two campaigns
  -- of one term that are won, at the same time or one after the other, each while its owner is
  -- still in that term and counts n peers, have the same owner.
  pub Wins-unique :
      {c a b : Cluster C} (n e e' : ℕ) (k k' : Campaign)
      → IsFresh c
      → Runs n c a
      → Runs n a b
      → Wins n e k a
      → Wins n e' k' b
      → term_of k ≡ term_of k'
      → k.owner ≡ k'.owner
  Wins-unique n e e' k k' fresh first second w w' same =
      let fair_a = Runs-IsFair first (IsFresh-IsFair n _ fresh) in
      let fair_b = Runs-IsFair second fair_a in
      let (now, is, g) = Runs-Later second e k w.is in
      elim (Bool-cases (k.owner == k'.owner)) [
        | inl q ↦ ground arith
        | inr q ↦
            let other : now.owner ≢ k'.owner = λ z. absurd (ground (arith, g.owner_eq)) in
            let terms = ap (λ (x : RequestVoteArgs). x.term) g.args_eq ∙ same in
            let apart =
              sum-disjoint (tally now) (tally k') n (tally-disjoint fair_b is w'.is terms other) in
            absurd (
              omega (
                arith,
                Wins-majority fair_a w,
                Wins-majority fair_b w',
                sum-le (tally k) (tally now) n g.more,
              ))
      ]

-- ===== src/Raft/Cluster/Promises/Peers.antt =====
-- What the votes say stays true while the peers go on.
use sharded_raft_key_value_s.Prelude.{
  ℕ, ◌≡◌, ◌≢◌, refl, sym, ◌∙◌, inl, inr, arith, ◌==◌, Bool-cases,
}
use sharded_raft_key_value_s.Prelude.Int.{ℤ, pos, minus_one, ◌≤ℤ◌, eq_of_parts}
use sharded_raft_key_value_s.Raft.Codec.{Codec}
use sharded_raft_key_value_s.Raft.Node.{Raft}
use sharded_raft_key_value_s.Raft.Invariant.{Advances}
use sharded_raft_key_value_s.Raft.Invariant.Leading.{Advances-same}
use sharded_raft_key_value_s.Raft.Trace.Safety.{IsSound, Safe}
use sharded_raft_key_value_s.Raft.Cluster.{Campaign, Cluster, at, with_peer, term_of}
use sharded_raft_key_value_s.Raft.Cluster.Promises.{Holds, IsHonest, IsFair}

pub pos-minus_one : (n : ℕ) → pos n ≢ minus_one
pos-minus_one n e = cc

-- a term between two equal ones
pub between : (a b c : ℤ) → a ≤ℤ b → b ≤ℤ c → c ≡ a → b ≡ a
between a b c p q e = let back : b ≤ℤ a = rw e at q in eq_of_parts b a (omega arith)

module _ {C : Type 0} where
  Holds-Advances :
      {t : ℤ} {owner : ℕ} {rf rf' : Raft C} → Advances rf rf' → Holds t owner rf → Holds t owner rf'
  Holds-Advances {t} {owner} {rf} {rf'} a h = record {
    term_le = omega (arith, a.term_le, h.term_le);
    vote = λ e.
        let still = between t rf.term rf'.term h.term_le a.term_le e in
        let mine = h.vote still in
        a.vote (e ∙ sym still) (λ z. pos-minus_one owner (sym mine ∙ z)) ∙ mine;
  }

  pub IsHonest-Advances :
      (n : ℕ) (peers peers' : ℕ → Raft C) (k : Campaign)
      → ((i : ℕ) → Advances (peers i) (peers' i))
      → IsHonest n peers k
      → IsHonest n peers' k
  IsHonest-Advances n peers peers' k a h = record {
    begun = omega (arith, (a k.owner).term_le, h.begun);
    named = h.named;
    holds = λ j t g. Holds-Advances (a j) (h.holds j t g);
    later = h.later;
    counted = λ e. h.counted (
        between (term_of k) (peers k.owner).term (peers' k.owner).term h.begun ((a k.owner).term_le)
          e);
  }

module _ {C : Type 0} ⦃codec : Codec C⦄ where
  -- one peer takes a safe step
  pub with_peer-Safe :
      (peers : ℕ → Raft C) (i : ℕ) (rf' : Raft C)
      → ((j : ℕ) → IsSound (peers j))
      → Safe (peers i) rf'
      → (j : ℕ) → Safe (peers j) (at i rf' peers j)
  with_peer-Safe peers i rf' s safe j = elim (Bool-cases (i == j)) [
    | inl e ↦ let same : i ≡ j = ground arith in rw e (rw same at safe)
    | inr e ↦ rw e (s j, Advances-same refl refl refl)
  ]

  pub with_peer-IsFair :
      (n : ℕ) (c : Cluster C) (i : ℕ) (rf' : Raft C)
      → Safe (c.peers i) rf'
      → IsFair n c
      → IsFair n (with_peer i rf' c)
  with_peer-IsFair n c i rf' safe f =
      let all = with_peer-Safe c.peers i rf' f.sound safe in
      record {
        sound = λ j. (all j).0;
        me_eq = λ j. (all j).1.me_eq ∙ f.me_eq j;
        honest = λ e k h.
            IsHonest-Advances n c.peers (at i rf' c.peers) k (λ j. (all j).1) (f.honest e k h);
        once = f.once;
      }

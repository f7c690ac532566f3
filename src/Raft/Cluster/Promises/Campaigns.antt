-- ===== src/Raft/Cluster/Promises/Campaigns.antt =====
-- What the votes say stays true while candidacies begin, get replies and end.
use sharded_raft_key_value_s.Prelude.{
  ℕ, ◌≡◌, refl, sym, ap, ◌∙◌, inl, inr, false, some, arith, ◌==◌, Bool-cases,
}
use sharded_raft_key_value_s.Prelude.Int.{ℤ}
use sharded_raft_key_value_s.Raft.Codec.{Codec}
use sharded_raft_key_value_s.Raft.Cluster.{Campaign, Cluster, at, with_campaign}
use sharded_raft_key_value_s.Raft.Cluster.Promises.{Given, IsHonest, IsFair}

pub some-injective : {A : Type 0} {a b : A} → some a ≡ some b → a ≡ b
some-injective p = cc

module _ {A : Type 0} (i : ℕ) (a : A) (f : ℕ → A) where
  pub at-same : at i a f i ≡ a
  at-same = ground arith

  pub at-other : (j : ℕ) → (i == j) ≡ false → at i a f j ≡ f j
  at-other j h = rw h refl

module _ {C : Type 0} ⦃codec : Codec C⦄ where
  -- a campaign that is honest, and whose votes are no other owner's
  pub with_campaign-IsFair :
      (n e : ℕ) (k : Campaign) (c : Cluster C)
      → IsHonest n c.peers k
      → ((j : ℕ) (t : ℤ) (e' : ℕ) (k' : Campaign)
          → Given k j t
          → c.campaigns e' ≡ some k'
          → Given k' j t
          → k.owner ≡ k'.owner)
      → IsFair n c
      → IsFair n (with_campaign e k c)
  with_campaign-IsFair n e k c h u f = record {
    sound = f.sound;
    me_eq = f.me_eq;
    honest = λ e' k' is. elim (Bool-cases (e == e')) [
      | inl q ↦ let same : k ≡ k' = some-injective (rw q at is) in rw same at h
      | inr q ↦ f.honest e' k' (rw q at is)
    ];
    once = λ a b ka kb j t is_a is_b ga gb. elim (Bool-cases (e == a)) [
      | inl qa ↦
          let same : k ≡ ka = some-injective (rw qa at is_a) in
          elim (Bool-cases (e == b)) [
            | inl qb ↦
                let same' : k ≡ kb = some-injective (rw qb at is_b) in
                ap (λ (x : Campaign). x.owner) (sym same ∙ same')
            | inr qb ↦
                ap (λ (x : Campaign). x.owner) (sym same)
                ∙ u j t b kb (rw (← same) at ga) (rw qb at is_b) gb
          ]
      | inr qa ↦ elim (Bool-cases (e == b)) [
        | inl qb ↦
            let same' : k ≡ kb = some-injective (rw qb at is_b) in
            sym (u j t a ka (rw (← same') at gb) (rw qa at is_a) ga)
            ∙ ap (λ (x : Campaign). x.owner) same'
        | inr qb ↦ f.once a b ka kb j t (rw qa at is_a) (rw qb at is_b) ga gb
      ]
    ];
  }

-- ===== src/Prelude/Effect.antt =====
-- What a Go call can do besides returning: block for ever on a full channel, or panic.
use mathlib.Core.Path.{◌≡◌, refl}

pub data Outcome {ℓ} (A : Type ℓ) : Type ℓ where
  ok : A → Outcome A
  blocked : Outcome A  -- a send on a full channel, with the lock held
  panicked : Outcome A  -- an index or a slice bound out of range

infixl 5 ◌>>=◌
abbrev pub ◌>>=◌ {ℓ κ} : {A : Type ℓ} {B : Type κ} → Outcome A → (A → Outcome B) → Outcome B
ok a >>= f = f a
blocked >>= f = blocked
panicked >>= f = panicked

-- the call returns `a`
abbrev pub Returns {ℓ} : {A : Type ℓ} → A → Outcome A → Type ℓ
Returns a o = o ≡ ok a

pub >>=-Returns {ℓ κ} :
    {A : Type ℓ} {B : Type κ} {b : B} (o : Outcome A) {next : A → Outcome B}
    → Returns b (o >>= next)
    → (a : A) × Returns a o × Returns b (next a)
>>=-Returns (ok a) done = (a, refl, done)
>>=-Returns blocked done = cc
>>=-Returns panicked done = cc

-- A call returns one result.
pub ok_unique {ℓ} : {A : Type ℓ} {m : Outcome A} {a b : A} → m ≡ ok a → m ≡ ok b → a ≡ b
ok_unique p q = cc

pub ok-injective {ℓ} : {A : Type ℓ} {a b : A} → ok a ≡ ok b → a ≡ b
ok-injective p = cc

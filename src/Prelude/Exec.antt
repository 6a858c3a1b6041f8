-- ===== src/Prelude/Exec.antt =====
-- Methods that change a state and may fail. What was changed before a failure stays changed, so
-- the state comes back beside the error too.
use mathlib.Core.Path.{◌≡◌, refl}
use mathlib.Core.Bool.{Bool, true, false, not}
use native.Mathlib.Omega.{arith}
use singboxconfig.Prelude.Tests.{if◌then◌else◌}

pub data Result {ℓ} (E A : Type ℓ) : Type ℓ where
  ok : A → Result E A
  err : E → Result E A

-- A test that did not fail: `if !b { return err }`, and the other way round.
pub unless-eq-ok {ℓ} :
    {E A : Type ℓ} (b : Bool) (e : E) (r : Result E A) (a : A)
    → (if not b then err e else r) ≡ ok a
    → (b ≡ true) × (r ≡ ok a)
unless-eq-ok true e r a h = (refl, h)
unless-eq-ok false e r a h = ground arith

pub if-eq-ok {ℓ} :
    {E A : Type ℓ} (b : Bool) (e : E) (r : Result E A) (a : A)
    → (if b then err e else r) ≡ ok a
    → (b ≡ false) × (r ≡ ok a)
if-eq-ok true e r a h = ground arith
if-eq-ok false e r a h = (refl, h)

pub ok-injective {ℓ} : {E A : Type ℓ} (a b : A) → ◌≡◌ {A = Result E A} (ok a) (ok b) → a ≡ b
ok-injective a b h = cc

-- A method of an object with the state `S` that fails with an `E`.
abbrev pub Exec {ℓ} : Type ℓ → Type ℓ → Type ℓ → Type ℓ
Exec S E A = S → Result E A × S

module _ {ℓ} {S E A : Type ℓ} where
  abbrev pub pure : A → Exec S E A
  pure a s = (ok a, s)

  abbrev pub raise : E → Exec S E A
  raise e s = (err e, s)

  abbrev pub lift : Result E A → Exec S E A
  lift r s = (r, s)

  -- The outcome as a value: the method's error is looked at, not returned.
  abbrev pub attempt : Exec S E A → Exec S E (Result E A)
  attempt m s = let (r, s') = m s in (ok r, s')

module _ {ℓ} {S E A B : Type ℓ} where
  -- `if err != nil { return nil, err }`
  abbrev pub follow : Result E A × S → (A → Exec S E B) → Result E B × S
  follow (ok a, s) f = f a s
  follow (err e, s) f = (err e, s)

  infixl 5 ◌>>=◌
  abbrev pub ◌>>=◌ : Exec S E A → (A → Exec S E B) → Exec S E B
  ◌>>=◌ m f s = follow (m s) f

  -- A successful bind has two successful halves.
  pub follow-eq-ok :
      (r : Result E A × S) (f : A → Exec S E B) (b : B) (s' : S)
      → follow r f ≡ (ok b, s')
      → (a : A) × (s : S) × (r ≡ (ok a, s)) × (f a s ≡ (ok b, s'))
  follow-eq-ok (ok a, s) f b s' h = (a, s, refl, h)
  follow-eq-ok (err e, s) f b s' h = ground arith

  -- Two successful halves make a successful bind.
  pub follow_ok :
      {a : A} {b : B} (r : Result E A × S) (f : A → Exec S E B)
      → r.0 ≡ ok a
      → (f a r.1).0 ≡ ok b
      → (follow r f).0 ≡ ok b
  follow_ok (ok a, s) f h k = cc (h, k)
  follow_ok (err e, s) f h k = absurd (cc)

module _ {ℓ} {S E B : Type ℓ} where
  infixl 5 ◌>>◌
  abbrev pub ◌>>◌ : Exec S E (Unit {ℓ}) → Exec S E B → Exec S E B
  m >> k = m >>= λ _. k

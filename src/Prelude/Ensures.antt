-- ===== src/Prelude/Ensures.antt =====
-- What an action leaves behind: a postcondition where it returns, an invariant where it fails. One
-- rule for each way to build an action.
use mathlib.Core.Bool.{Bool, true, false}
use singboxconfig.Prelude.Tests.{if◌then◌else◌}
use singboxconfig.Prelude.Exec.{Result, ok, err, Exec, pure, raise, attempt, follow, ◌>>=◌}

-- The outcome of an action with its state.
abbrev pub Leaves {ℓ} : {S E A : Type ℓ} → (S → Type ℓ) → (A → S → Type ℓ) → Result E A × S → Type ℓ
Leaves I Q (ok a, s) = Q a s
Leaves I Q (err e, s) = I s

-- From a state with `P`, the action leaves `Q` where it returns, and `I` where it fails.
pub record Ensures {ℓ} {S E A : Type ℓ} (I P : S → Type ℓ) (m : Exec S E A) (Q : A → S → Type ℓ)
    : Type ℓ where
  pub at : (s : S) → P s → Leaves I Q (m s)

-- An action keeps the invariant, whether it returns or fails.
abbrev pub Keeps {ℓ} : {S E A : Type ℓ} → (S → Type ℓ) → Exec S E A → Type ℓ
Keeps I m = Ensures I I m (λ a. I)

module _ {ℓ} {S E A : Type ℓ} {I : S → Type ℓ} where
  pub Ensures-pure : {P : S → Type ℓ} (a : A) → Ensures {E = E} I P (pure a) (λ b. P)
  Ensures-pure a = record { at = λ s h. h }

  pub Ensures-raise : {Q : A → S → Type ℓ} (e : E) → Ensures I I (raise e) Q
  Ensures-raise e = record { at = λ s h. h }

module _ {ℓ} {S E A B : Type ℓ} {I : S → Type ℓ} {Q : A → S → Type ℓ} {R : B → S → Type ℓ} where
  follow-Leaves :
      (f : A → Exec S E B) (r : Result E A × S)
      → ((a : A) → Ensures I (Q a) (f a) R)
      → Leaves I Q r
      → Leaves I R (follow r f)
  follow-Leaves f (ok a, s) k h = (k a).at s h
  follow-Leaves f (err e, s) k h = h

  pub Ensures-bind :
      {P : S → Type ℓ} (m : Exec S E A) (f : A → Exec S E B)
      → Ensures I P m Q
      → ((a : A) → Ensures I (Q a) (f a) R)
      → Ensures I P (m >>= f) R
  Ensures-bind m f h k = record { at = λ s p. follow-Leaves f (m s) k (h.at s p) }

module _ {ℓ} {S E A : Type ℓ} {I : S → Type ℓ} where
  pub Keeps-pure : (a : A) → Keeps {E = E} I (pure a)
  Keeps-pure a = record { at = λ s h. h }

  pub Keeps-raise : (e : E) → Keeps {A = A} I (raise e)
  Keeps-raise e = record { at = λ s h. h }

  pub Keeps-if :
      (b : Bool) (m n : Exec S E A) → Keeps I m → Keeps I n → Keeps I (if b then m else n)
  Keeps-if true m n h k = h
  Keeps-if false m n h k = k

module _ {ℓ} {S E A : Type ℓ} (I : S → Type ℓ) where
  -- what both outcomes leave
  pub Leaves-either : (r : Result E A) (s : S) → Leaves I (λ a. I) (r, s) → I s
  Leaves-either (ok a) s h = h
  Leaves-either (err e) s h = h

  pub Leaves-both : (r : Result E A) (s : S) → I s → Leaves I (λ a. I) (r, s)
  Leaves-both (ok a) s h = h
  Leaves-both (err e) s h = h

module _ {ℓ} {S E A : Type ℓ} {I : S → Type ℓ} where
  pub Keeps-attempt : (m : Exec S E A) → Keeps I m → Keeps I (attempt m)
  Keeps-attempt m h = record { at = λ s i. Leaves-either I (m s).0 (m s).1 (h.at s i) }

module _ {ℓ} {S E A B : Type ℓ} {I : S → Type ℓ} where
  pub Keeps-bind :
      (m : Exec S E A) (f : A → Exec S E B)
      → Keeps I m
      → ((a : A) → Keeps I (f a))
      → Keeps I (m >>= f)
  Keeps-bind m f h k = Ensures-bind m f h k

pub ruleset keeps_rules = (Keeps-pure, Keeps-raise, Keeps-if, Keeps-bind, Keeps-attempt)

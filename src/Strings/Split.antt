-- ===== src/Strings/Split.antt =====
-- `Split` takes apart what was joined by the separator.
use singboxconfig.Prelude.{ℕ, Str, false, ◌≡◌, refl, [], ◌∷◌, ◌++◌, arith, any, ◌==◌}
use singboxconfig.Strings.{split, on_head}

-- A text without the separator.
abbrev pub IsFree : ℕ → Str → Type 0
IsFree sep s = any (λ c. c == sep) s ≡ false

pub split-append :
    (sep : ℕ) (a b : Str) → IsFree sep a → split sep (a ++ (sep ∷ b)) ≡ a ∷ split sep b
unfolding split any on_head
split-append sep [] b h = ground arith
split-append sep (c ∷ a) b h = ground (arith, split-append sep a b)

pub split_free : (sep : ℕ) (a : Str) → IsFree sep a → split sep a ≡ a ∷ []
unfolding split any on_head
split_free sep [] h = refl
split_free sep (c ∷ a) h = ground (arith, split_free sep a)

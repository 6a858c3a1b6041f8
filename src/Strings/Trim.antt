-- ===== src/Strings/Trim.antt =====
-- Blank texts: `TrimSpace` leaves nothing of them, and no separator stands in them.
use singboxconfig.Prelude.{ℕ, Str, Bool, true, false, ◌≡◌, refl, [], ◌∷◌, arith, all, none, ◌==◌}
use singboxconfig.Strings.{
  is_space, trim_left, trim_right, trim_step, trim_space, is_empty, split, cut,
}

trim_step-nil : (p : ℕ → Bool) (c : ℕ) (s : Str) → trim_step p c s ≡ [] → (p c ≡ true) × (s ≡ [])
unfolding trim_step
trim_step-nil p c [] h = ground arith
trim_step-nil p c (d ∷ s) h = cc

trim_right-nil : (p : ℕ → Bool) (s : Str) → trim_right p s ≡ [] → all p s ≡ true
unfolding trim_right all
trim_right-nil p [] h = refl
trim_right-nil p (c ∷ s) h =
    let (e, r) = trim_step-nil p c (trim_right p s) h in ground (arith, trim_right-nil p s r)

all-trim_left : (p : ℕ → Bool) (s : Str) → all p (trim_left p s) ≡ true → all p s ≡ true
unfolding trim_left all
all-trim_left p [] h = refl
all-trim_left p (c ∷ s) h = ground (arith, all-trim_left p s)

pub trim_space-nil : (s : Str) → trim_space s ≡ [] → all is_space s ≡ true
trim_space-nil s h =
    all-trim_left is_space s
      (trim_right-nil is_space (trim_left is_space s) (unfold trim_space in h))

trim_left-all : (p : ℕ → Bool) (s : Str) → all p s ≡ true → trim_left p s ≡ []
unfolding trim_left all
trim_left-all p [] h = refl
trim_left-all p (c ∷ s) h = ground (arith, trim_left-all p s)

-- A comma is no space, nor is a colon.
is_space-comma : (c : ℕ) → is_space c ≡ true → (c == b',') ≡ false
unfolding is_space
is_space-comma c h = ground arith

-- A text of spaces alone has one part.
pub split-blank : (s : Str) → all is_space s ≡ true → split b',' s ≡ s ∷ []
unfolding split all
split-blank [] h = refl
split-blank (c ∷ s) h = ground (arith, is_space-comma c, split-blank s)

pub is_empty-nil : (s : Str) → is_empty s ≡ true → s ≡ []
is_empty-nil [] h = refl
is_empty-nil (c ∷ s) h = cc

pub split_trim-blank : (s : Str) → is_empty (trim_space s) ≡ true → split b',' s ≡ s ∷ []
split_trim-blank s h = split-blank s (trim_space-nil s (is_empty-nil (trim_space s) h))

is_space-colon : (c : ℕ) → is_space c ≡ true → (c == b':') ≡ false
unfolding is_space
is_space-colon c h = ground arith

cut-blank : (s : Str) → all is_space s ≡ true → cut b':' s ≡ none
unfolding cut all
cut-blank [] h = refl
cut-blank (c ∷ s) h = ground (arith, is_space-colon c, cut-blank s)

pub cut_trim-blank : (s : Str) → is_empty (trim_space s) ≡ true → cut b':' s ≡ none
cut_trim-blank s h = cut-blank s (trim_space-nil s (is_empty-nil (trim_space s) h))

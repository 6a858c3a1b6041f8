-- ===== src/Strings.antt =====
-- What the program uses of Go's package strings, on texts as code points.
pub mod Trim
pub mod Split
use singboxconfig.Prelude.{
  ℕ, Str, Bool, true, false, ◌&&◌, ◌||◌, ◌≡◌, refl, List, [], ◌∷◌, Option, none, some, ◌+◌, leb,
  ◌==◌, if◌then◌else◌, codes,
}

abbrev between : ℕ → ℕ → ℕ → Bool
between lo hi c = leb lo c && leb c hi

-- `unicode.IsSpace`
unfoldable pub is_space : ℕ → Bool
is_space c =
    between 9 13 c
    || c == 32
    || c == 0x85
    || c == 0xa0
    || c == 0x1680
    || between 0x2000 0x200a c
    || c == 0x2028
    || c == 0x2029
    || c == 0x202f
    || c == 0x205f
    || c == 0x3000

unfoldable pub trim_left : (ℕ → Bool) → Str → Str
trim_left p [] = []
trim_left p (c ∷ s) = if p c then trim_left p s else c ∷ s

-- a character that `p` accepts, in front of a rest that is trimmed
unfoldable pub trim_step : (ℕ → Bool) → ℕ → Str → Str
trim_step p c [] = if p c then [] else c ∷ []
trim_step p c (d ∷ s) = c ∷ d ∷ s

unfoldable pub trim_right : (ℕ → Bool) → Str → Str
unfolding trim_step
trim_right p [] = []
trim_right p (c ∷ s) = trim_step p c (trim_right p s)

-- `strings.TrimSpace`
unfoldable pub trim_space : Str → Str
unfolding trim_left trim_right is_space
trim_space s = trim_right is_space (trim_left is_space s)

-- `s == ""`
abbrev pub is_empty : Str → Bool
is_empty [] = true
is_empty (c ∷ s) = false

on_head : ℕ → List Str → List Str
on_head c [] = (c ∷ []) ∷ []
on_head c (part ∷ parts) = (c ∷ part) ∷ parts

-- `strings.Split(s, sep)` for a separator of one character
unfoldable pub split : ℕ → Str → List Str
unfolding on_head
split sep [] = [] ∷ []
split sep (c ∷ s) = let rest = split sep s in if c == sep then [] ∷ rest else on_head c rest

-- `strings.HasPrefix(s, prefix)`
unfoldable pub has_prefix : Str → Str → Bool
has_prefix s [] = true
has_prefix [] (p ∷ prefix) = false
has_prefix (c ∷ s) (p ∷ prefix) = c == p && has_prefix s prefix

-- `strings.Contains(s, substr)`
unfoldable pub contains : Str → Str → Bool
unfolding has_prefix
contains [] sub = has_prefix [] sub
contains (c ∷ s) sub = has_prefix (c ∷ s) sub || contains s sub

cut_on : ℕ → Option (Str × Str) → Option (Str × Str)
cut_on c none = none
cut_on c (some (before, after)) = some (c ∷ before, after)

-- `strings.Cut(s, sep)` for a separator of one character; `none` is `found == false`
unfoldable pub cut : ℕ → Str → Option (Str × Str)
unfolding cut_on
cut sep [] = none
cut sep (c ∷ s) = let rest = cut sep s in if c == sep then some ([], s) else cut_on c rest

-- `strings.ToLower` on ASCII letters, for a text that is compared to "auth.", "bearer", "http" or
-- "https": no other character has a lower case in these. The search in the outbounds, which lowers
-- any text, takes the function as a parameter.
unfoldable pub to_lower : Str → Str
to_lower [] = []
to_lower (c ∷ s) = (if between b'A' b'Z' c then c + 32 else c) ∷ to_lower s

trim_tests :
    (trim_space (codes "  a b \t") ≡ codes "a b")
    × (trim_space (codes " \n ") ≡ [])
    × (split b',' (codes "a,,b") ≡ codes "a" ∷ [] ∷ codes "b" ∷ [])
    × (cut b':' (codes "k:v:w") ≡ some (codes "k", codes "v:w"))
    × (contains (codes "hong kong 01") (codes "kong") ≡ true)
    × (to_lower (codes "AUTH.Key") ≡ codes "auth.key")
unfolding trim_space split cut contains to_lower
trim_tests = (refl, refl, refl, refl, refl, refl)

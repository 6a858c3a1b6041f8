-- ===== src/Prelude/Sort.antt =====
-- `sort.Slice`, of which the theorems only use that it rearranges its list: its order among equal
-- items is not specified. `insertion_sort` is a sorting to run.
use mathlib.Core.Bool.{Bool, true, false}
use mathlib.Core.List.{List, [], ◌∷◌, Permᴰ}
use mathlib.Core.List.Permᴰ as Rearranged
use mathlib.Core.Path.{◌≡◌, refl, ap, ◌∙◌}
use native.Mathlib.Omega.{arith}
use singboxconfig.Prelude.Lists.{any}
use singboxconfig.Prelude.Tests.{if◌then◌else◌, ltb, ◌==◌}
use singboxconfig.Prelude.Texts.{Str}

pub record Sorting (A : Type 0) : Type 0 where
  pub sort_slice : (A → A → Bool) → List A → List A
  pub is_permutation : (less : A → A → Bool) (xs : List A) → Permᴰ (sort_slice less xs) xs

-- `a < b` on strings
unfoldable pub ltb_text : Str → Str → Bool
ltb_text a [] = false
ltb_text [] (d ∷ b) = true
ltb_text (c ∷ a) (d ∷ b) = let rest = ltb_text a b in if c == d then rest else ltb c d

module _ {A : Type 0} where
  -- A search finds the same in a permutation.
  pub any-Permᴰ : (p : A → Bool) {xs ys : List A} → Permᴰ xs ys → any p xs ≡ any p ys
  unfolding any
  any-Permᴰ p Permᴰ.nil = refl
  any-Permᴰ p (Permᴰ.cons e d) = ground (arith, ap p e, any-Permᴰ p d)
  any-Permᴰ p (Permᴰ.swap e f) = ground (arith, ap p e, ap p f)
  any-Permᴰ p (Permᴰ.trans d e) = any-Permᴰ p d ∙ any-Permᴰ p e

  -- a search in what was sorted
  pub any-sort_slice :
      (s : Sorting A) (p : A → Bool) (less : A → A → Bool) (xs : List A)
      → any p (s.sort_slice less xs) ≡ any p xs
  any-sort_slice s p less xs = any-Permᴰ p (s.is_permutation less xs)

  insert_sorted : (A → A → Bool) → A → List A → List A
  insert_sorted less x [] = x ∷ []
  insert_sorted less x (y ∷ ys) =
      let rest = insert_sorted less x ys in if less y x then y ∷ rest else x ∷ y ∷ ys

  either :
      {x y : A} {xs ys : List A} (b : Bool)
      → Permᴰ (y ∷ xs) (x ∷ y ∷ ys)
      → Permᴰ (if b then y ∷ xs else x ∷ y ∷ ys) (x ∷ y ∷ ys)
  either true d = d
  either {x} {y} {ys = ys} false d = Rearranged.refl (x ∷ y ∷ ys)

  insert_sorted-Permᴰ :
      (less : A → A → Bool) (x : A) (ys : List A) → Permᴰ (insert_sorted less x ys) (x ∷ ys)
  unfolding insert_sorted
  insert_sorted-Permᴰ less x [] = Rearranged.refl (x ∷ [])
  insert_sorted-Permᴰ less x (y ∷ ys) =
      either (less y x)
        (Permᴰ.trans (Permᴰ.cons refl (insert_sorted-Permᴰ less x ys)) (Permᴰ.swap refl refl))

  unfoldable pub insertion : (A → A → Bool) → List A → List A
  unfolding insert_sorted
  insertion less [] = []
  insertion less (x ∷ xs) = insert_sorted less x (insertion less xs)

  pub insertion-Permᴰ : (less : A → A → Bool) (xs : List A) → Permᴰ (insertion less xs) xs
  unfolding insertion
  insertion-Permᴰ less [] = Permᴰ.nil
  insertion-Permᴰ less (x ∷ xs) =
      Permᴰ.trans (insert_sorted-Permᴰ less x (insertion less xs))
        (Permᴰ.cons refl (insertion-Permᴰ less xs))

  abbrev pub insertion_sort : Sorting A
  insertion_sort = record { sort_slice = insertion; is_permutation = insertion-Permᴰ }

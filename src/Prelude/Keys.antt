-- ===== src/Prelude/Keys.antt =====
-- `map[string]struct{}`: a set of texts.
use mathlib.Core.Bool.{Bool, not, ◌&&◌, ◌||◌}
use mathlib.Core.List.{List, [], ◌∷◌}
use mathlib.Core.Path.{◌≡◌, refl}
use native.Mathlib.Omega.{arith}
use singboxconfig.Prelude.Lists.{any, keep}
use singboxconfig.Prelude.Tests.{if◌then◌else◌}
use singboxconfig.Prelude.Texts.{Str, equal, equal_iff}

-- `_, ok := m[k]`
unfoldable pub has : Str → List Str → Bool
unfolding any
has k = any (equal k)

-- `m[k] = struct{}{}`
unfoldable pub add : Str → List Str → List Str
add k ks = if has k ks then ks else k ∷ ks

-- `delete(m, k)`
unfoldable pub delete : Str → List Str → List Str
unfolding keep
delete k = keep (λ j. not (equal k j))

pub has-cons : (k j : Str) (ks : List Str) → has k (j ∷ ks) ≡ (equal k j || has k ks)
unfolding has
has-cons k j ks = refl

pub has-add : (k j : Str) (ks : List Str) → has j (add k ks) ≡ (equal j k || has j ks)
unfolding has add
has-add k j ks = ground (arith, equal_iff j k)

pub has-keep : (q : Str → Bool) (k : Str) (ks : List Str) → has k (keep q ks) ≡ (has k ks && q k)
unfolding has any keep
has-keep q k [] = refl
has-keep q k (j ∷ ks) = ground (arith, equal_iff k j, has-keep q k ks)

pub has-delete : (k j : Str) (ks : List Str) → has j (delete k ks) ≡ (has j ks && not (equal k j))
unfolding delete
has-delete k j ks = has-keep (λ i. not (equal k i)) j ks

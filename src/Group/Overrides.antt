-- ===== src/Group/Overrides.antt =====
-- The device overrides as a search for the last rule that fits, and the type of a group.
use singboxconfig.Prelude.{
  Str, ◌&&◌, not, ◌≡◌, refl, ◌⊎◌, inl, inr, List, [], ◌∷◌, Option, none, some, arith, equal,
  Bool-cases, if◌then◌else◌,
}
use singboxconfig.Prelude.Map.{lookup, lookup-insert}
use singboxconfig.Strings.{trim_space, is_empty, split, cut}
use singboxconfig.Strings.Trim.{split_trim-blank, cut_trim-blank}
use singboxconfig.Entity.{
  NodeGroup, NodeGroupType, node_group_type_selector, node_group_type_url_test,
}
use singboxconfig.Group.{
  normalize_group_type, set_override, add_override, add_overrides, parse_device_type_overrides,
  or_selector, resolve_group_type,
}

-- What one rule says for a device: nothing without a colon, a device code or a valid type.
abbrev pub override_of : Str → Option (Str × Str) → Option NodeGroupType
override_of device_code none = none
override_of device_code (some (code, raw_type)) =
    if not (is_empty (trim_space code)) && equal device_code (trim_space code)
    then normalize_group_type raw_type
    else none

abbrev pub or_else {ℓ} : {A : Type ℓ} → Option A → Option A → Option A
or_else (some a) o = some a
or_else none o = o

-- The last rule that says something for the device.
abbrev pub last_override : Str → List Str → Option NodeGroupType
last_override device_code [] = none
last_override device_code (rule ∷ rules) =
    or_else (last_override device_code rules) (override_of device_code (cut b':' rule))

lookup-set_override :
    (d code : Str) (t : Option NodeGroupType) (m : List (Str × NodeGroupType))
    → lookup d (set_override code t m)
      ≡ or_else (if not (is_empty code) && equal d code then t else none) (lookup d m)
unfolding set_override
lookup-set_override d code none m = ground arith
lookup-set_override d code (some t) m = ground (arith, lookup-insert code d t m)

lookup-add_override :
    (d : Str) (rule : Option (Str × Str)) (m : List (Str × NodeGroupType))
    → lookup d (add_override rule m) ≡ or_else (override_of d rule) (lookup d m)
unfolding add_override
lookup-add_override d none m = refl
lookup-add_override d (some (code, raw)) m =
    lookup-set_override d (trim_space code) (normalize_group_type raw) m

lookup-add_overrides :
    (d : Str) (rules : List Str) (m : List (Str × NodeGroupType))
    → lookup d (add_overrides rules m) ≡ or_else (last_override d rules) (lookup d m)
unfolding add_overrides
lookup-add_overrides d [] m = refl
lookup-add_overrides d (rule ∷ rules) m = ground (
  arith,
  lookup-add_overrides d rules (add_override (cut b':' rule) m),
  lookup-add_override d (cut b':' rule) m,
)

-- The parsed overrides answer for a device with the last rule of the text that names it before
-- its first colon, both sides trimmed, and has a valid type.
pub lookup-parse_device_type_overrides :
    (d raw : Str) → lookup d (parse_device_type_overrides raw) ≡ last_override d (split b',' raw)
unfolding parse_device_type_overrides
lookup-parse_device_type_overrides d raw = elim (Bool-cases (is_empty (trim_space raw))) [
  | inl blank ↦
      unfold lookup in
      rw (blank, split_trim-blank raw blank) (ground (arith, cut_trim-blank raw blank))
  | inr more ↦ unfold lookup in ground (arith, more, lookup-add_overrides d (split b',' raw) [])
]

override_of-nil : (rule : Option (Str × Str)) → override_of [] rule ≡ none
override_of-nil none = refl
override_of-nil (some (code, raw)) = unfold equal in ground arith

last_override-nil : (rules : List Str) → last_override [] rules ≡ none
last_override-nil [] = refl
last_override-nil (rule ∷ rules) =
    ground (arith, last_override-nil rules, override_of-nil (cut b':' rule))

-- The type of a group for a device is that of the last override that fits the device, or else
-- the group's own, or else selector; an empty device code has no override.
pub resolve_group_type_lem :
    (g : NodeGroup) (d : Str)
    → resolve_group_type (some g) d
      ≡ or_selector (
          or_else
            (last_override d (split b',' g.device_type_overrides))
            (normalize_group_type g.group_type))
unfolding resolve_group_type
resolve_group_type_lem g [] = ground (arith, last_override-nil (split b',' g.device_type_overrides))
resolve_group_type_lem g (c ∷ d) = rw lookup-parse_device_type_overrides (ground arith)

abbrev pub IsCanonical : NodeGroupType → Type 0
IsCanonical t = (t ≡ node_group_type_selector) ⊎ (t ≡ node_group_type_url_test)

abbrev OptionCanonical : Option NodeGroupType → Type 0
OptionCanonical none = Unit
OptionCanonical (some t) = IsCanonical t

normalize_group_type-IsCanonical : (raw : Str) → OptionCanonical (normalize_group_type raw)
unfolding normalize_group_type
normalize_group_type-IsCanonical raw = ground arith

override_of-IsCanonical :
    (d : Str) (rule : Option (Str × Str)) → OptionCanonical (override_of d rule)
override_of-IsCanonical d none = tt
override_of-IsCanonical d (some (code, raw)) = ground (arith, normalize_group_type-IsCanonical raw)

or_else-IsCanonical :
    (o p : Option NodeGroupType)
    → OptionCanonical o
    → OptionCanonical p
    → OptionCanonical (or_else o p)
or_else-IsCanonical (some t) p h k = h
or_else-IsCanonical none p h k = k

last_override-IsCanonical : (d : Str) (rules : List Str) → OptionCanonical (last_override d rules)
last_override-IsCanonical d [] = tt
last_override-IsCanonical d (rule ∷ rules) =
    or_else-IsCanonical _ _ (last_override-IsCanonical d rules)
      (override_of-IsCanonical d (cut b':' rule))

or_selector-IsCanonical :
    (o : Option NodeGroupType) → OptionCanonical o → IsCanonical (or_selector o)
unfolding or_selector
or_selector-IsCanonical none h = inl refl
or_selector-IsCanonical (some t) h = h

-- For every group, present or not, and every device the type is selector or urltest.
pub resolve_group_type-IsCanonical :
    (g : Option NodeGroup) (d : Str) → IsCanonical (resolve_group_type g d)
resolve_group_type-IsCanonical none d = unfold resolve_group_type in inl refl
resolve_group_type-IsCanonical (some g) d = rw resolve_group_type_lem (
    or_selector-IsCanonical _ (
      or_else-IsCanonical _ _ (last_override-IsCanonical d (split b',' g.device_type_overrides))
        (normalize_group_type-IsCanonical g.group_type)))

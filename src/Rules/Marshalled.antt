-- ===== src/Rules/Marshalled.antt =====
-- What the normalization of a content needs of package json.
use singboxconfig.Prelude.{
  ◌==◌, Str, Bool, true, false, List, [], ◌∷◌, Option, none, some, ◌≡◌, refl, ◌∙◌, sym, ap, arith,
  codes, if◌then◌else◌,
}
use singboxconfig.Prelude.Map.{lookup}
use singboxconfig.Strings.{trim_space}
use singboxconfig.Rules.{Json, parse_raw_rules, rules_of_field, rules_of_object, rules_of_trimmed}

-- `json.Marshal` writes raw messages that `json.Unmarshal` has read as valid JSON: the elements of an
-- array, and an object.
pub record Marshals (x : Json) : Type 0 where
  pub elements :
      (text : Str) (rules : List Str)
      → x.unmarshal_array text ≡ some rules
      → (out : Str) × (x.marshal_source 1 rules ≡ some out)
  pub object :
      (text : Str) (fields : List (Str × Str))
      → x.unmarshal_object text ≡ some fields
      → (out : Str) × (x.marshal_source 1 (text ∷ []) ≡ some out)

some-injective : (a b : List Str) → ◌≡◌ {A = Option (List Str)} (some a) (some b) → a ≡ b
some-injective a b h = cc

module _ (x : Json) (m : Marshals x) where
  rules_of_object-Marshals :
      (text : Str) (object : Option (List (Str × Str))) (rules : List Str)
      → x.unmarshal_object text ≡ object
      → rules_of_object x text object ≡ some rules
      → (out : Str) × (x.marshal_source 1 rules ≡ some out)
  unfolding rules_of_object rules_of_field
  rules_of_object-Marshals text none rules e h = absurd (ground arith)
  rules_of_object-Marshals text (some fields) rules e h = go (lookup (codes "rules") fields) h
    where
      go :
          (raw : Option Str)
          → rules_of_field x text raw ≡ some rules
          → (out : Str) × (x.marshal_source 1 rules ≡ some out)
      go none h =
          let (out, k) = m.object text fields e in
          (out, ap (x.marshal_source 1) (some-injective rules (text ∷ []) (sym h)) ∙ k)
      go (some raw) h = m.elements raw rules h

  rules_of_trimmed-Marshals :
      (text : Str) (rules : List Str)
      → rules_of_trimmed x text ≡ some rules
      → (out : Str) × (x.marshal_source 1 rules ≡ some out)
  unfolding rules_of_trimmed
  rules_of_trimmed-Marshals [] rules h = absurd (ground arith)
  rules_of_trimmed-Marshals (c ∷ rest) rules h = go (c == b'[') (c == b'{') h
    where
      go :
          (a b : Bool)
          → (if a
              then x.unmarshal_array (c ∷ rest)
              else if b
              then rules_of_object x (c ∷ rest) (x.unmarshal_object (c ∷ rest))
              else none)
            ≡ some rules
          → (out : Str) × (x.marshal_source 1 rules ≡ some out)
      go true b h = m.elements (c ∷ rest) rules h
      go false true h =
          rules_of_object-Marshals (c ∷ rest) (x.unmarshal_object (c ∷ rest)) rules refl h
      go false false h = absurd (ground arith)

  pub parse_raw_rules-Marshals :
      (content : Str) (rules : List Str)
      → parse_raw_rules x content ≡ some rules
      → (out : Str) × (x.marshal_source 1 rules ≡ some out)
  unfolding parse_raw_rules
  parse_raw_rules-Marshals content rules h = rules_of_trimmed-Marshals (trim_space content) rules h

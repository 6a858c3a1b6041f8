-- ===== src/Group/Members.antt =====
-- The loops of `FilterOutboundGroupTags` over `matchedTags` compute one filter of the candidates.
use singboxconfig.Prelude.{
  Str, Bool, true, false, ◌&&◌, ◌||◌, not, ◌≡◌, refl, ◌∙◌, List, [], ◌∷◌, map, some, arith, any,
  keep, equal_iff, equal_refl, Bool-cases, inl, inr, if◌then◌else◌,
}
use singboxconfig.Prelude.Keys.{has, add, delete, has-cons, has-add, has-delete}
use singboxconfig.Strings.{trim_space, is_empty, split, contains}
use singboxconfig.Strings.Trim.{split_trim-blank}
use singboxconfig.Entity.{NodeGroup}
use singboxconfig.Group.{
  trim_parts, split_keywords, contains_any, add_all, add_included, delete_excluded, collect,
  matched_tags, filter_outbound_group_tags,
}

-- What it means to be a keyword list, a match and a member.
abbrev pub keywords : Str → List Str
keywords raw = keep (λ item. not (is_empty item)) (map trim_space (split b',' raw))

abbrev pub is_included : List Str → Str → Bool
is_included [] tag = true
is_included (include ∷ includes) tag = any (contains tag) (include ∷ includes)

abbrev pub is_member : NodeGroup → Str → Bool
is_member g tag =
    is_included (keywords g.include) tag && not (any (contains tag) (keywords g.exclude))

trim_parts-keep :
    (parts : List Str)
    → trim_parts parts ≡ keep (λ item. not (is_empty item)) (map trim_space parts)
unfolding trim_parts keep
trim_parts-keep [] = refl
trim_parts-keep (part ∷ parts) = ground (arith, trim_parts-keep parts)

-- The keywords are the parts between commas, trimmed, without the empty ones.
pub split_keywords-keywords : (raw : Str) → split_keywords raw ≡ keywords raw
split_keywords-keywords raw = elim (Bool-cases (is_empty (trim_space raw))) [
  | inl blank ↦ unfold split_keywords keep in rw (split_trim-blank raw blank, blank) refl
  | inr more ↦ unfold split_keywords in rw more (trim_parts-keep (split b',' raw))
]

contains_any-any : (tag : Str) (ks : List Str) → contains_any tag ks ≡ any (contains tag) ks
unfolding contains_any any
contains_any-any tag [] = refl
contains_any-any tag (k ∷ ks) = ground (arith, contains_any-any tag ks)

has-add_all :
    (t : Str) (tags matched : List Str)
    → has t (add_all matched tags) ≡ (has t matched || has t tags)
unfolding add_all
has-add_all t [] matched = unfold has any in ground arith
has-add_all t (tag ∷ tags) matched =
    ground (arith, has-add_all t tags (add tag matched), has-add tag t matched, has-cons t tag tags)

has-add_included :
    (t : Str) (includes tags matched : List Str)
    → has t (add_included includes matched tags)
      ≡ (has t matched || (has t tags && contains_any t includes))
unfolding add_included
has-add_included t includes [] matched = unfold has any in ground arith
has-add_included t includes (tag ∷ tags) matched =
    let matched' = (if contains_any tag includes then add tag matched else matched) in
    ground (
      arith,
      has-add_included t includes tags matched',
      has-add tag t matched,
      has-cons t tag tags,
      equal_iff t tag,
    )

has-delete_excluded :
    (t : Str) (visited excludes matched : List Str)
    → has t (delete_excluded visited excludes matched)
      ≡ (has t matched && not (has t visited && contains_any t excludes))
unfolding delete_excluded
has-delete_excluded t [] excludes matched = unfold has any in ground arith
has-delete_excluded t (tag ∷ visited) excludes matched =
    let matched' = (if contains_any tag excludes then delete tag matched else matched) in
    ground (
      arith,
      has-delete_excluded t visited excludes matched',
      has-delete tag t matched,
      has-cons t tag visited,
      equal_iff t tag,
      equal_iff tag t,
    )

collect-keep : (tags matched : List Str) → collect tags matched ≡ keep (λ t. has t matched) tags
unfolding collect keep
collect-keep [] matched = refl
collect-keep (tag ∷ tags) matched = ground (arith, collect-keep tags matched)

-- Two tests that agree on the items of a list keep the same ones.
keep_congr :
    (p q : Str → Bool) (tags : List Str)
    → ((t : Str) → has t tags ≡ true → p t ≡ q t)
    → keep p tags ≡ keep q tags
unfolding keep
keep_congr p q [] h = refl
keep_congr p q (tag ∷ tags) h = ground (
  arith,
  h tag (rw has-cons (rw equal_refl refl)),
  keep_congr p q tags (λ t m. h t (rw has-cons (ground arith))),
)

has-nil : (t : Str) → has t [] ≡ false
unfolding has any
has-nil t = refl

has-matched_tags :
    (t : Str) (includes tags : List Str)
    → has t tags ≡ true
    → has t (matched_tags includes tags) ≡ is_included includes t
unfolding matched_tags
has-matched_tags t [] tags m = ground (arith, has-add_all t tags [], has-nil t)
has-matched_tags t (k ∷ ks) tags m =
    ground (arith, has-add_included t (k ∷ ks) tags [], contains_any-any t (k ∷ ks), has-nil t)

pub filter_outbound_group_tags-keep :
    (g : NodeGroup) (tags : List Str)
    → filter_outbound_group_tags (some g) tags ≡ keep (is_member g) tags
unfolding filter_outbound_group_tags
filter_outbound_group_tags-keep g [] = unfold keep in refl
filter_outbound_group_tags-keep g (tag ∷ tags) =
    let includes = split_keywords g.include in
    let excludes = split_keywords g.exclude in
    let matched = matched_tags includes (tag ∷ tags) in
    collect-keep (tag ∷ tags) (delete_excluded matched excludes matched)
    ∙ keep_congr _ (is_member g) (tag ∷ tags) λ t m. ground (
      arith,
      has-delete_excluded t matched excludes matched,
      has-matched_tags t includes (tag ∷ tags) m,
      contains_any-any t excludes,
      split_keywords-keywords g.include,
      split_keywords-keywords g.exclude,
    )

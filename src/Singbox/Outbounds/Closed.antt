-- ===== src/Singbox/Outbounds/Closed.antt =====
-- The group outbounds refer to outbounds of the list alone, and are there exactly where a group
-- has a tag and a member.
use singboxconfig.Prelude.{
  Str, Bool, true, false, ◌&&◌, ◌||◌, not, ◌≡◌, ◌≢◌, refl, sym, ap, ◌⊎◌, inl, inr, List, [], ◌∷◌,
  ◌++◌, some, arith, any, any-append, keep, All, codes, equal, equal_refl, Bool-cases,
  if◌then◌else◌,
}
use singboxconfig.Prelude.Keys.{has, has-cons, has-keep}
use singboxconfig.Prelude.Int.{pos}
use singboxconfig.Strings.{is_empty}
use singboxconfig.Entity.{
  NodeGroup, NodeGroupType, node_group_type_selector, node_group_type_url_test,
}
use singboxconfig.Entity.SingBox.{SingBoxOut}
use singboxconfig.Group.{filter_outbound_group_tags, resolve_group_type}
use singboxconfig.Group.Members.{is_member, filter_outbound_group_tags-keep}
use singboxconfig.Group.Overrides.{IsCanonical, resolve_group_type-IsCanonical}
use singboxconfig.Singbox.Outbounds.{
  default_test_url, group_outbound, add_group, construct_outbound_group, get_tags_from_outbounds,
  direct_outbound, get_outbounds,
}

-- What the switch on the type leaves in a group outbound whose members are `first ∷ rest`.
abbrev pub IsSelector : SingBoxOut → Type 0
IsSelector o =
    (o.type ≡ node_group_type_selector)
    × (o.outbounds ≢ [])
    × (has o.default o.outbounds ≡ true)
    × (o.url ≡ [])

abbrev pub IsUrlTest : SingBoxOut → Type 0
IsUrlTest o =
    (o.type ≡ node_group_type_url_test)
    × (o.outbounds ≢ [])
    × (o.url ≢ [])
    × (o.interval ≡ codes "10m")
    × (o.tolerance ≡ pos 50)

-- A group outbound over the candidates `tags`.
pub record IsGroup (tags : List Str) (o : SingBoxOut) : Type 0 where
  pub tagged : o.tag ≢ []
  pub members : All (λ t. has t tags ≡ true) o.outbounds
  pub shape : IsSelector o ⊎ IsUrlTest o

All-weaken : (P Q : Str → Type 0) → ((t : Str) → P t → Q t) → (ts : List Str) → All P ts → All Q ts
All-weaken P Q f [] h = tt
All-weaken P Q f (t ∷ ts) h = (f t h.0, All-weaken P Q f ts h.1)

All-self : (ts : List Str) → All (λ t. has t ts ≡ true) ts
All-self [] = tt
All-self (t ∷ ts) = (
  rw has-cons (rw equal_refl),
  All-weaken _ _ (λ s h. rw has-cons (rw h (ground arith))) ts (All-self ts),
)

-- What is kept of a list is in the list.
All-keep :
    (p : Str → Bool) (tags kept : List Str) → keep p tags ≡ kept → All (λ t. has t tags ≡ true) kept
All-keep p tags kept e =
    All-weaken _ _ (λ t h. ground (arith, has-keep p t tags, ap (has t) e)) kept (All-self kept)

test_url-ne-nil : (u : Str) → (if is_empty u then default_test_url else u) ≢ []
test_url-ne-nil [] = λ h. cc
test_url-ne-nil (c ∷ u) = λ h. cc

group_outbound-shape :
    (g : NodeGroup) (t : NodeGroupType) (first : Str) (rest : List Str)
    → IsCanonical t
    → IsSelector (group_outbound g t first rest) ⊎ IsUrlTest (group_outbound g t first rest)
unfolding group_outbound equal
group_outbound-shape g t first rest (inl e) =
    rw e (inl (refl, λ h. cc, rw has-cons (rw equal_refl), refl))
group_outbound-shape g t first rest (inr e) =
    rw e (inr (refl, λ h. cc, test_url-ne-nil g.test_url, refl, refl))

group_outbound_fields :
    (g : NodeGroup) (t : NodeGroupType) (first : Str) (rest : List Str)
    → ((group_outbound g t first rest).outbounds ≡ first ∷ rest)
      × ((group_outbound g t first rest).tag ≡ g.tag)
unfolding group_outbound
group_outbound_fields g t first rest = elim (Bool-cases (equal t node_group_type_url_test)) [
  | inl u ↦ rw u (refl, refl)
  | inr u ↦ elim (Bool-cases (equal t node_group_type_selector)) [
    | inl s ↦ rw (u, s) (refl, refl)
    | inr s ↦ rw (u, s) (refl, refl)
  ]
]

group_outbound-IsGroup :
    (g : NodeGroup) (d : Str) (tags : List Str) (first : Str) (rest : List Str)
    → is_empty g.tag ≡ false
    → keep (is_member g) tags ≡ first ∷ rest
    → IsGroup tags (group_outbound g (resolve_group_type (some g) d) first rest)
group_outbound-IsGroup g d tags first rest named e =
    let t = resolve_group_type (some g) d in
    let (outs, same) = group_outbound_fields g t first rest in
    record {
      tagged = rw same (λ h. cc (ap is_empty h, named));
      members = rw outs (All-keep (is_member g) tags (first ∷ rest) e);
      shape = group_outbound-shape g t first rest (resolve_group_type-IsCanonical (some g) d);
    }

add_group-IsGroup :
    (g : NodeGroup) (d : Str) (tags members : List Str) (groups : List SingBoxOut)
    → is_empty g.tag ≡ false
    → keep (is_member g) tags ≡ members
    → All (IsGroup tags) groups
    → All (IsGroup tags) (add_group g d members groups)
unfolding add_group
add_group-IsGroup g d tags [] groups named e h = h
add_group-IsGroup g d tags (first ∷ rest) groups named e h =
    (group_outbound-IsGroup g d tags first rest named e, h)

-- Every group outbound has a tag, at least one member, members among the candidates only, and
-- the fields of its type: a selector's default is one of its members, a urltest has a test URL.
pub construct_outbound_group-IsGroup :
    (gs : List NodeGroup) (tags : List Str) (d : Str)
    → All (IsGroup tags) (construct_outbound_group gs tags d)
unfolding construct_outbound_group
construct_outbound_group-IsGroup [] tags d = tt
construct_outbound_group-IsGroup (g ∷ gs) tags d = elim (Bool-cases (is_empty g.tag)) [
  | inl blank ↦ rw blank (construct_outbound_group-IsGroup gs tags d)
  | inr named ↦ rw named (
      add_group-IsGroup g d tags _ _ named (sym (filter_outbound_group_tags-keep g tags))
        (construct_outbound_group-IsGroup gs tags d))
]

-- Whether a group is there for a tag.
abbrev pub provides : List Str → Str → NodeGroup → Bool
provides tags tag g = equal tag g.tag && not (is_empty g.tag) && any (is_member g) tags

abbrev is_cons : List Str → Bool
is_cons [] = false
is_cons (t ∷ ts) = true

is_cons-keep : (p : Str → Bool) (ts : List Str) → is_cons (keep p ts) ≡ any p ts
unfolding keep any
is_cons-keep p [] = refl
is_cons-keep p (t ∷ ts) = ground (arith, is_cons-keep p ts)

has-add_group :
    (g : NodeGroup) (d tag : Str) (members : List Str) (groups : List SingBoxOut)
    → has tag (get_tags_from_outbounds (add_group g d members groups))
      ≡ ((equal tag g.tag && is_cons members) || has tag (get_tags_from_outbounds groups))
unfolding add_group get_tags_from_outbounds
has-add_group g d tag [] groups = ground arith
has-add_group g d tag (first ∷ rest) groups =
    let t = resolve_group_type (some g) d in
    rw (has-cons, (group_outbound_fields g t first rest).1) (ground arith)

-- The tags of the group outbounds are those of the groups that have a tag and a member.
pub has-construct_outbound_group :
    (gs : List NodeGroup) (tags : List Str) (d tag : Str)
    → has tag (get_tags_from_outbounds (construct_outbound_group gs tags d))
      ≡ any (provides tags tag) gs
unfolding construct_outbound_group any
has-construct_outbound_group [] tags d tag = unfold get_tags_from_outbounds has in refl
has-construct_outbound_group (g ∷ gs) tags d tag = ground (
  arith,
  has-construct_outbound_group gs tags d tag,
  has-add_group g d tag (filter_outbound_group_tags (some g) tags)
      (construct_outbound_group gs tags d),
  filter_outbound_group_tags-keep g tags,
  is_cons-keep (is_member g) tags,
)

get_tags-append :
    (os ps : List SingBoxOut)
    → get_tags_from_outbounds (os ++ ps) ≡ get_tags_from_outbounds os ++ get_tags_from_outbounds ps
unfolding get_tags_from_outbounds
get_tags-append [] ps = refl
get_tags-append (o ∷ os) ps = ap (◌∷◌ o.tag) (get_tags-append os ps)

has-append : (t : Str) (xs ys : List Str) → has t (xs ++ ys) ≡ (has t xs || has t ys)
unfolding has
has-append t xs ys = any-append (equal t) xs ys

-- The final list has the tags of the given outbounds, those of the groups that have a tag and a
-- member, and direct, and no other.
pub has-get_outbounds :
    (os : List SingBoxOut) (gs : List NodeGroup) (d tag : Str)
    → has tag (get_tags_from_outbounds (get_outbounds os gs d)) ≡ (
        has tag (get_tags_from_outbounds os)
        || (any (provides (get_tags_from_outbounds os) tag) gs || equal tag (codes "direct")))
has-get_outbounds os gs d tag =
    let tags = get_tags_from_outbounds os in
    let groups = construct_outbound_group gs tags d in
    unfold get_outbounds in
    rw
      (
        get_tags-append os (groups ++ (direct_outbound ∷ [])),
        has-append,
        get_tags-append groups (direct_outbound ∷ []),
        has-append,
        has-construct_outbound_group gs tags d tag,
      )
      (unfold get_tags_from_outbounds has any in ground arith)

All-map :
    {P Q : SingBoxOut → Type 0} (f : (o : SingBoxOut) → P o → Q o) (os : List SingBoxOut)
    → All P os
    → All Q os
All-map f [] h = tt
All-map f (o ∷ os) h = (f o h.0, All-map f os h.1)

-- In the final list every group outbound refers to outbounds of that list alone.
pub get_outbounds-IsGroup :
    (os : List SingBoxOut) (gs : List NodeGroup) (d : Str)
    → All
        (IsGroup (get_tags_from_outbounds (get_outbounds os gs d)))
        (construct_outbound_group gs (get_tags_from_outbounds os) d)
get_outbounds-IsGroup os gs d =
    All-map
      (λ o h. record {
        tagged = h.tagged;
        members =
            All-weaken _ _ (λ t m. rw (has-get_outbounds os gs d t, m) (ground arith)) o.outbounds
              h.members;
        shape = h.shape;
      })
      (construct_outbound_group gs (get_tags_from_outbounds os) d)
      (construct_outbound_group-IsGroup gs (get_tags_from_outbounds os) d)

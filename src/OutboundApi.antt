-- ===== src/OutboundApi.antt =====
-- service/outbound_api.go: the pages of a list of outbounds.
pub mod Pages
pub mod Rows
pub mod Handlers
pub mod Replaced
pub mod Manual
pub mod Tests
use singboxconfig.Prelude.{
  ℕ, ◌+◌, ◌*◌, ◌-◌, ◌==◌, ltb, leb, Str, Bool, true, false, ◌||◌, List, [], ◌∷◌, Option, none, some,
  length, equal, if◌then◌else◌,
}
use singboxconfig.Prelude.Int.{ℤ, pos, negsuc, ltb_ℤ, eqb_ℤ}
use singboxconfig.Prelude.Sort.{Sorting, ltb_text}
use singboxconfig.Strings.{trim_space, is_empty, contains}
use singboxconfig.Entity.{Outbound}
use singboxconfig.Cache.{to_int64}

module _ {A : Type 0} where
  unfoldable pub drop : ℕ → List A → List A
  drop n [] = []
  drop n (x ∷ xs) = let rest = drop (n - 1) xs in if n == 0 then x ∷ xs else rest

  unfoldable pub take : ℕ → List A → List A
  take n [] = []
  take n (x ∷ xs) = let rest = take (n - 1) xs in if n == 0 then [] else x ∷ rest

  -- `items[start:end]`, where `none` is a panic
  unfoldable pub slice : List A → ℕ → ℤ → Option (List A)
  slice items start (negsuc n) = none
  slice items start (pos end) =
      if leb start end then some (take (end - start) (drop start items)) else none

  unfoldable pub paged : List A → ℕ → ℤ → Option (List A)
  paged items limit (negsuc n) = none
  paged items limit (pos start) =
      let total = pos (length items) in
      let end = to_int64 (start + limit) in
      slice items start (if ltb_ℤ total end then total else end)

  -- `paginateOutbounds`, its items, for a positive page and limit; the product and the sum are
  -- those of 64 bits
  unfoldable pub paginate_outbounds : List A → ℕ → ℕ → Option (List A)
  paginate_outbounds items page limit =
      let total = pos (length items) in
      let start = to_int64 ((page - 1) * limit) in
      paged items limit (if ltb_ℤ total start then total else start)

-- a parameter that `strconv.Atoi` reads, if it is positive, or the default
unfoldable pub positive_or : ℕ → Option ℤ → ℕ
positive_or default none = default
positive_or default (some (negsuc n)) = default
positive_or default (some (pos n)) = if n == 0 then default else n

-- `strconv.Atoi` is external.
unfoldable pub parse_pagination : (Str → Option ℤ) → Str → Str → ℕ × ℕ
unfolding positive_or
parse_pagination atoi page limit =
    let read = λ (default : ℕ) (value : Str).
      let text = trim_space value in
      if is_empty text then default else positive_or default (atoi text) in
    (read 1 page, read 20 limit)

-- `strings.ToLower` is external.
unfoldable pub outbound_matches_search : (Str → Str) → Outbound → Str → Bool
outbound_matches_search to_lower item search =
    contains (to_lower item.tag) search || contains (to_lower item.name) search

unfoldable pub sorted_before : Outbound → Outbound → Bool
sorted_before a b =
    if eqb_ℤ a.sort b.sort
    then (if equal a.tag b.tag then ltb_ℤ a.id b.id else ltb_text a.tag b.tag)
    else ltb_ℤ a.sort b.sort

unfoldable pub sort_outbounds : Sorting Outbound → List Outbound → List Outbound
sort_outbounds sorting items = sorting.sort_slice sorted_before items

-- ===== src/Cache.antt =====
-- service/outbound_cache.go, its pure part: when a subscription is fetched again, and the counts
-- that a refresh reports. An item of a list of pointers may be nil.
pub mod Counts
pub mod Store
pub mod Refresh
pub mod Offered
pub mod Shown
pub mod Calm
pub mod Replaced
pub mod Success
pub mod Tests
use singboxconfig.Prelude.{
  ℕ, suc, ◌+◌, ◌*◌, ◌-◌, ◌%◌, ltb, leb, Str, Bool, true, false, not, ◌&&◌, ◌||◌, List, [], ◌∷◌,
  Option, none, some, equal, if◌then◌else◌,
}
use singboxconfig.Prelude.Int.{ℤ, pos, negsuc, leb_ℤ, eqb_ℤ, pos_part, neg_part}
use singboxconfig.Prelude.Map.{lookup, insert}
use singboxconfig.Strings.{is_empty}
use singboxconfig.Entity.{Time, Outbound, Subscribe}

-- `time.Minute`, and a product of 64 bits with it
abbrev pub minute : ℕ
minute = 60000000000

abbrev pub to_int64 : ℕ → ℤ
to_int64 n =
    let r = n % 18446744073709551616 in
    if ltb r 9223372036854775808 then pos r else negsuc (18446744073709551615 - r)

-- `time.Now().After(t.Add(d))`
abbrev pub is_after : Time → Time → ℤ → Bool
is_after now t d = ltb (t + pos_part d) (now + neg_part d)

fetched_before : Time → Subscribe → Option Time → Bool
fetched_before now subscribe none = true
fetched_before now subscribe (some fetched) =
    if leb_ℤ subscribe.outbound_cache_duration (pos 0)
    then true
    else is_after now fetched (to_int64 (pos_part subscribe.outbound_cache_duration * minute))

-- A duration that is multiplied is positive.
unfoldable pub needs_refresh : Time → Option Subscribe → Bool
unfolding fetched_before
needs_refresh now none = false
needs_refresh now (some subscribe) =
    if not subscribe.status
    then false
    else fetched_before now subscribe subscribe.outbound_last_fetch_time

-- the fields of two outbounds that are not nil
same_outbound : Outbound → Outbound → Bool
same_outbound left right =
    equal left.tag right.tag
    && equal left.name right.name
    && equal left.description right.description
    && equal left.type right.type
    && not (left.enabled && not right.enabled || not left.enabled && right.enabled)
    && eqb_ℤ left.sort right.sort
    && equal left.visible_devices right.visible_devices
    && equal left.config_json right.config_json
    && equal left.source right.source
    && equal left.subscribe_name right.subscribe_name

unfoldable pub subscription_outbound_equal : Option Outbound → Option Outbound → Bool
unfolding same_outbound
subscription_outbound_equal none none = true
subscription_outbound_equal none (some right) = false
subscription_outbound_equal (some left) none = false
subscription_outbound_equal (some left) (some right) = same_outbound left right

pub record RefreshResult : Type 0 where
  pub added : ℕ
  pub updated : ℕ
  pub deleted : ℕ
  pub last_fetch_time : Time

-- `item == nil || item.Tag == ""`
unfoldable pub is_skipped : Option Outbound → Bool
is_skipped none = true
is_skipped (some item) = is_empty item.tag

unfoldable pub tag_of : Option Outbound → Str
tag_of none = []
tag_of (some item) = item.tag

-- `previousByTag` and `currentByTag`
unfoldable pub by_tag :
    List (Str × Option Outbound) → List (Option Outbound) → List (Str × Option Outbound)
by_tag tags [] = tags
by_tag tags (item ∷ items) =
    by_tag (if is_skipped item then tags else insert (tag_of item) item tags) items

-- one round of the loop over the current items that was not skipped
counted : Option (Option Outbound) → Option Outbound → RefreshResult → RefreshResult
counted none item result = record result { added = suc result.added }
counted (some old_item) item result =
    if not (subscription_outbound_equal old_item item)
    then record result { updated = suc result.updated }
    else result

count_current :
    List (Str × Option Outbound) → List (Option Outbound) → RefreshResult → RefreshResult
unfolding counted
count_current previous [] result = result
count_current previous (item ∷ items) result =
    count_current previous items
      (if is_skipped item then result else counted (lookup (tag_of item) previous) item result)

is_missing : Option (Option Outbound) → Bool
is_missing none = true
is_missing (some item) = false

count_deleted :
    List (Str × Option Outbound) → List (Option Outbound) → RefreshResult → RefreshResult
unfolding is_missing
count_deleted current [] result = result
count_deleted current (item ∷ items) result = count_deleted current items (
    if is_skipped item
    then result
    else if is_missing (lookup (tag_of item) current)
    then record result { deleted = suc result.deleted }
    else result)

unfoldable pub calculate_subscription_refresh_result :
    List (Option Outbound) → List (Option Outbound) → Time → RefreshResult
unfolding count_current count_deleted
calculate_subscription_refresh_result previous current fetch_time =
    let counts =
      count_current (by_tag [] previous) current
        (record { added = 0; updated = 0; deleted = 0; last_fetch_time = fetch_time }) in
    count_deleted (by_tag [] current) previous counts

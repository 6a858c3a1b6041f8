-- ===== src/Cache/Counts.antt =====
-- The counts of a refresh without the maps, and when a subscription is due.
use singboxconfig.Prelude.{
  ℕ, ◌+◌, ◌*◌, ◌≤◌, ltb, Str, Bool, true, false, not, ◌&&◌, ◌||◌, List, Option, some, ◌≡◌, ◌∙◌, ap,
  arith, equal, any, keep, length, if◌then◌else◌,
}
use singboxconfig.Prelude.Int.{pos, leb_ℤ, pos_part}
use singboxconfig.Entity.{Time, Outbound, Subscribe}
use singboxconfig.Cache.{
  minute, to_int64, is_after, fetched_before, needs_refresh, is_skipped, tag_of,
}

-- The product with a minute stays within 64 bits.
due :
    (now fetched : Time) (minutes : ℕ)
    → minutes ≤ 153722867
    → (if leb_ℤ (pos minutes) (pos 0)
        then true
        else is_after now fetched (to_int64 (minutes * minute)))
      ≡ (ltb 0 minutes && ltb (fetched + minutes * minute) now || not (ltb 0 minutes))
due now fetched minutes h = ground arith

-- While the cache lasts at most 153722867 minutes, an enabled subscription that was fetched at some
-- time is due after that many minutes, and not before.
pub needs_refresh_lem :
    (now fetched : Time) (minutes : ℕ) (subscribe : Subscribe)
    → subscribe.status ≡ true
    → subscribe.outbound_last_fetch_time ≡ some fetched
    → subscribe.outbound_cache_duration ≡ pos minutes
    → minutes ≤ 153722867
    → needs_refresh now (some subscribe)
      ≡ (ltb 0 minutes && ltb (fetched + minutes * minute) now || not (ltb 0 minutes))
unfolding needs_refresh fetched_before
needs_refresh_lem now fetched minutes subscribe s f d h =
    ap
      (λ b.
        if not b then false else fetched_before now subscribe subscribe.outbound_last_fetch_time)
      s
    ∙ ap (fetched_before now subscribe) f
    ∙ ap
        (λ z.
          if leb_ℤ z (pos 0) then true else is_after now fetched (to_int64 (pos_part z * minute)))
        d
    ∙ due now fetched minutes h

-- An item of the list that is not skipped has the tag.
abbrev pub has_tag : Str → List (Option Outbound) → Bool
has_tag tag = any (λ item. not (is_skipped item) && equal tag (tag_of item))

abbrev pub count : (Option Outbound → Bool) → List (Option Outbound) → ℕ
count p items = length (keep p items)

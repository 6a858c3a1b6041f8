-- ===== src/Generated/Framed.antt =====
-- The steps of a generation after its device that leave the cache of the subscriptions alone: all
-- but that of the outbounds.
use mathlib.Core.Path.{subst}
use singboxconfig.Prelude.{Str, [], ◌≡◌, refl, sym}
use singboxconfig.Prelude.Exec.{Result, ok, err, Exec}
use singboxconfig.Prelude.Ensures.{
  Leaves, Ensures, Keeps, Keeps-pure, Keeps-raise, keeps_rules, Leaves-either, Leaves-both,
}
use singboxconfig.Entity.{Device, WireGuard}
use singboxconfig.Auth.World as Settings
use singboxconfig.Cache.Store as CacheStore
use singboxconfig.Inventory.Store as TableStore
use singboxconfig.Generated.Server.{
  ServerState, GenerateError, row_missing, failed, Action, world_error, db_error, on_world, on_db,
}
use singboxconfig.Generated.{
  External, or_blank, resolve_dns_config_json, or_default_wire_guard, failed_as, or_failed,
  resolve_generate_inbounds, resolve_generate_endpoints,
}

abbrev pub CacheIs : CacheStore.Db → ServerState → Type 0
CacheIs c s = s.cache ≡ c

-- No claim.
abbrev pub Anywhere : ServerState → Type 0
Anywhere s = Unit {0}

pub on_world-KeepsCache :
    {A : Type 0} (c : CacheStore.Db) (m : Settings.M A) → Keeps (CacheIs c) (on_world m)
on_world-KeepsCache c m = record {
  at = λ s h.
      Leaves-both (CacheIs c) (world_error (m s.world).0) (record s { world = (m s.world).1 }) h;
}

pub on_db-KeepsCache :
    {A : Type 0} (c : CacheStore.Db) (m : TableStore.M A) → Keeps (CacheIs c) (on_db m)
on_db-KeepsCache c m = record {
  at = λ s h. Leaves-both (CacheIs c) (db_error (m s.db).0) (record s { db = (m s.db).1 }) h;
}

pub or_failed-KeepsCache :
    {A : Type 0} (c : CacheStore.Db) (m : Action A)
    → Keeps (CacheIs c) m
    → Keeps (CacheIs c) (or_failed m)
unfolding or_failed
or_failed-KeepsCache c m k = record {
  at = λ s h.
      Leaves-both (CacheIs c) (failed_as (m s).0) (m s).1
        (Leaves-either (CacheIs c) (m s).0 (m s).1 (k.at s h));
}

or_blank-KeepsCache :
    (c : CacheStore.Db) (r : Result GenerateError Str) → Keeps (CacheIs c) (or_blank r)
unfolding or_blank
or_blank-KeepsCache c (ok value) = Keeps-pure value
or_blank-KeepsCache c (err row_missing) = Keeps-pure []
or_blank-KeepsCache c (err failed) = Keeps-raise failed

or_default_wire_guard-KeepsCache :
    (c : CacheStore.Db) (tag : Str) (r : Result GenerateError WireGuard)
    → Keeps (CacheIs c) (or_default_wire_guard tag r)
unfolding or_default_wire_guard
or_default_wire_guard-KeepsCache c tag (ok wg) = Keeps-pure _
or_default_wire_guard-KeepsCache c tag (err row_missing) = Keeps-pure _
or_default_wire_guard-KeepsCache c tag (err failed) = Keeps-raise failed

ruleset cache_rules = (
  keeps_rules, on_world-KeepsCache, on_db-KeepsCache, or_failed-KeepsCache, or_blank-KeepsCache,
  or_default_wire_guard-KeepsCache,
)

pub resolve_dns_config_json-KeepsCache :
    (c : CacheStore.Db) → Keeps (CacheIs c) resolve_dns_config_json
unfolding resolve_dns_config_json
resolve_dns_config_json-KeepsCache c = search (cache_rules)

pub resolve_generate_inbounds-KeepsCache :
    (c : CacheStore.Db) (x : External) (code : Str)
    → Keeps (CacheIs c) (resolve_generate_inbounds x code)
unfolding resolve_generate_inbounds
resolve_generate_inbounds-KeepsCache c x code = search (cache_rules)

pub resolve_generate_endpoints-KeepsCache :
    (c : CacheStore.Db) (x : External) (device : Device)
    → Keeps (CacheIs c) (resolve_generate_endpoints x device)
unfolding resolve_generate_endpoints
resolve_generate_endpoints-KeepsCache c x device = search (cache_rules)

-- Such a step keeps every property of the cache.
pub framed :
    {E A : Type 0} (P : CacheStore.Db → Type 0) (m : Exec ServerState E A)
    → ((c : CacheStore.Db) → Keeps (CacheIs c) m)
    → Ensures Anywhere (λ s. P s.cache) m (λ a s. P s.cache)
framed P m k = record {
  at = λ s h.
      go (m s).0 (m s).1
        (subst P (sym (Leaves-either (CacheIs s.cache) (m s).0 (m s).1 ((k s.cache).at s refl))) h);
}
  where
    go :
        {E A : Type 0} (r : Result E A) (s : ServerState)
        → P s.cache
        → Leaves Anywhere (λ a t. P t.cache) (r, s)
    go (ok a) s h = h
    go (err e) s h = tt

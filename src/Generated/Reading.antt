-- ===== src/Generated/Reading.antt =====
-- Steps of a generation that read, where no storage call fails.
use singboxconfig.Prelude.{
  Str, Bool, true, false, [], Option, none, some, ◌≡◌, refl, ◌∙◌, ap, arith, if◌then◌else◌, keep,
  equal,
}
use singboxconfig.Prelude.Exec.{ok, Exec, attempt, follow, ◌>>=◌}
use singboxconfig.Prelude.Map.{lookup}
use singboxconfig.Prelude.Sort.{Sorting}
use singboxconfig.Entity.{DeviceInbound, WireGuard, WireGuardPeer}
use singboxconfig.Settings.{Url, resolve_system_host, resolved_host, system_host_setting_key}
use singboxconfig.Auth.World.{AuthError, World, get_global_setting, found}
use singboxconfig.Auth.World as Settings
use singboxconfig.Inventory.Table.{find}
use singboxconfig.Inventory.Store as TableStore
use singboxconfig.Inventory.Store.{Tables, StorageError, query, first, list_rows, get_row}
use singboxconfig.Inventory.Methods.{
  list_device_inbounds, list_inbounds, get_wire_guard, list_wire_guard_peers, list_node_groups,
  list_rule_sets, binding_less, peer_before,
}
use singboxconfig.Generated.Server.{ServerState, Action, world_error, db_error, on_world, on_db}
use singboxconfig.Generated.Admitted.{query_ok}
use singboxconfig.Generated.{
  dns_config_setting_key, or_blank, resolve_dns_config_json, or_default_wire_guard, failed_as,
  or_failed,
}

-- The action returns and leaves the state as it is.
abbrev pub Reads : {E A : Type 0} → Exec ServerState E A → ServerState → Type 0
Reads {A = A} m s = (a : A) × (m s ≡ (ok a, s))

pub Reads-bind :
    {E A B : Type 0} (m : Exec ServerState E A) (f : A → Exec ServerState E B) (s : ServerState)
    → Reads m s
    → ((a : A) → Reads (f a) s)
    → Reads (m >>= f) s
Reads-bind m f s (a, e) k = let (b, h) = k a in (b, ap (λ q. follow q f) e ∙ h)

pub or_failed-Reads :
    {A : Type 0} (m : Action A) (s : ServerState) → Reads m s → Reads (or_failed m) s
unfolding or_failed failed_as
or_failed-Reads m s (a, e) = (a, ap (λ q. (failed_as q.0, q.1)) e)

-- A setting is read, or missing.
get_global_setting_ok :
    (key : Str) (w : World)
    → w.faults ≡ []
    → get_global_setting key w ≡ (found (lookup key w.settings), w)
unfolding get_global_setting Settings.storage_call
get_global_setting_ok key w h = ground arith

list-Reads :
    {A : Type 0} (f : Tables → A) (s : ServerState)
    → s.db.faults ≡ []
    → Reads (on_db (query (λ t. ok (f t)))) s
unfolding db_error
list-Reads f s h = (
  f s.db.tables,
  ap (λ q. (db_error q.0, record s { db = q.1 })) (query_ok (λ t. ok (f t)) s.db h),
)

or_blank-Reads :
    (value : Option Str) (s : ServerState) → Reads (or_blank (world_error (found value))) s
unfolding or_blank world_error found
or_blank-Reads none s = ([], refl)
or_blank-Reads (some value) s = (value, refl)

pub resolve_dns_config_json-Reads :
    (s : ServerState) → s.world.faults ≡ [] → Reads resolve_dns_config_json s
unfolding resolve_dns_config_json
resolve_dns_config_json-Reads s h =
    let (value, e) = or_blank-Reads (lookup dns_config_setting_key s.world.settings) s in
    (
      value,
      ap (λ q. or_blank (world_error q.0) (record s { world = q.1 }))
            (get_global_setting_ok dns_config_setting_key s.world h)
          ∙ e,
    )

resolved_host_ok :
    (parse_url : Str → Option Url) (value : Option Str) (w : World)
    → (host : Str) × (resolved_host parse_url (found value) w ≡ (ok host, w))
unfolding resolved_host found
resolved_host_ok parse_url none w = ([], refl)
resolved_host_ok parse_url (some value) w = (_, refl)

pub resolve_system_host-Reads :
    (parse_url : Str → Option Url) (s : ServerState)
    → s.world.faults ≡ []
    → Reads (on_world (resolve_system_host parse_url)) s
unfolding resolve_system_host world_error
resolve_system_host-Reads parse_url s h =
    let (host, e) =
      resolved_host_ok parse_url (lookup system_host_setting_key s.world.settings) s.world in
    (
      host,
      ap (λ q. (world_error q.0, record s { world = q.1 }))
          (ap (λ q. resolved_host parse_url q.0 q.1)
              (get_global_setting_ok system_host_setting_key s.world h)
            ∙ e),
    )

pub list_device_inbounds-Reads :
    (sorting : Sorting DeviceInbound) (code : Str) (s : ServerState)
    → s.db.faults ≡ []
    → Reads (on_db (list_device_inbounds sorting code)) s
unfolding list_device_inbounds
list_device_inbounds-Reads sorting code s h =
    list-Reads
      (λ t.
        sorting.sort_slice binding_less (keep (λ b. equal b.device_code code) t.device_inbounds))
      s h

pub list_inbounds-Reads : (s : ServerState) → s.db.faults ≡ [] → Reads (on_db list_inbounds) s
unfolding list_inbounds list_rows
list_inbounds-Reads s h = list-Reads (λ t. t.inbounds) s h

pub list_wire_guard_peers-Reads :
    (sorting : Sorting WireGuardPeer) (tag : Str) (s : ServerState)
    → s.db.faults ≡ []
    → Reads (on_db (list_wire_guard_peers sorting tag)) s
unfolding list_wire_guard_peers
list_wire_guard_peers-Reads sorting tag s h =
    list-Reads
      (λ t.
        sorting.sort_slice peer_before (keep (λ p. equal p.wire_guard_tag tag) t.wire_guard_peers))
      s h

pub list_node_groups-Reads : (s : ServerState) → s.db.faults ≡ [] → Reads (on_db list_node_groups) s
unfolding list_node_groups list_rows
list_node_groups-Reads s h = list-Reads (λ t. t.node_groups) s h

pub list_rule_sets-Reads : (s : ServerState) → s.db.faults ≡ [] → Reads (on_db list_rule_sets) s
unfolding list_rule_sets list_rows
list_rule_sets-Reads s h = list-Reads (λ t. t.rule_sets) s h

pub Reads-at :
    {E A B : Type 0} (m : Exec ServerState E A) (f : A → Exec ServerState E B) (s : ServerState)
    (a : A)
    → m s ≡ (ok a, s)
    → Reads (f a) s
    → Reads (m >>= f) s
Reads-at m f s a e (b, h) = (b, ap (λ q. follow q f) e ∙ h)

-- The action returns.
abbrev pub Returns : {E A : Type 0} → Exec ServerState E A → ServerState → Type 0
Returns {A = A} m s = (a : A) × (t : ServerState) × (m s ≡ (ok a, t))

pub Returns-at :
    {E A B : Type 0} (m : Exec ServerState E A) (f : A → Exec ServerState E B) (s t : ServerState)
    (a : A)
    → m s ≡ (ok a, t)
    → Returns (f a) t
    → Returns (m >>= f) s
Returns-at m f s t a e (b, u, h) = (b, u, ap (λ q. follow q f) e ∙ h)

pub Returns-read :
    {E A B : Type 0} (m : Exec ServerState E A) (f : A → Exec ServerState E B) (s : ServerState)
    → Reads m s
    → ((a : A) → Returns (f a) s)
    → Returns (m >>= f) s
Returns-read m f s (a, e) k = Returns-at m f s s a e (k a)

pub Reads-if :
    {E A : Type 0} (b : Bool) (m n : Exec ServerState E A) (s : ServerState)
    → Reads m s
    → Reads n s
    → Reads (if b then m else n) s
Reads-if true m n s h k = h
Reads-if false m n s h k = k

pub get_wire_guard_ok :
    (tag : Str) (s : ServerState)
    → s.db.faults ≡ []
    → attempt (on_db (get_wire_guard tag)) s
      ≡ (ok (db_error (first (find TableStore.wire_guards.keyed tag s.db.tables.wire_guards))), s)
unfolding get_wire_guard get_row
get_wire_guard_ok tag s h =
    ap (λ q. (ok (db_error q.0), record s { db = q.1 }))
      (query_ok (λ t. first (find TableStore.wire_guards.keyed tag t.wire_guards)) s.db h)

pub or_default_wire_guard-Reads :
    (tag : Str) (row : Option WireGuard) (s : ServerState)
    → Reads (or_default_wire_guard tag (db_error (first row))) s
unfolding or_default_wire_guard db_error first
or_default_wire_guard-Reads tag none s = (_, refl)
or_default_wire_guard-Reads tag (some row) s = (_, refl)

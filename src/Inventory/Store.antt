-- ===== src/Inventory/Store.antt =====
-- storage/database.go: the tables of devices, inbounds, their bindings, WireGuard templates and
-- peers, node groups and rule sets. A statement may fail; a transaction is kept or undone as
-- a whole. The other tables are in Auth/World (settings) and Cache/Store (subscriptions, outbounds).
use singboxconfig.Prelude.{ℕ, Str, Bool, true, false, List, [], ◌∷◌, Option, none, some, equal}
use singboxconfig.Prelude.Int.{ℤ, eqb_ℤ}
use singboxconfig.Prelude.Exec.{Result, ok, err, Exec}
use singboxconfig.Entity.{
  Device, Inbound, DeviceInbound, WireGuard, WireGuardPeer, NodeGroup, RuleSet,
}
use singboxconfig.Inventory.Table.{Keyed, Command, create, change, erase, find, run}

-- `storage.ErrNotFound`, and any other error of the storage.
pub data StorageError : Type 0 where
  not_found storage_failed : StorageError

-- `next_peer_id` is the id of the next peer that is created without one.
pub record Tables : Type 0 where
  pub devices : List Device
  pub inbounds : List Inbound
  pub device_inbounds : List DeviceInbound
  pub wire_guards : List WireGuard
  pub wire_guard_peers : List WireGuardPeer
  pub next_peer_id : ℕ
  pub node_groups : List NodeGroup
  pub rule_sets : List RuleSet

-- `faults` has the outcome of each coming storage call (true: it fails).
pub record Db : Type 0 where
  pub tables : Tables
  pub faults : List Bool

abbrev pub M : Type 0 → Type 0
M A = Exec Db StorageError A

unfoldable pub storage_call :
    {A : Type 0} → List Bool → (Tables → Result StorageError A × Tables) → M A
storage_call [] f db = let (r, t) = f db.tables in (r, record db { tables = t })
storage_call (true ∷ faults) f db = (err storage_failed, record db { faults = faults })
storage_call (false ∷ faults) f db =
    let (r, t) = f db.tables in (r, record { tables = t; faults = faults })

-- A query, and a statement that writes.
unfoldable pub query : {A : Type 0} → (Tables → Result StorageError A) → M A
unfolding storage_call
query f db = storage_call db.faults (λ t. (f t, t)) db

unfoldable pub statement : {A : Type 0} → (Tables → Result StorageError A × Tables) → M A
unfolding storage_call
statement f db = storage_call db.faults f db

-- `First`
unfoldable pub first : {A : Type 0} → Option A → Result StorageError A
first none = err not_found
first (some row) = ok row

-- one table among the others
pub record Slot (K A : Type 0) : Type 0 where
  pub keyed : Keyed K A
  pub rows : Tables → List A
  pub with_rows : List A → Tables → Tables

-- the error of a refused creation, and `RowsAffected == 0`
unfoldable pub written : Bool → StorageError → Result StorageError (Unit {0})
written true e = ok tt
written false e = err e

module _ {K A : Type 0} (s : Slot K A) where
  unfoldable pub get_row : K → M A
  get_row k = query (λ t. first (find s.keyed k (s.rows t)))

  unfoldable pub list_rows : M (List A)
  list_rows = query (λ t. ok (s.rows t))

  unfoldable pub execute : StorageError → Command K A → M (Unit {0})
  execute e command = statement (λ t.
      let (rows, done) = run s.keyed command (s.rows t) in (written done e, s.with_rows rows t))

  unfoldable pub create_row : A → M (Unit {0})
  create_row row = execute storage_failed (create row)

  unfoldable pub update_row : K → (A → A) → M (Unit {0})
  update_row k f = execute not_found (change k f)

  unfoldable pub delete_row : K → M (Unit {0})
  delete_row k = execute not_found (erase k)

abbrev pub devices : Slot Str Device
devices = record {
  keyed = record { same_key = equal; key = λ row. row.code };
  rows = λ t. t.devices;
  with_rows = λ rows t. record t { devices = rows };
}

abbrev pub inbounds : Slot Str Inbound
inbounds = record {
  keyed = record { same_key = equal; key = λ row. row.tag };
  rows = λ t. t.inbounds;
  with_rows = λ rows t. record t { inbounds = rows };
}

abbrev pub wire_guards : Slot Str WireGuard
wire_guards = record {
  keyed = record { same_key = equal; key = λ row. row.tag };
  rows = λ t. t.wire_guards;
  with_rows = λ rows t. record t { wire_guards = rows };
}

abbrev pub wire_guard_peers : Slot ℤ WireGuardPeer
wire_guard_peers = record {
  keyed = record { same_key = eqb_ℤ; key = λ row. row.id };
  rows = λ t. t.wire_guard_peers;
  with_rows = λ rows t. record t { wire_guard_peers = rows };
}

abbrev pub node_groups : Slot Str NodeGroup
node_groups = record {
  keyed = record { same_key = equal; key = λ row. row.tag };
  rows = λ t. t.node_groups;
  with_rows = λ rows t. record t { node_groups = rows };
}

abbrev pub rule_sets : Slot Str RuleSet
rule_sets = record {
  keyed = record { same_key = equal; key = λ row. row.tag };
  rows = λ t. t.rule_sets;
  with_rows = λ rows t. record t { rule_sets = rows };
}

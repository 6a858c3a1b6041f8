-- ===== src/Inventory/Linked.antt =====
-- The writes of the storage methods keep the references between the tables.
pub mod Methods
pub mod Steps
pub mod Handlers
pub mod Checked
use singboxconfig.Prelude.{
  ℕ, suc, Str, Bool, true, false, not, ◌&&◌, ◌||◌, List, [], ◌∷◌, ◌++◌, Option, none, some, ◌≡◌,
  refl, ◌∙◌, sym, ap, arith, any, all, keep, equal, equal_iff, equal_refl, any-append, all-append,
  all-keep, all-implies, if◌then◌else◌,
}
use singboxconfig.Prelude.Int.{ℤ, pos, eqb_ℤ, eqb_ℤ_iff}
use singboxconfig.Prelude.Exec.{Result, ok, err}
use singboxconfig.Prelude.Ensures.{Leaves, Ensures, Keeps}
use singboxconfig.Prelude.Sort.{Sorting}
use singboxconfig.Strings.{is_empty}
use singboxconfig.Entity.{
  Device, Inbound, DeviceInbound, WireGuard, WireGuardPeer, NodeGroup, RuleSet,
}
use singboxconfig.Inventory.Table.{Keyed, Command, create, change, erase, is_row, find, update, run}
use singboxconfig.Inventory.Store.{
  StorageError, not_found, storage_failed, Tables, Db, M, storage_call, query, statement, first,
  written, Slot, get_row, list_rows, execute, create_row, update_row, delete_row, devices, inbounds,
  wire_guards, wire_guard_peers, node_groups, rule_sets,
}
use singboxconfig.Inventory.Methods.{
  or_text, create_device, update_device, delete_with, delete_device, create_inbound, update_inbound,
  delete_inbound, create_bindings, set_bindings, set_device_inbounds, create_wire_guard,
  update_wire_guard, unbound, delete_wire_guard, peer_id, create_wire_guard_peer,
  update_wire_guard_peer, delete_wire_guard_peer,
}
use singboxconfig.Inventory.Links.{
  has_device, has_inbound, has_wire_guard, is_linked, has_template, IsLinked, any-erase, KeepsKey,
  devices-IsLinked, inbounds-IsLinked, wire_guards-IsLinked, delete_device-IsLinked,
  delete_inbound-IsLinked,
}

any-unbound :
    (tag code : Str) (rows : List Device)
    → any (is_row devices.keyed code) (unbound tag rows) ≡ any (is_row devices.keyed code) rows
unfolding unbound any
any-unbound tag code [] = refl
any-unbound tag code (row ∷ rows) = ground (arith, any-unbound tag code rows)

pub delete_wire_guard-IsLinked :
    (tag : Str) (t : Tables)
    → IsLinked t
    → IsLinked (record t {
      devices = unbound tag t.devices;
      wire_guard_peers = keep (λ p. not (equal p.wire_guard_tag tag)) t.wire_guard_peers;
      wire_guards = keep (λ row. not (is_row wire_guards.keyed tag row)) t.wire_guards;
    })
delete_wire_guard-IsLinked tag t h = record {
  bindings =
      all-implies (is_linked t)
        (λ b.
          any (is_row devices.keyed b.device_code) (unbound tag t.devices)
          && has_inbound t b.inbound_tag)
        (λ b e. ground (arith, any-unbound tag b.device_code t.devices)) t.device_inbounds
        h.bindings;
  peers =
      all-keep (has_template t) (λ p. not (equal p.wire_guard_tag tag))
        (λ p.
          any (is_row wire_guards.keyed p.wire_guard_tag)
            (keep (λ row. not (is_row wire_guards.keyed tag row)) t.wire_guards))
        (λ p e n. ground (arith, any-erase (λ w. w.tag) p.wire_guard_tag tag t.wire_guards))
        t.wire_guard_peers h.peers;
}

-- The bindings that a handler has checked.
abbrev pub all_linked : Tables → List (Option DeviceInbound) → Bool
all_linked t [] = true
all_linked t (none ∷ bindings) = all_linked t bindings
all_linked t (some b ∷ bindings) = is_linked t b && all_linked t bindings

abbrev pub all_of : (DeviceInbound → Bool) → Option (List DeviceInbound) → Bool
all_of p none = true
all_of p (some rows) = all p rows

pub create_bindings-linked :
    (t : Tables) (bindings : List (Option DeviceInbound)) (rows : List DeviceInbound)
    → all_linked t bindings ≡ true
    → all (is_linked t) rows ≡ true
    → all_of (is_linked t) (create_bindings bindings rows) ≡ true
unfolding create_bindings
create_bindings-linked t [] rows b h = h
create_bindings-linked t (none ∷ bindings) rows b h = create_bindings-linked t bindings rows b h
create_bindings-linked t (some x ∷ bindings) rows b h = ground (
  arith,
  create_bindings-linked t bindings (rows ++ (x ∷ [])) (ground arith)
      (all-append (is_linked t) rows (x ∷ []) ∙ (unfold all in ground arith)),
)

pub set_bindings-IsLinked :
    (t : Tables) (rows : Option (List DeviceInbound))
    → all_of (is_linked t) rows ≡ true
    → IsLinked t
    → IsLinked (set_bindings rows t).1
unfolding set_bindings
set_bindings-IsLinked t none e h = h
set_bindings-IsLinked t (some rows) e h = record { bindings = e; peers = h.peers }

-- Peers with a template, after a statement on them.
pub peers-IsLinked :
    (t : Tables) (rows : List WireGuardPeer) (next : ℕ)
    → all (has_template t) rows ≡ true
    → IsLinked t
    → IsLinked (record t { wire_guard_peers = rows; next_peer_id = next })
peers-IsLinked t rows next e h = record { bindings = h.bindings; peers = e }

pub all-create_peer :
    (t : Tables) (row : WireGuardPeer) (rows : List WireGuardPeer)
    → has_template t row ≡ true
    → all (has_template t) rows ≡ true
    → all (has_template t) (run wire_guard_peers.keyed (create row) rows).0 ≡ true
unfolding run all
all-create_peer t row rows h e = ground (arith, all-append (has_template t) rows (row ∷ []))

pub all-change_peer :
    (t : Tables) (k : ℤ) (f : WireGuardPeer → WireGuardPeer) (rows : List WireGuardPeer)
    → ((row : WireGuardPeer) → has_template t row ≡ true → has_template t (f row) ≡ true)
    → all (has_template t) rows ≡ true
    → all (has_template t) (update wire_guard_peers.keyed k f rows) ≡ true
unfolding update all
all-change_peer t k f [] h e = e
all-change_peer t k f (row ∷ rows) h e = ground (arith, h row, all-change_peer t k f rows h)

-- The invariant of the handlers.
abbrev pub Linked : Db → Type 0
Linked db = IsLinked db.tables

-- A query keeps whatever holds of the tables; a statement keeps what its function keeps.
pub query-Ensures :
    {A : Type 0} (P : Tables → Type 0) (f : Tables → Result StorageError A) (db : Db)
    → P db.tables
    → P (query f db).1.tables
unfolding query storage_call
query-Ensures P f db h = go db.faults
  where
    go : (faults : List Bool) → P (storage_call faults (λ t. (f t, t)) db).1.tables
    go [] = h
    go (true ∷ faults) = h
    go (false ∷ faults) = h

pub statement-Linked :
    {A : Type 0} (f : Tables → Result StorageError A × Tables) (db : Db)
    → IsLinked db.tables
    → IsLinked (f db.tables).1
    → IsLinked (statement f db).1.tables
unfolding statement storage_call
statement-Linked f db h k = go db.faults
  where
    go : (faults : List Bool) → IsLinked (storage_call faults f db).1.tables
    go [] = k
    go (true ∷ faults) = h
    go (false ∷ faults) = k

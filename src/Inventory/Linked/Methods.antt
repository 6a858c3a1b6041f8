-- ===== src/Inventory/Linked/Methods.antt =====
-- Each storage method keeps the references between the tables.
use singboxconfig.Prelude.{
  Str, Bool, true, false, not, List, Option, ◌≡◌, refl, arith, any, keep, equal, all-keep,
}
use singboxconfig.Prelude.Int.{ℤ}
use singboxconfig.Prelude.Exec.{Result, ok}
use singboxconfig.Entity.{
  Device, Inbound, DeviceInbound, WireGuard, WireGuardPeer, NodeGroup, RuleSet,
}
use singboxconfig.Inventory.Table.{Command, create, change, erase, is_row, find, run}
use singboxconfig.Inventory.Store.{
  StorageError, not_found, storage_failed, Tables, Db, M, query, first, Slot, get_row, list_rows,
  execute, create_row, update_row, delete_row, devices, inbounds, wire_guards, wire_guard_peers,
  node_groups, rule_sets,
}
use singboxconfig.Inventory.Methods.{
  delete_with, create_bindings, create_device, update_device, delete_device, create_inbound,
  update_inbound, delete_inbound, set_device_inbounds, create_wire_guard, update_wire_guard,
  delete_wire_guard, create_wire_guard_peer, update_wire_guard_peer, delete_wire_guard_peer,
  create_node_group, update_node_group, delete_node_group, create_rule_set, update_rule_set,
  delete_rule_set,
}
use singboxconfig.Inventory.Links.{
  has_wire_guard, is_linked, has_template, IsLinked, devices-IsLinked, inbounds-IsLinked,
  wire_guards-IsLinked, delete_device-IsLinked, delete_inbound-IsLinked,
}
use singboxconfig.Inventory.Linked.{
  delete_wire_guard-IsLinked, all_linked, create_bindings-linked, set_bindings-IsLinked,
  peers-IsLinked, all-create_peer, all-change_peer, Linked, query-Ensures, statement-Linked,
}

-- The method keeps the references.
abbrev pub StaysLinked : {A : Type 0} → M A → Type 0
StaysLinked m = (db : Db) → Linked db → Linked (m db).1

pub query-StaysLinked : {A : Type 0} (f : Tables → Result StorageError A) → StaysLinked (query f)
query-StaysLinked f db h = query-Ensures IsLinked f db h

pub get_row-StaysLinked : {K A : Type 0} (s : Slot K A) (k : K) → StaysLinked (get_row s k)
unfolding get_row
get_row-StaysLinked s k = query-StaysLinked (λ t. first (find s.keyed k (s.rows t)))

pub list_rows-StaysLinked : {K A : Type 0} (s : Slot K A) → StaysLinked (list_rows s)
unfolding list_rows
list_rows-StaysLinked s = query-StaysLinked (λ t. ok (s.rows t))

-- a statement on one table that keeps them
abbrev WritesLinked : {K A : Type 0} → Slot K A → Command K A → Type 0
WritesLinked s command =
    (t : Tables) → IsLinked t → IsLinked (s.with_rows (run s.keyed command (s.rows t)).0 t)

execute-StaysLinked :
    {K A : Type 0} (s : Slot K A) (e : StorageError) (command : Command K A)
    → WritesLinked s command
    → StaysLinked (execute s e command)
unfolding execute
execute-StaysLinked s e command w db h = statement-Linked _ db h (w db.tables h)

delete_with-IsLinked :
    (done : Bool) (before after : Tables)
    → IsLinked before
    → IsLinked after
    → IsLinked (delete_with done before after).1
unfolding delete_with
delete_with-IsLinked true before after h k = k
delete_with-IsLinked false before after h k = h

pub create_device-StaysLinked : (device : Device) → StaysLinked (create_device device)
unfolding create_device create_row
create_device-StaysLinked device =
    execute-StaysLinked devices storage_failed (create (record device { enabled = true }))
      (λ t h. devices-IsLinked (create (record device { enabled = true })) t tt h)

pub update_device-StaysLinked : (device : Device) → StaysLinked (update_device device)
unfolding update_device update_row
update_device-StaysLinked device =
    execute-StaysLinked devices not_found (change device.code _)
      (λ t h. devices-IsLinked (change device.code _) t (λ row. refl) h)

pub delete_device-StaysLinked : (code : Str) → StaysLinked (delete_device code)
unfolding delete_device run
delete_device-StaysLinked code db h = statement-Linked _ db h (
    delete_with-IsLinked (any (is_row devices.keyed code) db.tables.devices) db.tables _ h
      (delete_device-IsLinked code db.tables h))

pub create_inbound-StaysLinked : (inbound : Inbound) → StaysLinked (create_inbound inbound)
unfolding create_inbound create_row
create_inbound-StaysLinked inbound =
    execute-StaysLinked inbounds storage_failed (create (record inbound { enabled = true }))
      (λ t h. inbounds-IsLinked (create (record inbound { enabled = true })) t tt h)

pub update_inbound-StaysLinked : (inbound : Inbound) → StaysLinked (update_inbound inbound)
unfolding update_inbound update_row
update_inbound-StaysLinked inbound =
    execute-StaysLinked inbounds not_found (change inbound.tag _)
      (λ t h. inbounds-IsLinked (change inbound.tag _) t (λ row. refl) h)

pub delete_inbound-StaysLinked : (tag : Str) → StaysLinked (delete_inbound tag)
unfolding delete_inbound run
delete_inbound-StaysLinked tag db h = statement-Linked _ db h (
    delete_with-IsLinked (any (is_row inbounds.keyed tag) db.tables.inbounds) db.tables _ h
      (delete_inbound-IsLinked tag db.tables h))

pub create_wire_guard-StaysLinked : (item : WireGuard) → StaysLinked (create_wire_guard item)
unfolding create_wire_guard create_row
create_wire_guard-StaysLinked item =
    execute-StaysLinked wire_guards storage_failed (create (record item { enabled = true }))
      (λ t h. wire_guards-IsLinked (create (record item { enabled = true })) t tt h)

pub update_wire_guard-StaysLinked : (item : WireGuard) → StaysLinked (update_wire_guard item)
unfolding update_wire_guard update_row
update_wire_guard-StaysLinked item =
    execute-StaysLinked wire_guards not_found (change item.tag _)
      (λ t h. wire_guards-IsLinked (change item.tag _) t (λ row. refl) h)

pub delete_wire_guard-StaysLinked : (tag : Str) → StaysLinked (delete_wire_guard tag)
unfolding delete_wire_guard run
delete_wire_guard-StaysLinked tag db h = statement-Linked _ db h (
    delete_with-IsLinked (any (is_row wire_guards.keyed tag) db.tables.wire_guards) db.tables _ h
      (delete_wire_guard-IsLinked tag db.tables h))

-- The bindings must be linked.
pub set_device_inbounds-Linked :
    (code : Str) (bindings : List (Option DeviceInbound)) (db : Db)
    → Linked db
    → all_linked db.tables bindings ≡ true
    → Linked (set_device_inbounds code bindings db).1
unfolding set_device_inbounds
set_device_inbounds-Linked code bindings db h b =
    let kept = keep (λ x. not (equal x.device_code code)) db.tables.device_inbounds in
    statement-Linked _ db h (
      set_bindings-IsLinked db.tables (create_bindings bindings kept)
        (create_bindings-linked db.tables bindings kept b (
          all-keep (is_linked db.tables) (λ x. not (equal x.device_code code)) (is_linked db.tables)
            (λ x e n. e) db.tables.device_inbounds h.bindings))
        h)

-- The template of the peer must be stored.
pub create_wire_guard_peer-Linked :
    (item : WireGuardPeer) (db : Db)
    → Linked db
    → has_wire_guard db.tables item.wire_guard_tag ≡ true
    → Linked (create_wire_guard_peer item db).1
unfolding create_wire_guard_peer
create_wire_guard_peer-Linked item db h b = statement-Linked _ db h (
    peers-IsLinked db.tables _ _ (all-create_peer db.tables _ db.tables.wire_guard_peers b h.peers)
      h)

pub update_wire_guard_peer-Linked :
    (new : WireGuardPeer) (db : Db)
    → Linked db
    → has_wire_guard db.tables new.wire_guard_tag ≡ true
    → Linked (update_wire_guard_peer new db).1
unfolding update_wire_guard_peer update_row execute run
update_wire_guard_peer-Linked new db h b = statement-Linked _ db h (
    peers-IsLinked db.tables _ db.tables.next_peer_id
      (all-change_peer db.tables new.id _ db.tables.wire_guard_peers (λ row e. ground arith)
        h.peers)
      h)

pub delete_wire_guard_peer-StaysLinked : (id : ℤ) → StaysLinked (delete_wire_guard_peer id)
unfolding delete_wire_guard_peer delete_row execute run
delete_wire_guard_peer-StaysLinked id db h = statement-Linked _ db h (
    peers-IsLinked db.tables _ db.tables.next_peer_id
      (all-keep (has_template db.tables) (λ row. not (is_row wire_guard_peers.keyed id row))
        (has_template db.tables) (λ p e n. e) db.tables.wire_guard_peers h.peers)
      h)

-- A statement on a table that nothing refers to.
node_groups-StaysLinked :
    (e : StorageError) (command : Command Str NodeGroup)
    → StaysLinked (execute node_groups e command)
node_groups-StaysLinked e command =
    execute-StaysLinked node_groups e command
      (λ t h. record { bindings = h.bindings; peers = h.peers })

rule_sets-StaysLinked :
    (e : StorageError) (command : Command Str RuleSet) → StaysLinked (execute rule_sets e command)
rule_sets-StaysLinked e command =
    execute-StaysLinked rule_sets e command
      (λ t h. record { bindings = h.bindings; peers = h.peers })

pub create_node_group-StaysLinked : (group : NodeGroup) → StaysLinked (create_node_group group)
unfolding create_node_group create_row
create_node_group-StaysLinked group = node_groups-StaysLinked storage_failed (create group)

pub update_node_group-StaysLinked : (group : NodeGroup) → StaysLinked (update_node_group group)
unfolding update_node_group update_row
update_node_group-StaysLinked group = node_groups-StaysLinked not_found (change group.tag _)

pub delete_node_group-StaysLinked : (tag : Str) → StaysLinked (delete_node_group tag)
unfolding delete_node_group delete_row
delete_node_group-StaysLinked tag = node_groups-StaysLinked not_found (erase tag)

pub create_rule_set-StaysLinked : (rule_set : RuleSet) → StaysLinked (create_rule_set rule_set)
unfolding create_rule_set create_row
create_rule_set-StaysLinked rule_set = rule_sets-StaysLinked storage_failed (create rule_set)

pub update_rule_set-StaysLinked : (rule_set : RuleSet) → StaysLinked (update_rule_set rule_set)
unfolding update_rule_set update_row
update_rule_set-StaysLinked rule_set = rule_sets-StaysLinked not_found (change rule_set.tag _)

pub delete_rule_set-StaysLinked : (tag : Str) → StaysLinked (delete_rule_set tag)
unfolding delete_rule_set delete_row
delete_rule_set-StaysLinked tag = rule_sets-StaysLinked not_found (erase tag)

-- ===== src/Inventory/Served.antt =====
-- Sequences of requests to the admin API for the tables.
use singboxconfig.Prelude.{List, [], ◌∷◌}
use singboxconfig.Prelude.Exec.{Result, ok, err}
use singboxconfig.Prelude.Ensures.{Leaves, Keeps}
use singboxconfig.Inventory.Store.{Db}
use singboxconfig.Inventory.Handlers.{Body, Status}
use singboxconfig.Inventory.Requests.{Sorters, InventoryRequest, dispatch}
use singboxconfig.Inventory.Links.{IsLinked}
use singboxconfig.Inventory.Linked.{Linked}
use singboxconfig.Inventory.Linked.Handlers
use singboxconfig.Inventory.Linked.Checked

dispatch-Keeps : (x : Sorters) (request : InventoryRequest) → Keeps Linked (dispatch x request)
dispatch-Keeps x (InventoryRequest.create_device body) = Handlers.post_device-Keeps body
dispatch-Keeps x (InventoryRequest.get_device code) = Handlers.fetch_device-Keeps code
dispatch-Keeps x InventoryRequest.list_devices = Handlers.fetch_devices-Keeps x.devices
dispatch-Keeps x (InventoryRequest.update_device path body) = Handlers.put_device-Keeps path body
dispatch-Keeps x (InventoryRequest.delete_device code) = Handlers.remove_device-Keeps code
dispatch-Keeps x (InventoryRequest.create_inbound body) = Handlers.post_inbound-Keeps body
dispatch-Keeps x (InventoryRequest.get_inbound tag) = Handlers.fetch_inbound-Keeps tag
dispatch-Keeps x InventoryRequest.list_inbounds = Handlers.fetch_inbounds-Keeps x.inbounds
dispatch-Keeps x (InventoryRequest.update_inbound path body) = Handlers.put_inbound-Keeps path body
dispatch-Keeps x (InventoryRequest.delete_inbound tag) = Handlers.remove_inbound-Keeps tag
dispatch-Keeps x (InventoryRequest.set_device_inbounds code body) =
    Checked.put_device_inbounds-Keeps code body
dispatch-Keeps x (InventoryRequest.list_device_inbounds code) =
    Handlers.fetch_device_inbounds-Keeps x.bindings code
dispatch-Keeps x (InventoryRequest.create_wire_guard body) = Handlers.post_wire_guard-Keeps body
dispatch-Keeps x (InventoryRequest.get_wire_guard tag) = Handlers.fetch_wire_guard-Keeps tag
dispatch-Keeps x InventoryRequest.list_wire_guards = Handlers.fetch_wire_guards-Keeps x.wire_guards
dispatch-Keeps x (InventoryRequest.update_wire_guard path body) =
    Handlers.put_wire_guard-Keeps path body
dispatch-Keeps x (InventoryRequest.delete_wire_guard tag) = Handlers.remove_wire_guard-Keeps tag
dispatch-Keeps x (InventoryRequest.create_peer tag body) = Checked.post_peer-Keeps tag body
dispatch-Keeps x (InventoryRequest.list_peers tag) = Handlers.fetch_peers-Keeps x.peers tag
dispatch-Keeps x (InventoryRequest.update_peer tag id body) = Checked.put_peer-Keeps tag id body
dispatch-Keeps x (InventoryRequest.delete_peer tag id) = Handlers.remove_peer-Keeps tag id
dispatch-Keeps x (InventoryRequest.create_node_group body) = Handlers.post_node_group-Keeps body
dispatch-Keeps x (InventoryRequest.update_node_group body) = Handlers.put_node_group-Keeps body
dispatch-Keeps x (InventoryRequest.delete_node_group tag) = Handlers.remove_node_group-Keeps tag
dispatch-Keeps x InventoryRequest.list_node_groups = Handlers.fetch_node_groups-Keeps
dispatch-Keeps x (InventoryRequest.create_rule_set body) = Handlers.post_rule_set-Keeps body
dispatch-Keeps x (InventoryRequest.update_rule_set body) = Handlers.put_rule_set-Keeps body
dispatch-Keeps x (InventoryRequest.delete_rule_set tag) = Handlers.remove_rule_set-Keeps tag
dispatch-Keeps x (InventoryRequest.get_rule_set tag) =
    Handlers.fetch_rule_set_by_tag-Keeps x.raw_message tag
dispatch-Keeps x InventoryRequest.list_rule_sets = Handlers.fetch_rule_sets-Keeps x.rule_sets

-- The state after the requests, whatever they were answered.
abbrev pub serve_all : Sorters → List InventoryRequest → Db → Db
serve_all x [] db = db
serve_all x (request ∷ requests) db = serve_all x requests (dispatch x request db).1

answer-Linked :
    (r : Result Status Body) (db : Db) → Leaves {S = Db} Linked (λ b. Linked) (r, db) → Linked db
answer-Linked (ok body) db h = h
answer-Linked (err status) db h = h

-- No sequence of requests to the routes of devices, inbounds, bindings, WireGuard templates, peers,
-- node groups and rule sets, served one after the other, and no failure of the storage on the way,
-- leaves a binding whose device or inbound is not stored, or a peer whose template is not stored,
-- where there was none before. An import of a configuration is not among these requests.
pub serve_all-IsLinked :
    (x : Sorters) (requests : List InventoryRequest) (db : Db)
    → IsLinked db.tables
    → IsLinked (serve_all x requests db).tables
serve_all-IsLinked x [] db h = h
serve_all-IsLinked x (request ∷ requests) db h =
    serve_all-IsLinked x requests (dispatch x request db).1 (
      answer-Linked (dispatch x request db).0 (dispatch x request db).1
        ((dispatch-Keeps x request).at db h))

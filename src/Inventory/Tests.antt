-- ===== src/Inventory/Tests.antt =====
-- Two devices, an inbound that is bound to one of them, and a template with a peer.
use singboxconfig.Prelude.{
  keep, Str, true, false, List, [], ◌∷◌, Option, some, ◌≡◌, refl, codes, equal, all, any,
}
use singboxconfig.Prelude.Int.{pos}
use singboxconfig.Prelude.Exec.{ok, err}
use singboxconfig.Prelude.Sort.{insertion_sort}
use singboxconfig.Entity.{Device, Inbound, DeviceInbound, WireGuard, WireGuardPeer}
use singboxconfig.Inventory.Table.{run, find}
use singboxconfig.Inventory.Store.{Tables, Db, devices}
use singboxconfig.Inventory.Handlers.{Status, Body}
use singboxconfig.Inventory.Handlers.Answers
use singboxconfig.Inventory.Handlers.Devices
use singboxconfig.Inventory.Methods
use singboxconfig.Inventory.Store
use singboxconfig.Inventory.Requests.{Sorters, InventoryRequest, dispatch}
use singboxconfig.Inventory.Links.{IsLinked}
use singboxconfig.Inventory.Served.{serve_all, serve_all-IsLinked}

abbrev device : Str → Device
device code = record {
  code = code;
  name = [];
  description = [];
  token = codes "t";
  enabled = true;
  sort = pos 0;
  wire_guard_tag = [];
  wire_guard_client_addr = [];
  wire_guard_client_key = [];
}

abbrev inbound : Inbound
inbound = record {
  tag = codes "tun";
  name = [];
  description = [];
  type = [];
  enabled = true;
  sort = pos 0;
  config_json = [];
}

abbrev binding : Str → Str → DeviceInbound
binding code tag = record { device_code = code; inbound_tag = tag; sort = pos 0 }

abbrev template : WireGuard
template = record {
  tag = codes "wg";
  name = [];
  description = [];
  enabled = true;
  sort = pos 0;
  endpoint_tag = [];
  mtu = pos 0;
}

abbrev peer : WireGuardPeer
peer = record {
  id = pos 1;
  wire_guard_tag = codes "wg";
  sort = pos 0;
  address = [];
  port = pos 0;
  public_key = [];
  pre_shared_key = [];
  allowed_ips = [];
  persistent_keepalive_interval = pos 0;
  enabled = true;
}

abbrev tables : Tables
tables = record {
  devices = device (codes "a") ∷ device (codes "b") ∷ [];
  inbounds = inbound ∷ [];
  device_inbounds = binding (codes "a") (codes "tun") ∷ [];
  wire_guards = template ∷ [];
  wire_guard_peers = peer ∷ [];
  next_peer_id = 2;
  node_groups = [];
  rule_sets = [];
}

-- the second storage call fails
abbrev db : Db
db = record { tables = tables; faults = false ∷ true ∷ [] }

abbrev sorters : Sorters
sorters = record {
  devices = insertion_sort;
  inbounds = insertion_sort;
  bindings = insertion_sort;
  wire_guards = insertion_sort;
  peers = insertion_sort;
  rule_sets = insertion_sort;
  raw_message = λ text. some text;
}

-- a binding during whose checks the storage fails, one that is saved, and the deletion of its
-- device
abbrev requests : List InventoryRequest
requests =
    InventoryRequest.set_device_inbounds (codes "b") (some (some (binding [] (codes "tun")) ∷ []))
    ∷ InventoryRequest.set_device_inbounds (codes "b") (some (some (binding [] (codes "tun")) ∷ []))
    ∷ InventoryRequest.delete_device (codes "b")
    ∷ []

tables-IsLinked : IsLinked tables
unfolding all any equal
tables-IsLinked = record { bindings = refl; peers = refl }

serve_all-IsLinked_example : IsLinked (serve_all sorters requests db).tables
serve_all-IsLinked_example = serve_all-IsLinked sorters requests db tables-IsLinked

-- the rows of a request
abbrev bindings : List (Option DeviceInbound)
bindings = some (binding [] (codes "tun")) ∷ []

abbrev calm : Db
calm = record db { faults = [] }

unknown_inbound_test :
    (dispatch sorters
      (InventoryRequest.set_device_inbounds (codes "b") (some (some (binding [] (codes "x")) ∷ [])))
      calm).0
    ≡ err Status.bad_request
unfolding Devices.put_device_inbounds Answers.or_missing Answers.missing_as
    singboxconfig.Inventory.Methods.get_device singboxconfig.Inventory.Store.get_row
    singboxconfig.Inventory.Store.query singboxconfig.Inventory.Store.first find equal Answers.bind
    Devices.check_bindings Answers.refuse_if Answers.differs Answers.must_exist Answers.existing_as
    singboxconfig.Inventory.Methods.get_inbound
unknown_inbound_test = refl

-- the binding gets the device of the path
saved_test :
    (dispatch sorters
      (InventoryRequest.set_device_inbounds (codes "b") (some bindings))
      calm).1.tables.device_inbounds
    ≡ (binding (codes "a") (codes "tun") ∷ binding (codes "b") (codes "tun") ∷ [])
unfolding find equal any keep Store.storage_call Store.query Store.statement Store.first
    Store.get_row Answers.bind Devices.put_device_inbounds Answers.or_missing Answers.missing_as
    Answers.or_failed Answers.failed_as Devices.check_bindings Answers.refuse_if Answers.differs
    Answers.must_exist Answers.existing_as Methods.get_device Methods.get_inbound
    Methods.set_device_inbounds Methods.create_bindings Methods.set_bindings
saved_test = refl

-- a device that is created as disabled is answered as such, and stored as enabled
created_test :
    let (r, after) =
      dispatch sorters
        (InventoryRequest.create_device (some (record (device (codes "c")) { enabled = false })))
        calm in
    (r ≡ ok (Body.one_device (record (device (codes "c")) { enabled = false })))
    × (find devices.keyed (codes "c") after.tables.devices ≡ some (device (codes "c")))
unfolding find equal any run Store.storage_call Store.query Store.statement Store.first
    Store.get_row Store.create_row Store.execute Store.written Answers.bind Devices.post_device
    Answers.must_be_new Answers.new_as Answers.or_failed Answers.failed_as Methods.get_device
    Methods.create_device
created_test = (refl, refl)

-- ===== src/Inventory/Linked/Steps.antt =====
-- The steps of a handler keep the references between the tables.
use singboxconfig.Prelude.{Str, Bool, true, false, List, [], ◌∷◌, Option, none, some, equal}
use singboxconfig.Prelude.Exec.{Result, ok, err}
use singboxconfig.Prelude.Ensures.{
  Leaves, Ensures, Keeps, Keeps-pure, Keeps-raise, Keeps-if, keeps_rules,
}
use singboxconfig.Prelude.Sort.{Sorting}
use singboxconfig.Entity.{DeviceInbound, WireGuardPeer, RuleSet}
use singboxconfig.Inventory.Store.{StorageError, Db, M}
use singboxconfig.Inventory.Methods.{
  get_device, list_devices, get_inbound, list_inbounds, list_device_inbounds, get_wire_guard,
  list_wire_guards, list_wire_guard_peers, get_node_group, list_node_groups, get_rule_set,
  list_rule_sets,
}
use singboxconfig.Inventory.Linked.{Linked}
use singboxconfig.Inventory.Linked.Methods.{
  StaysLinked, query-StaysLinked, get_row-StaysLinked, list_rows-StaysLinked,
  create_device-StaysLinked, update_device-StaysLinked, delete_device-StaysLinked,
  create_inbound-StaysLinked, update_inbound-StaysLinked, delete_inbound-StaysLinked,
  create_wire_guard-StaysLinked, update_wire_guard-StaysLinked, delete_wire_guard-StaysLinked,
  delete_wire_guard_peer-StaysLinked, create_node_group-StaysLinked, update_node_group-StaysLinked,
  delete_node_group-StaysLinked, create_rule_set-StaysLinked, update_rule_set-StaysLinked,
  delete_rule_set-StaysLinked,
}
use singboxconfig.Inventory.Handlers.{
  Status, answered, missing_as, failed_as, new_as, answer_raw, or_missing, or_failed, must_be_new,
  bind, refuse_if, content_of,
}

-- Whatever the handler makes of the outcome, the state is that of the storage call.
pub answered-Ensures :
    {A B : Type 0} {P : Db → Type 0} (f : Result StorageError A → Result Status B) (m : M A)
    → ((db : Db) → P db → Linked (m db).1)
    → Ensures Linked P (answered f m) (λ b. Linked)
answered-Ensures f m h = record { at = λ db l. go (f (m db).0) (m db).1 (h db l) }
  where
    go : {B : Type 0} (r : Result Status B) (d : Db) → Linked d → Leaves Linked (λ b. Linked) (r, d)
    go (ok b) d l = l
    go (err e) d l = l

pub or_missing-Keeps : {A : Type 0} (m : M A) → StaysLinked m → Keeps Linked (or_missing m)
unfolding or_missing
or_missing-Keeps m h = answered-Ensures missing_as m h

pub or_failed-Keeps : {A : Type 0} (m : M A) → StaysLinked m → Keeps Linked (or_failed m)
unfolding or_failed
or_failed-Keeps m h = answered-Ensures failed_as m h

pub must_be_new-Keeps : {A : Type 0} (m : M A) → StaysLinked m → Keeps Linked (must_be_new m)
unfolding must_be_new
must_be_new-Keeps m h = answered-Ensures new_as m h

pub bind-Keeps : {A : Type 0} (body : Option A) → Keeps Linked (bind body)
unfolding bind
bind-Keeps none = record { at = λ db l. l }
bind-Keeps (some a) = record { at = λ db l. l }

pub refuse_if-Keeps : (b : Bool) → Keeps Linked (refuse_if b)
unfolding refuse_if
refuse_if-Keeps true = record { at = λ db l. l }
refuse_if-Keeps false = record { at = λ db l. l }

pub get_device-StaysLinked : (code : Str) → StaysLinked (get_device code)
unfolding get_device
get_device-StaysLinked code = get_row-StaysLinked _ code

pub get_inbound-StaysLinked : (tag : Str) → StaysLinked (get_inbound tag)
unfolding get_inbound
get_inbound-StaysLinked tag = get_row-StaysLinked _ tag

pub get_wire_guard-StaysLinked : (tag : Str) → StaysLinked (get_wire_guard tag)
unfolding get_wire_guard
get_wire_guard-StaysLinked tag = get_row-StaysLinked _ tag

pub get_node_group-StaysLinked : (tag : Str) → StaysLinked (get_node_group tag)
unfolding get_node_group
get_node_group-StaysLinked tag = get_row-StaysLinked _ tag

pub get_rule_set-StaysLinked : (tag : Str) → StaysLinked (get_rule_set tag)
unfolding get_rule_set
get_rule_set-StaysLinked tag = get_row-StaysLinked _ tag

pub list_devices-StaysLinked : StaysLinked list_devices
unfolding list_devices
list_devices-StaysLinked = list_rows-StaysLinked _

pub list_inbounds-StaysLinked : StaysLinked list_inbounds
unfolding list_inbounds
list_inbounds-StaysLinked = list_rows-StaysLinked _

pub list_wire_guards-StaysLinked : StaysLinked list_wire_guards
unfolding list_wire_guards
list_wire_guards-StaysLinked = list_rows-StaysLinked _

pub list_node_groups-StaysLinked : StaysLinked list_node_groups
unfolding list_node_groups
list_node_groups-StaysLinked = list_rows-StaysLinked _

pub list_rule_sets-StaysLinked : StaysLinked list_rule_sets
unfolding list_rule_sets
list_rule_sets-StaysLinked = list_rows-StaysLinked _

pub list_device_inbounds-StaysLinked :
    (sorting : Sorting DeviceInbound) (code : Str) → StaysLinked (list_device_inbounds sorting code)
unfolding list_device_inbounds
list_device_inbounds-StaysLinked sorting code = query-StaysLinked _

pub list_wire_guard_peers-StaysLinked :
    (sorting : Sorting WireGuardPeer) (tag : Str) → StaysLinked (list_wire_guard_peers sorting tag)
unfolding list_wire_guard_peers
list_wire_guard_peers-StaysLinked sorting tag = query-StaysLinked _

pub answer_raw-Keeps : (content : Option Str) → Keeps Linked (answer_raw content)
unfolding answer_raw
answer_raw-Keeps none = Keeps-raise _
answer_raw-Keeps (some json) = Keeps-pure _

pub content_of-Keeps :
    (raw : Str → Option Str) (tag : Str) (rows : List RuleSet)
    → Keeps Linked (content_of raw tag rows)
unfolding content_of
content_of-Keeps raw tag [] = Keeps-raise _
content_of-Keeps raw tag (row ∷ rows) =
    Keeps-if (equal row.tag tag) (answer_raw (raw row.content)) (content_of raw tag rows)
      (answer_raw-Keeps (raw row.content)) (content_of-Keeps raw tag rows)

pub ruleset linked_rules = (
  keeps_rules, bind-Keeps, refuse_if-Keeps, or_missing-Keeps, or_failed-Keeps, must_be_new-Keeps,
  content_of-Keeps, get_device-StaysLinked, get_inbound-StaysLinked, get_wire_guard-StaysLinked,
  get_node_group-StaysLinked, get_rule_set-StaysLinked, list_devices-StaysLinked,
  list_inbounds-StaysLinked, list_wire_guards-StaysLinked, list_node_groups-StaysLinked,
  list_rule_sets-StaysLinked, list_device_inbounds-StaysLinked, list_wire_guard_peers-StaysLinked,
  create_device-StaysLinked, update_device-StaysLinked, delete_device-StaysLinked,
  create_inbound-StaysLinked, update_inbound-StaysLinked, delete_inbound-StaysLinked,
  create_wire_guard-StaysLinked, update_wire_guard-StaysLinked, delete_wire_guard-StaysLinked,
  delete_wire_guard_peer-StaysLinked, create_node_group-StaysLinked, update_node_group-StaysLinked,
  delete_node_group-StaysLinked, create_rule_set-StaysLinked, update_rule_set-StaysLinked,
  delete_rule_set-StaysLinked,
)

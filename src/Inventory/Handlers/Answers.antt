-- ===== src/Inventory/Handlers/Answers.antt =====
-- What a handler answers, and its steps: an early answer where a check fails is the error of its
-- action.
use singboxconfig.Prelude.{Str, Bool, not, ◌&&◌, List, Option, none, some, equal, if◌then◌else◌}
use singboxconfig.Prelude.Exec.{Result, ok, err, Exec, pure, raise}
use singboxconfig.Strings.{is_empty}
use singboxconfig.Entity.{
  Device, Inbound, DeviceInbound, WireGuard, WireGuardPeer, NodeGroup, RuleSet,
}
use singboxconfig.Inventory.Store.{StorageError, not_found, storage_failed, Db, M}

-- What a handler writes with status 200, and its other statuses.
pub data Body : Type 0 where
  one_device : Device → Body
  all_devices : List Device → Body
  one_inbound : Inbound → Body
  all_inbounds : List Inbound → Body
  all_bindings : List DeviceInbound → Body
  saved_bindings : List (Option DeviceInbound) → Body
  one_wire_guard : WireGuard → Body
  all_wire_guards : List WireGuard → Body
  one_peer : WireGuardPeer → Body
  all_peers : List WireGuardPeer → Body
  one_node_group : NodeGroup → Body
  all_node_groups : List NodeGroup → Body
  one_rule_set : RuleSet → Body
  all_rule_sets : List RuleSet → Body
  raw_json : Str → Body
  deleted : Body

pub data Status : Type 0 where
  bad_request missing internal_server_error : Status

abbrev pub Handler : Type 0 → Type 0
Handler A = Exec Db Status A

-- `handleStorageNotFound`
unfoldable pub status_of : StorageError → Status
status_of not_found = missing
status_of storage_failed = internal_server_error

unfoldable pub missing_as : {A : Type 0} → Result StorageError A → Result Status A
missing_as (ok a) = ok a
missing_as (err e) = err (status_of e)

unfoldable pub failed_as : {A : Type 0} → Result StorageError A → Result Status A
failed_as (ok a) = ok a
failed_as (err e) = err internal_server_error

-- the outcome of the look-up before a creation: the key must not be stored
unfoldable pub new_as : {A : Type 0} → Result StorageError A → Result Status (Unit {0})
new_as (ok a) = err bad_request
new_as (err not_found) = ok tt
new_as (err storage_failed) = err internal_server_error

-- a look-up whose missing row is a bad request
unfoldable pub existing_as : {A : Type 0} → Result StorageError A → Result Status (Unit {0})
existing_as (ok a) = ok tt
existing_as (err not_found) = err bad_request
existing_as (err storage_failed) = err internal_server_error

-- A storage call whose outcome the handler reads in one of these ways.
abbrev pub answered : {A B : Type 0} → (Result StorageError A → Result Status B) → M A → Handler B
answered f m db = let (r, d) = m db in (f r, d)

unfoldable pub or_missing : {A : Type 0} → M A → Handler A
or_missing m = answered missing_as m

unfoldable pub or_failed : {A : Type 0} → M A → Handler A
or_failed m = answered failed_as m

unfoldable pub must_be_new : {A : Type 0} → M A → Handler (Unit {0})
must_be_new m = answered new_as m

unfoldable pub must_exist : {A : Type 0} → M A → Handler (Unit {0})
must_exist m = answered existing_as m

-- `ShouldBindJSON`: the body is `none` where it does not bind
unfoldable pub bind : {A : Type 0} → Option A → Handler A
bind none = raise bad_request
bind (some a) = pure a

-- a test whose success ends the handler with 400
unfoldable pub refuse_if : Bool → Handler (Unit {0})
refuse_if b = if b then raise bad_request else pure tt

-- the key of the path, where there is one, must be that of the body
unfoldable pub differs : Str → Str → Bool
differs path body = not (is_empty path) && not (equal path body)

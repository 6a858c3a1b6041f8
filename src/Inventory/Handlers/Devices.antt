-- ===== src/Inventory/Handlers/Devices.antt =====
-- service/device_management.go: devices, inbounds and the bindings between them.
use singboxconfig.Prelude.{Str, Bool, List, [], ◌∷◌, Option, none, some, if◌then◌else◌}
use singboxconfig.Prelude.Int.{eqb_ℤ, ltb_ℤ}
use singboxconfig.Prelude.Exec.{pure, raise, ◌>>=◌, ◌>>◌}
use singboxconfig.Prelude.Sort.{Sorting, ltb_text}
use singboxconfig.Entity.{Device, Inbound, DeviceInbound}
use singboxconfig.Inventory.Methods.{
  create_device, get_device, list_devices, update_device, delete_device, create_inbound,
  get_inbound, list_inbounds, update_inbound, delete_inbound, set_device_inbounds,
  list_device_inbounds,
}
use singboxconfig.Inventory.Handlers.Answers.{
  one_device, all_devices, one_inbound, all_inbounds, all_bindings, saved_bindings, deleted,
  bad_request, Body, Handler, or_missing, or_failed, must_be_new, must_exist, bind, refuse_if,
  differs,
}

unfoldable pub post_device : Option Device → Handler Body
post_device body = do
  device ← bind body
  must_be_new (get_device device.code)
  or_failed (create_device device)
  pure (one_device device)

unfoldable pub fetch_device : Str → Handler Body
fetch_device code = do device ← or_missing (get_device code); pure (one_device device)

abbrev pub device_less : Device → Device → Bool
device_less a b = if eqb_ℤ a.sort b.sort then ltb_text a.code b.code else ltb_ℤ a.sort b.sort

unfoldable pub fetch_devices : Sorting Device → Handler Body
fetch_devices sorting = do
  rows ← or_failed list_devices
  pure (all_devices (sorting.sort_slice device_less rows))

unfoldable pub put_device : Str → Option Device → Handler Body
put_device path body = do
  device ← bind body
  refuse_if (differs path device.code)
  or_missing (update_device device)
  pure (one_device device)

unfoldable pub remove_device : Str → Handler Body
remove_device code = do or_missing (delete_device code); pure deleted

unfoldable pub post_inbound : Option Inbound → Handler Body
post_inbound body = do
  inbound ← bind body
  must_be_new (get_inbound inbound.tag)
  or_failed (create_inbound inbound)
  pure (one_inbound inbound)

unfoldable pub fetch_inbound : Str → Handler Body
fetch_inbound tag = do inbound ← or_missing (get_inbound tag); pure (one_inbound inbound)

abbrev pub inbound_before : Inbound → Inbound → Bool
inbound_before a b = if eqb_ℤ a.sort b.sort then ltb_text a.tag b.tag else ltb_ℤ a.sort b.sort

unfoldable pub fetch_inbounds : Sorting Inbound → Handler Body
fetch_inbounds sorting = do
  rows ← or_failed list_inbounds
  pure (all_inbounds (sorting.sort_slice inbound_before rows))

unfoldable pub put_inbound : Str → Option Inbound → Handler Body
put_inbound path body = do
  inbound ← bind body
  refuse_if (differs path inbound.tag)
  or_missing (update_inbound inbound)
  pure (one_inbound inbound)

unfoldable pub remove_inbound : Str → Handler Body
remove_inbound tag = do or_missing (delete_inbound tag); pure deleted

-- the loop over the bindings, which sets their device
unfoldable pub check_bindings :
    Str → List (Option DeviceInbound) → Handler (List (Option DeviceInbound))
check_bindings device_code [] = pure []
check_bindings device_code (none ∷ bindings) = raise bad_request
check_bindings device_code (some b ∷ bindings) = do
  refuse_if (differs b.device_code device_code)
  must_exist (get_inbound b.inbound_tag)
  rest ← check_bindings device_code bindings
  pure (some (record b { device_code = device_code }) ∷ rest)

unfoldable pub put_device_inbounds : Str → Option (List (Option DeviceInbound)) → Handler Body
put_device_inbounds device_code body = do
  device ← or_missing (get_device device_code)
  bindings ← bind body
  checked ← check_bindings device_code bindings
  or_failed (set_device_inbounds device_code checked)
  pure (saved_bindings checked)

abbrev pub binding_before : DeviceInbound → DeviceInbound → Bool
binding_before a b =
    if eqb_ℤ a.sort b.sort then ltb_text a.inbound_tag b.inbound_tag else ltb_ℤ a.sort b.sort

unfoldable pub fetch_device_inbounds : Sorting DeviceInbound → Str → Handler Body
fetch_device_inbounds sorting device_code = do
  device ← or_missing (get_device device_code)
  rows ← or_failed (list_device_inbounds sorting device_code)
  pure (all_bindings (sorting.sort_slice binding_before rows))

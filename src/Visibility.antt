-- ===== src/Visibility.antt =====
-- The rule of comma-separated device codes: `isDeviceVisible` of service/outbound_cache.go and its
-- copy in convert/singbox/extra_outbound.go.
use singboxconfig.Prelude.{
  Str, Bool, true, false, ◌||◌, List, [], ◌∷◌, ◌≡◌, refl, map, equal, equal_iff, arith,
  if◌then◌else◌, any,
}
use singboxconfig.Prelude.Keys.{has}
use singboxconfig.Strings.{trim_space, is_empty, split}

-- the loop that stops at the first match
names_device : Str → List Str → Bool
names_device device_code [] = false
names_device device_code (item ∷ items) =
    if equal (trim_space item) device_code then true else names_device device_code items

unfoldable pub is_device_visible : Str → Str → Bool
unfolding names_device
is_device_visible device_code visible_devices =
    if is_empty (trim_space visible_devices)
    then true
    else names_device device_code (split b',' visible_devices)

unfoldable pub is_extra_outbound_visible_for_device : Str → Str → Bool
unfolding names_device
is_extra_outbound_visible_for_device visible_devices device_code =
    if is_empty (trim_space visible_devices)
    then true
    else names_device device_code (split b',' visible_devices)

names_device-has :
    (device_code : Str) (items : List Str)
    → names_device device_code items ≡ has device_code (map trim_space items)
unfolding names_device has any
names_device-has device_code [] = refl
names_device-has device_code (item ∷ items) = ground (
  arith,
  equal_iff (trim_space item) device_code,
  equal_iff device_code (trim_space item),
  names_device-has device_code items,
)

-- An item is visible for a device when its list is blank or names the device's code, blanks around
-- a code aside; the copy of the test for extra outbounds agrees.
pub is_device_visible_lem :
    (device_code visible_devices : Str)
    → (is_device_visible device_code visible_devices ≡ (
        is_empty (trim_space visible_devices)
        || has device_code (map trim_space (split b',' visible_devices))))
      × (is_extra_outbound_visible_for_device visible_devices device_code
          ≡ is_device_visible device_code visible_devices)
unfolding is_device_visible is_extra_outbound_visible_for_device
is_device_visible_lem device_code visible_devices =
    (ground (arith, names_device-has device_code (split b',' visible_devices)), refl)

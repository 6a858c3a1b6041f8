-- ===== src/Inventory/Links.antt =====
-- References between the tables: each binding has its device and its inbound, and each peer its
-- template.
use singboxconfig.Prelude.{
  Str, Bool, true, false, not, ◌&&◌, List, [], ◌∷◌, ◌≡◌, refl, ◌∙◌, ap, arith, any, all, keep,
  equal, equal_iff, any-append, all-keep, all-implies,
}
use singboxconfig.Entity.{Device, Inbound, DeviceInbound, WireGuard, WireGuardPeer}
use singboxconfig.Inventory.Table.{Keyed, Command, create, change, erase, is_row, update, run}
use singboxconfig.Inventory.Store.{Tables, devices, inbounds, wire_guards}

-- The code of a device, or the tag of a row, is stored.
abbrev pub has_device : Tables → Str → Bool
has_device t code = any (is_row devices.keyed code) t.devices

abbrev pub has_inbound : Tables → Str → Bool
has_inbound t tag = any (is_row inbounds.keyed tag) t.inbounds

abbrev pub has_wire_guard : Tables → Str → Bool
has_wire_guard t tag = any (is_row wire_guards.keyed tag) t.wire_guards

abbrev pub is_linked : Tables → DeviceInbound → Bool
is_linked t b = has_device t b.device_code && has_inbound t b.inbound_tag

abbrev pub has_template : Tables → WireGuardPeer → Bool
has_template t p = has_wire_guard t p.wire_guard_tag

-- No reference dangles.
pub record IsLinked (t : Tables) : Type 0 where
  pub bindings : all (is_linked t) t.device_inbounds ≡ true
  pub peers : all (has_template t) t.wire_guard_peers ≡ true

-- Rows of a key after a statement on another key or on the same one.
module _ {A : Type 0} (key : A → Str) where
  abbrev table : Keyed Str A
  table = record { same_key = equal; key = key }

  pub any-create :
      (k : Str) (row : A) (rows : List A)
      → any (is_row table k) rows ≡ true
      → any (is_row table k) (run table (create row) rows).0 ≡ true
  unfolding run
  any-create k row rows h = ground (arith, any-append (is_row table k) rows (row ∷ []))

  pub any-change :
      (j k : Str) (f : A → A) (rows : List A)
      → ((row : A) → key (f row) ≡ key row)
      → any (is_row table j) (update table k f rows) ≡ any (is_row table j) rows
  unfolding update any
  any-change j k f [] h = refl
  any-change j k f (row ∷ rows) h = ground (arith, h row, any-change j k f rows h)

  pub any-erase :
      (j k : Str) (rows : List A)
      → equal j k ≡ false
      → any (is_row table j) (keep (λ row. not (is_row table k row)) rows)
        ≡ any (is_row table j) rows
  unfolding keep any
  any-erase j k [] h = refl
  any-erase j k (row ∷ rows) h =
      ground
        (arith, equal_iff (key row) k, equal_iff (key row) j, equal_iff j k, any-erase j k rows h)

-- Where no binding and no peer changes, and no key disappears, nothing dangles.
IsLinked-mono :
    (t t' : Tables)
    → t'.device_inbounds ≡ t.device_inbounds
    → t'.wire_guard_peers ≡ t.wire_guard_peers
    → ((k : Str) → has_device t k ≡ true → has_device t' k ≡ true)
    → ((k : Str) → has_inbound t k ≡ true → has_inbound t' k ≡ true)
    → ((k : Str) → has_wire_guard t k ≡ true → has_wire_guard t' k ≡ true)
    → IsLinked t
    → IsLinked t'
IsLinked-mono t t' b p d i w h = record {
  bindings =
      ap (all (is_linked t')) b
      ∙ all-implies (is_linked t) (is_linked t')
          (λ x e. ground (arith, d x.device_code, i x.inbound_tag)) t.device_inbounds h.bindings;
  peers =
      ap (all (has_template t')) p
      ∙ all-implies (has_template t) (has_template t') (λ x e. w x.wire_guard_tag e)
          t.wire_guard_peers h.peers;
}

-- A creation or a change loses no key.
module _ {A : Type 0} (key : A → Str) where
  abbrev pub KeepsKey : Command Str A → Type 0
  KeepsKey (create row) = Unit {0}
  KeepsKey (change k f) = (row : A) → key (f row) ≡ key row
  KeepsKey (erase k) = ⊥

  any-command :
      (command : Command Str A) (k : Str) (rows : List A)
      → KeepsKey command
      → any (is_row (table key) k) rows ≡ true
      → any (is_row (table key) k) (run (table key) command rows).0 ≡ true
  unfolding run
  any-command (create row) k rows c h = unfold run in any-create key k row rows h
  any-command (change j f) k rows c h = any-change key k j f rows c ∙ h
  any-command (erase j) k rows c h = elim c [ ]

pub devices-IsLinked :
    (command : Command Str Device) (t : Tables)
    → KeepsKey (λ d. d.code) command
    → IsLinked t
    → IsLinked (record t { devices = (run devices.keyed command t.devices).0 })
devices-IsLinked command t c h =
    IsLinked-mono t (record t { devices = (run devices.keyed command t.devices).0 }) refl refl
      (λ k e. any-command (λ d. d.code) command k t.devices c e) (λ k e. e) (λ k e. e) h

pub inbounds-IsLinked :
    (command : Command Str Inbound) (t : Tables)
    → KeepsKey (λ d. d.tag) command
    → IsLinked t
    → IsLinked (record t { inbounds = (run inbounds.keyed command t.inbounds).0 })
inbounds-IsLinked command t c h =
    IsLinked-mono t (record t { inbounds = (run inbounds.keyed command t.inbounds).0 }) refl refl
      (λ k e. e) (λ k e. any-command (λ d. d.tag) command k t.inbounds c e) (λ k e. e) h

pub wire_guards-IsLinked :
    (command : Command Str WireGuard) (t : Tables)
    → KeepsKey (λ d. d.tag) command
    → IsLinked t
    → IsLinked (record t { wire_guards = (run wire_guards.keyed command t.wire_guards).0 })
wire_guards-IsLinked command t c h =
    IsLinked-mono t (record t { wire_guards = (run wire_guards.keyed command t.wire_guards).0 })
      refl refl (λ k e. e) (λ k e. e) (λ k e. any-command (λ d. d.tag) command k t.wire_guards c e)
      h

-- The rows that a deletion of a device leaves.
pub delete_device-IsLinked :
    (code : Str) (t : Tables)
    → IsLinked t
    → IsLinked (record t {
      device_inbounds = keep (λ b. not (equal b.device_code code)) t.device_inbounds;
      devices = keep (λ row. not (is_row devices.keyed code row)) t.devices;
    })
delete_device-IsLinked code t h = record {
  bindings =
      all-keep (is_linked t) (λ b. not (equal b.device_code code))
        (λ b.
          any (is_row devices.keyed b.device_code)
            (keep (λ row. not (is_row devices.keyed code row)) t.devices)
          && has_inbound t b.inbound_tag)
        (λ b e n. ground (arith, any-erase (λ d. d.code) b.device_code code t.devices))
        t.device_inbounds h.bindings;
  peers = h.peers;
}

pub delete_inbound-IsLinked :
    (tag : Str) (t : Tables)
    → IsLinked t
    → IsLinked (record t {
      device_inbounds = keep (λ b. not (equal b.inbound_tag tag)) t.device_inbounds;
      inbounds = keep (λ row. not (is_row inbounds.keyed tag row)) t.inbounds;
    })
delete_inbound-IsLinked tag t h = record {
  bindings =
      all-keep (is_linked t) (λ b. not (equal b.inbound_tag tag))
        (λ b.
          has_device t b.device_code
          && any (is_row inbounds.keyed b.inbound_tag)
              (keep (λ row. not (is_row inbounds.keyed tag row)) t.inbounds))
        (λ b e n. ground (arith, any-erase (λ d. d.tag) b.inbound_tag tag t.inbounds))
        t.device_inbounds h.bindings;
  peers = h.peers;
}

-- ===== src/Singbox/Templates.antt =====
-- convert/singbox/inbound.go and extra_outbound.go: templates of the storage, each with a JSON text
-- that is unmarshalled. The lists hold no nil pointer: the order dereferences its items.
use singboxconfig.Prelude.{
  Str, Bool, false, not, ◌&&◌, ◌||◌, List, [], ◌∷◌, Option, none, some, ◌≡◌, refl, arith,
  if◌then◌else◌, any, ◌∙◌,
}
use singboxconfig.Prelude.Int.{eqb_ℤ, ltb_ℤ}
use singboxconfig.Prelude.Sort.{Sorting, ltb_text, any-sort_slice}
use singboxconfig.Entity.{Inbound, Outbound}
use singboxconfig.Entity.SingBox.{SingInbound, SingBoxOut}
use singboxconfig.Visibility.{is_extra_outbound_visible_for_device}

unfoldable pub inbound_less : Inbound → Inbound → Bool
inbound_less a b = if eqb_ℤ a.sort b.sort then ltb_text a.tag b.tag else ltb_ℤ a.sort b.sort

unfoldable pub outbound_less : Outbound → Outbound → Bool
outbound_less a b = if eqb_ℤ a.sort b.sort then ltb_text a.tag b.tag else ltb_ℤ a.sort b.sort

-- `append` where the text could be unmarshalled
append_decoded : {A : Type 0} → Option A → List A → List A
append_decoded none rest = rest
append_decoded (some a) rest = a ∷ rest

-- A test of what a text decodes to.
unfoldable pub decodes_to : {A : Type 0} → (A → Bool) → Option A → Bool
decodes_to p none = false
decodes_to p (some a) = p a

-- `json.Unmarshal` into an inbound, and the sorting, are external.
module _ (unmarshal : Str → Option SingInbound) (sorting : Sorting Inbound) where
  convert_inbounds : List Inbound → List SingInbound
  unfolding append_decoded
  convert_inbounds [] = []
  convert_inbounds (item ∷ items) =
      let rest = convert_inbounds items in
      if not item.enabled then rest else append_decoded (unmarshal item.config_json) rest

  unfoldable pub get_inbounds : List Inbound → List SingInbound
  unfolding convert_inbounds
  get_inbounds [] = []
  get_inbounds (item ∷ items) = convert_inbounds (sorting.sort_slice inbound_less (item ∷ items))

  any-convert_inbounds :
      (p : SingInbound → Bool) (items : List Inbound)
      → any p (convert_inbounds items)
        ≡ any (λ item. item.enabled && decodes_to p (unmarshal item.config_json)) items
  unfolding convert_inbounds append_decoded any decodes_to
  any-convert_inbounds p [] = refl
  any-convert_inbounds p (item ∷ items) = ground (arith, any-convert_inbounds p items)

  -- The inbounds are what the enabled templates decode to, whatever the order of the templates.
  pub any-get_inbounds :
      (p : SingInbound → Bool) (items : List Inbound)
      → any p (get_inbounds items)
        ≡ any (λ item. item.enabled && decodes_to p (unmarshal item.config_json)) items
  unfolding get_inbounds any
  any-get_inbounds p [] = refl
  any-get_inbounds p (item ∷ items) =
      any-convert_inbounds p (sorting.sort_slice inbound_less (item ∷ items))
      ∙ any-sort_slice sorting (λ item. item.enabled && decodes_to p (unmarshal item.config_json))
          inbound_less (item ∷ items)

-- The same for an outbound.
module _ (unmarshal : Str → Option SingBoxOut) (sorting : Sorting Outbound) where
  convert_outbounds : Str → List Outbound → List SingBoxOut
  unfolding append_decoded
  convert_outbounds device_code [] = []
  convert_outbounds device_code (item ∷ items) =
      let rest = convert_outbounds device_code items in
      if not item.enabled
        || not (is_extra_outbound_visible_for_device item.visible_devices device_code)
      then rest
      else append_decoded (unmarshal item.config_json) rest

  unfoldable pub get_extra_outbounds : Str → List Outbound → List SingBoxOut
  unfolding convert_outbounds
  get_extra_outbounds device_code [] = []
  get_extra_outbounds device_code (item ∷ items) =
      convert_outbounds device_code (sorting.sort_slice outbound_less (item ∷ items))

  -- A template that is enabled, visible for the device and decodes to an outbound that `p` accepts.
  abbrev pub outputs : (SingBoxOut → Bool) → Str → Outbound → Bool
  outputs p device_code item =
      item.enabled
      && is_extra_outbound_visible_for_device item.visible_devices device_code
      && decodes_to p (unmarshal item.config_json)

  any-convert_outbounds :
      (p : SingBoxOut → Bool) (device_code : Str) (items : List Outbound)
      → any p (convert_outbounds device_code items) ≡ any (outputs p device_code) items
  unfolding convert_outbounds append_decoded any decodes_to
  any-convert_outbounds p device_code [] = refl
  any-convert_outbounds p device_code (item ∷ items) =
      ground (arith, any-convert_outbounds p device_code items)

  -- The extra outbounds of a device are what the enabled templates that it may see decode to,
  -- whatever the order of the templates.
  pub any-get_extra_outbounds :
      (p : SingBoxOut → Bool) (device_code : Str) (items : List Outbound)
      → any p (get_extra_outbounds device_code items) ≡ any (outputs p device_code) items
  unfolding get_extra_outbounds any
  any-get_extra_outbounds p device_code [] = refl
  any-get_extra_outbounds p device_code (item ∷ items) =
      any-convert_outbounds p device_code (sorting.sort_slice outbound_less (item ∷ items))
      ∙ any-sort_slice sorting (outputs p device_code) outbound_less (item ∷ items)

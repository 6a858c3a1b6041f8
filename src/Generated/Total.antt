-- ===== src/Generated/Total.antt =====
-- A storage that does not fail: an admitted request is answered with a configuration.
use singboxconfig.Prelude.{Str, List, [], Option, some, ◌≡◌, refl, ◌∙◌, ap, keep}
use singboxconfig.Prelude.Exec.{Result, ok, pure, attempt, follow, ◌>>=◌}
use singboxconfig.Strings.{is_empty}
use singboxconfig.Entity.{Device, Outbound, WireGuard}
use singboxconfig.Entity.SingBox.{SingBoxConfig, SingBoxOut, SingEndpointWireguard}
use singboxconfig.Settings.{resolve_system_host}
use singboxconfig.Cache.Store as CacheStore
use singboxconfig.Cache.Store.{CacheError}
use singboxconfig.Cache.Shown.{is_shown}
use singboxconfig.Singbox.Outbounds.{get_outbounds}
use singboxconfig.Singbox.Templates.{get_extra_outbounds}
use singboxconfig.Singbox.Endpoint.{get_wire_guard_endpoints}
use singboxconfig.Cache.Offered.{resolve_items}
use singboxconfig.Cache.Calm.{resolve_items_ok}
use singboxconfig.Inventory.Table.{find}
use singboxconfig.Inventory.Store as TableStore
use singboxconfig.Inventory.Store.{Tables, StorageError, query, first, list_rows, get_row}
use singboxconfig.Inventory.Methods.{
  list_device_inbounds, list_inbounds, get_wire_guard, list_wire_guard_peers, list_node_groups,
  list_rule_sets,
}
use singboxconfig.Generated.Server.{
  ServerState, GenerateError, Action, cache_error, db_error, on_world, on_db,
}
use singboxconfig.Generated.Admitted.{IsAdmitted, authorized_ok}
use singboxconfig.Generated.{
  External, resolve_dns_config_json, or_default_wire_guard, failed_as, or_failed,
  resolve_generate_inbounds, resolve_generate_endpoints, resolve_generate_outbounds, generate_for,
  generated, or_default_peers,
}
use singboxconfig.Generated.Reading.{
  Reads, Returns, Reads-bind, or_failed-Reads, resolve_dns_config_json-Reads,
  resolve_system_host-Reads, list_device_inbounds-Reads, list_inbounds-Reads,
  list_wire_guard_peers-Reads, list_node_groups-Reads, list_rule_sets-Reads, Reads-at, Returns-at,
  Returns-read, Reads-if, get_wire_guard_ok, or_default_wire_guard-Reads,
}

module _ (x : External) where
  resolve_generate_inbounds-Reads :
      (code : Str) (s : ServerState) → s.db.faults ≡ [] → Reads (resolve_generate_inbounds x code) s
  unfolding resolve_generate_inbounds
  resolve_generate_inbounds-Reads code s h =
      Reads-bind (on_db (list_device_inbounds x.bindings code)) _ s
        (list_device_inbounds-Reads x.bindings code s h)
        (λ bindings.
          Reads-bind (on_db list_inbounds) _ s (list_inbounds-Reads s h) (λ inbounds. (_, refl)))

  resolve_generate_endpoints-Reads :
      (device : Device) (s : ServerState)
      → s.db.faults ≡ []
      → Reads (resolve_generate_endpoints x device) s
  unfolding resolve_generate_endpoints
  resolve_generate_endpoints-Reads device s h =
      let tag = device.wire_guard_tag in
      let row = find TableStore.wire_guards.keyed tag s.db.tables.wire_guards in
      let rest : Option WireGuard → Action (List SingEndpointWireguard) = λ wg.
        on_db (list_wire_guard_peers x.peers tag) >>= λ peers.
        pure (get_wire_guard_endpoints x.peers wg (or_default_peers tag peers) (some device)) in
      let after : Result GenerateError WireGuard → Action (List SingEndpointWireguard) =
        λ r. or_default_wire_guard tag r >>= rest in
      Reads-if (is_empty tag) (pure []) (attempt (on_db (get_wire_guard tag)) >>= after) s
        ([], refl)
        (Reads-at (attempt (on_db (get_wire_guard tag))) after s (db_error (first row))
          (get_wire_guard_ok tag s h)
          (Reads-bind (or_default_wire_guard tag (db_error (first row))) rest s
            (or_default_wire_guard-Reads tag row s)
            (λ wg.
              Reads-bind (on_db (list_wire_guard_peers x.peers tag)) _ s
                (list_wire_guard_peers-Reads x.peers tag s h) (λ peers. (_, refl)))))

  -- The outbounds are found, at the end of the refreshes.
  resolve_generate_outbounds_ok :
      (code : Str) (s : ServerState)
      → s.cache.faults ≡ []
      → s.db.faults ≡ []
      → (outbounds : List SingBoxOut) × (t : ServerState) × (t.world ≡ s.world)
        × (or_failed (resolve_generate_outbounds x code) s ≡ (ok outbounds, t))
  unfolding resolve_generate_outbounds or_failed failed_as cache_error
  resolve_generate_outbounds_ok code s c h =
      let m : Result CacheError (List Outbound) × CacheStore.Db =
        resolve_items x.visits code s.cache in
      let t = record s { cache = m.1 } in
      let rest : List Outbound → Action (List SingBoxOut) = λ items.
        on_db list_node_groups >>= λ groups. pure (
          get_outbounds (get_extra_outbounds x.unmarshal_outbound x.outbounds code items) groups
            code) in
      let items = keep (is_shown code s.cache.subscribes) m.1.outbounds in
      let (outbounds, e) =
        Reads-bind (on_db list_node_groups) _ t (list_node_groups-Reads t h) (λ groups. (
          get_outbounds (get_extra_outbounds x.unmarshal_outbound x.outbounds code items) groups
              code,
          refl,
        )) in
      (
        outbounds,
        t,
        refl,
        ap (λ q. let r = follow (cache_error q, t) rest in (failed_as r.0, r.1))
              (resolve_items_ok x.visits code s.cache c)
            ∙ ap (λ q. (failed_as q.0, q.1)) e,
      )

  -- The parts after the device, where nothing fails.
  generate_for_ok :
      (device : Device) (s : ServerState)
      → s.world.faults ≡ []
      → s.cache.faults ≡ []
      → s.db.faults ≡ []
      → Returns (generate_for x device) s
  unfolding generate_for
  generate_for_ok device s w c h =
      Returns-read (or_failed resolve_dns_config_json) _ s
        (or_failed-Reads resolve_dns_config_json s (resolve_dns_config_json-Reads s w))
        (λ dns.
          Returns-read (or_failed (resolve_generate_inbounds x device.code)) _ s
            (or_failed-Reads (resolve_generate_inbounds x device.code) s
              (resolve_generate_inbounds-Reads device.code s h))
            (λ inbounds.
              Returns-read (or_failed (resolve_generate_endpoints x device)) _ s
                (or_failed-Reads (resolve_generate_endpoints x device) s
                  (resolve_generate_endpoints-Reads device s h))
                (λ endpoints.
                  Returns-read (or_failed (on_db list_rule_sets)) _ s
                    (or_failed-Reads (on_db list_rule_sets) s (list_rule_sets-Reads s h))
                    (λ rule_sets.
                      let (outbounds, t, k, e) = resolve_generate_outbounds_ok device.code s c h in
                      let host : Action Str = on_world (resolve_system_host x.parse_url) in
                      Returns-at (or_failed (resolve_generate_outbounds x device.code)) _ s t
                        outbounds e
                        (Returns-read (or_failed host) _ t
                          (or_failed-Reads host t
                            (resolve_system_host-Reads x.parse_url t (ap (λ q. q.faults) k ∙ w)))
                          (λ system_host. (_, t, refl)))))))

  -- Where no storage call fails, a request that names a stored device, or a default one where none
  -- is stored, is answered with a configuration if the device is enabled and the token is its own,
  -- whether or not the subscriptions can be fetched.
  pub generated_ok :
      (code token : Str) (device : Device) (s : ServerState)
      → s.world.faults ≡ []
      → s.cache.faults ≡ []
      → s.db.faults ≡ []
      → IsAdmitted code token s.db.tables.devices device
      → (config : SingBoxConfig) × (t : ServerState) × (generated x code token s ≡ (ok config, t))
  unfolding generated
  generated_ok code token device s w c h a =
      let (config, t, k) = generate_for_ok device s w c h in
      (config, t, ap (λ q. follow q (generate_for x)) (authorized_ok code token s device h a) ∙ k)

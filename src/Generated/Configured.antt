-- ===== src/Generated/Configured.antt =====
-- What a configuration is made of, from the request to the answer.
use mathlib.Core.Path.{subst, fun_ext}
use singboxconfig.Prelude.{
  Str, Bool, true, false, not, ◌&&◌, List, [], ◌∷◌, ◌++◌, ◌≡◌, refl, ◌∙◌, ap, arith, any, All, keep,
  any-keep_list,
}
use singboxconfig.Prelude.Exec.{Result, ok, err, follow-eq-ok}
use singboxconfig.Prelude.Ensures.{Leaves, Ensures, Ensures-bind}
use singboxconfig.Prelude.Keys.{has}
use singboxconfig.Strings.{is_empty}
use singboxconfig.Visibility.{is_device_visible_lem}
use singboxconfig.Entity.{Device, Outbound, NodeGroup}
use singboxconfig.Entity.SingBox.{SingBoxConfig, SingBoxOut, SingRouteRule}
use singboxconfig.Settings.{resolve_system_host}
use singboxconfig.Singbox.Outbounds.{
  get_outbounds, construct_outbound_group, get_tags_from_outbounds, direct_outbound,
}
use singboxconfig.Singbox.Outbounds.Closed.{IsGroup, get_outbounds-IsGroup}
use singboxconfig.Singbox.Templates.{
  get_extra_outbounds, any-get_extra_outbounds, outputs, decodes_to,
}
use singboxconfig.Singbox.Route.Effective.{get_route-outbounds}
use singboxconfig.Cache.Store as CacheStore
use singboxconfig.Cache.Store.{CacheError, not_found, storage_failed, fetch_failed}
use singboxconfig.Cache.Offered.{resolve_items}
use singboxconfig.Cache.Shown.{is_shown, resolve_items-shown}
use singboxconfig.Inventory.Methods.{list_node_groups, list_rule_sets}
use singboxconfig.Generated.Server.{
  ServerState, GenerateError, Action, cache_error, on_world, on_cache, on_db,
}
use singboxconfig.Generated.{
  External, failed_as, or_failed, resolve_generate_outbounds, resolve_dns_config_json,
  resolve_generate_inbounds, resolve_generate_endpoints, generate_for, authorized, generated,
}
use singboxconfig.Generated.Admitted.{IsAdmitted, authorized-IsAdmitted}
use singboxconfig.Generated.Framed.{
  Anywhere, CacheIs, on_world-KeepsCache, on_db-KeepsCache, or_failed-KeepsCache,
  resolve_dns_config_json-KeepsCache, resolve_generate_inbounds-KeepsCache,
  resolve_generate_endpoints-KeepsCache, framed,
}

module _ (x : External) (device_code : Str) (before after : CacheStore.Db) where
  -- The outbounds of a device: what its rows decode to, groups over them, and direct.
  pub record IsOffered (outbounds : List SingBoxOut) : Type 0 where
    pub extras : List SingBoxOut
    pub groups : List SingBoxOut
    pub parts : outbounds ≡ extras ++ (groups ++ (direct_outbound ∷ []))
    pub shown :
        (p : SingBoxOut → Bool)
        → any p extras
          ≡ any
              (λ row.
                is_shown device_code before.subscribes row
                && decodes_to p (x.unmarshal_outbound row.config_json))
              after.outbounds
    pub grouped : All (IsGroup (get_tags_from_outbounds outbounds)) groups

  get_outbounds-IsOffered :
      (items : List Outbound) (group_rules : List NodeGroup)
      → items ≡ keep (is_shown device_code before.subscribes) after.outbounds
      → IsOffered (
          get_outbounds
            (get_extra_outbounds x.unmarshal_outbound x.outbounds device_code items)
            group_rules
            device_code)
  unfolding get_outbounds
  get_outbounds-IsOffered items group_rules h =
      let extras = get_extra_outbounds x.unmarshal_outbound x.outbounds device_code items in
      record {
        extras = extras;
        groups = construct_outbound_group group_rules (get_tags_from_outbounds extras) device_code;
        parts = refl;
        shown = λ p.
            any-get_extra_outbounds x.unmarshal_outbound x.outbounds p device_code items
            ∙ ap (any (outputs x.unmarshal_outbound x.outbounds p device_code)) h
            ∙ any-keep_list (outputs x.unmarshal_outbound x.outbounds p device_code)
                (is_shown device_code before.subscribes) after.outbounds
            ∙ ap (λ q. any q after.outbounds)
                (fun_ext
                  λ row. ground (arith, is_device_visible_lem device_code row.visible_devices));
        grouped = get_outbounds-IsGroup extras group_rules device_code;
      }

-- The rows for the device, as a step on the whole state.
shown_step :
    (x : External) (code : Str) (c d : CacheStore.Db) (s : ServerState)
    (r : Result CacheError (List Outbound))
    → ((items : List Outbound)
        → r ≡ ok items
        → items ≡ keep (is_shown code c.subscribes) d.outbounds)
    → Leaves Anywhere
        (λ items t. items ≡ keep (is_shown code c.subscribes) t.cache.outbounds)
        (cache_error r, record s { cache = d })
unfolding cache_error
shown_step x code c d s (ok items) h = h items refl
shown_step x code c d s (err not_found) h = tt
shown_step x code c d s (err storage_failed) h = tt
shown_step x code c d s (err fetch_failed) h = tt

resolve_items-Ensures :
    (x : External) (code : Str) (c : CacheStore.Db)
    → Ensures Anywhere
        (CacheIs c)
        (on_cache (resolve_items x.visits code))
        (λ items s. items ≡ keep (is_shown code c.subscribes) s.cache.outbounds)
resolve_items-Ensures x code c = record {
  at = λ s h.
      let m : Result CacheError (List Outbound) × CacheStore.Db =
        resolve_items x.visits code s.cache in
      shown_step x code c m.1 s m.0 (λ items e.
        resolve_items-shown x.visits code items s.cache m.1 (ap (λ q. (q, m.1)) e)
        ∙ ap (λ q. keep (is_shown code q.subscribes) m.1.outbounds) h);
}

resolve_generate_outbounds-Ensures :
    (x : External) (code : Str) (c : CacheStore.Db)
    → Ensures Anywhere
        (CacheIs c)
        (resolve_generate_outbounds x code)
        (λ outbounds s. IsOffered x code c s.cache outbounds)
unfolding resolve_generate_outbounds
resolve_generate_outbounds-Ensures x code c =
    Ensures-bind _ _ (resolve_items-Ensures x code c) (λ items.
      Ensures-bind _ _
        (framed (λ d. items ≡ keep (is_shown code c.subscribes) d.outbounds)
          (on_db list_node_groups) (λ c. on_db-KeepsCache c list_node_groups))
        (λ group_rules. record {
          at = λ s h. get_outbounds-IsOffered x code c s.cache items group_rules h;
        }))

or_failed-Ensures :
    {A : Type 0} {P : ServerState → Type 0} {Q : A → ServerState → Type 0} (m : Action A)
    → Ensures Anywhere P m Q
    → Ensures Anywhere P (or_failed m) Q
unfolding or_failed failed_as
or_failed-Ensures {A} {P} {Q} m h = record { at = λ s p. go (m s).0 (m s).1 (h.at s p) }
  where
    go :
        (r : Result GenerateError A) (s : ServerState)
        → Leaves Anywhere Q (r, s)
        → Leaves Anywhere Q (failed_as r, s)
    go (ok a) s h = h
    go (err e) s h = h

-- A rule for a rule set whose outbound does not exist.
abbrev pub dangles : List SingBoxOut → SingRouteRule → Bool
dangles outbounds rule =
    any (λ tag. true) rule.rule_set
    && not (is_empty rule.outbound)
    && not (has rule.outbound (get_tags_from_outbounds outbounds))

-- The configuration of a device, by the cache before and after its request.
pub record IsConfig (x : External) (device : Device) (before after : CacheStore.Db)
    (config : SingBoxConfig) : Type 0 where
  pub offered : IsOffered x device.code before after config.outbounds
  pub routed : any (dangles config.outbounds) config.route.rules ≡ false

generate_for-Ensures :
    (x : External) (device : Device) (c : CacheStore.Db)
    → Ensures Anywhere
        (CacheIs c)
        (generate_for x device)
        (λ config s. IsConfig x device c s.cache config)
unfolding generate_for
generate_for-Ensures x device c =
    Ensures-bind _ _
      (framed (λ d. d ≡ c) (or_failed resolve_dns_config_json)
        (λ c. or_failed-KeepsCache c _ (resolve_dns_config_json-KeepsCache c)))
      (λ dns_config_json.
        Ensures-bind _ _
          (framed (λ d. d ≡ c) (or_failed (resolve_generate_inbounds x device.code))
            (λ c. or_failed-KeepsCache c _ (resolve_generate_inbounds-KeepsCache c x device.code)))
          (λ inbounds.
            Ensures-bind _ _
              (framed (λ d. d ≡ c) (or_failed (resolve_generate_endpoints x device))
                (λ c. or_failed-KeepsCache c _ (resolve_generate_endpoints-KeepsCache c x device)))
              (λ endpoints.
                Ensures-bind _ _
                  (framed (λ d. d ≡ c) (or_failed (on_db list_rule_sets))
                    (λ c. or_failed-KeepsCache c _ (on_db-KeepsCache c list_rule_sets)))
                  (λ rule_sets.
                    Ensures-bind _ _
                      (or_failed-Ensures _ (resolve_generate_outbounds-Ensures x device.code c))
                      (λ outbounds.
                        Ensures-bind _ _
                          (framed (λ d. IsOffered x device.code c d outbounds)
                            (or_failed (on_world (resolve_system_host x.parse_url)))
                            (λ c. or_failed-KeepsCache c _ (on_world-KeepsCache c _)))
                          (λ system_host. record {
                            at = λ s h. record {
                              offered = h;
                              routed =
                                  get_route-outbounds x.contents x.rule_sets device.code
                                    device.token system_host rule_sets outbounds;
                            };
                          }))))))

-- A configuration is only sent for the device of the requested code, by the stored rows or by the
-- default ones where none is stored, where it is enabled and the token is its own. Beside direct,
-- its outbounds are what the rows decode to that are enabled, visible for the device and not of
-- a subscription that is disabled or hidden from it, and groups whose members are outbounds of this
-- configuration; and no rule for a rule set refers to an outbound that is not there.
pub generated-IsConfig :
    (x : External) (code token : Str) (s t : ServerState) (config : SingBoxConfig)
    → generated x code token s ≡ (ok config, t)
    → (device : Device) × IsAdmitted code token s.db.tables.devices device
      × IsConfig x device s.cache t.cache config
unfolding generated
generated-IsConfig x code token s t config h =
    let (device, s1, e, k) = follow-eq-ok (authorized code token s) (generate_for x) config t h in
    let (admitted, same) = authorized-IsAdmitted code token s s1 device e in
    (
      device,
      admitted,
      subst (Leaves Anywhere (λ config u. IsConfig x device s.cache u.cache config)) k
          ((generate_for-Ensures x device s.cache).at s1 same.cache),
    )

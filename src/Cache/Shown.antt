-- ===== src/Cache/Shown.antt =====
-- The rows that are chosen for a device.
use singboxconfig.Prelude.{
  Str, Bool, true, false, not, ◌&&◌, ◌||◌, List, [], ◌∷◌, ◌≡◌, refl, ◌∙◌, sym, ap, arith, equal,
  any, keep, if◌then◌else◌, some,
}
use singboxconfig.Prelude.Exec.{Result, ok, err, follow, follow-eq-ok, ok-injective, ◌>>◌}
use singboxconfig.Prelude.Keys.{has, has-add, add}
use singboxconfig.Entity.{Outbound, Subscribe, outbound_source_subscription}
use singboxconfig.Visibility.{is_device_visible}
use singboxconfig.Singbox.DefaultTables.{get_default_extra_outbounds}
use singboxconfig.Cache.{needs_refresh}
use singboxconfig.Cache.Store.{CacheError, Db, M, storage_call}
use singboxconfig.Cache.Offered.{
  list_subscribes, get_outbounds_by_device, is_hidden, is_filtered, or_default_outbounds, without,
  Visits, refresh_if_due, visit_subscribes, resolve_items,
}

-- A row that the device gets: it is enabled, visible, and not of a hidden subscription.
abbrev pub is_shown : Str → List Subscribe → Outbound → Bool
is_shown device_code subscribes row =
    row.enabled
    && is_device_visible device_code row.visible_devices
    && not (
        equal row.source outbound_source_subscription
        && any (λ s. is_hidden device_code s && equal row.subscribe_name s.name) subscribes)

list_subscribes_lem :
    (db s : Db) (subscribes : List Subscribe)
    → list_subscribes db ≡ (ok subscribes, s)
    → subscribes ≡ db.subscribes
unfolding list_subscribes storage_call
list_subscribes_lem db s subscribes h = ground arith

get_outbounds_by_device_lem :
    (device_code : Str) (db s : Db) (items : List Outbound)
    → get_outbounds_by_device device_code db ≡ (ok items, s)
    → items
      ≡ keep (λ row. row.enabled && is_device_visible device_code row.visible_devices) s.outbounds
unfolding get_outbounds_by_device storage_call
get_outbounds_by_device_lem device_code db s items h = ground arith

or_default_lem : (items : List Outbound) → or_default_outbounds items ≡ items
unfolding get_default_extra_outbounds
or_default_lem [] = refl
or_default_lem (item ∷ items) = refl

branch_ok :
    {A : Type 0} {a b : A} (test : Bool) (m n : M A) (db : Db)
    → (m db).0 ≡ ok a
    → (n db).0 ≡ ok b
    → ((if test then m else n) db).0 ≡ ok (if test then a else b)
branch_ok true m n db h k = h
branch_ok false m n db h k = k

then_ok :
    {A : Type 0} {a : A} (r : Result CacheError (Unit {0}) × Db) (m : M A)
    → r.0 ≡ ok tt
    → ((d : Db) → (m d).0 ≡ ok a)
    → (follow r (λ u. m)).0 ≡ ok a
then_ok (ok u, d) m h k = k d
then_ok (err e, d) m h k = absurd (cc)

-- The filter after the loop, on what the storage returned.
without-keep :
    (p q : Outbound → Bool) (names : List Str) (rows : List Outbound)
    → ((row : Outbound) → q row ≡ (p row && not (is_filtered names row)))
    → without names (keep p rows) ≡ keep q rows
unfolding keep is_filtered has any
without-keep p q [] [] h = refl
without-keep p q [] (row ∷ rows) h = ground (arith, h row, without-keep p q [] rows h)
without-keep p q (name ∷ names) [] h = refl
without-keep p q (name ∷ names) (row ∷ rows) h =
    ground (arith, h row, without-keep p q (name ∷ names) rows h)

refresh_if_due_ok : (x : Visits) (s : Subscribe) (db : Db) → (refresh_if_due x s db).0 ≡ ok tt
unfolding refresh_if_due
refresh_if_due_ok x s db = branch_ok (needs_refresh (x.now s) (some s)) _ _ db refl refl

module _ (x : Visits) (device_code : Str) where
  -- the names that the loop collects
  abbrev pub hidden_names : List Str → List Subscribe → List Str
  hidden_names disabled [] = disabled
  hidden_names disabled (s ∷ subscribes) =
      if is_hidden device_code s
      then hidden_names (add s.name disabled) subscribes
      else hidden_names disabled subscribes

  has-hidden_names :
      (name : Str) (disabled : List Str) (subscribes : List Subscribe)
      → has name (hidden_names disabled subscribes)
        ≡ (has name disabled || any (λ s. is_hidden device_code s && equal name s.name) subscribes)
  unfolding any
  has-hidden_names name disabled [] = ground arith
  has-hidden_names name disabled (s ∷ subscribes) = ground (
    arith,
    has-add s.name name disabled,
    has-hidden_names name disabled subscribes,
    has-hidden_names name (add s.name disabled) subscribes,
  )

  -- No refresh ends the loop.
  pub visit_subscribes_ok :
      (disabled : List Str) (subscribes : List Subscribe) (db : Db)
      → (visit_subscribes x device_code disabled subscribes db).0
        ≡ ok (hidden_names disabled subscribes)
  unfolding visit_subscribes
  visit_subscribes_ok disabled [] db = refl
  visit_subscribes_ok disabled (s ∷ subscribes) db =
      branch_ok (is_hidden device_code s)
        (visit_subscribes x device_code (add s.name disabled) subscribes)
        (refresh_if_due x s >> visit_subscribes x device_code disabled subscribes) db
        (visit_subscribes_ok (add s.name disabled) subscribes db)
        (then_ok (refresh_if_due x s db) (visit_subscribes x device_code disabled subscribes)
          (refresh_if_due_ok x s db) (λ d. visit_subscribes_ok disabled subscribes d))

  has-hidden :
      (name : Str) (disabled : List Str) (subscribes : List Subscribe)
      → disabled ≡ hidden_names [] subscribes
      → has name disabled ≡ any (λ s. is_hidden device_code s && equal name s.name) subscribes
  unfolding has any
  has-hidden name disabled subscribes e = ap (has name) e ∙ has-hidden_names name [] subscribes

  chosen-shown :
      (subscribes : List Subscribe) (disabled : List Str) (rows items : List Outbound) (s : Db)
      → disabled ≡ hidden_names [] subscribes
      → rows
        ≡ keep (λ row. row.enabled && is_device_visible device_code row.visible_devices) s.outbounds
      → or_default_outbounds (without disabled rows) ≡ items
      → items ≡ keep (is_shown device_code subscribes) s.outbounds
  unfolding is_filtered
  chosen-shown subscribes disabled rows items s e k h =
      sym h
      ∙ or_default_lem (without disabled rows)
      ∙ ap (without disabled) k
      ∙ without-keep _ (is_shown device_code subscribes) disabled s.outbounds
          (λ row. ground (arith, has-hidden row.subscribe_name disabled subscribes e))

  -- The rows for a device are those of the storage, as the loop over the subscriptions leaves it,
  -- that are enabled, visible, and not of a subscription that is disabled or hidden from it.
  pub resolve_items-shown :
      (items : List Outbound) (db s : Db)
      → resolve_items x device_code db ≡ (ok items, s)
      → items ≡ keep (is_shown device_code db.subscribes) s.outbounds
  unfolding resolve_items
  resolve_items-shown items db s h =
      let (subscribes, s1, e1, k1) = follow-eq-ok (list_subscribes db) _ items s h in
      let (disabled, s2, e2, k2) =
        follow-eq-ok (visit_subscribes x device_code [] subscribes s1) _ items s k1 in
      let (rows, s3, e3, k3) = follow-eq-ok (get_outbounds_by_device device_code s2) _ items s k2 in
      let named =
        ok-injective disabled (hidden_names [] subscribes)
          (sym (ap (λ q. q.0) e2) ∙ visit_subscribes_ok [] subscribes s1) in
      chosen-shown subscribes disabled rows items s3 named
        (get_outbounds_by_device_lem device_code s2 s3 rows e3)
        (ok-injective (or_default_outbounds (without disabled rows)) items (ap (λ q. q.0) k3))
      ∙ ap (λ q. keep (is_shown device_code subscribes) q.outbounds) (ap (λ q. q.1) k3)
      ∙ ap (λ q. keep (is_shown device_code q) s.outbounds)
          (list_subscribes_lem db s1 subscribes e1)

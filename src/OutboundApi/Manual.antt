-- ===== src/OutboundApi/Manual.antt =====
-- An update of a manual outbound leaves the outbounds of the subscriptions alone.
use singboxconfig.Prelude.{
  Str, Bool, true, false, not, List, [], ◌∷◌, Option, none, some, ◌≡◌, refl, ◌∙◌, sym, ap, equal,
  equal_refl, any, all, keep, if◌then◌else◌,
}
use singboxconfig.Prelude.Int.{ℤ, pos, eqb_ℤ, eqb_ℤ_iff, leb_ℤ}
use singboxconfig.Prelude.Exec.{Result, ok, err, pure, raise, lift, follow, ◌>>=◌}
use singboxconfig.Prelude.Ensures.{Leaves, Ensures, Ensures-bind, Ensures-pure}
use singboxconfig.Strings.{is_empty}
use singboxconfig.Entity.{Outbound, outbound_source_manual}
use singboxconfig.Cache.Store.{
  CacheError, not_found, storage_failed, fetch_failed, Db, M, storage_call,
}
use singboxconfig.OutboundApi.Rows.{
  find_outbound, get_outbound, find_outbound_by_tag, replace_row, save_outbound, update_outbound,
  list_outbounds, tag_is_taken, passes,
}
use singboxconfig.OutboundApi.Handlers.{
  Status, Handler, missing_as, optional_as, bind, refuse_if, parse_id_param, is_other, edited,
  put_outbound, answered,
}
use singboxconfig.OutboundApi.Replaced.{
  is_manual, fetched, are_distinct, fetched-replace_row, find_outbound-ok,
}

-- What a request has not changed: the table, or the rows that are not manual.
abbrev Rows : List Outbound → Db → Type 0
Rows rows db = db.outbounds ≡ rows

abbrev pub KeepsFetched : List Outbound → Db → Type 0
KeepsFetched rows db = fetched db.outbounds ≡ fetched rows

-- An answer of a handler from what a call of the storage returns.
missing_as-Leaves :
    {A : Type 0} (I : Db → Type 0) (Q : A → Db → Type 0) (r : Result CacheError A) (db : Db)
    → Leaves I Q (r, db)
    → Leaves I Q (missing_as r, db)
unfolding missing_as
missing_as-Leaves I Q (ok a) db h = h
missing_as-Leaves I Q (err not_found) db h = h
missing_as-Leaves I Q (err storage_failed) db h = h
missing_as-Leaves I Q (err fetch_failed) db h = h

answered-Ensures :
    {A : Type 0} (I P : Db → Type 0) (Q : A → Db → Type 0) (m : M A)
    → Ensures I P m Q
    → Ensures I P (answered missing_as m) Q
answered-Ensures I P Q m h = record { at = λ s p. missing_as-Leaves I Q (m s).0 (m s).1 (h.at s p) }

module _ (rows : List Outbound) where
  bind-Rows :
      {A : Type 0} (a : Option A)
      → Ensures (KeepsFetched rows) (Rows rows) (bind a) (λ a. Rows rows)
  unfolding bind
  bind-Rows none = record { at = λ s h. ap fetched h }
  bind-Rows (some a) = record { at = λ s h. h }

  refuse_if-Rows :
      (b : Bool)
      → Ensures (KeepsFetched rows) (Rows rows) (refuse_if b) (λ u s. (b ≡ false) × Rows rows s)
  unfolding refuse_if
  refuse_if-Rows true = record { at = λ s h. ap fetched h }
  refuse_if-Rows false = record { at = λ s h. (refl, h) }

  parse_id_param-Rows :
      (id : Option ℤ)
      → Ensures (KeepsFetched rows) (Rows rows) (parse_id_param id) (λ id. Rows rows)
  unfolding parse_id_param
  parse_id_param-Rows none = record { at = λ s h. ap fetched h }
  parse_id_param-Rows (some id) = record { at = λ s h. go (leb_ℤ id (pos 0)) s h }
    where
      go :
          (b : Bool) (s : Db)
          → Rows rows s
          → Leaves
              (KeepsFetched rows)
              (λ id. Rows rows)
              ((if b then raise Status.bad_request else pure id) s)
      go true s h = ap fetched h
      go false s h = h

  get_outbound-Rows :
      (id : ℤ)
      → Ensures
          (KeepsFetched rows)
          (Rows rows)
          (get_outbound id)
          (λ row s. (find_outbound (λ row. eqb_ℤ row.id id) rows ≡ ok row) × Rows rows s)
  unfolding get_outbound storage_call
  get_outbound-Rows id = record { at = λ s h. go s.faults s h }
    where
      found :
          (r : Result CacheError Outbound) (s : Db)
          → find_outbound (λ row. eqb_ℤ row.id id) rows ≡ r
          → Rows rows s
          → Leaves
              (KeepsFetched rows)
              (λ row s. (find_outbound (λ row. eqb_ℤ row.id id) rows ≡ ok row) × Rows rows s)
              (r, s)
      found (ok row) s e h = (e, h)
      found (err e) s k h = ap fetched h

      go :
          (faults : List Bool) (s : Db)
          → Rows rows s
          → Leaves
              (KeepsFetched rows)
              (λ row s. (find_outbound (λ row. eqb_ℤ row.id id) rows ≡ ok row) × Rows rows s)
              (storage_call faults (λ d. (find_outbound (λ row. eqb_ℤ row.id id) d.outbounds, d)) s)
      go [] s h =
          found (find_outbound (λ row. eqb_ℤ row.id id) s.outbounds) s
            (ap (find_outbound (λ row. eqb_ℤ row.id id)) (sym h)) h
      go (true ∷ faults) s h = ap fetched h
      go (false ∷ faults) s h =
          found (find_outbound (λ row. eqb_ℤ row.id id) s.outbounds) (record s { faults = faults })
            (ap (find_outbound (λ row. eqb_ℤ row.id id)) (sym h)) h

  by_tag-outbounds :
      (tag : Str) (faults : List Bool) (s : Db)
      → (storage_call faults
          (λ d. (ok (keep (λ row. all (passes row) []) d.outbounds), d))
          s).1.outbounds
        ≡ s.outbounds
  unfolding storage_call
  by_tag-outbounds tag [] s = refl
  by_tag-outbounds tag (true ∷ faults) s = refl
  by_tag-outbounds tag (false ∷ faults) s = refl

  follow-state :
      {A B : Type 0} (q : Result CacheError A × Db) (f : A → Result CacheError B)
      → (follow q (λ a. lift (f a))).1 ≡ q.1
  follow-state (ok a, s) f = refl
  follow-state (err e, s) f = refl

  find_outbound_by_tag-Rows :
      (tag : Str)
      → Ensures
          (KeepsFetched rows)
          (Rows rows)
          (answered optional_as (find_outbound_by_tag tag))
          (λ row. Rows rows)
  unfolding find_outbound_by_tag list_outbounds optional_as
  find_outbound_by_tag-Rows tag = record {
    at = λ s h.
        let q : Result CacheError Outbound × Db = find_outbound_by_tag tag s in
        either q.0 q.1 (
          ap (λ d. d.outbounds)
            (follow-state (list_outbounds [] s) (find_outbound (λ item. equal item.tag tag)))
          ∙ by_tag-outbounds tag s.faults s
          ∙ h);
  }
    where
      either :
          (r : Result CacheError Outbound) (s : Db)
          → Rows rows s
          → Leaves (KeepsFetched rows) (λ row. Rows rows) (optional_as r, s)
      either (ok row) s h = h
      either (err not_found) s h = h
      either (err storage_failed) s h = ap fetched h
      either (err fetch_failed) s h = ap fetched h

  saved :
      (item old : Outbound) (s : Db) (a b : Bool)
      → are_distinct rows ≡ true
      → find_outbound (λ row. eqb_ℤ row.id item.id) rows ≡ ok old
      → is_manual old ≡ true
      → is_manual item ≡ true
      → Rows rows s
      → Leaves
          (KeepsFetched rows)
          (λ u. KeepsFetched rows)
          (if not a
            then (err not_found, s)
            else if b
            then (err storage_failed, s)
            else (ok tt, record s { outbounds = replace_row item s.outbounds }))
  saved item old s false b d f o m h = ap fetched h
  saved item old s true true d f o m h = ap fetched h
  saved item old s true false d f o m h =
      ap (λ q. fetched (replace_row item q)) h ∙ fetched-replace_row item old rows d f o m

  update_outbound-Rows :
      (item old : Outbound)
      → are_distinct rows ≡ true
      → find_outbound (λ row. eqb_ℤ row.id item.id) rows ≡ ok old
      → is_manual old ≡ true
      → is_manual item ≡ true
      → Ensures (KeepsFetched rows) (Rows rows) (update_outbound item) (λ u. KeepsFetched rows)
  unfolding update_outbound save_outbound storage_call
  update_outbound-Rows item old d f o m = record {
    at = λ s h. go (eqb_ℤ item.id (pos 0)) s.faults s h;
  }
    where
      go :
          (z : Bool) (faults : List Bool) (s : Db)
          → Rows rows s
          → Leaves
              (KeepsFetched rows)
              (λ u. KeepsFetched rows)
              (if z then (err not_found, s) else storage_call faults (save_outbound item) s)
      go true faults s h = ap fetched h
      go false [] s h =
          saved item old s (any (λ row. eqb_ℤ row.id item.id) s.outbounds)
            (tag_is_taken item s.outbounds) d f o m h
      go false (true ∷ faults) s h = ap fetched h
      go false (false ∷ faults) s h =
          saved item old (record s { faults = faults })
            (any (λ row. eqb_ℤ row.id item.id) s.outbounds) (tag_is_taken item s.outbounds) d f o m
            h

-- what a test that lets the request through says of the row
not-false : (b : Bool) → not b ≡ false → b ≡ true
not-false true h = refl
not-false false h = absurd (cc)

-- A fact that an earlier step has left.
Ensures-fact :
    {A F : Type 0} {I P : Db → Type 0} {Q : A → Db → Type 0} (m : Handler A)
    → (F → Ensures I P m Q)
    → Ensures I (λ s. F × P s) m Q
Ensures-fact m k = record { at = λ s h. (k h.0).at s h.1 }

put_outbound-Ensures :
    (rows : List Outbound) (path : Option ℤ) (body : Option Outbound)
    → are_distinct rows ≡ true
    → Ensures (KeepsFetched rows) (Rows rows) (put_outbound path body) (λ row. KeepsFetched rows)
unfolding put_outbound edited
put_outbound-Ensures rows path body distinct =
    Ensures-bind _ _ (parse_id_param-Rows rows path) (λ id.
      Ensures-bind _ _ (bind-Rows rows body) (λ payload.
        Ensures-bind _ _ (refuse_if-Rows rows _) (λ u. Ensures-fact _ (λ same_id.
          Ensures-bind _ _ (answered-Ensures _ _ _ _ (get_outbound-Rows rows id))
            (λ existing. Ensures-fact _ (from_row id payload existing))))))
  where
    from_row :
        (id : ℤ) (payload existing : Outbound)
        → find_outbound (λ row. eqb_ℤ row.id id) rows ≡ ok existing
        → Ensures
            (KeepsFetched rows)
            (Rows rows)
            (refuse_if (not (is_manual existing)) >>= λ u. refuse_if (is_empty payload.tag) >>= λ v.
              answered optional_as (find_outbound_by_tag payload.tag) >>= λ duplicate.
              refuse_if (is_other existing duplicate) >>= λ w.
              answered missing_as (update_outbound (edited existing payload)) >>= λ z.
              pure (edited existing payload))
            (λ row. KeepsFetched rows)
    from_row id payload existing found =
        let item = edited existing payload in
        let same : existing.id ≡ id =
          (eqb_ℤ_iff existing.id id).0
            (find_outbound-ok (λ row. eqb_ℤ row.id id) rows existing found) in
        let found' : find_outbound (λ row. eqb_ℤ row.id existing.id) rows ≡ ok existing =
          ap (λ i. find_outbound (λ row. eqb_ℤ row.id i) rows) same ∙ found in
        Ensures-bind _ _ (refuse_if-Rows rows _) (λ u. Ensures-fact _ (λ manual.
          Ensures-bind _ _ (refuse_if-Rows rows _) (λ v. Ensures-fact _ (λ tagged.
            Ensures-bind _ _ (find_outbound_by_tag-Rows rows payload.tag) (λ duplicate.
              Ensures-bind _ _ (refuse_if-Rows rows _) (λ w. Ensures-fact _ (λ free.
                Ensures-bind _ _
                  (answered-Ensures _ _ _ _ (
                    update_outbound-Rows rows item existing distinct found'
                      (not-false (is_manual existing) manual) (equal_refl outbound_source_manual)))
                  (λ z. Ensures-pure item))))))))

either-KeepsFetched :
    (rows : List Outbound) (r : Result Status Outbound) (db : Db)
    → Leaves {S = Db} (KeepsFetched rows) (λ row. KeepsFetched rows) (r, db)
    → KeepsFetched rows db
either-KeepsFetched rows (ok row) db h = h
either-KeepsFetched rows (err status) db h = h

-- Where no two rows have one id, no request to update an outbound, whatever its id and body are and
-- whatever storage calls fail, changes, adds or removes a row that is not manual.
pub put_outbound-KeepsFetched :
    (path : Option ℤ) (body : Option Outbound) (db : Db)
    → are_distinct db.outbounds ≡ true
    → fetched (put_outbound path body db).1.outbounds ≡ fetched db.outbounds
put_outbound-KeepsFetched path body db h =
    either-KeepsFetched db.outbounds (put_outbound path body db).0 (put_outbound path body db).1
      ((put_outbound-Ensures db.outbounds path body h).at db refl)

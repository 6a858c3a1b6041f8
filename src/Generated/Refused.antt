-- ===== src/Generated/Refused.antt =====
-- A request that is refused: its status, and that nothing changes.
use mathlib.Core.Path.{subst}
use singboxconfig.Prelude.{
  Str, Bool, true, false, not, List, [], ◌∷◌, Option, none, some, ◌≡◌, refl, ◌∙◌, sym, ap, equal,
  arith, if◌then◌else◌,
}
use singboxconfig.Prelude.Exec.{Result, ok, err, pure, raise, follow}
use singboxconfig.Prelude.Ensures.{Keeps, Keeps-bind, keeps_rules, Leaves-both, Leaves-either}
use singboxconfig.Entity.{Device}
use singboxconfig.Singbox.DefaultTables.{get_default_devices}
use singboxconfig.Inventory.Store as TableStore
use singboxconfig.Inventory.Store.{query, get_row, list_rows, Tables}
use singboxconfig.Inventory.Methods.{get_device, list_devices}
use singboxconfig.Inventory.Linked.{query-Ensures}
use singboxconfig.Generated.Server.{
  Action, ServerState, GenerateError, row_missing, failed, db_error, on_db,
}
use singboxconfig.Generated.{
  External, Status, Answer, default_of, stored_or_default, resolve_generate_device, missing_as,
  or_missing, admitted, authorized, generate_for, generated,
}

-- The settings, the cache and the tables are those of a state.
pub record SameData (old new : ServerState) : Type 0 where
  pub world : new.world ≡ old.world
  pub cache : new.cache ≡ old.cache
  pub tables : new.db.tables ≡ old.db.tables

on_db-SameData :
    {A : Type 0} (old : ServerState) (m : TableStore.M A)
    → ((db : TableStore.Db) → (m db).1.tables ≡ db.tables)
    → Keeps (SameData old) (on_db m)
on_db-SameData old m k = record {
  at = λ s h.
      Leaves-both (SameData old) (db_error (m s.db).0) (record s { db = (m s.db).1 })
        (record { world = h.world; cache = h.cache; tables = k s.db ∙ h.tables });
}

list_devices-tables : (db : TableStore.Db) → (list_devices db).1.tables ≡ db.tables
unfolding list_devices list_rows
list_devices-tables db = query-Ensures (λ t. t ≡ db.tables) _ db refl

get_device-tables : (code : Str) (db : TableStore.Db) → (get_device code db).1.tables ≡ db.tables
unfolding get_device get_row
get_device-tables code db = query-Ensures (λ t. t ≡ db.tables) _ db refl

stored_or_default-SameData :
    (old : ServerState) (code : Str) (devices : List Device)
    → Keeps (SameData old) (stored_or_default code devices)
unfolding stored_or_default
stored_or_default-SameData old code [] = record {
  at = λ s h. Leaves-both (SameData old) (default_of code get_default_devices) s h;
}
stored_or_default-SameData old code (device ∷ devices) =
    on_db-SameData old (get_device code) (get_device-tables code)

resolve_generate_device-SameData :
    (old : ServerState) (code : Str) → Keeps (SameData old) (resolve_generate_device code)
unfolding resolve_generate_device
resolve_generate_device-SameData old code =
    Keeps-bind (on_db list_devices) (stored_or_default code)
      (on_db-SameData old list_devices list_devices-tables) (stored_or_default-SameData old code)

or_missing-SameData :
    {A : Type 0} (old : ServerState) (m : Action A)
    → Keeps (SameData old) m
    → Keeps (SameData old) (or_missing m)
unfolding or_missing
or_missing-SameData old m k = record {
  at = λ s h.
      Leaves-both (SameData old) (missing_as (m s).0) (m s).1
        (Leaves-either (SameData old) (m s).0 (m s).1 (k.at s h));
}

admitted-SameData :
    (old : ServerState) (token : Str) (device : Device)
    → Keeps (SameData old) (admitted token device)
unfolding admitted
admitted-SameData old token device = search (keeps_rules)

pub authorized-SameData :
    (old : ServerState) (code token : Str) → Keeps (SameData old) (authorized code token)
unfolding authorized
authorized-SameData old code token =
    Keeps-bind (or_missing (resolve_generate_device code)) (admitted token)
      (or_missing-SameData old _ (resolve_generate_device-SameData old code))
      (admitted-SameData old token)

-- The status with which a request is refused, by the outcome of the search for its device.
abbrev pub refusal : Str → Result GenerateError Device → Option Status
refusal token (err row_missing) = some Status.not_found
refusal token (err failed) = some Status.internal_server_error
refusal token (ok device) =
    if not device.enabled
    then some Status.forbidden
    else if not (equal token device.token)
    then some Status.unauthorized
    else none

admitted-refusal :
    {A : Type 0} (token : Str) (r : Result GenerateError Device) (s : ServerState) (status : Status)
    (f : Device → Answer A)
    → refusal token r ≡ some status
    → follow (follow (missing_as r, s) (admitted token)) f ≡ (err status, s)
unfolding missing_as admitted
admitted-refusal token (err row_missing) s status f h = ground arith
admitted-refusal token (err failed) s status f h = ground arith
admitted-refusal token (ok device) s status f h = tested device.enabled (equal token device.token) h
  where
    tested :
        (b t : Bool)
        → (if not b
            then some Status.forbidden
            else if not t
            then some Status.unauthorized
            else none)
          ≡ some status
        → follow
            ((if not b
                then raise Status.forbidden
                else if not t
                then raise Status.unauthorized
                else pure device)
              s)
            f
          ≡ (err status, s)
    tested true true h = ground arith
    tested true false h = ground arith
    tested false t h = ground arith

-- A request whose device is not found, is disabled or has another token is answered with the status
-- that says so, and changes no setting, no cached outbound and no table: no refresh is triggered.
pub generated-refused :
    (x : External) (code token : Str) (s : ServerState) (status : Status)
    → refusal token (resolve_generate_device code s).0 ≡ some status
    → ((generated x code token s).0 ≡ err status) × SameData s (generated x code token s).1
unfolding generated authorized or_missing
generated-refused x code token s status h =
    let r : Result GenerateError Device × ServerState = resolve_generate_device code s in
    let e = admitted-refusal token r.0 r.1 status (generate_for x) h in
    (
      ap (λ q. q.0) e,
      subst (SameData s) (sym (ap (λ q. q.1) e)) (
          Leaves-either (SameData s) r.0 r.1 (
            (resolve_generate_device-SameData s code).at s
              (record { world = refl; cache = refl; tables = refl }))),
    )

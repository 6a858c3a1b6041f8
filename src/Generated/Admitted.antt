-- ===== src/Generated/Admitted.antt =====
-- The device of a request for a configuration or a rule set, by the rows of the devices.
use mathlib.Core.Path.{subst}
use singboxconfig.Prelude.{
  Str, Bool, true, false, not, List, [], ◌∷◌, Option, none, some, ◌≡◌, refl, ◌∙◌, sym, ap, arith,
  equal, equal_iff, if◌then◌else◌,
}
use singboxconfig.Prelude.Exec.{Result, ok, err, pure, raise, follow, follow-eq-ok, ok-injective}
use singboxconfig.Prelude.Ensures.{Leaves}
use singboxconfig.Entity.{Device}
use singboxconfig.Singbox.DefaultTables.{get_default_devices}
use singboxconfig.Inventory.Table.{find}
use singboxconfig.Inventory.Store.{
  devices, query, Db, StorageError, Tables, get_row, list_rows, first, storage_call,
}
use singboxconfig.Inventory.Methods.{get_device, list_devices}
use singboxconfig.Generated.Server.{
  ServerState, GenerateError, row_missing, failed, db_error, on_db,
}
use singboxconfig.Generated.{
  Status, default_of, stored_or_default, resolve_generate_device, missing_as, or_missing, admitted,
  authorized,
}
use singboxconfig.Generated.Refused.{SameData, authorized-SameData}

-- The default devices stand in for a table without rows.
abbrev pub known_devices : List Device → List Device
known_devices [] = get_default_devices
known_devices (row ∷ rows) = row ∷ rows

-- The device that a request names is known, enabled, and has the token of the request.
pub record IsAdmitted (code token : Str) (rows : List Device) (device : Device) : Type 0 where
  pub known : find devices.keyed code (known_devices rows) ≡ some device
  pub enabled : device.enabled ≡ true
  pub same_token : token ≡ device.token

default_of-find :
    (code : Str) (rows : List Device)
    → default_of code rows ≡ db_error (first (find devices.keyed code rows))
unfolding default_of find first db_error
default_of-find code [] = refl
default_of-find code (row ∷ rows) = ground (arith, default_of-find code rows)

first-ok :
    (row : Option Device) (device : Device) → db_error (first row) ≡ ok device → row ≡ some device
unfolding first db_error
first-ok none device h = ground arith
first-ok (some row) device h = ground arith

pub query_ok :
    {A : Type 0} (f : Tables → Result StorageError A) (db : Db)
    → db.faults ≡ []
    → query f db ≡ (f db.tables, db)
unfolding query storage_call
query_ok f db h = ground arith

-- A query that answers reads the tables as they are.
query-eq-ok :
    {A : Type 0} (f : Tables → Result StorageError A) (s t : ServerState) (a : A)
    → on_db (query f) s ≡ (ok a, t)
    → (db_error (f s.db.tables) ≡ ok a) × (t.db.tables ≡ s.db.tables)
unfolding query storage_call db_error
query-eq-ok {A} f s t a h = go s.db.faults h
  where
    go :
        (faults : List Bool)
        → on_db (storage_call faults (λ u. (f u, u))) s ≡ (ok a, t)
        → (db_error (f s.db.tables) ≡ ok a) × (t.db.tables ≡ s.db.tables)
    go [] h = (ap (λ q. q.0) h, ap (λ q. q.1.db.tables) (sym h))
    go (true ∷ faults) h = ground arith
    go (false ∷ faults) h = (ap (λ q. q.0) h, ap (λ q. q.1.db.tables) (sym h))

stored_or_default_ok :
    (code : Str) (rows : List Device) (s : ServerState)
    → s.db.faults ≡ []
    → s.db.tables.devices ≡ rows
    → stored_or_default code rows s
      ≡ (db_error (first (find devices.keyed code (known_devices rows))), s)
unfolding stored_or_default get_device get_row
stored_or_default_ok code [] s f h = ap (λ r. (r, s)) (default_of-find code get_default_devices)
stored_or_default_ok code (row ∷ rows) s f h =
    ap (λ q. (db_error q.0, record s { db = q.1 }))
      (query_ok (λ t. first (find devices.keyed code t.devices)) s.db f)
    ∙ ap (λ d. (db_error (first (find devices.keyed code d)), s)) h

stored_or_default-known :
    (code : Str) (rows : List Device) (s t : ServerState) (device : Device)
    → s.db.tables.devices ≡ rows
    → stored_or_default code rows s ≡ (ok device, t)
    → find devices.keyed code (known_devices rows) ≡ some device
unfolding stored_or_default get_device get_row
stored_or_default-known code [] s t device h e =
    first-ok (find devices.keyed code get_default_devices) device
      (sym (default_of-find code get_default_devices) ∙ ap (λ q. q.0) e)
stored_or_default-known code (row ∷ rows) s t device h e =
    ap (find devices.keyed code) (sym h)
    ∙ first-ok (find devices.keyed code s.db.tables.devices) device
        (query-eq-ok (λ t. first (find devices.keyed code t.devices)) s t device e).0

-- The search finds the device of the code alone,
resolve_generate_device-known :
    (code : Str) (s t : ServerState) (device : Device)
    → resolve_generate_device code s ≡ (ok device, t)
    → find devices.keyed code (known_devices s.db.tables.devices) ≡ some device
unfolding resolve_generate_device list_devices list_rows db_error
resolve_generate_device-known code s t device h =
    let (rows, s1, e, k) =
      follow-eq-ok (on_db list_devices s) (stored_or_default code) device t h in
    let (r, same) = query-eq-ok (λ u. ok u.devices) s s1 rows e in
    let stored : s.db.tables.devices ≡ rows = ok-injective _ _ r in
    ap (λ d. find devices.keyed code (known_devices d)) stored
    ∙ stored_or_default-known code rows s1 t device (ap (λ u. u.devices) same ∙ stored) k

-- and finds it, where the storage does not fail.
resolve_generate_device_ok :
    (code : Str) (s : ServerState)
    → s.db.faults ≡ []
    → resolve_generate_device code s
      ≡ (db_error (first (find devices.keyed code (known_devices s.db.tables.devices))), s)
unfolding resolve_generate_device list_devices list_rows db_error
resolve_generate_device_ok code s f =
    ap (λ q. follow (db_error q.0, record s { db = q.1 }) (stored_or_default code))
      (query_ok (λ u. ok u.devices) s.db f)
    ∙ stored_or_default_ok code s.db.tables.devices s f refl

admitted-eq-ok :
    (token : Str) (found device : Device) (s t : ServerState)
    → admitted token found s ≡ (ok device, t)
    → (found ≡ device) × (found.enabled ≡ true) × (token ≡ found.token)
unfolding admitted
admitted-eq-ok token found device s t h = go found.enabled (equal token found.token) refl refl h
  where
    go :
        (b e : Bool)
        → found.enabled ≡ b
        → equal token found.token ≡ e
        → (if not b
              then raise Status.forbidden
              else if not e
              then raise Status.unauthorized
              else pure found)
            s
          ≡ (ok device, t)
        → (found ≡ device) × (found.enabled ≡ true) × (token ≡ found.token)
    go true true p q h = (ok-injective _ _ (ap (λ r. r.0) h), p, (equal_iff token found.token).0 q)
    go true false p q h = absurd (ground arith)
    go false e p q h = absurd (ground arith)

missing_as-ok :
    (r : Result GenerateError Device) (s t : ServerState) (device : Device)
    → ◌≡◌ {A = Result Status Device × ServerState} (missing_as r, s) (ok device, t)
    → ◌≡◌ {A = Result GenerateError Device × ServerState} (r, s) (ok device, t)
unfolding missing_as
missing_as-ok (ok d) s t device h = ground arith
missing_as-ok (err row_missing) s t device h = ground arith
missing_as-ok (err failed) s t device h = ground arith

-- What passes the tests of the handlers is an admitted device; and nothing has changed.
pub authorized-IsAdmitted :
    (code token : Str) (s t : ServerState) (device : Device)
    → authorized code token s ≡ (ok device, t)
    → IsAdmitted code token s.db.tables.devices device × SameData s t
unfolding authorized or_missing
authorized-IsAdmitted code token s t device h =
    let (found, s1, e, k) =
      follow-eq-ok (or_missing (resolve_generate_device code) s) (admitted token) device t h in
    let (same, enabled, same_token) = admitted-eq-ok token found device s1 t k in
    let r : Result GenerateError Device × ServerState = resolve_generate_device code s in
    (
      record {
        known =
            resolve_generate_device-known code s s1 found (missing_as-ok r.0 r.1 s1 found e)
            ∙ ap some same;
        enabled = ap (λ d. d.enabled) (sym same) ∙ enabled;
        same_token = same_token ∙ ap (λ d. d.token) same;
      },
      subst (Leaves (SameData s) (λ d. SameData s)) h (
          (authorized-SameData s code token).at s
            (record { world = refl; cache = refl; tables = refl })),
    )

admitted_ok :
    (token : Str) (device : Device) (s : ServerState)
    → device.enabled ≡ true
    → token ≡ device.token
    → admitted token device s ≡ (ok device, s)
unfolding admitted
admitted_ok token device s e h = ground (arith, (equal_iff token device.token).1 h)

-- Where the storage does not fail, an admitted device passes.
pub authorized_ok :
    (code token : Str) (s : ServerState) (device : Device)
    → s.db.faults ≡ []
    → IsAdmitted code token s.db.tables.devices device
    → authorized code token s ≡ (ok device, s)
unfolding authorized or_missing missing_as db_error first
authorized_ok code token s device f a =
    ap (λ q. follow (missing_as q.0, q.1) (admitted token))
      (resolve_generate_device_ok code s f ∙ ap (λ q. (db_error (first q), s)) a.known)
    ∙ admitted_ok token device s a.enabled a.same_token

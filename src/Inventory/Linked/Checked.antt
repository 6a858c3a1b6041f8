-- ===== src/Inventory/Linked/Checked.antt =====
-- The handlers that check a reference before they write it.
use mathlib.Core.Path.{subst}
use singboxconfig.Prelude.{
  Str, Bool, true, false, not, ◌&&◌, List, [], ◌∷◌, Option, none, some, ◌≡◌, refl, sym, arith, any,
  if◌then◌else◌,
}
use singboxconfig.Prelude.Int.{ℤ, pos, eqb_ℤ}
use singboxconfig.Prelude.Exec.{Result, ok, err, pure, raise, ◌>>=◌, ◌>>◌}
use singboxconfig.Prelude.Ensures.{Leaves, Ensures, Ensures-bind, Keeps, Keeps-pure}
use singboxconfig.Entity.{DeviceInbound, WireGuardPeer}
use singboxconfig.Inventory.Table.{Keyed, is_row, find}
use singboxconfig.Inventory.Store.{
  StorageError, not_found, storage_failed, Tables, Db, Slot, query, storage_call, first, get_row,
  devices, inbounds, wire_guards,
}
use singboxconfig.Inventory.Methods.{
  get_device, get_inbound, get_wire_guard, set_device_inbounds, create_wire_guard_peer,
  update_wire_guard_peer,
}
use singboxconfig.Inventory.Handlers.{
  Status, Handler, answered, missing_as, failed_as, existing_as, or_missing, or_failed, must_exist,
  bind, refuse_if, differs, check_bindings, put_device_inbounds, with_path_id, post_peer, put_peer,
}
use singboxconfig.Inventory.Links.{IsLinked, has_device}
use singboxconfig.Inventory.Linked.{all_linked, Linked}
use singboxconfig.Inventory.Linked.Steps.{answered-Ensures}
use singboxconfig.Inventory.Linked.Methods.{
  set_device_inbounds-Linked, create_wire_guard_peer-Linked, update_wire_guard_peer-Linked,
}

module _ {A : Type 0} (t : Keyed Str A) where
  -- A row that was found is stored.
  find-stored :
      (k : Str) (rows : List A) (row : A)
      → first (find t k rows) ≡ ok row
      → any (is_row t k) rows ≡ true
  unfolding find first any
  find-stored k [] row h = absurd (cc)
  find-stored k (r ∷ rows) row h = ground (arith, find-stored k rows row)

-- What holds of the tables, beside the references.
abbrev With : (Tables → Type 0) → Db → Type 0
With P db = Linked db × P db.tables

-- A query keeps all that holds of the tables, and finds what is stored.
get_row-Ensures :
    {A : Type 0} (s : Slot Str A) (k : Str) (db : Db)
    → ((get_row s k db).1.tables ≡ db.tables)
      × ((row : A) → (get_row s k db).0 ≡ ok row → any (is_row s.keyed k) (s.rows db.tables) ≡ true)
unfolding get_row query storage_call
get_row-Ensures {A} s k db = go db.faults
  where
    go :
        (faults : List Bool)
        → ((storage_call faults (λ t. (first (find s.keyed k (s.rows t)), t)) db).1.tables
            ≡ db.tables)
          × ((row : A)
              → (storage_call faults (λ t. (first (find s.keyed k (s.rows t)), t)) db).0 ≡ ok row
              → any (is_row s.keyed k) (s.rows db.tables) ≡ true)
    go [] = (refl, λ row e. find-stored s.keyed k (s.rows db.tables) row e)
    go (true ∷ faults) = (refl, λ row e. absurd (cc))
    go (false ∷ faults) = (refl, λ row e. find-stored s.keyed k (s.rows db.tables) row e)

-- The postcondition, where the outcome of the look-up allows it.
land :
    {B : Type 0} (Q : Db → Type 0) (r : Result Status B) (d : Db)
    → Linked d
    → ((b : B) → r ≡ ok b → Q d)
    → Leaves Linked (λ b. Q) (r, d)
land Q (ok b) d l q = q b refl
land Q (err e) d l q = l

-- A look-up whose success the handler relies on.
module _ {A : Type 0} (s : Slot Str A) (k : Str) (P : Tables → Type 0) where
  abbrev pub Found : Tables → Type 0
  Found t = P t × (any (is_row s.keyed k) (s.rows t) ≡ true)

  answered_outcome :
      {B : Type 0} (f : Result StorageError A → Result Status B) (r : Result StorageError A)
      (d db : Db)
      → ((e : StorageError) (b : B) → f (err e) ≡ ok b → ⊥)
      → d.tables ≡ db.tables
      → ((row : A) → r ≡ ok row → any (is_row s.keyed k) (s.rows db.tables) ≡ true)
      → With P db
      → Leaves Linked (λ b. With Found) (f r, d)
  answered_outcome f (ok row) d db never e found h =
      land (With Found) (f (ok row)) d (subst IsLinked (sym e) h.0) (λ b q. (
        subst IsLinked (sym e) h.0,
        (
          subst P (sym e) h.1,
          subst (λ t. any (is_row s.keyed k) (s.rows t) ≡ true) (sym e) (found row refl),
        ),
      ))
  answered_outcome f (err x) d db never e found h =
      land (With Found) (f (err x)) d (subst IsLinked (sym e) h.0) (λ b q. absurd (never x b q))

  answered-Found :
      {B : Type 0} (f : Result StorageError A → Result Status B)
      → ((e : StorageError) (b : B) → f (err e) ≡ ok b → ⊥)
      → Ensures Linked (With P) (answered f (get_row s k)) (λ b. With Found)
  answered-Found f never = record {
    at = λ db h.
        let (same, found) = get_row-Ensures s k db in
        answered_outcome f (get_row s k db).0 (get_row s k db).1 db never same found h;
  }

or_missing-Found :
    {A : Type 0} (s : Slot Str A) (k : Str) (P : Tables → Type 0)
    → Ensures Linked (With P) (or_missing (get_row s k)) (λ b. With (Found s k P))
unfolding or_missing missing_as
or_missing-Found s k P = answered-Found s k P missing_as (λ e b q. cc)

must_exist-Found :
    {A : Type 0} (s : Slot Str A) (k : Str) (P : Tables → Type 0)
    → Ensures Linked (With P) (must_exist (get_row s k)) (λ b. With (Found s k P))
unfolding must_exist existing_as
must_exist-Found {A} s k P = answered-Found s k P existing_as never
  where
    never : (e : StorageError) (b : Unit {0}) → existing_as {A = A} (err e) ≡ ok b → ⊥
    never not_found b q = cc
    never storage_failed b q = cc

-- Steps that leave the state alone.
bind-With :
    {A : Type 0} (P : Tables → Type 0) (body : Option A)
    → Ensures Linked (With P) (bind body) (λ a. With P)
unfolding bind
bind-With P none = record { at = λ db h. h.0 }
bind-With P (some a) = record { at = λ db h. h }

refuse_if-With :
    (P : Tables → Type 0) (b : Bool) → Ensures Linked (With P) (refuse_if b) (λ a. With P)
unfolding refuse_if
refuse_if-With P true = record { at = λ db h. h.0 }
refuse_if-With P false = record { at = λ db h. h }

-- The loop accepts only bindings that are linked.
check_bindings-Linked :
    (P : Tables → Type 0) (code : Str) (bindings : List (Option DeviceInbound))
    → ((t : Tables) → P t → has_device t code ≡ true)
    → Ensures Linked
        (With P)
        (check_bindings code bindings)
        (λ checked. With (λ t. P t × (all_linked t checked ≡ true)))
unfolding check_bindings get_inbound
check_bindings-Linked P code [] d = record { at = λ db h. (h.0, (h.1, refl)) }
check_bindings-Linked P code (none ∷ bindings) d = record { at = λ db h. h.0 }
check_bindings-Linked P code (some b ∷ bindings) d =
    let F = Found inbounds b.inbound_tag P in
    Ensures-bind (refuse_if (differs b.device_code code)) _
      (refuse_if-With P (differs b.device_code code))
      (λ _.
        Ensures-bind (must_exist (get_row inbounds b.inbound_tag)) _
          (must_exist-Found inbounds b.inbound_tag P)
          (λ _.
            Ensures-bind (check_bindings code bindings) _
              (check_bindings-Linked F code bindings (λ t f. d t f.0))
              (λ rest. record {
                at = λ db h. (h.0, (h.1.0.0, ground (arith, d db.tables h.1.0.0, h.1.0.1, h.1.1)));
              })))

with_path_id-With :
    (P : Tables → Type 0) (path_id : Option (Option ℤ)) (item : WireGuardPeer)
    → Ensures Linked
        (With P)
        (with_path_id path_id item)
        (λ peer. With (λ t. P t × (peer.wire_guard_tag ≡ item.wire_guard_tag)))
unfolding with_path_id refuse_if
with_path_id-With P none item = record { at = λ db h. (h.0, (h.1, refl)) }
with_path_id-With P (some none) item = record { at = λ db h. h.0 }
with_path_id-With P (some (some id)) item = record {
  at = λ db h. tested db (not (eqb_ℤ item.id (pos 0)) && not (eqb_ℤ item.id id)) h;
}
  where
    tested :
        (db : Db) (b : Bool)
        → With P db
        → Leaves Linked
            (λ peer. With (λ t. P t × (peer.wire_guard_tag ≡ item.wire_guard_tag)))
            (((if b then raise Status.bad_request else pure tt) >> pure (record item { id = id }))
              db)
    tested db true h = h.0
    tested db false h = (h.0, (h.1, refl))

-- A handler that starts with a look-up.
after_lookup :
    {A B : Type 0} (s : Slot Str A) (k : Str) (f : A → Handler B)
    → ((a : A) → Ensures Linked (With (Found s k (λ t. Unit {0}))) (f a) (λ b. Linked))
    → Keeps Linked (or_missing (get_row s k) >>= f)
after_lookup s k f h = record {
  at = λ db l. (Ensures-bind _ f (or_missing-Found s k (λ t. Unit {0})) h).at db (l, tt);
}

pub put_device_inbounds-Keeps :
    (code : Str) (body : Option (List (Option DeviceInbound)))
    → Keeps Linked (put_device_inbounds code body)
unfolding put_device_inbounds get_device or_failed
put_device_inbounds-Keeps code body =
    let Q = Found devices code (λ t. Unit {0}) in
    after_lookup devices code _ (λ device.
      Ensures-bind (bind body) _ (bind-With Q body) (λ bindings.
        Ensures-bind (check_bindings code bindings) _
          (check_bindings-Linked Q code bindings (λ t f. f.1))
          (λ checked.
            Ensures-bind (or_failed (set_device_inbounds code checked)) _
              (answered-Ensures failed_as (set_device_inbounds code checked)
                (λ db h. set_device_inbounds-Linked code checked db h.0 h.1.1))
              (λ _. Keeps-pure _))))

pub post_peer-Keeps : (tag : Str) (body : Option WireGuardPeer) → Keeps Linked (post_peer tag body)
unfolding post_peer get_wire_guard or_failed
post_peer-Keeps tag body =
    let Q = Found wire_guards tag (λ t. Unit {0}) in
    after_lookup wire_guards tag _ (λ wg. Ensures-bind (bind body) _ (bind-With Q body) (λ item.
      Ensures-bind (refuse_if (differs item.wire_guard_tag tag)) _
        (refuse_if-With Q (differs item.wire_guard_tag tag))
        (λ _.
          Ensures-bind (or_failed (create_wire_guard_peer (record item { wire_guard_tag = tag }))) _
            (answered-Ensures failed_as
              (create_wire_guard_peer (record item { wire_guard_tag = tag }))
              (λ db h.
                create_wire_guard_peer-Linked (record item { wire_guard_tag = tag }) db h.0 h.1.1))
            (λ stored. Keeps-pure _))))

pub put_peer-Keeps :
    (tag : Str) (path_id : Option (Option ℤ)) (body : Option WireGuardPeer)
    → Keeps Linked (put_peer tag path_id body)
unfolding put_peer get_wire_guard or_missing
put_peer-Keeps tag path_id body =
    let Q = Found wire_guards tag (λ t. Unit {0}) in
    after_lookup wire_guards tag _ (λ wg. Ensures-bind (bind body) _ (bind-With Q body) (λ item.
      Ensures-bind (refuse_if (differs item.wire_guard_tag tag)) _
        (refuse_if-With Q (differs item.wire_guard_tag tag))
        (λ _.
          Ensures-bind (with_path_id path_id (record item { wire_guard_tag = tag })) _
            (with_path_id-With Q path_id (record item { wire_guard_tag = tag }))
            (λ peer.
              Ensures-bind (or_missing (update_wire_guard_peer peer)) _
                (answered-Ensures missing_as (update_wire_guard_peer peer) (λ db h.
                  update_wire_guard_peer-Linked peer db h.0 (ground (arith, h.1.0.1, h.1.1))))
                (λ _. Keeps-pure _)))))

-- ===== src/Rules/Shown.antt =====
-- The rule set that the endpoint finds among the stored ones.
use mathlib.Core.Path.{subst}
use singboxconfig.Prelude.{
  Str, Bool, true, false, not, ◌&&◌, ◌||◌, List, [], ◌∷◌, Option, none, some, ◌≡◌, refl, ◌∙◌, ap,
  arith, equal, if◌then◌else◌,
}
use singboxconfig.Prelude.Exec.{ok}
use singboxconfig.Strings.{is_empty, contains}
use singboxconfig.Entity.{Device, RuleSet, rule_set_type_remote}
use singboxconfig.Inventory.Table.{find}
use singboxconfig.Inventory.Store.{rule_sets, list_rows, query, storage_call}
use singboxconfig.Inventory.Methods.{list_rule_sets}
use singboxconfig.Generated.Server.{ServerState, db_error, on_db}
use singboxconfig.Generated.{failed_as, or_failed}
use singboxconfig.Rules.Endpoint.{find_visible_rule_set}

-- The devices of the rule set, none for all, name the device.
abbrev pub is_able : RuleSet → Str → Bool
is_able rule_set device_code =
    is_empty rule_set.able_devices || contains rule_set.able_devices device_code

-- The stored rule set of a tag, which the device may see and whose content is here.
pub record IsShown (tag : Str) (device : Device) (rows : List RuleSet) (r : RuleSet) : Type 0 where
  pub found : find rule_sets.keyed tag rows ≡ some r
  pub able : is_able r device.code ≡ true
  pub local : equal r.rule_set_type rule_set_type_remote ≡ false

some-injective : (a b : RuleSet) → ◌≡◌ {A = Option RuleSet} (some a) (some b) → a ≡ b
some-injective a b h = cc

-- the rule set, where the device may see it
abbrev pub seen : Str → Option RuleSet → Option RuleSet
seen device_code none = none
seen device_code (some r) = if is_able r device_code then some r else none

pub find_visible_rule_set-find :
    (rows : List RuleSet) (tag code : Str)
    → find_visible_rule_set rows tag code ≡ seen code (find rule_sets.keyed tag rows)
unfolding find_visible_rule_set find
find_visible_rule_set-find [] tag code = refl
find_visible_rule_set-find (row ∷ rows) tag code =
    chosen (equal row.tag tag) (is_empty row.able_devices) (contains row.able_devices code) refl
      refl (find_visible_rule_set-find rows tag code)
  where
    chosen :
        (t e c : Bool)
        → is_empty row.able_devices ≡ e
        → contains row.able_devices code ≡ c
        → find_visible_rule_set rows tag code ≡ seen code (find rule_sets.keyed tag rows)
        → (if not t
            then find_visible_rule_set rows tag code
            else if not e && not c
            then none
            else some row)
          ≡ seen code (if t then some row else find rule_sets.keyed tag rows)
    chosen true true c f g h = ground (arith, f, g)
    chosen true false c f g h = ground (arith, f, g)
    chosen false e c f g h = h

pub find_visible_rule_set_complete :
    (rows stored : List RuleSet) (tag : Str) (device : Device) (r : RuleSet)
    → rows ≡ stored
    → IsShown tag device stored r
    → find_visible_rule_set rows tag device.code ≡ some r
find_visible_rule_set_complete rows stored tag device r e h =
    find_visible_rule_set-find rows tag device.code
    ∙ ap (seen device.code) (ap (find rule_sets.keyed tag) e ∙ h.found)
    ∙ able (is_able r device.code) h.able
  where
    able : (b : Bool) → b ≡ true → ◌≡◌ {A = Option RuleSet} (if b then some r else none) (some r)
    able true a = refl
    able false a = absurd (cc)

pub list_rule_sets_ok :
    (s : ServerState)
    → s.db.faults ≡ []
    → (or_failed (on_db list_rule_sets) s).0 ≡ ok s.db.tables.rule_sets
unfolding or_failed failed_as db_error list_rule_sets list_rows query storage_call
list_rule_sets_ok s h = ground arith

pub list_rule_sets_lem :
    (s t : ServerState) (rows : List RuleSet)
    → or_failed (on_db list_rule_sets) s ≡ (ok rows, t)
    → rows ≡ s.db.tables.rule_sets
unfolding or_failed failed_as db_error list_rule_sets list_rows query storage_call
list_rule_sets_lem s t rows h = ground arith

pub seen-some :
    (code : Str) (found : Option RuleSet) (r : RuleSet)
    → seen code found ≡ some r
    → (found ≡ some r) × (is_able r code ≡ true)
seen-some code none r h = absurd (cc)
seen-some code (some row) r h = able (is_able row code) refl h
  where
    able :
        (b : Bool)
        → is_able row code ≡ b
        → (if b then some row else none) ≡ some r
        → (◌≡◌ {A = Option RuleSet} (some row) (some r)) × (is_able r code ≡ true)
    able true e h = (h, subst (λ q. is_able q code ≡ true) (some-injective row r h) e)
    able false e h = absurd (cc)

-- ===== src/Settings.antt =====
-- `settingsService` of server/src/services/settings.service.ts over the table `settings`
-- (server/src/db/migrations/005_create_settings.ts), with the definitions of
-- shared/src/settingsDefaults.ts.
pub mod Resolve
pub mod Chain
pub mod Decided
pub mod Nearest
pub mod Write
mod Tests
use text.Mathlib.Text.{◌==◌ as str_eq, starts_with}
use oblimap.Base.{
  ℕ, Bool, true, false, ◌&&◌, ◌||◌, not, Option, none, some, List, [], ◌∷◌, ◌++◌, ◌==◌, ◌==?◌,
  if◌then◌else◌, or_else, where_, any, first, update, String, length, ltb,
}

pub data Scope : Type 0 where
  global group site monitor : Scope

abbrev pub scope_index : Scope → ℕ
scope_index global = 0
scope_index group = 1
scope_index site = 2
scope_index monitor = 3

abbrev pub same_scope : Scope → Scope → Bool
same_scope a b = scope_index a == scope_index b

-- What the services use of JavaScript values and of `JSON`. `below v n` is
-- `typeof v === 'number' && v < n`, `above v n` is `typeof v === 'number' && v > n`; `parse` gives none where `JSON.parse` throws.
pub record Json : Type 1 where
  pub Value : Type 0
  pub text : String → Value
  pub number : ℕ → Value
  pub boolean : Bool → Value
  pub below : Value → ℕ → Bool
  pub above : Value → ℕ → Bool
  pub stringify : Value → String
  pub parse : String → Option Value

-- A row of `settings`; the column `value` is of type text.
pub record SettingsRow : Type 0 where
  pub scope : Scope
  pub scope_id : Option ℕ
  pub key : String
  pub value : String
  pub tenant_id : ℕ

pub data SettingType : Type 0 where
  numeric boolean json : SettingType

pub record SettingDefinition : Type 0 where
  pub key : String
  pub type_ : SettingType
  pub min : Option ℕ
  pub max : Option ℕ

abbrev pub settings_keys : List String
settings_keys =
    "scanIntervalSeconds" ∷ "maxMissedPushes" ∷ "offlineThresholdMultiplier" ∷ "notificationEnabled"
    ∷ "excludedSubnets" ∷ "extraSubnets" ∷ "portScanEnabled" ∷ "portScanPorts"
    ∷ "flowAnalysisEnabled" ∷ []

abbrev unbounded : String → SettingType → SettingDefinition
unbounded key type_ = record { key = key; type_ = type_; min = none; max = none }

abbrev bounded : String → ℕ → ℕ → SettingDefinition
bounded key min max = record { key = key; type_ = numeric; min = some min; max = some max }

-- `SETTINGS_DEFINITIONS`
abbrev pub settings_definitions : List SettingDefinition
settings_definitions =
    bounded "scanIntervalSeconds" 60 86400
    ∷ bounded "maxMissedPushes" 1 20
    ∷ bounded "offlineThresholdMultiplier" 1 10
    ∷ unbounded "notificationEnabled" boolean
    ∷ unbounded "excludedSubnets" json
    ∷ unbounded "extraSubnets" json
    ∷ unbounded "portScanEnabled" boolean
    ∷ unbounded "portScanPorts" json
    ∷ unbounded "flowAnalysisEnabled" boolean
    ∷ []

-- An object with string keys: reading a key that was never assigned gives `undefined`.
abbrev pub Object : Type 0 → Type 0
Object A = String → Option A

abbrev pub assign : {A : Type 0} → String → A → Object A → Object A
assign key a o k = if str_eq key k then some a else o k

abbrev pub empty_object : {A : Type 0} → Object A
empty_object k = none

pub data SetError : Type 0 where
  unknown_key out_of_range : SetError

pub data SetResult : Type 0 where
  stored : List SettingsRow → SetResult
  failed : SetError → SetResult

-- `UNIQUE (scope, scope_id, key, tenant_id)`: SQL takes two nulls for different.
abbrev pub conflicts : SettingsRow → SettingsRow → Bool
conflicts a b =
    same_scope a.scope b.scope
    && elim a.scope_id [ none ↦ false | some i ↦ some i ==? b.scope_id ]
    && str_eq a.key b.key
    && a.tenant_id == b.tenant_id

module _ (J : Json) where
  open J use {Value, text, number, below, above, stringify, parse}

  -- `HARDCODED_DEFAULTS[key]`
  unfoldable pub default_value : Object Value
  default_value = assign "scanIntervalSeconds" (number 300) (
      assign "maxMissedPushes" (number 3) (
        assign "offlineThresholdMultiplier" (number 2) (
          assign "notificationEnabled" (J.boolean true) (
            assign "excludedSubnets" (text "[]") (
              assign "extraSubnets" (text "[]") (
                assign "portScanEnabled" (J.boolean false) (
                  assign "portScanPorts" (text "[]")
                    (assign "flowAnalysisEnabled" (J.boolean false) empty_object))))))))

  -- What `getByScope` makes of a stored value.
  unfoldable pub decode : String → Value
  decode s = if starts_with s "[" || starts_with s "{" then or_else (parse s) (text s) else text s

  -- The loop of `getByScope`: a later row of the same key overwrites an earlier one.
  unfoldable pub read_rows : List SettingsRow → Object Value → Object Value
  read_rows [] result = result
  read_rows (row ∷ rows) result = read_rows rows (assign row.key (decode row.value) result)

  -- `getByScope`
  unfoldable pub get_by_scope : List SettingsRow → Scope → Option ℕ → Object Value
  unfolding read_rows
  get_by_scope table scope scope_id =
      read_rows (where_ (λ r. same_scope r.scope scope && r.scope_id ==? scope_id) table)
        empty_object

  -- The range test of `set`.
  unfoldable pub in_range : SettingDefinition → Value → Bool
  in_range def value = elim def.type_ [
    | numeric ↦
        not (elim def.min [ none ↦ false | some min ↦ below value min ])
        && not (elim def.max [ none ↦ false | some max ↦ above value max ])
    | _ ↦ true
  ]

  -- `INSERT … ON CONFLICT … DO UPDATE`
  unfoldable pub upsert : SettingsRow → List SettingsRow → List SettingsRow
  upsert row table =
      if any (conflicts row) table
      then update (conflicts row) (λ r. record r { value = row.value }) table
      else table ++ row ∷ []

  -- `set`
  unfoldable pub set : Scope → Option ℕ → String → Value → ℕ → List SettingsRow → SetResult
  unfolding in_range upsert
  set scope scope_id key value tenant_id table =
      elim (first (λ d. str_eq d.key key) settings_definitions) [
        | none ↦ failed unknown_key
        | some def ↦
            if in_range def value
            then stored (
                upsert
                  (record {
                    scope = scope;
                    scope_id = scope_id;
                    key = key;
                    value = stringify value;
                    tenant_id = tenant_id;
                  })
                  table)
            else failed out_of_range
      ]

  -- `setBulk`: one `set` after the other; what was stored before a failure stays.
  unfoldable pub set_bulk :
      Scope
      → Option ℕ
      → List (String × Value)
      → ℕ
      → List SettingsRow
      → List SettingsRow × Option SetError
  set_bulk scope scope_id [] tenant_id table = (table, none)
  set_bulk scope scope_id ((key, value) ∷ rest) tenant_id table =
      elim (set scope scope_id key value tenant_id table) [
        | stored table' ↦ set_bulk scope scope_id rest tenant_id table'
        | failed e ↦ (table, some e)
      ]

-- The condition of `remove`; a tenant of 0 or none is not part of it.
abbrev removal : Scope → Option ℕ → String → Option ℕ → SettingsRow → Bool
removal scope scope_id key tenant_id r =
    same_scope r.scope scope
    && r.scope_id ==? scope_id
    && str_eq r.key key
    && elim tenant_id [ none ↦ true | some t ↦ t == 0 || r.tenant_id == t ]

-- `remove`
unfoldable pub remove :
    Scope → Option ℕ → String → Option ℕ → List SettingsRow → Bool × List SettingsRow
remove scope scope_id key tenant_id table = (
  any (removal scope scope_id key tenant_id) table,
  where_ (λ r. not (removal scope scope_id key tenant_id r)) table,
)

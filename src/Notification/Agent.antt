-- ===== src/Notification/Agent.antt =====
-- Notifications of agent devices: `resolveNotificationTypesForDevice` and `sendForAgent`.
pub mod Nearest
pub mod Due
use text.Mathlib.Text.{◌==◌ as str_eq}
use oblimap.Base.{
  ℕ, ◌≡◌, refl, sym, ◌∙◌, ap, Bool, false, not, ◌&&◌, Option, none, some, List, [], ◌∷◌, ◌++◌, ◌==◌,
  if◌then◌else◌, or_else, where_, order_by, map, fun_ext, String,
}
use oblimap.Group.{Hierarchy}
use oblimap.Notification.{Binding, resolve_channels_for_agent}
use oblimap.Notification.Sources.{sources_for_agent}
use oblimap.Notification.Agreement.{active}
use oblimap.Notification.Views.{agent-Agrees}
use oblimap.Notification.Dispatch.{Channel, LogRow, send_to, logged, send_to-logged}

-- `NotificationTypeConfig`, where null and undefined are both none.
pub record NotificationTypeConfig : Type 0 where
  pub global : Option Bool
  pub down : Option Bool
  pub up : Option Bool
  pub alert : Option Bool
  pub update : Option Bool

pub record NotificationTypes : Type 0 where
  pub global : Bool
  pub down : Bool
  pub up : Bool
  pub alert : Bool
  pub update : Bool

abbrev pub no_types : NotificationTypeConfig
no_types = record { global = none; down = none; up = none; alert = none; update = none }

-- A field that is already resolved keeps its value.
abbrev pub keep : Option Bool → Option Bool → Option Bool
keep none next = next
keep (some b) next = some b

-- `applyConfig`
unfoldable pub apply_config :
    Option NotificationTypeConfig → NotificationTypeConfig → NotificationTypeConfig
apply_config none found = found
apply_config (some cfg) found = record {
  global = keep found.global cfg.global;
  down = keep found.down cfg.down;
  up = keep found.up cfg.up;
  alert = keep found.alert cfg.alert;
  update = keep found.update cfg.update;
}

-- The loop over the groups, `group_types` being the types in the column `agent_group_config` of a
-- group's row.
unfoldable pub apply_configs :
    (ℕ → Option NotificationTypeConfig) → List ℕ → NotificationTypeConfig → NotificationTypeConfig
unfolding apply_config
apply_configs group_types [] found = found
apply_configs group_types (g ∷ gs) found =
    apply_configs group_types gs (apply_config (group_types g) found)

-- The group and its ancestors, the group first.
unfoldable pub nearest_ids : Option ℕ → Hierarchy → List ℕ
nearest_ids none h = []
nearest_ids (some g) h =
    if g == 0
    then []
    else map (λ l. l.ancestor_id)
        (order_by (λ l. l.depth) (where_ (λ l. l.descendant_id == g) h.closure))

-- The device's row, and the defaults of `appConfigService`.
pub record Device : Type 0 where
  pub id : ℕ
  pub group_id : Option ℕ
  pub notification_types : Option NotificationTypeConfig

-- `resolveNotificationTypesForDevice`
unfoldable pub resolve_notification_types_for_device :
    Device → Hierarchy → (ℕ → Option NotificationTypeConfig) → NotificationTypes → NotificationTypes
unfolding apply_config apply_configs nearest_ids
resolve_notification_types_for_device device h group_types defaults =
    let found =
      apply_configs group_types (nearest_ids device.group_id h)
        (apply_config device.notification_types no_types) in
    record {
      global = or_else found.global defaults.global;
      down = or_else found.down defaults.down;
      up = or_else found.up defaults.up;
      alert = or_else found.alert defaults.alert;
      update = or_else found.update defaults.update;
    }

pub data NotificationKind : Type 0 where
  alert up update : NotificationKind

-- `notifType ?? (newStatus === 'alert' ? 'alert' : 'up')`
abbrev pub effective_type : Option NotificationKind → String → NotificationKind
effective_type none new_status = if str_eq new_status "alert" then alert else up
effective_type (some k) new_status = k

abbrev pub allows : NotificationTypes → NotificationKind → Bool
allows types alert = types.alert
allows types up = types.up
allows types update = types.update

-- The early returns of `sendForAgent`.
unfoldable pub is_due : NotificationTypes → String → String → Option NotificationKind → Bool
is_due types new_status previous_status kind =
    if str_eq new_status previous_status
    then false
    else if not types.global
    then false
    else allows types (effective_type kind new_status)

module _ (deliver : Channel → Option (Option String)) (table : List Binding) (h : Hierarchy)
    (channels : List Channel) (group_types : ℕ → Option NotificationTypeConfig)
    (defaults : NotificationTypes) where
  -- `sendForAgent`
  unfoldable pub send_for_agent :
      Device → String → String → Option NotificationKind → List LogRow → List LogRow
  unfolding send_to resolve_channels_for_agent resolve_notification_types_for_device is_due
  send_for_agent device new_status previous_status kind log =
      if is_due (resolve_notification_types_for_device device h group_types defaults) new_status
        previous_status kind
      then send_to deliver none "agent_status_change"
          (resolve_channels_for_agent table h device.id device.group_id) channels log
      else log

-- The first config of a list that sets a field, and what it sets it to.
pub first_set :
    (NotificationTypeConfig → Option Bool) → List (Option NotificationTypeConfig) → Option Bool
first_set field [] = none
first_set field (none ∷ cs) = first_set field cs
first_set field (some c ∷ cs) = keep (field c) (first_set field cs)

keep_assoc : (a b c : Option Bool) → keep (keep a b) c ≡ keep a (keep b c)
keep_assoc none b c = refl
keep_assoc (some a) b c = refl

keep-none : (a : Option Bool) → keep a none ≡ a
keep-none none = refl
keep-none (some a) = refl

module _ (field : NotificationTypeConfig → Option Bool)
    (kept : (a b : NotificationTypeConfig)
      → field (apply_config (some b) a) ≡ keep (field a) (field b)) where
  apply_first :
      (o : Option NotificationTypeConfig) (found : NotificationTypeConfig)
      (cs : List (Option NotificationTypeConfig))
      → keep (field (apply_config o found)) (first_set field cs)
        ≡ keep (field found) (first_set field (o ∷ cs))
  unfolding apply_config first_set
  apply_first none found cs = refl
  apply_first (some c) found cs =
      ap (λ x. keep x (first_set field cs)) (kept found c)
      ∙ keep_assoc (field found) (field c) (first_set field cs)

  configs_first :
      (group_types : ℕ → Option NotificationTypeConfig) (gs : List ℕ)
      (found : NotificationTypeConfig)
      → field (apply_configs group_types gs found)
        ≡ keep (field found) (first_set field (map group_types gs))
  unfolding apply_configs first_set
  configs_first group_types [] found = sym (keep-none (field found))
  configs_first group_types (g ∷ gs) found =
      configs_first group_types gs (apply_config (group_types g) found)
      ∙ apply_first (group_types g) found (map group_types gs)

  from_start :
      (o : Option NotificationTypeConfig) (group_types : ℕ → Option NotificationTypeConfig)
      (gs : List ℕ) (default : Bool)
      → field no_types ≡ none
      → or_else (field (apply_configs group_types gs (apply_config o no_types))) default
        ≡ or_else (first_set field (o ∷ map group_types gs)) default
  from_start o group_types gs default e =
      ap (λ x. or_else x default)
        (configs_first group_types gs (apply_config o no_types)
          ∙ apply_first o no_types (map group_types gs)
          ∙ ap (λ x. keep x (first_set field (o ∷ map group_types gs))) e)

-- Each field of a device's types is what the first config sets it to that sets it, among the device's
-- own and those of the groups in the order of `nearest_ids`, and the default of the application if none does.
pub resolve_notification_types_for_device-first :
    (device : Device) (h : Hierarchy) (group_types : ℕ → Option NotificationTypeConfig)
    (defaults : NotificationTypes)
    → let types = resolve_notification_types_for_device device h group_types defaults in
      let chain = device.notification_types ∷ map group_types (nearest_ids device.group_id h) in
      (types.global ≡ or_else (first_set (λ c. c.global) chain) defaults.global)
      × (types.down ≡ or_else (first_set (λ c. c.down) chain) defaults.down)
      × (types.up ≡ or_else (first_set (λ c. c.up) chain) defaults.up)
      × (types.alert ≡ or_else (first_set (λ c. c.alert) chain) defaults.alert)
      × (types.update ≡ or_else (first_set (λ c. c.update) chain) defaults.update)
unfolding resolve_notification_types_for_device apply_config
resolve_notification_types_for_device-first device h group_types defaults =
    let gs = nearest_ids device.group_id h in
    let own = device.notification_types in
    (
      from_start (λ c. c.global) (λ a b. refl) own group_types gs defaults.global refl,
      from_start (λ c. c.down) (λ a b. refl) own group_types gs defaults.down refl,
      from_start (λ c. c.up) (λ a b. refl) own group_types gs defaults.up refl,
      from_start (λ c. c.alert) (λ a b. refl) own group_types gs defaults.alert refl,
      from_start (λ c. c.update) (λ a b. refl) own group_types gs defaults.update refl,
    )

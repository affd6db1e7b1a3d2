-- ===== src/Notification/Tests.antt =====
-- Three channels bound globally, on a group and on the things below it.
use oblimap.Base.{
  ℕ, ◌≡◌, ◌≢◌, ◌&&◌, Bool, true, false, Option, none, some, List, [], ◌∷◌, ◌++◌, String, ◌⊎◌,
  where_, arith, ◌==◌,
}
use oblimap.Group.{Hierarchy}
use oblimap.Notification.{Scope, OverrideMode, Binding, merge, replace, exclude}
use oblimap.Notification.Sources.{sources_for_monitor}
use oblimap.Notification.Agreement.{active}
use oblimap.Notification.Send.{send_for_monitor, send_for_monitor-shown}
use oblimap.Notification.Dispatch.{Channel, logged}
use oblimap.Notification.Agent.{
  NotificationTypeConfig, NotificationTypes, Device, resolve_notification_types_for_device,
  send_for_agent,
}
use oblimap.Notification.Agent.Due.{Due, shown_rows, send_for_agent_cases}
use oblimap.Notification.Agent.Nearest.{Takes, resolve_notification_types_for_device-Takes}

abbrev bind : ℕ → Scope → Option ℕ → OverrideMode → Binding
bind channel_id scope scope_id override_mode = record {
  channel_id = channel_id;
  scope = scope;
  scope_id = scope_id;
  override_mode = override_mode;
}

abbrev bindings : List Binding
bindings =
    bind 1 Scope.global none merge
    ∷ bind 2 Scope.group (some 1) merge
    ∷ bind 1 Scope.monitor (some 9) exclude
    ∷ bind 3 Scope.site (some 4) replace
    ∷ []

abbrev hierarchy : Hierarchy
hierarchy = record {
  groups = [];
  closure = record { ancestor_id = 1; descendant_id = 1; depth = 0 } ∷ [];
  next_id = 2;
}

abbrev print : ℕ → String
print n = ""

four_not_zero : ◌≢◌ {A = ℕ} 4 0
four_not_zero e = ground (arith, e)

one_not_zero : ◌≢◌ {A = Option ℕ} (some 1) (some 0)
one_not_zero e = ground (arith, e)

abbrev channels : List Channel
channels =
    record { id = 1; name = "mail"; type_ = "smtp"; is_enabled = true }
    ∷ record { id = 2; name = "chat"; type_ = "slack"; is_enabled = true }
    ∷ []

abbrev deliver : Channel → Option (Option String)
deliver c = if_mail (c.id == 1)
  where
    if_mail : Bool → Option (Option String)
    if_mail true = some (some "refused")
    if_mail false = some none

send_for_monitor-shown_example :
    send_for_monitor deliver bindings hierarchy channels 9 (some 1) none []
    ≡ []
      ++ logged deliver (some 9) "status_change" (
          where_
            (λ ch.
              active ch.id (sources_for_monitor print bindings hierarchy 9 (some 1)).result
              && ch.is_enabled)
            channels)
send_for_monitor-shown_example =
    send_for_monitor-shown deliver bindings hierarchy channels print 9 (some 1) []

abbrev quiet : NotificationTypeConfig
quiet = record { global = none; down = none; up = some false; alert = none; update = none }

abbrev defaults : NotificationTypes
defaults = record { global = true; down = true; up = true; alert = true; update = true }

abbrev device : Device
device = record { id = 6; group_id = some 1; notification_types = none }

abbrev group_types : ℕ → Option NotificationTypeConfig
group_types g = some quiet

resolve_notification_types_for_device-Takes_example :
    let types = resolve_notification_types_for_device device hierarchy group_types defaults in
    Takes (λ c. c.global) group_types none hierarchy (some 1) true types.global
    × Takes (λ c. c.down) group_types none hierarchy (some 1) true types.down
    × Takes (λ c. c.up) group_types none hierarchy (some 1) true types.up
    × Takes (λ c. c.alert) group_types none hierarchy (some 1) true types.alert
    × Takes (λ c. c.update) group_types none hierarchy (some 1) true types.update
resolve_notification_types_for_device-Takes_example =
    resolve_notification_types_for_device-Takes device hierarchy group_types defaults

send_for_agent_cases_example :
    (Due
        (resolve_notification_types_for_device device hierarchy group_types defaults)
        "alert"
        "up"
        none
      × (send_for_agent deliver bindings hierarchy channels group_types defaults device "alert" "up"
            none []
          ≡ [] ++ shown_rows deliver bindings hierarchy channels group_types defaults print device))
    ⊎ ((¬ Due
          (resolve_notification_types_for_device device hierarchy group_types defaults)
          "alert"
          "up"
          none)
        × (send_for_agent deliver bindings hierarchy channels group_types defaults device "alert"
              "up" none []
            ≡ []))
send_for_agent_cases_example =
    send_for_agent_cases deliver bindings hierarchy channels group_types defaults print device
      "alert" "up" none []

-- ===== src/Notification/Agent/Due.antt =====
-- When `sendForAgent` sends, and over which channels.
use text.Mathlib.TextEquality.{eq_iff}
use text.Mathlib.Text.{◌==◌ as str_eq}
use oblimap.Base.{
  ℕ, ◌≡◌, refl, ◌∙◌, ap, ◌⊎◌, inl, inr, true, ◌&&◌, Option, none, some, List, ◌++◌, where_, fun_ext,
  String, arith, Bool-cases,
}
use oblimap.Group.{Hierarchy}
use oblimap.Notification.{Binding, resolve_channels_for_agent}
use oblimap.Notification.Sources.{sources_for_agent}
use oblimap.Notification.Agreement.{active}
use oblimap.Notification.Views.{agent-Agrees}
use oblimap.Notification.Dispatch.{Channel, LogRow, logged, send_to-logged}
use oblimap.Notification.Agent.{
  NotificationTypeConfig, NotificationTypes, NotificationKind, alert, up, update, Device,
  resolve_notification_types_for_device, is_due, send_for_agent,
}

-- The types allow a notification: of the kind that is given, or else of the kind that the new status stands for.
pub data IsAllowed (types : NotificationTypes) (new_status : String)
    : Option NotificationKind → Type 0 where
  given_alert : types.alert ≡ true → IsAllowed types new_status (some alert)
  given_up : types.up ≡ true → IsAllowed types new_status (some up)
  given_update : types.update ≡ true → IsAllowed types new_status (some update)
  to_alert : new_status ≡ "alert" → types.alert ≡ true → IsAllowed types new_status none
  to_other : ¬ (new_status ≡ "alert") → types.up ≡ true → IsAllowed types new_status none

-- The status changes, notifications are on, and the types allow this one.
abbrev pub Due : NotificationTypes → String → String → Option NotificationKind → Type 0
Due types new_status previous_status kind =
    (¬ (new_status ≡ previous_status)) × (types.global ≡ true) × IsAllowed types new_status kind

Due-sound :
    (types : NotificationTypes) (new_status previous_status : String)
    (kind : Option NotificationKind)
    → is_due types new_status previous_status kind ≡ true
    → Due types new_status previous_status kind
unfolding is_due
Due-sound types n p (some alert) h =
    (λ e. ground (arith, h, (eq_iff n p).1 e), ground (arith, h), given_alert (ground (arith, h)))
Due-sound types n p (some up) h =
    (λ e. ground (arith, h, (eq_iff n p).1 e), ground (arith, h), given_up (ground (arith, h)))
Due-sound types n p (some update) h =
    (λ e. ground (arith, h, (eq_iff n p).1 e), ground (arith, h), given_update (ground (arith, h)))
Due-sound types n p none h = (
  λ e. ground (arith, h, (eq_iff n p).1 e),
  ground (arith, h),
  elim (Bool-cases (str_eq n "alert")) [
    | inl e ↦ to_alert ((eq_iff n "alert").0 e) (ground (arith, h, e))
    | inr e ↦ to_other (λ q. ground (arith, e, (eq_iff n "alert").1 q)) (ground (arith, h, e))
  ],
)

Due-complete :
    (types : NotificationTypes) (new_status previous_status : String)
    (kind : Option NotificationKind)
    → Due types new_status previous_status kind
    → is_due types new_status previous_status kind ≡ true
unfolding is_due
Due-complete types n p (some alert) (d, g, given_alert a) = ground (arith, g, a, d, eq_iff n p)
Due-complete types n p (some up) (d, g, given_up a) = ground (arith, g, a, d, eq_iff n p)
Due-complete types n p (some update) (d, g, given_update a) = ground (arith, g, a, d, eq_iff n p)
Due-complete types n p none (d, g, to_alert e a) =
    ground (arith, g, a, d, eq_iff n p, (eq_iff n "alert").1 e)
Due-complete types n p none (d, g, to_other e a) =
    ground (arith, g, a, d, eq_iff n p, eq_iff n "alert", e)

module _ (deliver : Channel → Option (Option String)) (table : List Binding) (h : Hierarchy)
    (channels : List Channel) (group_types : ℕ → Option NotificationTypeConfig)
    (defaults : NotificationTypes) where
  -- The rows that the log gets if the notification is sent: those of the enabled channels that the view shows.
  abbrev pub shown_rows : (ℕ → String) → Device → List LogRow
  shown_rows print device = logged deliver none "agent_status_change" (
      where_
        (λ ch.
          active ch.id (sources_for_agent print table h device.id device.group_id).result
          && ch.is_enabled)
        channels)

  -- A change of an agent device's status is notified exactly if the status differs, the device's types are on as a
  -- whole and they allow the kind that is given, or without one the kind `alert` for the status alert and `up` for
  -- any other. Then it is tried on exactly the enabled channels that the device's view shows as not excluded, with one
  -- row in the log for each whose type has a plugin; and otherwise the log stays as it is.
  pub send_for_agent_cases :
      (print : ℕ → String) (device : Device) (new_status previous_status : String)
      (kind : Option NotificationKind) (log : List LogRow)
      → let types = resolve_notification_types_for_device device h group_types defaults in
        let after =
          send_for_agent deliver table h channels group_types defaults device new_status
            previous_status kind log in
        (Due types new_status previous_status kind × (after ≡ log ++ shown_rows print device))
        ⊎ ((¬ Due types new_status previous_status kind) × (after ≡ log))
  unfolding send_for_agent
  send_for_agent_cases print device new_status previous_status kind log =
      let types = resolve_notification_types_for_device device h group_types defaults in
      elim (Bool-cases (is_due types new_status previous_status kind)) [
        | inl e ↦ rw e (
            inl (
              Due-sound types new_status previous_status kind e,
              send_to-logged deliver none "agent_status_change"
                    (resolve_channels_for_agent table h device.id device.group_id) channels log
                  ∙ ap
                      (λ test.
                        log ++ logged deliver none "agent_status_change" (where_ test channels))
                      (fun_ext λ ch.
                        ap (λ b. b && ch.is_enabled)
                          (agent-Agrees print table h device.id device.group_id ch.id)),
            ))
        | inr e ↦ rw e (
            inr
              (λ d. ground (arith, e, Due-complete types new_status previous_status kind d), refl))
      ]

-- ===== src/Notification/Dispatch.antt =====
-- The loop over the resolved channels that `sendForMonitor`, `sendForGroup`, `sendForAgent` and
-- `sendForSite` share.
use oblimap.Base.{
  ℕ, ◌≡◌, refl, sym, ◌∙◌, Bool, true, false, ◌&&◌, Option, none, some, List, [], ◌∷◌, ◌++◌, elem,
  where_, String,
}
use mathlib.Core.List.{append-nil, append_assoc}

-- A row of `notification_channels`, its configuration left to the plugin.
pub record Channel : Type 0 where
  pub id : ℕ
  pub name : String
  pub type_ : String
  pub is_enabled : Bool

-- A row of `notification_log`.
pub record LogRow : Type 0 where
  pub channel_id : ℕ
  pub monitor_id : Option ℕ
  pub event_type : String
  pub success : Bool
  pub error : Option String

-- `deliver c` is none where no plugin has the channel's type, and otherwise the outcome of resolving
-- the channel's configuration and of the plugin's `send`: none, or the message of what they threw.
module _ (deliver : Channel → Option (Option String)) (monitor_id : Option ℕ)
    (event_type : String) where
  -- `logNotification`
  unfoldable pub log_notification : Channel → Option String → LogRow
  log_notification c none = record {
    channel_id = c.id;
    monitor_id = monitor_id;
    event_type = event_type;
    success = true;
    error = none;
  }
  log_notification c (some message) = record {
    channel_id = c.id;
    monitor_id = monitor_id;
    event_type = event_type;
    success = false;
    error = some message;
  }

  -- One turn of the loop, after the attempt to deliver.
  unfoldable pub record_attempt : Channel → Option (Option String) → List LogRow → List LogRow
  unfolding log_notification
  record_attempt c none log = log
  record_attempt c (some outcome) log = log ++ log_notification c outcome ∷ []

  -- `for (const row of channels) { … }`
  unfoldable pub send_each : List Channel → List LogRow → List LogRow
  unfolding record_attempt
  send_each [] log = log
  send_each (c ∷ cs) log = send_each cs (record_attempt c (deliver c) log)

  -- The queries before the loop: no channel resolved, nothing to do.
  unfoldable pub send_to : List ℕ → List Channel → List LogRow → List LogRow
  unfolding send_each
  send_to [] table log = log
  send_to (c ∷ cs) table log =
      send_each (where_ (λ ch. elem ch.id (c ∷ cs) && ch.is_enabled) table) log

  -- The rows that a list of channels should leave, one for each that has a plugin.
  abbrev pub report : Channel → Option (Option String) → List LogRow
  report c none = []
  report c (some outcome) = log_notification c outcome ∷ []

  unfoldable pub logged : List Channel → List LogRow
  logged [] = []
  logged (c ∷ cs) = report c (deliver c) ++ logged cs

  record_attempt-report :
      (c : Channel) (o : Option (Option String)) (log : List LogRow)
      → record_attempt c o log ≡ log ++ report c o
  unfolding record_attempt
  record_attempt-report c none log = sym (append-nil log)
  record_attempt-report c (some outcome) log = refl

  send_each-logged : (cs : List Channel) (log : List LogRow) → send_each cs log ≡ log ++ logged cs
  unfolding send_each logged
  send_each-logged [] log = sym (append-nil log)
  send_each-logged (c ∷ cs) log =
      send_each-logged cs _ ∙ rw (record_attempt-report c (deliver c) log) (append_assoc log _ _)

  none-asked : (table : List Channel) → where_ (λ ch. elem ch.id [] && ch.is_enabled) table ≡ []
  unfolding where_ elem
  none-asked [] = refl
  none-asked (ch ∷ chs) = none-asked chs

  -- A channel that fails does not keep the others from being tried: the log grows by one row for each
  -- channel that is resolved, enabled and has a plugin, in the order of the table, and by no other.
  pub send_to-logged :
      (ids : List ℕ) (table : List Channel) (log : List LogRow)
      → send_to ids table log ≡ log ++ logged (where_ (λ ch. elem ch.id ids && ch.is_enabled) table)
  unfolding send_to elem logged
  send_to-logged [] table log = rw (none-asked table) (sym (append-nil log))
  send_to-logged (c ∷ cs) table log = send_each-logged _ log

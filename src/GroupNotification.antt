-- ===== src/GroupNotification.antt =====
-- Grouped notifications: `groupNotificationService` of
-- server/src/services/groupNotification.service.ts and its map `groupStates`.
pub mod Tracking
pub mod Reached
pub mod Messages
mod Tests
use oblimap.Base.{
  ℕ, Bool, true, false, not, ◌&&◌, ◌||◌, Option, none, some, List, [], ◌∷◌, map, ◌==◌, ◌==?◌,
  if◌then◌else◌, where_, any, elem, String, set_add, set_delete, lookup, put, erase, change_all,
}
use oblimap.Group.{Group, Hierarchy, get_descendant_ids}
use oblimap.Group.Queries.{find_group_notification_ancestor}

pub record GroupNotifState : Type 0 where
  pub down_monitor_ids : List ℕ
  pub down_monitor_names : List (ℕ × String)
  pub notified_down : Bool

-- `groupStates`
abbrev pub GroupStates : Type 0
GroupStates = List (ℕ × GroupNotifState)

abbrev pub new_state : GroupNotifState
new_state = record { down_monitor_ids = []; down_monitor_names = []; notified_down = false }

abbrev pub or_new : Option GroupNotifState → GroupNotifState
or_new none = new_state
or_new (some state) = state

-- `getOrCreateState`, the state alone: each caller stores what it makes of it.
unfoldable pub get_or_create_state : ℕ → GroupStates → GroupNotifState
get_or_create_state group_id states = or_new (lookup group_id states)

pub data DownResult : Type 0 where
  first_down already_down : DownResult

pub data UpResult : Type 0 where
  all_recovered still_down : UpResult

-- `handleMonitorDown`
unfoldable pub handle_monitor_down : ℕ → String → ℕ → GroupStates → DownResult × GroupStates
unfolding get_or_create_state
handle_monitor_down monitor_id monitor_name group_id states =
    let state = get_or_create_state group_id states in
    (
      if state.notified_down then already_down else first_down,
      put group_id
          (record {
            down_monitor_ids = set_add monitor_id state.down_monitor_ids;
            down_monitor_names = put monitor_id monitor_name state.down_monitor_names;
            notified_down = true;
          })
          states,
    )

abbrev pub is_empty : List ℕ → Bool
is_empty [] = true
is_empty (_ ∷ _) = false

-- The monitor is no longer down, as far as a state can tell.
unfoldable pub forget_monitor : ℕ → GroupNotifState → GroupNotifState
forget_monitor monitor_id state = record state {
  down_monitor_ids = set_delete monitor_id state.down_monitor_ids;
  down_monitor_names = erase monitor_id state.down_monitor_names;
}

-- The end of `handleMonitorUp`, with the monitor already forgotten.
unfoldable pub check_recovered : ℕ → GroupNotifState → GroupStates → UpResult × GroupStates
check_recovered group_id state states =
    if is_empty state.down_monitor_ids && state.notified_down
    then (all_recovered, put group_id (record state { notified_down = false }) states)
    else (still_down, put group_id state states)

-- `handleMonitorUp`, from the look-up of the group's state on.
unfoldable pub recover : ℕ → ℕ → GroupStates → Option GroupNotifState → UpResult × GroupStates
unfolding forget_monitor check_recovered
recover monitor_id group_id states none = (still_down, states)
recover monitor_id group_id states (some state) =
    check_recovered group_id (forget_monitor monitor_id state) states

-- `handleMonitorUp`
unfoldable pub handle_monitor_up : ℕ → ℕ → GroupStates → UpResult × GroupStates
unfolding recover
handle_monitor_up monitor_id group_id states =
    recover monitor_id group_id states (lookup group_id states)

-- `getDownMonitorNames`
unfoldable pub get_down_monitor_names : ℕ → GroupStates → List String
get_down_monitor_names group_id states = elim (lookup group_id states) [
  | none ↦ []
  | some state ↦ map (λ p. p.1) state.down_monitor_names
]

-- `removeMonitor`
unfoldable pub remove_monitor : ℕ → GroupStates → GroupStates
unfolding forget_monitor
remove_monitor monitor_id states = change_all (forget_monitor monitor_id) states

-- `removeGroup`
unfoldable pub remove_group : ℕ → GroupStates → GroupStates
remove_group group_id states = erase group_id states

-- `shouldSuppressIndividual`
unfoldable pub should_suppress_individual : Option ℕ → Hierarchy → Option ℕ
unfolding find_group_notification_ancestor
should_suppress_individual none h = none
should_suppress_individual (some group_id) h = elim (find_group_notification_ancestor group_id h) [
  | none ↦ none
  | some ancestor ↦ some ancestor.id
]

pub data MonitorStatus : Type 0 where
  up down pending maintenance paused ssl_warning ssl_expired alert inactive updating : MonitorStatus

-- `whereIn('status', ['down', 'ssl_expired', 'ssl_warning'])`
abbrev pub counts_as_down : MonitorStatus → Bool
counts_as_down down = true
counts_as_down ssl_expired = true
counts_as_down ssl_warning = true
counts_as_down _ = false

-- A row of `monitors`, with the columns that are read here.
pub record Monitor : Type 0 where
  pub id : ℕ
  pub name : String
  pub group_id : Option ℕ
  pub status : MonitorStatus
  pub is_active : Bool

abbrev pub in_groups : List ℕ → Option ℕ → Bool
in_groups ids none = false
in_groups ids (some g) = elem g ids

-- The query for the monitors of a subtree that are down.
unfoldable pub down_monitors : List ℕ → List Monitor → List Monitor
down_monitors ids monitors =
    where_ (λ m. in_groups ids m.group_id && (counts_as_down m.status && m.is_active)) monitors

-- `for (const m of downMonitors) { … }`
unfoldable pub add_down : List Monitor → GroupNotifState → GroupNotifState
add_down [] state = state
add_down (m ∷ ms) state = add_down ms (record state {
  down_monitor_ids = set_add m.id state.down_monitor_ids;
  down_monitor_names = put m.id m.name state.down_monitor_names;
})

-- What `initialize` does for one flagged group.
unfoldable pub initialize_group : ℕ → List Monitor → GroupStates → GroupStates
unfolding add_down get_or_create_state
initialize_group group_id [] states = states
initialize_group group_id (m ∷ ms) states =
    put group_id
      (record (add_down (m ∷ ms) (get_or_create_state group_id states)) { notified_down = true })
      states

unfoldable pub initialize_groups : List Group → Hierarchy → List Monitor → GroupStates → GroupStates
unfolding initialize_group down_monitors get_descendant_ids
initialize_groups [] h monitors states = states
initialize_groups (g ∷ gs) h monitors states =
    initialize_groups gs h monitors
      (initialize_group g.id (down_monitors (get_descendant_ids g.id h.closure) monitors) states)

-- `initialize`
unfoldable pub initialize : Hierarchy → List Monitor → GroupStates → GroupStates
unfolding initialize_groups
initialize h monitors states =
    initialize_groups (where_ (λ g. g.group_notifications) h.groups) h monitors states

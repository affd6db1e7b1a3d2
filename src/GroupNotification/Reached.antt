-- ===== src/GroupNotification/Reached.antt =====
-- The states of the grouped notifications that the service can be in while no monitor is removed.
use oblimap.Base.{ℕ, refl, List, [], lookup, String}
use oblimap.Group.{Hierarchy}
use oblimap.GroupNotification.{
  GroupStates, Monitor, initialize, handle_monitor_down, handle_monitor_up, remove_group,
}
use oblimap.GroupNotification.Tracking.{
  Tracks, initialize-Tracks, handle_monitor_down-Tracks, handle_monitor_up-Tracks,
  remove_group-Tracks,
}

-- The states after `initialize` and any calls of `handleMonitorDown`, `handleMonitorUp` and `removeGroup`.
pub data Reached : GroupStates → Type 0 where
  initialized : (h : Hierarchy) (monitors : List Monitor) → Reached (initialize h monitors [])
  down :
      (m : ℕ) (name : String) (g : ℕ) {states : GroupStates}
      → Reached states
      → Reached (handle_monitor_down m name g states).1
  up : (m g : ℕ) {states : GroupStates} → Reached states → Reached (handle_monitor_up m g states).1
  removed : (g : ℕ) {states : GroupStates} → Reached states → Reached (remove_group g states)

-- After `initialize` and any calls of `handleMonitorDown`, `handleMonitorUp` and `removeGroup`, each group is marked as notified
-- exactly while its set of down monitors is not empty.
pub Reached-Tracks : {states : GroupStates} → Reached states → Tracks states
unfolding Tracks lookup
Reached-Tracks (initialized h monitors) = initialize-Tracks h monitors [] (λ g. refl)
Reached-Tracks (down m name g {states} r) =
    handle_monitor_down-Tracks m name g states (Reached-Tracks r)
Reached-Tracks (up m g {states} r) = handle_monitor_up-Tracks m g states (Reached-Tracks r)
Reached-Tracks (removed g {states} r) = remove_group-Tracks g states (Reached-Tracks r)

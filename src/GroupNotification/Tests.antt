-- ===== src/GroupNotification/Tests.antt =====
-- Two monitors of the group 7 that go down and come up.
use oblimap.Base.{◌≡◌, refl, true, [], ◌∷◌, lookup, put, set_add, set_delete, elem}
use oblimap.GroupNotification.{
  GroupStates, DownResult, handle_monitor_down, handle_monitor_up, remove_monitor, initialize,
  get_or_create_state,
}
use oblimap.GroupNotification.Tracking.{Tracks, handle_monitor_down-Tracks, remove_monitor-silences}
use oblimap.GroupNotification.Reached.{Reached, initialized, down, up, Reached-Tracks}
use oblimap.GroupNotification.Messages.{
  went_down, went_up, removed, Alternates, notified, messages, messages-Alternates,
}

empty_states-Tracks : Tracks []
unfolding Tracks lookup
empty_states-Tracks g = refl

abbrev first_down_states : GroupStates
first_down_states = (handle_monitor_down 4 "router" 7 []).1

first_down_states-Tracks : Tracks first_down_states
first_down_states-Tracks = handle_monitor_down-Tracks 4 "router" 7 [] empty_states-Tracks

remove_monitor-silences_example :
    ((get_or_create_state 7 (remove_monitor 4 first_down_states)).down_monitor_ids ≡ [])
    × ((handle_monitor_down 5 "switch" 7 (remove_monitor 4 first_down_states)).0
        ≡ DownResult.already_down)
unfolding handle_monitor_down get_or_create_state lookup put set_add elem set_delete
remove_monitor-silences_example =
    remove_monitor-silences 4 5 "switch" 7
      (record {
        down_monitor_ids = 4 ∷ [];
        down_monitor_names = (4, "router") ∷ [];
        notified_down = true;
      })
      first_down_states refl refl refl

messages-Alternates_example : Alternates (notified 7 []) (
    messages 7
      (went_down 4 "router" 7
        ∷ went_down 5 "switch" 7
        ∷ went_up 4 7
        ∷ removed 5
        ∷ went_down 4 "router" 7
        ∷ [])
      [])
messages-Alternates_example =
    messages-Alternates 7
      (went_down 4 "router" 7
        ∷ went_down 5 "switch" 7
        ∷ went_up 4 7
        ∷ removed 5
        ∷ went_down 4 "router" 7
        ∷ [])
      []

-- The monitors 4 and 5 go down, and 4 comes up.
two_down :
    Reached
      (handle_monitor_up 4 7
        (handle_monitor_down 5 "switch" 7
          (handle_monitor_down 4 "router" 7
            (initialize (record { groups = []; closure = []; next_id = 1 }) [] [])).1).1).1
two_down = up 4 7 (down 5 "switch" 7 (down 4 "router" 7 (initialized _ [])))

Reached-Tracks_example :
    Tracks
      (handle_monitor_up 4 7
        (handle_monitor_down 5 "switch" 7
          (handle_monitor_down 4 "router" 7
            (initialize (record { groups = []; closure = []; next_id = 1 }) [] [])).1).1).1
Reached-Tracks_example = Reached-Tracks two_down

-- ===== src/GroupNotification/Tracking.antt =====
-- What `groupStates` means: outside `removeMonitor`, a group is marked as notified exactly while
-- some of its monitors are down.
use oblimap.Base.{
  ℕ, ◌≡◌, refl, Bool, true, false, not, ◌&&◌, Option, none, some, List, [], ◌∷◌, if◌then◌else◌,
  String, set_add, set_delete, elem, lookup, put, lookup-put, lookup-erase, lookup-change_all,
  arith, Bool-cases, inl, inr, where_,
}
use oblimap.Group.{Group, Hierarchy}
use oblimap.GroupNotification.{
  GroupNotifState, GroupStates, or_new, get_or_create_state, DownResult, UpResult,
  handle_monitor_down, handle_monitor_up, forget_monitor, check_recovered, recover, is_empty,
  remove_group, remove_monitor, Monitor, add_down, initialize_group, initialize_groups, initialize,
}

abbrev pub consistent : Option GroupNotifState → Bool
consistent none = true
consistent (some s) = if is_empty s.down_monitor_ids then not s.notified_down else s.notified_down

-- Each group is marked as notified exactly while its set of down monitors is not empty.
unfoldable pub Tracks : GroupStates → Type 0
Tracks states = (g : ℕ) → consistent (lookup g states) ≡ true

added_not_empty : (n : ℕ) (s : List ℕ) → is_empty (set_add n s) ≡ false
unfolding set_add elem
added_not_empty n [] = refl
added_not_empty n (x ∷ s) = elim (Bool-cases (elem n (x ∷ s))) [
  | inl e ↦ rw e refl
  | inr e ↦ rw e refl
]

-- A consistent entry keeps the map so.
put-Tracks :
    (k : ℕ) (s : GroupNotifState) (states : GroupStates)
    → consistent (some s) ≡ true
    → Tracks states
    → Tracks (put k s states)
unfolding Tracks
put-Tracks k s states h t g = rw (lookup-put g k s states) (ground (arith, h, t g))

-- If each group is marked as notified exactly while its set of down monitors is not empty, this
-- still holds after `handleMonitorDown`.
pub handle_monitor_down-Tracks :
    (m : ℕ) (name : String) (g : ℕ) (states : GroupStates)
    → Tracks states
    → Tracks (handle_monitor_down m name g states).1
unfolding handle_monitor_down
handle_monitor_down-Tracks m name g states t =
    put-Tracks g _ states
      (ground (arith, added_not_empty m (get_or_create_state g states).down_monitor_ids)) t

delete_empty : (n : ℕ) (ids : List ℕ) → is_empty ids ≡ true → is_empty (set_delete n ids) ≡ true
unfolding set_delete
delete_empty n [] h = refl
delete_empty n (x ∷ ids) h = absurd (ground (arith, h))

either :
    (b : Bool) (x y : UpResult × GroupStates)
    → (b ≡ true → Tracks x.1)
    → (b ≡ false → Tracks y.1)
    → Tracks (if b then x else y).1
either true x y f g = f refl
either false x y f g = g refl

consistent_after :
    (s : GroupNotifState)
    → (is_empty s.down_monitor_ids ≡ false → s.notified_down ≡ true)
    → (is_empty s.down_monitor_ids && s.notified_down) ≡ false
    → consistent (some s) ≡ true
consistent_after s n h = ground (arith, n, h)

check_recovered-Tracks :
    (g : ℕ) (s : GroupNotifState) (states : GroupStates)
    → (is_empty s.down_monitor_ids ≡ false → s.notified_down ≡ true)
    → Tracks states
    → Tracks (check_recovered g s states).1
unfolding check_recovered
check_recovered-Tracks g s states n t =
    either (is_empty s.down_monitor_ids && s.notified_down) _ _
      (λ all_up.
        put-Tracks g (record s { notified_down = false }) states (ground (arith, all_up)) t)
      (λ not_yet. put-Tracks g s states (consistent_after s n not_yet) t)

told_while_down :
    (m : ℕ) (s : GroupNotifState)
    → consistent (some s) ≡ true
    → is_empty (set_delete m s.down_monitor_ids) ≡ false
    → s.notified_down ≡ true
told_while_down m s c h = elim (Bool-cases (is_empty s.down_monitor_ids)) [
  | inl e ↦ absurd (ground (arith, delete_empty m s.down_monitor_ids e))
  | inr e ↦ rw e at c
]

-- If each group is marked as notified exactly while its set of down monitors is not empty, this
-- still holds after `handleMonitorUp`.
pub handle_monitor_up-Tracks :
    (m g : ℕ) (states : GroupStates) → Tracks states → Tracks (handle_monitor_up m g states).1
unfolding handle_monitor_up recover forget_monitor Tracks
handle_monitor_up-Tracks m g states t = go (lookup g states) (t g)
  where
    go : (o : Option GroupNotifState) → consistent o ≡ true → Tracks (recover m g states o).1
    go none c = t
    go (some s) c = check_recovered-Tracks g (forget_monitor m s) states (told_while_down m s c) t

-- If each group is marked as notified exactly while its set of down monitors is not empty,
-- `handleMonitorDown` answers `first_down` if no monitor of the group was down, and `already_down`
-- otherwise.
pub handle_monitor_down-first :
    (m : ℕ) (name : String) (g : ℕ) (states : GroupStates)
    → Tracks states
    → (handle_monitor_down m name g states).0 ≡ (
        if is_empty (get_or_create_state g states).down_monitor_ids
        then DownResult.first_down
        else DownResult.already_down)
unfolding handle_monitor_down get_or_create_state Tracks
handle_monitor_down-first m name g states t = go (lookup g states) (t g)
  where
    go :
        (o : Option GroupNotifState)
        → consistent o ≡ true
        → (if (or_new o).notified_down then DownResult.already_down else DownResult.first_down) ≡ (
            if is_empty (or_new o).down_monitor_ids
            then DownResult.first_down
            else DownResult.already_down)
    go none c = refl
    go (some s) c = ground (arith, c)

abbrev pub last_down : ℕ → Option GroupNotifState → Bool
last_down m none = false
last_down m (some s) =
    not (is_empty s.down_monitor_ids) && is_empty (set_delete m s.down_monitor_ids)

-- If each group is marked as notified exactly while its set of down monitors is not empty,
-- `handleMonitorUp` answers `all_recovered` if some monitor of the group was down and none is
-- without this one, and `still_down` otherwise.
pub handle_monitor_up-recovered :
    (m g : ℕ) (states : GroupStates)
    → Tracks states
    → (handle_monitor_up m g states).0
      ≡ (if last_down m (lookup g states) then UpResult.all_recovered else UpResult.still_down)
unfolding handle_monitor_up recover check_recovered forget_monitor Tracks
handle_monitor_up-recovered m g states t = go (lookup g states) (t g)
  where
    go :
        (o : Option GroupNotifState)
        → consistent o ≡ true
        → (recover m g states o).0
          ≡ (if last_down m o then UpResult.all_recovered else UpResult.still_down)
    go none c = refl
    go (some s) c = ground (arith, c, delete_empty m s.down_monitor_ids)

-- `removeGroup` keeps the meaning of the map.
pub remove_group-Tracks :
    (g : ℕ) (states : GroupStates) → Tracks states → Tracks (remove_group g states)
unfolding remove_group Tracks
remove_group-Tracks g states t j = rw (lookup-erase j g states) (ground (arith, t j))

add_down_not_empty :
    (ns : List Monitor) (s : GroupNotifState)
    → is_empty s.down_monitor_ids ≡ false
    → is_empty (add_down ns s).down_monitor_ids ≡ false
unfolding add_down
add_down_not_empty [] s h = h
add_down_not_empty (n ∷ ns) s h = add_down_not_empty ns _ (added_not_empty n.id s.down_monitor_ids)

nonempty_consistent :
    (s : GroupNotifState)
    → is_empty s.down_monitor_ids ≡ false
    → consistent (some (record s { notified_down = true })) ≡ true
nonempty_consistent s h = ground (arith, h)

initialize_group-Tracks :
    (g : ℕ) (ns : List Monitor) (states : GroupStates)
    → Tracks states
    → Tracks (initialize_group g ns states)
unfolding initialize_group add_down
initialize_group-Tracks g [] states t = t
initialize_group-Tracks g (n ∷ ns) states t =
    put-Tracks g _ states
      (nonempty_consistent (add_down (n ∷ ns) (get_or_create_state g states)) (
        add_down_not_empty ns _
          (added_not_empty n.id (get_or_create_state g states).down_monitor_ids)))
      t

initialize_groups-Tracks :
    (gs : List Group) (h : Hierarchy) (ms : List Monitor) (states : GroupStates)
    → Tracks states
    → Tracks (initialize_groups gs h ms states)
unfolding initialize_groups
initialize_groups-Tracks [] h ms states t = t
initialize_groups-Tracks (g ∷ gs) h ms states t =
    initialize_groups-Tracks gs h ms _ (initialize_group-Tracks g.id _ states t)

-- If each group is marked as notified exactly while its set of down monitors is not empty, this
-- still holds after `initialize`.
pub initialize-Tracks :
    (h : Hierarchy) (ms : List Monitor) (states : GroupStates)
    → Tracks states
    → Tracks (initialize h ms states)
unfolding initialize
initialize-Tracks h ms states t =
    initialize_groups-Tracks (where_ (λ g. g.group_notifications) h.groups) h ms states t

-- Where a group is marked as notified and only the given monitor of it is down, `removeMonitor`
-- leaves no monitor of the group down, and yet the next monitor of the group that goes down is
-- answered with `already_down`.
pub remove_monitor-silences :
    (m n : ℕ) (name : String) (g : ℕ) (s : GroupNotifState) (states : GroupStates)
    → lookup g states ≡ some s
    → s.notified_down ≡ true
    → set_delete m s.down_monitor_ids ≡ []
    → ((get_or_create_state g (remove_monitor m states)).down_monitor_ids ≡ [])
      × ((handle_monitor_down n name g (remove_monitor m states)).0 ≡ DownResult.already_down)
unfolding handle_monitor_down get_or_create_state remove_monitor forget_monitor
remove_monitor-silences m n name g s states found told alone =
    rw (lookup-change_all (forget_monitor m) g states, found, told) (alone, refl)

-- ===== src/Permission.antt =====
-- Team permissions: `permissionService` of server/src/services/permission.service.ts over the tables
-- `team_memberships`, `team_permissions`, `user_teams`, `monitors`, `users` and the group hierarchy.
pub mod Lists
pub mod Grants
pub mod Access
pub mod Visible
pub mod Users
pub mod Summary
mod Tests
use oblimap.Base.{
  ℕ, Bool, true, false, not, ◌&&◌, ◌||◌, Option, none, some, List, [], ◌∷◌, ◌++◌, map, ◌==◌, ◌==?◌,
  if◌then◌else◌, is_some, truthy, where_, any, first, elem, add_all, join,
}
use oblimap.Group.{Group, Link, Hierarchy}

pub data PermissionLevel : Type 0 where
  ro rw_ : PermissionLevel

abbrev pub is_rw : PermissionLevel → Bool
is_rw ro = false
is_rw rw_ = true

pub data PermissionScope : Type 0 where
  group monitor : PermissionScope

abbrev pub same_scope : PermissionScope → PermissionScope → Bool
same_scope group group = true
same_scope monitor monitor = true
same_scope _ _ = false

-- A row of `team_memberships`.
pub record Membership : Type 0 where
  pub team_id : ℕ
  pub user_id : ℕ

-- A row of `team_permissions`.
pub record TeamPermission : Type 0 where
  pub team_id : ℕ
  pub scope : PermissionScope
  pub scope_id : ℕ
  pub level : PermissionLevel

-- A row of `user_teams`.
pub record UserTeam : Type 0 where
  pub id : ℕ
  pub can_create : Bool

-- A row of `monitors`, of which only the group counts here.
pub record MonitorRow : Type 0 where
  pub id : ℕ
  pub group_id : Option ℕ

-- A row of `users`.
pub record UserRow : Type 0 where
  pub id : ℕ
  pub is_active : Bool

pub record Tables : Type 0 where
  pub memberships : List Membership
  pub permissions : List TeamPermission
  pub teams : List UserTeam
  pub monitors : List MonitorRow
  pub users : List UserRow
  pub hierarchy : Hierarchy

-- `getUserTeamIds`
unfoldable pub get_user_team_ids : ℕ → Tables → List ℕ
get_user_team_ids user_id t =
    map (λ m. m.team_id) (where_ (λ m. m.user_id == user_id) t.memberships)

-- `canCreate`
unfoldable pub can_create : ℕ → Bool → Tables → Bool
can_create user_id true t = true
can_create user_id false t = is_some (
    first (λ r. r.1.user_id == user_id && r.0.can_create)
      (join (λ team m. team.id == m.team_id) t.teams t.memberships))

-- The permissions of each team, with its members.
abbrev pub team_rows : Tables → List (TeamPermission × Membership)
team_rows t = join (λ p m. p.team_id == m.team_id) t.permissions t.memberships

-- `rows.some((r) => r.level === 'rw') ? 'rw' : 'ro'`, null without rows
unfoldable pub highest_level : List PermissionLevel → Option PermissionLevel
highest_level [] = none
highest_level (l ∷ ls) = some (if any is_rw (l ∷ ls) then rw_ else ro)

-- `_getHighestPermission`
unfoldable pub get_highest_permission : ℕ → PermissionScope → ℕ → Tables → Option PermissionLevel
unfolding highest_level
get_highest_permission user_id scope scope_id t = highest_level (
    map (λ r. r.0.level)
      (where_
        (λ r. r.1.user_id == user_id && (same_scope r.0.scope scope && r.0.scope_id == scope_id))
        (team_rows t)))

-- `_getGroupPermissionViaClosure`, which `_getGroupPermissionViaClosureForMonitor` calls
unfoldable pub get_group_permission_via_closure : ℕ → ℕ → Tables → Option PermissionLevel
unfolding highest_level
get_group_permission_via_closure user_id group_id t = highest_level (
    map (λ r. r.0.0.level)
      (where_
        (λ r.
          r.0.1.user_id == user_id
          && (same_scope r.0.0.scope group && r.1.descendant_id == group_id))
        (join (λ pm l. l.ancestor_id == pm.0.scope_id) (team_rows t) t.hierarchy.closure)))

abbrev pub has_rw : Option PermissionLevel → Bool
has_rw none = false
has_rw (some l) = is_rw l

-- `_highest`
unfoldable pub highest : Option PermissionLevel → Option PermissionLevel → Option PermissionLevel
highest a b =
    if has_rw a || has_rw b then some rw_ else if is_some a || is_some b then some ro else none

-- `db('monitor_groups').where({ id, is_general: true }).first()`
unfoldable pub is_general_group : ℕ → Tables → Bool
is_general_group group_id t =
    is_some (first (λ g. g.id == group_id && g.is_general) t.hierarchy.groups)

-- `getMonitorPermission` once the monitor's row is found, with the row's group.
unfoldable pub monitor_row_permission : ℕ → ℕ → Option ℕ → Tables → Option PermissionLevel
unfolding is_general_group get_highest_permission get_group_permission_via_closure highest
monitor_row_permission user_id monitor_id none t =
    highest (get_highest_permission user_id monitor monitor_id t) none
monitor_row_permission user_id monitor_id (some g) t =
    let direct = get_highest_permission user_id monitor monitor_id t in
    let by_group = get_group_permission_via_closure user_id g t in
    if g == 0
    then highest direct none
    else if is_general_group g t
    then (if has_rw direct || has_rw by_group then some rw_ else some ro)
    else highest direct by_group

-- `if (!monitorRow) return null`, and the rest of `getMonitorPermission`.
unfoldable pub found_permission : ℕ → ℕ → Option MonitorRow → Tables → Option PermissionLevel
unfolding monitor_row_permission
found_permission user_id monitor_id none t = none
found_permission user_id monitor_id (some row) t =
    monitor_row_permission user_id monitor_id row.group_id t

-- `getMonitorPermission`
unfoldable pub get_monitor_permission : ℕ → ℕ → Bool → Tables → Option PermissionLevel
unfolding found_permission
get_monitor_permission user_id monitor_id true t = some rw_
get_monitor_permission user_id monitor_id false t =
    found_permission user_id monitor_id (first (λ x. x.id == monitor_id) t.monitors) t

-- `canReadMonitor`
unfoldable pub can_read_monitor : ℕ → ℕ → Bool → Tables → Bool
unfolding get_monitor_permission
can_read_monitor user_id monitor_id is_admin t =
    is_some (get_monitor_permission user_id monitor_id is_admin t)

-- `canWriteMonitor`
unfoldable pub can_write_monitor : ℕ → ℕ → Bool → Tables → Bool
unfolding get_monitor_permission
can_write_monitor user_id monitor_id is_admin t =
    has_rw (get_monitor_permission user_id monitor_id is_admin t)

abbrev pub or_ro : Option PermissionLevel → Option PermissionLevel
or_ro none = some ro
or_ro (some l) = some l

-- `getGroupPermission`
unfoldable pub get_group_permission : ℕ → ℕ → Bool → Tables → Option PermissionLevel
unfolding get_group_permission_via_closure
get_group_permission user_id group_id true t = some rw_
get_group_permission user_id group_id false t =
    elim (first (λ g. g.id == group_id) t.hierarchy.groups) [
      | none ↦ get_group_permission_via_closure user_id group_id t
      | some row ↦
          if row.is_general
          then or_ro (get_group_permission_via_closure user_id group_id t)
          else get_group_permission_via_closure user_id group_id t
    ]

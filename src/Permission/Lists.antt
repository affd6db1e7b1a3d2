-- ===== src/Permission/Lists.antt =====
-- The lists that `permissionService` builds for a user, for the client and for broadcasts.
use oblimap.Base.{
  ℕ, Bool, true, false, not, ◌&&◌, Option, none, some, List, [], ◌∷◌, ◌++◌, map, ◌==◌, ◌==?◌,
  if◌then◌else◌, where_, first, elem, add_all, join,
}
use oblimap.Permission.{
  PermissionLevel, PermissionScope, TeamPermission, MonitorRow, Tables, same_scope, is_rw,
  get_user_team_ids, team_rows, is_general_group, can_create,
}
use oblimap.Permission.PermissionScope.{group, monitor}

-- `number[] | 'all'`
pub data VisibleIds : Type 0 where
  all : VisibleIds
  only : List ℕ → VisibleIds

-- Ids of the monitors in general groups.
unfoldable pub general_monitors : Tables → List ℕ
general_monitors t =
    map (λ r. r.0.id)
      (where_ (λ r. r.1.is_general)
        (join (λ x g. x.group_id ==? some g.id) t.monitors t.hierarchy.groups))

-- Ids of the monitors below a group that one of the teams has a permission on.
unfoldable pub group_monitors : List ℕ → Tables → List ℕ
group_monitors team_ids t =
    map (λ r. r.0.0.id)
      (where_ (λ r. elem r.1.team_id team_ids)
        (join (λ xl p. p.scope_id == xl.1.ancestor_id && same_scope p.scope group)
          (join (λ x l. x.group_id ==? some l.descendant_id) t.monitors t.hierarchy.closure)
          t.permissions))

-- The scope ids of the teams' permissions of a scope.
unfoldable pub granted_ids : PermissionScope → List ℕ → Tables → List ℕ
granted_ids scope team_ids t =
    map (λ p. p.scope_id)
      (where_ (λ p. elem p.team_id team_ids && same_scope p.scope scope) t.permissions)

-- `getVisibleMonitorIds`, with the user's teams.
unfoldable pub visible_monitors : List ℕ → Tables → List ℕ
unfolding general_monitors group_monitors granted_ids
visible_monitors [] t = general_monitors t
visible_monitors (i ∷ is) t =
    add_all (general_monitors t)
      (add_all (granted_ids monitor (i ∷ is) t) (add_all (group_monitors (i ∷ is) t) []))

-- `getVisibleMonitorIds`
unfoldable pub get_visible_monitor_ids : ℕ → Bool → Tables → VisibleIds
unfolding visible_monitors get_user_team_ids
get_visible_monitor_ids user_id true t = all
get_visible_monitor_ids user_id false t = only (visible_monitors (get_user_team_ids user_id t) t)

abbrev pub group_ids : List MonitorRow → List ℕ
group_ids [] = []
group_ids (x ∷ xs) = elim x.group_id [ none ↦ group_ids xs | some g ↦ g ∷ group_ids xs ]

unfoldable pub general_groups : Tables → List ℕ
general_groups t = map (λ g. g.id) (where_ (λ g. g.is_general) t.hierarchy.groups)

-- `getVisibleGroupIds`, with the user's teams. A query with an empty list of ids has no rows.
unfoldable pub visible_groups : List ℕ → Tables → List ℕ
unfolding general_groups granted_ids
visible_groups [] t = general_groups t
visible_groups (i ∷ is) t =
    let perm_group_ids = granted_ids group (i ∷ is) t in
    let closure = t.hierarchy.closure in
    let descendant_ids =
      map (λ l. l.descendant_id) (where_ (λ l. elem l.ancestor_id perm_group_ids) closure) in
    let monitor_ids = granted_ids monitor (i ∷ is) t in
    let monitor_group_ids = group_ids (where_ (λ x. elem x.id monitor_ids) t.monitors) in
    let ancestor_ids =
      map (λ l. l.ancestor_id) (where_ (λ l. elem l.descendant_id monitor_group_ids) closure)
      ++ map (λ l. l.ancestor_id) (where_ (λ l. elem l.descendant_id perm_group_ids) closure) in
    add_all (general_groups t)
      (add_all ancestor_ids (add_all monitor_group_ids (add_all descendant_ids [])))

-- `getVisibleGroupIds`
unfoldable pub get_visible_group_ids : ℕ → Bool → Tables → VisibleIds
unfolding visible_groups get_user_team_ids
get_visible_group_ids user_id true t = all
get_visible_group_ids user_id false t = only (visible_groups (get_user_team_ids user_id t) t)

-- Users of a team with a permission on the monitor itself.
unfoldable pub direct_users : ℕ → Tables → List ℕ
direct_users monitor_id t =
    map (λ r. r.1.user_id)
      (where_ (λ r. same_scope r.0.scope monitor && r.0.scope_id == monitor_id) (team_rows t))

-- Users of a team with a permission on a group above the monitor.
unfoldable pub group_users : ℕ → Tables → List ℕ
group_users group_id t =
    map (λ r. r.0.1.user_id)
      (where_ (λ r. same_scope r.0.0.scope group && r.1.descendant_id == group_id)
        (join (λ pm l. l.ancestor_id == pm.0.scope_id) (team_rows t) t.hierarchy.closure))

-- The rest of `getUsersWithMonitorAccess` for the group of the monitor.
unfoldable pub add_group_users : Option ℕ → Tables → List ℕ → List ℕ
unfolding group_users is_general_group
add_group_users none t ids = ids
add_group_users (some g) t ids =
    if g == 0
    then ids
    else let ids = add_all (group_users g t) ids in
      if is_general_group g t
      then add_all (map (λ u. u.id) (where_ (λ u. u.is_active) t.users)) ids
      else ids

-- `getUsersWithMonitorAccess`, once the monitor has been looked up.
unfoldable pub users_with_access : ℕ → Option MonitorRow → Tables → List ℕ
unfolding direct_users add_group_users
users_with_access monitor_id none t = []
users_with_access monitor_id (some row) t =
    add_group_users row.group_id t (add_all (direct_users monitor_id t) [])

-- `getUsersWithMonitorAccess`
unfoldable pub get_users_with_monitor_access : ℕ → Tables → List ℕ
unfolding users_with_access
get_users_with_monitor_access monitor_id t =
    users_with_access monitor_id (first (λ x. x.id == monitor_id) t.monitors) t

-- `Record<string, PermissionLevel>`, whose keys `scope:id` are the pairs of the two.
abbrev pub Permissions : Type 0
Permissions = PermissionScope → ℕ → Option PermissionLevel

-- `if (!existing || (existing === 'ro' && p.level === 'rw')) permissions[key] = p.level`
abbrev pub raise : PermissionLevel → Option PermissionLevel → Option PermissionLevel
raise level none = some level
raise level (some existing) =
    if not (is_rw existing) && is_rw level then some level else some existing

-- The loop of `getUserPermissions`.
unfoldable pub collect : List TeamPermission → Permissions → Permissions
collect [] permissions scope scope_id = permissions scope scope_id
collect (p ∷ ps) permissions scope scope_id =
    collect ps
      (λ s i.
        if same_scope p.scope s && p.scope_id == i
        then raise p.level (permissions s i)
        else permissions s i)
      scope scope_id

pub record UserPermissions : Type 0 where
  pub can_create : Bool
  pub teams : List ℕ
  pub permissions : Permissions

-- `getUserPermissions`
unfoldable pub get_user_permissions : ℕ → Bool → Tables → UserPermissions
unfolding collect get_user_team_ids can_create
get_user_permissions user_id true t = record {
  can_create = true;
  teams = [];
  permissions = λ s i. none;
}
get_user_permissions user_id false t =
    let team_ids = get_user_team_ids user_id t in
    record {
      can_create = can_create user_id false t;
      teams = team_ids;
      permissions = collect (where_ (λ p. elem p.team_id team_ids) t.permissions) (λ s i. none);
    }

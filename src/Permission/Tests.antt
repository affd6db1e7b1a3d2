-- ===== src/Permission/Tests.antt =====
-- A user whose team may write the monitors below group 1, and read the monitor 12.
use mathlib.Core.List.Memᴰ
use oblimap.Base.{
  ◌≡◌, ◌≢◌, refl, ◌↔◌, true, false, some, [], ◌∷◌, Memᴰ, inl, inr, arith, first, elem, where_,
}
use oblimap.Permission.{
  PermissionLevel, PermissionScope, MonitorRow, Tables, can_read_monitor, can_write_monitor,
  get_highest_permission,
}
use oblimap.Permission.Lists.{
  get_visible_monitor_ids, get_users_with_monitor_access, get_user_permissions,
}
use oblimap.Permission.Access.{Reads, Writes, can_read_monitor-Reads, can_write_monitor-Writes}
use oblimap.Permission.Visible.{IsKeyed, shows, get_visible_monitor_ids-can_read}
use oblimap.Permission.Users.{get_users_with_monitor_access-can_read}
use oblimap.Permission.Summary.{get_user_permissions-highest}

abbrev below_two : MonitorRow
below_two = record { id = 11; group_id = some 2 }

abbrev tables : Tables
tables = record {
  memberships = record { team_id = 5; user_id = 8 } ∷ [];
  permissions =
      record {
        team_id = 5;
        scope = PermissionScope.group;
        scope_id = 1;
        level = PermissionLevel.rw_;
      }
      ∷ record {
        team_id = 5;
        scope = PermissionScope.monitor;
        scope_id = 12;
        level = PermissionLevel.ro;
      }
      ∷ [];
  teams = record { id = 5; can_create = true } ∷ [];
  monitors = below_two ∷ [];
  users = record { id = 8; is_active = true } ∷ [];
  hierarchy = record {
    groups = [];
    closure =
        record { ancestor_id = 1; descendant_id = 1; depth = 0 }
        ∷ record { ancestor_id = 2; descendant_id = 2; depth = 0 }
        ∷ record { ancestor_id = 1; descendant_id = 2; depth = 1 }
        ∷ [];
    next_id = 3;
  };
}

two_not_zero : below_two.group_id ≢ some 0
two_not_zero e = ground (arith, e)

keyed : IsKeyed tables below_two
unfolding IsKeyed
keyed y m e = elim (Memᴰ.cases_cons m) [ inl q ↦ q | inr n ↦ elim n [ ] ]

can_read_monitor-Reads_example :
    (can_read_monitor 8 11 false tables ≡ true) ↔ Reads tables 8 11 (some 2)
unfolding first
can_read_monitor-Reads_example = can_read_monitor-Reads tables 8 below_two refl two_not_zero

can_write_monitor-Writes_example :
    (can_write_monitor 8 11 false tables ≡ true) ↔ Writes tables 8 11 (some 2)
unfolding first
can_write_monitor-Writes_example = can_write_monitor-Writes tables 8 below_two refl two_not_zero

get_visible_monitor_ids-can_read_example :
    (shows (get_visible_monitor_ids 8 false tables) 11 ≡ true)
    ↔ (can_read_monitor 8 11 false tables ≡ true)
unfolding first
get_visible_monitor_ids-can_read_example =
    get_visible_monitor_ids-can_read tables 8 false below_two (Memᴰ.head refl) refl keyed
      two_not_zero

get_users_with_monitor_access-can_read_example :
    (elem 8 (get_users_with_monitor_access 11 tables) ≡ true)
    ↔ (can_read_monitor 8 11 false tables ≡ true)
unfolding first elem where_
get_users_with_monitor_access-can_read_example =
    get_users_with_monitor_access-can_read tables 8 below_two refl refl two_not_zero

get_user_permissions-highest_example :
    (get_user_permissions 8 false tables).permissions PermissionScope.monitor 12
    ≡ get_highest_permission 8 PermissionScope.monitor 12 tables
get_user_permissions-highest_example =
    get_user_permissions-highest tables 8 PermissionScope.monitor 12

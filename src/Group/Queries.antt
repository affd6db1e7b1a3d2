-- ===== src/Group/Queries.antt =====
-- Reads of the hierarchy through the closure table: `getAncestors`, `findGroupNotificationAncestor`
-- and the ancestor query that the settings and notification services repeat.
pub mod Nearest
pub mod Above
use oblimap.Base.{
  ℕ, ◌<◌, Bool, true, false, ◌&&◌, Option, none, some, List, [], ◌∷◌, ◌==◌, ltb, where_, first,
  order_by, order_by_desc,
}
use oblimap.Group.{Group, Link, Hierarchy, find_group}

abbrev pub join_row : Link → Option Group → List (Link × Group) → List (Link × Group)
join_row l none rest = rest
join_row l (some g) rest = (l, g) ∷ rest

-- `JOIN monitor_groups ON monitor_groups.id = group_closure.ancestor_id`; `id` is a primary key.
unfoldable pub join_groups : Hierarchy → List Link → List (Link × Group)
join_groups h [] = []
join_groups h (l ∷ ls) = join_row l (find_group l.ancestor_id h) (join_groups h ls)

-- The ancestors of a group and itself, root first.
unfoldable pub ancestor_rows : ℕ → Hierarchy → List (Link × Group)
ancestor_rows group_id h =
    order_by_desc (λ r. r.0.depth)
      (join_groups h (where_ (λ l. l.descendant_id == group_id) h.closure))

-- `getAncestors`: without the group itself.
unfoldable pub get_ancestors : ℕ → Hierarchy → List (Link × Group)
get_ancestors group_id h =
    order_by_desc (λ r. r.0.depth)
      (join_groups h (where_ (λ l. l.descendant_id == group_id && ltb 0 l.depth) h.closure))

-- `findGroupNotificationAncestor`: the rows of flagged groups, nearest first, and the first of them.
unfoldable pub flagged_rows : ℕ → Hierarchy → List (Link × Group)
flagged_rows group_id h =
    order_by (λ r. r.0.depth)
      (where_ (λ r. r.1.group_notifications)
        (join_groups h (where_ (λ l. l.descendant_id == group_id) h.closure)))

abbrev pub head_row : List (Link × Group) → Option Group
head_row [] = none
head_row ((l, g) ∷ rs) = some g

unfoldable pub find_group_notification_ancestor : ℕ → Hierarchy → Option Group
unfolding flagged_rows
find_group_notification_ancestor group_id h = head_row (flagged_rows group_id h)

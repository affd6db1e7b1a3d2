-- ===== src/Group.antt =====
-- The group hierarchy: `groupService` of server/src/services/group.service.ts over the tables
-- `monitor_groups` and `group_closure` (server/src/db/migrations/004_create_groups.ts, recreated by
-- 022_fix_groups_schema.ts). A table lists its newest row first. The foreign key of `parent_id` is
-- checked by the database: a write that breaks it is refused and changes no row.
pub mod Ancestry
pub mod Closure
pub mod Queries
pub mod Slug
mod Tests
use oblimap.Base.{
  ℕ, suc, ◌+◌, Bool, true, false, not, ◌&&◌, Option, none, some, List, [], ◌∷◌, ◌++◌, map, ◌==◌,
  ◌==?◌, if◌then◌else◌, truthy, is_some, or_else, where_, any, first, update, elem, order_by_desc,
  order_by, String, pairs,
}

-- A row of `monitor_groups`, with the columns that the operations here read or write.
pub record Group : Type 0 where
  pub id : ℕ
  pub name : String
  pub slug : String
  pub parent_id : Option ℕ
  pub tenant_id : ℕ
  pub sort_order : ℕ
  pub is_general : Bool
  pub group_notifications : Bool

-- A row of `group_closure`.
pub record Link : Type 0 where
  pub ancestor_id : ℕ
  pub descendant_id : ℕ
  pub depth : ℕ

-- The two tables and the sequence that numbers new groups.
pub record Hierarchy : Type 0 where
  pub groups : List Group
  pub closure : List Link
  pub next_id : ℕ

-- How a call ends: with a group, with `null`, with the service's own error, or with the
-- database's refusal of a foreign key.
pub data Outcome : Type 0 where
  done : Group → Outcome
  not_found circular foreign_key : Outcome

-- What `create` is given, its slug already chosen.
pub record NewGroup : Type 0 where
  pub name : String
  pub slug : String
  pub parent_id : Option ℕ
  pub sort_order : Option ℕ
  pub is_general : Option Bool
  pub group_notifications : Option Bool

unfoldable pub find_group : ℕ → Hierarchy → Option Group
find_group id h = first (λ g. g.id == id) h.groups

-- The foreign key of `parent_id`.
unfoldable pub refers : Hierarchy → Option ℕ → Bool
unfolding find_group
refers h none = true
refers h (some p) = is_some (find_group p h)

new_row : ℕ → NewGroup → ℕ → Group
new_row id data_ tenant_id = record {
  id = id;
  name = data_.name;
  slug = data_.slug;
  parent_id = data_.parent_id;
  tenant_id = tenant_id;
  sort_order = or_else data_.sort_order 0;
  is_general = or_else data_.is_general false;
  group_notifications = or_else data_.group_notifications false;
}

-- `INSERT … SELECT gc.ancestor_id, id, gc.depth + 1 … WHERE gc.descendant_id = parent`
pub copy_paths : ℕ → ℕ → List Link → List Link
copy_paths id parent closure =
    map (λ gc. record { ancestor_id = gc.ancestor_id; descendant_id = id; depth = gc.depth + 1 })
      (where_ (λ gc. gc.descendant_id == parent) closure)

-- The rows that `create` adds to the closure table.
pub grow : ℕ → Option ℕ → List Link → List Link
unfolding copy_paths
grow id none closure = record { ancestor_id = id; descendant_id = id; depth = 0 } ∷ closure
grow id (some parent) closure =
    let own = record { ancestor_id = id; descendant_id = id; depth = 0 } ∷ closure in
    if truthy (some parent) then copy_paths id parent own ++ own else own

-- `create`, from the insert on.
unfoldable pub create : NewGroup → ℕ → Hierarchy → Outcome × Hierarchy
unfolding new_row grow refers
create data_ tenant_id h =
    let row = new_row h.next_id data_ tenant_id in
    if refers h data_.parent_id
    then (
      done row,
      record {
        groups = row ∷ h.groups;
        closure = grow h.next_id data_.parent_id h.closure;
        next_id = suc h.next_id;
      },
    )
    else (foreign_key, record h { next_id = suc h.next_id })

-- `ancestor_id` is outside the subtree, `descendant_id` inside.
abbrev pub outside : List ℕ → Link → Bool
outside desc_ids l = elem l.descendant_id desc_ids && not (elem l.ancestor_id desc_ids)

-- `getDescendantIds`
unfoldable pub get_descendant_ids : ℕ → List Link → List ℕ
get_descendant_ids id closure =
    map (λ l. l.descendant_id) (where_ (λ l. l.ancestor_id == id) closure)

-- `SELECT p.ancestor_id, s.descendant_id, p.depth + s.depth + 1 … CROSS JOIN …`
pub reconnect : ℕ → ℕ → List Link → List Link
reconnect id parent closure =
    pairs
      (λ p s. record {
        ancestor_id = p.ancestor_id;
        descendant_id = s.descendant_id;
        depth = p.depth + s.depth + 1;
      })
      (where_ (λ p. p.descendant_id == parent) closure) (where_ (λ s. s.ancestor_id == id) closure)

-- The closure table after `move` has cut the subtree off and hung it under its new parent.
pub rehang : ℕ → Option ℕ → List Link → List Link
unfolding reconnect get_descendant_ids
rehang id none closure = where_ (λ l. not (outside (get_descendant_ids id closure) l)) closure
rehang id (some parent) closure =
    let kept = where_ (λ l. not (outside (get_descendant_ids id closure) l)) closure in
    reconnect id parent kept ++ kept

-- `newParentId` is a descendant of `id`.
pub is_descendant : ℕ → Option ℕ → List Link → Bool
is_descendant id none closure = false
is_descendant id (some parent) closure =
    any (λ l. l.ancestor_id == id && l.descendant_id == parent) closure

-- `move`: the closure rows are rewritten before the update of `parent_id`, with no transaction
-- around the two.
unfoldable pub move : ℕ → Option ℕ → Hierarchy → Outcome × Hierarchy
unfolding rehang is_descendant refers find_group
move id new_parent_id h = elim (find_group id h) [
  | none ↦ (not_found, h)
  | some group ↦
      if is_descendant id new_parent_id h.closure
      then (circular, h)
      else let closure = rehang id new_parent_id h.closure in
        if refers h new_parent_id
        then (
          done (record group { parent_id = new_parent_id }),
          record h {
            groups =
                update (λ g. g.id == id) (λ g. record g { parent_id = new_parent_id }) h.groups;
            closure = closure;
          },
        )
        else (foreign_key, record h { closure = closure })
]

-- `delete`: the foreign keys of the closure table cascade, that of `parent_id` is set to null.
unfoldable pub delete : ℕ → Hierarchy → Bool × Hierarchy
unfolding find_group
delete id h = (
  is_some (find_group id h),
  record h {
    groups =
        update (λ g. g.parent_id ==? some id) (λ g. record g { parent_id = none })
          (where_ (λ g. not (g.id == id)) h.groups);
    closure = where_ (λ l. not (l.ancestor_id == id) && not (l.descendant_id == id)) h.closure;
  },
)

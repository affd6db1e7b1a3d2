-- ===== src/Group/Tests.antt =====
-- A small hierarchy, root 1 over 2 over 3, and the theorems on it.
use mathlib.Core.List.{tail-eq_of_cons-eq}
use oblimap.Base.{
  zero, suc, ap, codes, Text, any, ◌∷◌, ℕ, ◌≡◌, refl, ◌⊎◌, inl, Bool, true, false, Option, none,
  some, [], String, Memᴰ, arith, first,
}
use oblimap.Group.{
  Group, Hierarchy, NewGroup, find_group, refers, create, move, delete, foreign_key, circular, done,
}
use oblimap.Group.Ancestry.{Chain, Chain-exists, moved}
use oblimap.Group.Closure.{parent, link, IsValid}
use oblimap.Group.Closure.Create.{create-IsValid}
use oblimap.Group.Closure.Move.{move-IsValid, move_cases, move_missing_parent}
use oblimap.Group.Closure.Delete.{delete-IsValid, delete_between}
use oblimap.Group.Queries.{find_group_notification_ancestor}
use oblimap.Group.Queries.Nearest.{IsNearest, find_group_notification_ancestor-IsNearest}
use oblimap.Group.Slug.{has_slug, ensure_unique_slug}
use oblimap.Group.Slug.Unique.{ensure_unique_slug-free}

abbrev empty_tables : Hierarchy
empty_tables = record { groups = []; closure = []; next_id = 1 }

empty_tables-IsValid : IsValid empty_tables
unfolding first
empty_tables-IsValid =
    let gone : (a d n : ℕ) → ¬ Chain (parent []) a d n =
      λ a d n c. let (q, e) = Chain-exists (parent []) a c in absurd (ground (arith, e)) in
    record {
      mirrors = record {
        sound = λ a d n m. elim m [ ];
        complete = λ a d n c. absurd (gone a d n c);
      };
      forest = record {
        acyclic = λ x n c. absurd (gone x x n c);
        present = λ d p e. absurd (ground (arith, e));
      };
      fresh = λ d le. refl;
      positive = refl;
      started = omega arith;
    }

abbrev named : String → Option ℕ → Option Bool → NewGroup
named name parent_id flagged = record {
  name = name;
  slug = name;
  parent_id = parent_id;
  sort_order = none;
  is_general = none;
  group_notifications = flagged;
}

abbrev one : Hierarchy
one = (create (named "root" none (some true)) 1 empty_tables).1

abbrev two : Hierarchy
two = (create (named "site" (some 1) none) 1 one).1

abbrev tree : Hierarchy
tree = (create (named "room" (some 2) none) 1 two).1

abbrev room : Group
room = record {
  id = 3;
  name = "room";
  slug = "room";
  parent_id = some 2;
  tenant_id = 1;
  sort_order = 0;
  is_general = false;
  group_notifications = false;
}

tree-IsValid : IsValid tree
tree-IsValid = create-IsValid (named "room" (some 2) none) 1 two (
    create-IsValid (named "site" (some 1) none) 1 one
      (create-IsValid (named "root" none (some true)) 1 empty_tables empty_tables-IsValid))

create-IsValid_example : IsValid (create (named "shelf" (some 3) none) 1 tree).1
create-IsValid_example = create-IsValid (named "shelf" (some 3) none) 1 tree tree-IsValid

move-IsValid_example : IsValid (move 3 (some 1) tree).1
unfolding create refers find_group first
move-IsValid_example = move-IsValid tree 3 (some 1) tree-IsValid refl

move_cases_example :
    (((n : ℕ) × Chain (parent tree.groups) 3 1 n) × (move 3 (some 1) tree ≡ (circular, tree)))
    ⊎ (¬ ((n : ℕ) × Chain (parent tree.groups) 3 1 n)
        × ((move 3 (some 1) tree).0 ≡ done (record room { parent_id = some 1 }))
        × (parent (move 3 (some 1) tree).1.groups ≡ moved (parent tree.groups) 3 (some 1)))
unfolding create refers find_group first
move_cases_example = move_cases tree 3 1 room tree-IsValid refl refl

move_missing_parent_example :
    ((move 3 (some 9) tree).0 ≡ foreign_key) × ¬ IsValid (move 3 (some 9) tree).1
unfolding create refers find_group first
move_missing_parent_example = move_missing_parent tree 3 9 2 room tree-IsValid refl refl refl

delete-IsValid_example : IsValid (delete 1 tree).1
unfolding create refers find_group first
delete-IsValid_example = delete-IsValid tree 1 tree-IsValid (inl refl)

delete_between_example :
    Memᴰ (link 1 3 2) (delete 2 tree).1.closure
    × (parent (delete 2 tree).1.groups 3 ≡ some none)
    × ¬ IsValid (delete 2 tree).1
unfolding create refers find_group first
delete_between_example = delete_between tree 1 2 3 tree-IsValid refl refl

-- Numbers as so many strokes.
strokes : ℕ → Text
strokes zero = []
strokes (suc n) = b'I' ∷ strokes n

strokes-injective : (i j : ℕ) → strokes i ≡ strokes j → i ≡ j
unfolding strokes
strokes-injective zero zero e = refl
strokes-injective zero (suc j) e = absurd (ground (arith, e))
strokes-injective (suc i) zero e = absurd (ground (arith, e))
strokes-injective (suc i) (suc j) e = ap suc (strokes-injective i j (tail-eq_of_cons-eq e))

ensure_unique_slug-free_example :
    (s : Text) × (ensure_unique_slug strokes none (codes "room") (room ∷ []) ≡ some s)
    × (any (has_slug none s) (room ∷ []) ≡ false)
ensure_unique_slug-free_example =
    ensure_unique_slug-free strokes strokes-injective none (codes "room") (room ∷ [])

find_group_notification_ancestor-IsNearest_example :
    IsNearest tree 3 (find_group_notification_ancestor 3 tree)
find_group_notification_ancestor-IsNearest_example =
    find_group_notification_ancestor-IsNearest tree 3

-- ===== src/Group/Queries/Above.antt =====
-- What the ancestor query reads: the groups above a group, with their depths, from the root down.
use oblimap.Base.{
  ℕ, ◌≡◌, refl, sym, ap, Option, some, Memᴰ, arith, where_→mem, mem→where_, ◌==◌, ==_iff,
  order_desc→mem, mem→order_desc, order_by_desc-IsDescending, IsDescending,
}
use oblimap.Group.{Group, Link, Hierarchy, find_group}
use oblimap.Group.Queries.{ancestor_rows}
use oblimap.Group.Queries.Nearest.{join→row, row→join}

-- A group that is the given one or above it, at a distance; nothing is above no group.
pub record IsAbove (h : Hierarchy) (g : Option ℕ) (ancestor : Group) (depth : ℕ) : Type 0 where
  pub link : Link
  pub listed : Memᴰ link h.closure
  pub below : g ≡ some link.descendant_id
  pub at_depth : link.depth ≡ depth
  pub found : find_group link.ancestor_id h ≡ some ancestor

pub row→above :
    (h : Hierarchy) (g : ℕ) (r : Link × Group)
    → Memᴰ r (ancestor_rows g h)
    → IsAbove h (some g) r.1 r.0.depth
unfolding ancestor_rows
row→above h g (l, a) m =
    let (k, f) = join→row h l a _ (order_desc→mem (λ r. r.0.depth) (l, a) _ m) in
    let (o, d) = where_→mem (λ l. l.descendant_id == g) l h.closure k in
    record {
      link = l;
      listed = o;
      below = ap some (sym ((==_iff _ _).0 d));
      at_depth = refl;
      found = f;
    }

pub above→row :
    (h : Hierarchy) (g : ℕ) (a : Group) (d : ℕ) (i : IsAbove h (some g) a d)
    → Memᴰ (i.link, a) (ancestor_rows g h)
unfolding ancestor_rows
above→row h g a d i =
    mem→order_desc (λ r. r.0.depth) (i.link, a) _
      (row→join h i.link a _
        (mem→where_ (λ l. l.descendant_id == g) i.link i.listed (ground (arith, i.below))) i.found)

pub ancestor_rows-IsDescending :
    (h : Hierarchy) (g : ℕ) → IsDescending (λ r. r.0.depth) (ancestor_rows g h)
unfolding ancestor_rows
ancestor_rows-IsDescending h g = order_by_desc-IsDescending (λ r. r.0.depth) _

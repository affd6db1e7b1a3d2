-- ===== src/Group/Queries/Nearest.antt =====
-- `findGroupNotificationAncestor` finds the nearest group with grouped notifications.
use oblimap.Base.{
  ℕ, ◌≡◌, refl, sym, ap, ◌∙◌, ◌⊎◌, ◌≤◌, true, Option, none, some, List, [], ◌∷◌, Memᴰ, ◌==◌, ==_iff,
  where_→mem, mem→where_, order→mem, mem→order, order_by-IsAscending, IsAscending, least→le, inl,
  inr, arith, subst,
}
use mathlib.Core.List.Memᴰ
use oblimap.Group.{Group, Link, Hierarchy, find_group}
use oblimap.Group.Queries.{
  join_row, join_groups, flagged_rows, head_row, find_group_notification_ancestor,
}

-- A group with grouped notifications that is the given one or above it, at a distance.
pub record IsFlagged (h : Hierarchy) (group_id : ℕ) (ancestor : Group) (depth : ℕ) : Type 0 where
  pub link : Link
  pub listed : Memᴰ link h.closure
  pub below : link.descendant_id ≡ group_id
  pub at_depth : link.depth ≡ depth
  pub found : find_group link.ancestor_id h ≡ some ancestor
  pub flagged : ancestor.group_notifications ≡ true

row_cases :
    (h : Hierarchy) (k l : Link) (a : Group) (o : Option Group) (rest : List (Link × Group))
    → find_group k.ancestor_id h ≡ o
    → Memᴰ (l, a) (join_row k o rest)
    → ((l ≡ k) × (find_group k.ancestor_id h ≡ some a)) ⊎ Memᴰ (l, a) rest
row_cases h k l a none rest f m = inr m
row_cases h k l a (some b) rest f m = elim (Memᴰ.cases_cons m) [
  | inl q ↦ inl (ap (λ r. r.0) q, f ∙ ap some (sym (ap (λ r. r.1) q)))
  | inr n ↦ inr n
]

later_row :
    (l : Link) (a : Group) (k : Link) (o : Option Group) (rest : List (Link × Group))
    → Memᴰ (l, a) rest
    → Memᴰ (l, a) (join_row k o rest)
later_row l a k none rest m = m
later_row l a k (some b) rest m = Memᴰ.tail m

pub join→row :
    (h : Hierarchy) (l : Link) (a : Group) (ls : List Link)
    → Memᴰ (l, a) (join_groups h ls)
    → Memᴰ l ls × (find_group l.ancestor_id h ≡ some a)
unfolding join_groups
join→row h l a [] m = elim m [ ]
join→row h l a (k ∷ ls) m =
    elim (row_cases h k l a (find_group k.ancestor_id h) (join_groups h ls) refl m) [
      | inl (q, f) ↦ (Memᴰ.head q, ap (λ k. find_group k.ancestor_id h) q ∙ f)
      | inr n ↦ let (o, g) = join→row h l a ls n in (Memᴰ.tail o, g)
    ]

pub row→join :
    (h : Hierarchy) (l : Link) (a : Group) (ls : List Link)
    → Memᴰ l ls
    → find_group l.ancestor_id h ≡ some a
    → Memᴰ (l, a) (join_groups h ls)
unfolding join_groups
row→join h l a [] m f = elim m [ ]
row→join h l a (k ∷ ls) m f = elim (Memᴰ.cases_cons m) [
  | inl q ↦
      subst (λ k. Memᴰ (l, a) (join_row k (find_group k.ancestor_id h) (join_groups h ls))) q
        (subst (λ o. Memᴰ (l, a) (join_row l o (join_groups h ls))) (sym f) (Memᴰ.head refl))
  | inr n ↦ later_row l a k (find_group k.ancestor_id h) (join_groups h ls) (row→join h l a ls n f)
]

row→flagged :
    (h : Hierarchy) (g : ℕ) (r : Link × Group)
    → Memᴰ r (flagged_rows g h)
    → IsFlagged h g r.1 r.0.depth
unfolding flagged_rows
row→flagged h g (l, a) m =
    let (n, t) =
      where_→mem (λ r. r.1.group_notifications) (l, a) _ (order→mem (λ r. r.0.depth) (l, a) _ m) in
    let (k, f) = join→row h l a _ n in
    let (o, d) = where_→mem (λ l. l.descendant_id == g) l h.closure k in
    record {
      link = l;
      listed = o;
      below = (==_iff _ _).0 d;
      at_depth = refl;
      found = f;
      flagged = t;
    }

flagged→row :
    (h : Hierarchy) (g : ℕ) (a : Group) (d : ℕ) (i : IsFlagged h g a d)
    → Memᴰ (i.link, a) (flagged_rows g h)
unfolding flagged_rows
flagged→row h g a d i =
    mem→order (λ r. r.0.depth) (i.link, a) _
      (mem→where_ (λ r. r.1.group_notifications) (i.link, a)
        (row→join h i.link a _
          (mem→where_ (λ l. l.descendant_id == g) i.link i.listed ((==_iff _ _).1 i.below)) i.found)
        i.flagged)

abbrev pub IsNearest : Hierarchy → ℕ → Option Group → Type 0
IsNearest h g none = (a : Group) (d : ℕ) → ¬ IsFlagged h g a d
IsNearest h g (some a) =
    (d : ℕ) × IsFlagged h g a d × ((b : Group) (e : ℕ) → IsFlagged h g b e → d ≤ e)

head-IsNearest :
    (h : Hierarchy) (g : ℕ) (rs : List (Link × Group))
    → IsAscending (λ r. r.0.depth) rs
    → ((r : Link × Group) → Memᴰ r rs → IsFlagged h g r.1 r.0.depth)
    → ((a : Group) (d : ℕ) (i : IsFlagged h g a d) → Memᴰ (i.link, a) rs)
    → IsNearest h g (head_row rs)
head-IsNearest h g [] s to from = λ a d i. elim (from a d i) [ ]
head-IsNearest h g ((l, a) ∷ rs) s to from = (
  l.depth,
  to (l, a) (Memᴰ.head refl),
  λ b e i.
      subst (λ d. l.depth ≤ d) i.at_depth
        (elim (Memᴰ.cases_cons (from b e i)) [
          | inl q ↦ rw (ap (λ r. r.0.depth) q) (omega arith)
          | inr m ↦ least→le (λ r. r.0.depth) l.depth (i.link, b) m s.0
        ]),
)

ascending : (h : Hierarchy) (g : ℕ) → IsAscending (λ r. r.0.depth) (flagged_rows g h)
unfolding flagged_rows
ascending h g = order_by-IsAscending (λ r. r.0.depth) _

-- The group that `findGroupNotificationAncestor` answers has grouped notifications, is the given
-- group itself or above it in the closure table, and no such group is nearer; `null` is answered
-- only if there is none.
pub find_group_notification_ancestor-IsNearest :
    (h : Hierarchy) (g : ℕ) → IsNearest h g (find_group_notification_ancestor g h)
unfolding find_group_notification_ancestor
find_group_notification_ancestor-IsNearest h g =
    head-IsNearest h g (flagged_rows g h) (ascending h g) (row→flagged h g) (flagged→row h g)

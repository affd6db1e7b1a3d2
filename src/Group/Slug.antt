-- ===== src/Group/Slug.antt =====
-- Slugs of groups: `slugify` and `ensureUniqueSlug`, and the updates of groups that use them or that leave the tree
-- alone. A slug in the table is read as its code units.
pub mod Unique
use oblimap.Base.{
  ℕ, zero, suc, ◌+◌, Bool, true, false, not, ◌&&◌, ◌||◌, Option, none, some, List, [], ◌∷◌, ◌++◌,
  ◌==◌, ◌==?◌, ◌=ᵗ◌, leb, if◌then◌else◌, or_else, where_, any, first, update, order_by, length,
  String, Text, codes, to_lower, is_lower, truthy,
}
use oblimap.Group.{Group, Hierarchy, find_group}

-- `[a-z0-9]`
abbrev pub is_word : ℕ → Bool
is_word c = is_lower c || (leb b'0' c && leb c b'9')

-- `replace(/[^a-z0-9]+/g, '-')`; the flag says that the text before ends in such a run.
unfoldable pub dash_runs : Bool → Text → Text
dash_runs run [] = []
dash_runs run (c ∷ s) =
    let word = c ∷ dash_runs false s in
    let rest = dash_runs true s in if is_word c then word else if run then rest else b'-' ∷ rest

-- `^-`
unfoldable pub strip_left : Text → Text
strip_left [] = []
strip_left (c ∷ s) = if c == b'-' then s else c ∷ s

-- `-$`
unfoldable pub strip_right : Text → Text
strip_right [] = []
strip_right (c ∷ []) = if c == b'-' then [] else c ∷ []
strip_right (c ∷ d ∷ s) = c ∷ strip_right (d ∷ s)

unfoldable pub lower_all : Text → Text
unfolding to_lower
lower_all [] = []
lower_all (c ∷ s) = to_lower c ∷ lower_all s

-- `slugify`
unfoldable pub slugify : Text → Text
unfolding dash_runs strip_left strip_right lower_all
slugify name = strip_right (strip_left (dash_runs false (lower_all name)))

-- `where({ slug: candidate })`, but for the excluded group
abbrev pub has_slug : Option ℕ → Text → Group → Bool
has_slug exclude_id candidate g =
    codes g.slug =ᵗ candidate && not (truthy exclude_id && some g.id ==? exclude_id)

module _ (print : ℕ → Text) where
  -- The candidates that `ensureUniqueSlug` tries: the slug, and the slug with 1, 2, … behind a dash.
  unfoldable pub candidate : Text → ℕ → Text
  candidate slug zero = slug
  candidate slug (suc i) = slug ++ b'-' ∷ print (suc i)

  -- The loop of `ensureUniqueSlug`.
  unfoldable pub search_slug : ℕ → Option ℕ → Text → ℕ → List Group → Option Text
  unfolding candidate
  search_slug zero exclude_id slug i groups = none
  search_slug (suc fuel) exclude_id slug i groups =
      let later = search_slug fuel exclude_id slug (suc i) groups in
      if any (has_slug exclude_id (candidate slug i)) groups then later else some (candidate slug i)

  -- `ensureUniqueSlug`, with one round for each group and one more.
  unfoldable pub ensure_unique_slug : Option ℕ → Text → List Group → Option Text
  unfolding search_slug
  ensure_unique_slug exclude_id slug groups =
      search_slug (suc (length groups)) exclude_id slug 0 groups

-- `getById`
unfoldable pub get_by_id : ℕ → Hierarchy → Option Group
unfolding find_group
get_by_id id h = find_group id h

-- `getChildren`, but for the order
unfoldable pub get_children : Option ℕ → Hierarchy → List Group
get_children parent_id h = where_ (λ g. g.parent_id ==? parent_id) h.groups

-- The changes of `update`; none stands for `undefined`, and `slug` is the one that `ensureUniqueSlug` has found.
pub record GroupChanges : Type 0 where
  pub name : Option String
  pub slug : Option String
  pub sort_order : Option ℕ
  pub is_general : Option Bool
  pub group_notifications : Option Bool

abbrev changed : GroupChanges → Group → Group
changed u g = record g {
  name = or_else u.name g.name;
  slug = or_else u.slug g.slug;
  sort_order = or_else u.sort_order g.sort_order;
  is_general = or_else u.is_general g.is_general;
  group_notifications = or_else u.group_notifications g.group_notifications;
}

-- `update`
unfoldable pub update_group : ℕ → GroupChanges → Hierarchy → Option Group × Hierarchy
update_group id u h =
    let groups = update (λ g. g.id == id) (changed u) h.groups in
    (first (λ g. g.id == id) groups, record h { groups = groups })

-- `reorder`
unfoldable pub reorder : List (ℕ × ℕ) → Hierarchy → Hierarchy
reorder [] h = h
reorder ((id, sort_order) ∷ items) h = reorder items (record h {
  groups = update (λ g. g.id == id) (λ g. record g { sort_order = sort_order }) h.groups;
})

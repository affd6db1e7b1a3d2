-- ===== src/Notification/Sources.antt =====
-- Bindings with their sources, for display: `resolveBindingsWithSources`, its variants for agents and
-- sites, and the closure `applyBindingsWithSources` that the three share.
use Prim.Native.String.{◌++◌ as ◌<>◌}
use text.Mathlib.Text.{◌==◌ as str_eq}
use oblimap.Base.{
  ℕ, Bool, true, false, ◌&&◌, Option, none, some, List, [], ◌∷◌, ◌==◌, ltb, if◌then◌else◌, where_,
  any, set_add, set_delete, order_by_desc, map, String,
}
use oblimap.Group.{Hierarchy, Group, find_group}
use oblimap.Notification.{
  Scope, global, group, site, monitor, agent, Binding, is_replace, is_exclude, get_bindings,
  ancestor_ids, if_truthy,
}

pub record SourceInfo : Type 0 where
  pub channel_id : ℕ
  pub source : Scope
  pub source_id : Option ℕ
  pub source_name : String
  pub is_direct : Bool
  pub is_excluded : Bool

-- The two variables that the closure `applyBindingsWithSources` updates: the map `result`, by channel
-- and in the order of insertion, and the set of excluded channels.
pub record View : Type 0 where
  pub result : List SourceInfo
  pub excluded_set : List ℕ

-- `result.set(info.channelId, info)`
unfoldable pub put_info : SourceInfo → List SourceInfo → List SourceInfo
put_info info [] = info ∷ []
put_info info (x ∷ xs) = if x.channel_id == info.channel_id then info ∷ xs else x ∷ put_info info xs

-- `existing.isExcluded = true`
unfoldable pub mark_excluded : ℕ → List SourceInfo → List SourceInfo
mark_excluded c [] = []
mark_excluded c (x ∷ xs) =
    if x.channel_id == c then record x { is_excluded = true } ∷ xs else x ∷ mark_excluded c xs

module _ (source : Scope) (source_id : Option ℕ) (source_name : String) (is_direct : Bool) where
  abbrev pub info_of : Binding → SourceInfo
  info_of b = record {
    channel_id = b.channel_id;
    source = source;
    source_id = source_id;
    source_name = source_name;
    is_direct = is_direct;
    is_excluded = false;
  }

  -- The loop over the merge and replace bindings.
  unfoldable pub put_bound : List Binding → View → View
  unfolding put_info
  put_bound [] v = v
  put_bound (b ∷ bs) v = put_bound bs (
      if is_exclude b.override_mode then v else record {
        result = put_info (info_of b) v.result;
        excluded_set = set_delete b.channel_id v.excluded_set;
      })

  -- The loop over the excludes.
  unfoldable pub mark_bound : List Binding → View → View
  unfolding mark_excluded
  mark_bound [] v = v
  mark_bound (b ∷ bs) v = mark_bound bs (
      if is_exclude b.override_mode
      then record {
        result = mark_excluded b.channel_id v.result;
        excluded_set = set_add b.channel_id v.excluded_set;
      }
      else v)

  -- `applyBindingsWithSources`
  unfoldable pub apply_with_sources : List Binding → View → View
  unfolding put_bound mark_bound
  apply_with_sources [] v = v
  apply_with_sources (b ∷ bs) v =
      let kept : View =
        if any (λ x. is_replace x.override_mode) (b ∷ bs)
        then record { result = []; excluded_set = [] }
        else v in
      mark_bound (b ∷ bs) (put_bound (b ∷ bs) kept)

abbrev pub empty_view : View
empty_view = record { result = []; excluded_set = [] }

-- `print` is JavaScript's conversion of a number to text.
module _ (print : ℕ → String) (table : List Binding) (h : Hierarchy) where
  -- `text || fallback`
  abbrev or_text : String → String → String
  or_text text_ fallback = if str_eq text_ "" then fallback else text_

  abbrev group_name : Option Group → ℕ → String
  group_name none g = "Group #" <> print g
  group_name (some row) g = or_text row.name (("Group #" <> print g))

  -- The loop over the ancestor rows.
  unfoldable pub groups_with_sources : List ℕ → View → View
  groups_with_sources [] v = v
  groups_with_sources (g ∷ gs) v = groups_with_sources gs (
      apply_with_sources group (some g) (group_name (find_group g h) g) false
        (get_bindings table group (some g)) v)

  unfoldable pub global_view : View
  global_view =
      apply_with_sources global none "Global" false (get_bindings table global none) empty_view

  unfoldable pub inherited_view : Option ℕ → View
  unfolding groups_with_sources global_view
  inherited_view none = global_view
  inherited_view (some g) = groups_with_sources (ancestor_ids g h) global_view

  -- The ids of the ancestors without the group itself, root first.
  unfoldable pub strict_ancestor_ids : ℕ → List ℕ
  strict_ancestor_ids g =
      map (λ l. l.ancestor_id)
        (order_by_desc (λ l. l.depth)
          (where_ (λ l. l.descendant_id == g && ltb 0 l.depth) h.closure))

  -- `resolveBindingsWithSources('monitor', …)`, up to the channel names.
  unfoldable pub sources_for_monitor : ℕ → Option ℕ → View
  unfolding inherited_view
  sources_for_monitor monitor_id group_id =
      apply_with_sources monitor (some monitor_id) "Direct" true
        (get_bindings table monitor (some monitor_id)) (inherited_view group_id)

  -- `resolveBindingsWithSources('group', …)`, up to the channel names.
  unfoldable pub sources_for_group : ℕ → View
  unfolding groups_with_sources global_view strict_ancestor_ids
  sources_for_group group_id =
      apply_with_sources group (some group_id) "Direct" true
        (get_bindings table group (some group_id))
        (groups_with_sources (strict_ancestor_ids group_id) global_view)

  -- `resolveBindingsWithSourcesForAgent`, up to the channel names.
  unfoldable pub sources_for_agent : ℕ → Option ℕ → View
  unfolding inherited_view
  sources_for_agent device_id device_group =
      apply_with_sources agent (some device_id) "Direct" true
        (get_bindings table agent (some device_id)) (inherited_view (if_truthy device_group))

  -- `resolveBindingsWithSourcesForSite`, up to the channel names.
  unfoldable pub sources_for_site : ℕ → Option ℕ → View
  unfolding inherited_view
  sources_for_site site_id site_group =
      apply_with_sources site (some site_id) "Direct" true (get_bindings table site (some site_id))
        (inherited_view (if_truthy site_group))

-- ===== src/Settings/Resolve.antt =====
-- The inheritance of settings: `resolveForMonitor`, `resolveForGroup`, `resolveGlobal`,
-- `resolveForSite` and `resolveForProbe`. Each starts from the defaults and lets one level after the
-- other overwrite the keys that it overrides.
use oblimap.Base.{ℕ, Option, none, some, List, [], ◌∷◌, String, if◌then◌else◌, truthy}
use oblimap.Group.{Hierarchy, Group, Link}
use oblimap.Group.Queries.{ancestor_rows, get_ancestors}
use oblimap.Site.{Site, find_site}
use oblimap.Settings.{
  Json, Scope, SettingsRow, Object, assign, empty_object, settings_keys, default_value,
  get_by_scope,
}

pub data Source : Type 0 where
  default global group site monitor : Source

-- The tables that the resolution reads.
pub record Tables : Type 0 where
  pub settings : List SettingsRow
  pub hierarchy : Hierarchy
  pub sites : List Site

module _ (J : Json) where
  open J use {Value}

  -- A resolved value, with where it comes from.
  pub record Resolved : Type 0 where
    pub value : Option Value
    pub source : Source
    pub source_id : Option ℕ
    pub source_name : String

  -- `for (const key of allKeys) resolved[key] = { value: HARDCODED_DEFAULTS[key], … }`
  unfoldable pub start_from : List String → Object Resolved → Object Resolved
  start_from [] resolved = resolved
  start_from (key ∷ keys) resolved = start_from keys (
      assign key
        (record {
          value = default_value J key;
          source = default;
          source_id = none;
          source_name = "Default";
        })
        resolved)

  -- `for (const key of allKeys) if (overrides[key] !== undefined) resolved[key] = { … }`
  unfoldable pub apply_overrides :
      List String → Object Value → Source → Option ℕ → String → Object Resolved → Object Resolved
  apply_overrides [] overrides source source_id source_name resolved = resolved
  apply_overrides (key ∷ keys) overrides source source_id source_name resolved =
      apply_overrides keys overrides source source_id source_name (elim (overrides key) [
        | none ↦ resolved
        | some v ↦
            assign key
              (record {
                value = some v;
                source = source;
                source_id = source_id;
                source_name = source_name;
              })
              resolved
      ])

  -- `for (const ancestor of ancestorRows) { … }`
  unfoldable pub apply_groups :
      List SettingsRow → List (Link × Group) → Object Resolved → Object Resolved
  apply_groups table [] resolved = resolved
  apply_groups table ((l, g) ∷ rows) resolved = apply_groups table rows (
      apply_overrides settings_keys (get_by_scope J table Scope.group (some g.id)) group (some g.id)
        g.name resolved)

  -- `if (groupId !== null) { … }`: the group and its ancestors, root first.
  unfoldable pub apply_chain : Tables → Option ℕ → Object Resolved → Object Resolved
  unfolding apply_groups
  apply_chain t none resolved = resolved
  apply_chain t (some g) resolved = apply_groups t.settings (ancestor_rows g t.hierarchy) resolved

  -- The defaults, with the global overrides.
  unfoldable pub apply_global : List SettingsRow → Object Resolved
  unfolding start_from
  apply_global table =
      apply_overrides settings_keys (get_by_scope J table Scope.global none) global none "Global"
        (start_from settings_keys empty_object)

  unfoldable pub resolve_for_monitor : Tables → ℕ → Option ℕ → Object Resolved
  unfolding apply_global apply_chain
  resolve_for_monitor t monitor_id group_id =
      let grouped = apply_chain t group_id (apply_global t.settings) in
      apply_overrides settings_keys (get_by_scope J t.settings Scope.monitor (some monitor_id))
        monitor (some monitor_id) "This monitor" grouped

  -- The group's own overrides are returned beside the resolved values, not merged into them.
  unfoldable pub resolve_for_group : Tables → ℕ → Object Resolved × Object Value
  unfolding apply_global apply_groups
  resolve_for_group t group_id = (
    apply_groups t.settings (get_ancestors group_id t.hierarchy) (apply_global t.settings),
    get_by_scope J t.settings Scope.group (some group_id),
  )

  -- Only the defaults are resolved; the global overrides are returned beside them.
  unfoldable pub resolve_global : Tables → Object Resolved × Object Value
  unfolding start_from
  resolve_global t =
      (start_from settings_keys empty_object, get_by_scope J t.settings Scope.global none)

  -- `site?.group_id`
  abbrev pub group_of : Option Site → Option ℕ
  group_of none = none
  group_of (some s) = s.group_id

  -- `if (siteId !== null) { … }` of `resolveForProbe`
  unfoldable pub apply_site : Tables → Option ℕ → Object Resolved → Object Resolved
  apply_site t none resolved = resolved
  apply_site t (some s) resolved =
      apply_overrides settings_keys (get_by_scope J t.settings Scope.site (some s)) site (some s)
        "This site" resolved

  unfoldable pub resolve_for_site : Tables → ℕ → ℕ → Object Resolved
  unfolding apply_global apply_chain
  resolve_for_site t tenant_id site_id =
      let group_id = group_of (find_site tenant_id site_id t.sites) in
      let base = apply_global t.settings in
      let grouped = if truthy group_id then apply_chain t group_id base else base in
      apply_overrides settings_keys (get_by_scope J t.settings Scope.site (some site_id)) site
        (some site_id) "This site" grouped

  -- `tenantId` is not used by the source.
  unfoldable pub resolve_for_probe : Tables → ℕ → Option ℕ → Option ℕ → Object Resolved
  unfolding apply_global apply_chain apply_site
  resolve_for_probe t probe_id site_id group_id =
      let grouped = apply_chain t group_id (apply_global t.settings) in
      let sited = apply_site t site_id grouped in
      apply_overrides settings_keys (get_by_scope J t.settings Scope.monitor (some probe_id))
        monitor (some probe_id) "This probe" sited

-- ===== src/Settings/Decided.antt =====
-- What the resolutions of the settings service give for each key.
use mathlib.Core.List.{reverse}
use oblimap.Base.{
  ℕ, ◌≡◌, refl, ◌∙◌, ap, sym, inl, inr, true, Option, none, some, List, [], ◌∷◌, ◌++◌, String,
  if◌then◌else◌, truthy, Bool-cases, map,
}
use oblimap.Group.Queries.{get_ancestors}
use oblimap.Site.{find_site}
use oblimap.Settings.{Json, Scope, Object, empty_object, settings_keys, get_by_scope}
use oblimap.Settings.Resolve.{
  Tables, Resolved, start_from, apply_site, apply_global, resolve_for_monitor, resolve_for_group,
  resolve_for_site, resolve_for_probe, group_of,
}
use oblimap.Settings.Chain.{
  listed, Level, decided, apply_levels, apply_levels-append, apply_chain-levels,
  apply_groups-levels, chain-decided, global_level, group_level, group_levels, site_level,
  monitor_level,
}

module _ (J : Json) where
  -- A run of levels after the defaults and the global overrides.
  after_global :
      (t : Tables) (ls : List (Level J))
      → apply_levels J ls (apply_global J t.settings)
        ≡ apply_levels J (global_level J t.settings ∷ ls) (start_from J settings_keys empty_object)
  unfolding apply_global apply_levels global_level
  after_global t ls = refl

  abbrev pub monitor_chain : Tables → ℕ → Option ℕ → List (Level J)
  monitor_chain t m g =
      global_level J t.settings
      ∷ (group_levels J t g ++ monitor_level J t.settings m "This monitor" ∷ [])

  for_monitor :
      (t : Tables) (m : ℕ) (g : Option ℕ)
      → resolve_for_monitor J t m g
        ≡ apply_levels J (monitor_chain t m g) (start_from J settings_keys empty_object)
  unfolding resolve_for_monitor monitor_level apply_levels
  for_monitor t m g =
      let last = monitor_level J t.settings m "This monitor" ∷ [] in
      ap (apply_levels J last) (apply_chain-levels J t g (apply_global J t.settings))
      ∙ sym (apply_levels-append J (group_levels J t g) last (apply_global J t.settings))
      ∙ after_global t (group_levels J t g ++ last)

  -- A monitor's value of each listed key is that of the most specific level that overrides the key
  -- (the monitor, then its groups from the last row of the query to the first, then the global scope), labelled with
  -- that level, and the default if none does.
  pub resolve_for_monitor-decided :
      (t : Tables) (m : ℕ) (g : Option ℕ) (k : String)
      → listed settings_keys k ≡ true
      → resolve_for_monitor J t m g k ≡ some (decided J (reverse (monitor_chain t m g)) k)
  resolve_for_monitor-decided t m g k h =
      ap (λ r. r k) (for_monitor t m g) ∙ chain-decided J (monitor_chain t m g) k h

  abbrev pub group_chain : Tables → ℕ → List (Level J)
  group_chain t g =
      global_level J t.settings ∷ map (group_level J t.settings) (get_ancestors g t.hierarchy)

  -- A group's inherited value of each listed key comes from the groups strictly above it, from the last
  -- row of the query to the first, and then from the global scope; its own overrides are returned beside, as they are stored.
  pub resolve_for_group-decided :
      (t : Tables) (g : ℕ) (k : String)
      → listed settings_keys k ≡ true
      → ((resolve_for_group J t g).0 k ≡ some (decided J (reverse (group_chain t g)) k))
        × ((resolve_for_group J t g).1 k ≡ get_by_scope J t.settings Scope.group (some g) k)
  unfolding resolve_for_group
  resolve_for_group-decided t g k h = (
    ap (λ r. r k)
          (apply_groups-levels J t.settings (get_ancestors g t.hierarchy)
              (apply_global J t.settings)
            ∙ after_global t (map (group_level J t.settings) (get_ancestors g t.hierarchy)))
        ∙ chain-decided J (group_chain t g) k h,
    refl,
  )

  -- A site whose `group_id` is null or 0 has no group levels.
  abbrev pub site_chain : Tables → ℕ → ℕ → List (Level J)
  site_chain t tenant_id s =
      let g = group_of J (find_site tenant_id s t.sites) in
      global_level J t.settings
      ∷ ((if truthy g then group_levels J t g else []) ++ site_level J t.settings s ∷ [])

  for_site :
      (t : Tables) (tenant_id s : ℕ)
      → resolve_for_site J t tenant_id s
        ≡ apply_levels J (site_chain t tenant_id s) (start_from J settings_keys empty_object)
  unfolding resolve_for_site site_level apply_levels
  for_site t tenant_id s =
      let g = group_of J (find_site tenant_id s t.sites) in
      let last = site_level J t.settings s ∷ [] in
      let base = apply_global J t.settings in
      elim (Bool-cases (truthy g)) [
        | inl grouped ↦ rw grouped (
            ap (apply_levels J last) (apply_chain-levels J t g base)
            ∙ sym (apply_levels-append J (group_levels J t g) last base)
            ∙ after_global t (group_levels J t g ++ last))
        | inr alone ↦ rw alone (after_global t last)
      ]

  -- A site's value of each listed key is that of the most specific level that overrides the key: the
  -- site, then its groups from the last row of the query to the first, then the global scope, then the default.
  pub resolve_for_site-decided :
      (t : Tables) (tenant_id s : ℕ) (k : String)
      → listed settings_keys k ≡ true
      → resolve_for_site J t tenant_id s k ≡ some (decided J (reverse (site_chain t tenant_id s)) k)
  resolve_for_site-decided t tenant_id s k h =
      ap (λ r. r k) (for_site t tenant_id s) ∙ chain-decided J (site_chain t tenant_id s) k h

  abbrev pub site_part : Tables → Option ℕ → List (Level J)
  site_part t none = []
  site_part t (some s) = site_level J t.settings s ∷ []

  abbrev pub probe_chain : Tables → ℕ → Option ℕ → Option ℕ → List (Level J)
  probe_chain t p s g =
      global_level J t.settings
      ∷ (group_levels J t g ++ (site_part t s ++ monitor_level J t.settings p "This probe" ∷ []))

  apply_site-levels :
      (t : Tables) (s : Option ℕ) (r : Object (Resolved J))
      → apply_site J t s r ≡ apply_levels J (site_part t s) r
  unfolding apply_site site_level apply_levels
  apply_site-levels t none r = refl
  apply_site-levels t (some s) r = refl

  for_probe :
      (t : Tables) (p : ℕ) (s g : Option ℕ)
      → resolve_for_probe J t p s g
        ≡ apply_levels J (probe_chain t p s g) (start_from J settings_keys empty_object)
  unfolding resolve_for_probe monitor_level apply_levels
  for_probe t p s g =
      let last = monitor_level J t.settings p "This probe" ∷ [] in
      let base = apply_global J t.settings in
      ap (λ r. apply_levels J last (apply_site J t s r)) (apply_chain-levels J t g base)
      ∙ ap (apply_levels J last) (apply_site-levels t s _)
      ∙ sym (apply_levels-append J (site_part t s) last _)
      ∙ sym (apply_levels-append J (group_levels J t g) (site_part t s ++ last) base)
      ∙ after_global t (group_levels J t g ++ (site_part t s ++ last))

  -- A probe's value of each listed key is that of the most specific level that overrides the key: the
  -- probe, then its site, then its groups from the last row of the query to the first, then the global scope, then
  -- the default.
  pub resolve_for_probe-decided :
      (t : Tables) (p : ℕ) (s g : Option ℕ) (k : String)
      → listed settings_keys k ≡ true
      → resolve_for_probe J t p s g k ≡ some (decided J (reverse (probe_chain t p s g)) k)
  resolve_for_probe-decided t p s g k h =
      ap (λ r. r k) (for_probe t p s g) ∙ chain-decided J (probe_chain t p s g) k h

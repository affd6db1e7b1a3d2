-- ===== src/Notification/Views.antt =====
-- What the user sees is what fires: for each kind of thing, the channels that a notification goes to
-- are those that the view with sources shows and does not mark as excluded.
use mathlib.Core.List.{map-append}
use oblimap.Base.{
  zero, suc, where_-where_, ℕ, ◌≡◌, refl, ◌≢◌, true, false, ◌&&◌, Option, none, some, List, [], ◌∷◌,
  ◌++◌, ◌==◌, elem, where_, String, arith, order_by_desc-zero,
}
use oblimap.Group.{Hierarchy, Link}
use oblimap.Group.Closure.{link}
use oblimap.Notification.{
  Binding, global, group, site, monitor, agent, apply_bindings, apply_groups, get_bindings,
  inherited, ancestor_ids, if_truthy, resolve_channels_for_monitor, resolve_channels_for_group,
  resolve_channels_for_agent, resolve_channels_for_site,
}
use oblimap.Notification.Sources.{
  global_view, inherited_view, empty_view, strict_ancestor_ids, sources_for_monitor,
  sources_for_group, sources_for_agent, sources_for_site,
}
use oblimap.Notification.Agreement.{Agrees, apply-Agrees, groups-Agrees}

module _ (print : ℕ → String) (table : List Binding) (h : Hierarchy) where
  empty-Agrees : Agrees [] empty_view
  unfolding elem
  empty-Agrees c = refl

  global-Agrees : Agrees (inherited table h none) (global_view print table h)
  unfolding inherited global_view
  global-Agrees =
      apply-Agrees global none "Global" false (get_bindings table global none) [] empty_view
        empty-Agrees

  inherited-Agrees : (g : Option ℕ) → Agrees (inherited table h g) (inherited_view print table h g)
  unfolding inherited inherited_view
  inherited-Agrees none = global-Agrees
  inherited-Agrees (some g) = groups-Agrees print table h (ancestor_ids g h) _ _ global-Agrees

  -- A monitor that no agent device backs: a notification for it goes to the channels that its view
  -- shows as not excluded.
  pub monitor-Agrees :
      (m : ℕ) (g : Option ℕ)
      → Agrees
          (resolve_channels_for_monitor table h m g none)
          (sources_for_monitor print table h m g)
  unfolding resolve_channels_for_monitor sources_for_monitor
  monitor-Agrees m g =
      apply-Agrees monitor (some m) "Direct" true (get_bindings table monitor (some m)) _ _
        (inherited-Agrees g)

  -- The same for an agent device.
  pub agent-Agrees :
      (d : ℕ) (g : Option ℕ)
      → Agrees (resolve_channels_for_agent table h d g) (sources_for_agent print table h d g)
  unfolding resolve_channels_for_agent sources_for_agent
  agent-Agrees d g =
      apply-Agrees agent (some d) "Direct" true (get_bindings table agent (some d)) _ _
        (inherited-Agrees (if_truthy g))

  if_truthy_lem : (g : Option ℕ) → g ≢ some 0 → if_truthy g ≡ g
  if_truthy_lem none real = refl
  if_truthy_lem (some zero) real = absurd (real refl)
  if_truthy_lem (some (suc n)) real = ground arith

  -- The same for a site, where neither its id nor the id of its group is 0.
  pub site-Agrees :
      (s : ℕ) (g : Option ℕ)
      → s ≢ 0
      → g ≢ some 0
      → Agrees (resolve_channels_for_site table h g (some s)) (sources_for_site print table h s g)
  unfolding resolve_channels_for_site sources_for_site
  site-Agrees s g nonzero real =
      let nz : (s == 0) ≡ false = ground arith in
      rw (nz, if_truthy_lem g real)
        (apply-Agrees site (some s) "Direct" true (get_bindings table site (some s)) _ _
          (inherited-Agrees g))

  -- The rows of a group among its own ancestors: itself alone, at depth 0.
  abbrev pub OwnRow : ℕ → Type 0
  OwnRow g = where_ (λ l. l.descendant_id == g && l.depth == 0) h.closure ≡ link g g 0 ∷ []

  ancestors-own :
      (g : ℕ) → OwnRow g → ancestor_ids g h ≡ strict_ancestor_ids print table h g ++ g ∷ []
  unfolding ancestor_ids strict_ancestor_ids
  ancestors-own g own =
      let rows = where_ (λ l. l.descendant_id == g) h.closure in
      rw (order_by_desc-zero (λ (l : Link). l.depth) rows, where_-where_, where_-where_, own)
        (map-append _ _ _)

  apply_groups-append :
      (gs ks ids : List ℕ)
      → apply_groups table (gs ++ ks) ids ≡ apply_groups table ks (apply_groups table gs ids)
  unfolding apply_groups
  apply_groups-append [] ks ids = refl
  apply_groups-append (g ∷ gs) ks ids = apply_groups-append gs ks _

  apply_groups-one :
      (g : ℕ) (ids : List ℕ)
      → apply_groups table (g ∷ []) ids ≡ apply_bindings ids (get_bindings table group (some g))
  unfolding apply_groups
  apply_groups-one g ids = refl

  -- A notification for a group goes to the channels that the view of the group shows as not
  -- excluded, if the only closure row of depth 0 below the group is its own.
  pub group-Agrees :
      (g : ℕ)
      → OwnRow g
      → Agrees (resolve_channels_for_group table h g) (sources_for_group print table h g)
  unfolding resolve_channels_for_group sources_for_group inherited
  group-Agrees g own =
      rw (ancestors-own g own, apply_groups-append, apply_groups-one)
        (apply-Agrees group (some g) "Direct" true (get_bindings table group (some g)) _ _
          (groups-Agrees print table h (strict_ancestor_ids print table h g) _ _ global-Agrees))

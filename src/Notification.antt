-- ===== src/Notification.antt =====
-- Channel resolution of `notificationService` (server/src/services/notification.service.ts): which
-- channels fire for a monitor, a group, an agent device or a site, from the bindings along the chain
-- global → group ancestors (root first) → the thing itself.
pub mod Sources
pub mod Agreement
pub mod Views
pub mod Dispatch
pub mod Effect
pub mod Send
pub mod Agent
mod Tests
use oblimap.Base.{
  ℕ, Bool, true, false, not, ◌&&◌, Option, none, some, List, [], ◌∷◌, ◌++◌, ◌==◌, ◌==?◌,
  if◌then◌else◌, truthy, where_, any, update, set_add, set_delete, elem, order_by_desc, map,
}
use oblimap.Group.{Hierarchy, Link}

pub data Scope : Type 0 where
  global group site monitor agent : Scope

abbrev pub scope_index : Scope → ℕ
scope_index global = 0
scope_index group = 1
scope_index site = 2
scope_index monitor = 3
scope_index agent = 4

abbrev pub same_scope : Scope → Scope → Bool
same_scope a b = scope_index a == scope_index b

pub data OverrideMode : Type 0 where
  merge replace exclude : OverrideMode

abbrev pub is_replace : OverrideMode → Bool
is_replace replace = true
is_replace _ = false

abbrev pub is_exclude : OverrideMode → Bool
is_exclude exclude = true
is_exclude _ = false

pub record Binding : Type 0 where
  pub channel_id : ℕ
  pub scope : Scope
  pub scope_id : Option ℕ
  pub override_mode : OverrideMode

-- `getBindings`
unfoldable pub get_bindings : List Binding → Scope → Option ℕ → List Binding
get_bindings table scope scope_id =
    where_ (λ b. same_scope b.scope scope && b.scope_id ==? scope_id) table

-- `for (const b of bindings) if (b.overrideMode !== 'exclude') channelIds.add(b.channelId)`
unfoldable pub add_bound : List Binding → List ℕ → List ℕ
add_bound [] ids = ids
add_bound (b ∷ bs) ids =
    add_bound bs (if is_exclude b.override_mode then ids else set_add b.channel_id ids)

-- `for (const b of bindings) if (b.overrideMode === 'exclude') channelIds.delete(b.channelId)`
unfoldable pub drop_excluded : List Binding → List ℕ → List ℕ
drop_excluded [] ids = ids
drop_excluded (b ∷ bs) ids =
    drop_excluded bs (if is_exclude b.override_mode then set_delete b.channel_id ids else ids)

-- `_applyBindings`
unfoldable pub apply_bindings : List ℕ → List Binding → List ℕ
unfolding add_bound drop_excluded
apply_bindings ids [] = ids
apply_bindings ids (b ∷ bs) =
    let kept = if any (λ x. is_replace x.override_mode) (b ∷ bs) then [] else ids in
    drop_excluded (b ∷ bs) (add_bound (b ∷ bs) kept)

-- `group_closure` rows of a group, root first: the ids of its ancestors and of itself.
unfoldable pub ancestor_ids : ℕ → Hierarchy → List ℕ
ancestor_ids group_id h =
    map (λ l. l.ancestor_id)
      (order_by_desc (λ l. l.depth) (where_ (λ l. l.descendant_id == group_id) h.closure))

-- `for (const row of ancestorRows) { … }`
unfoldable pub apply_groups : List Binding → List ℕ → List ℕ → List ℕ
unfolding get_bindings apply_bindings
apply_groups table [] ids = ids
apply_groups table (g ∷ gs) ids =
    apply_groups table gs (apply_bindings ids (get_bindings table group (some g)))

-- The steps 1 and 2 of every resolution. `none` is a thing in no group.
unfoldable pub inherited : List Binding → Hierarchy → Option ℕ → List ℕ
unfolding get_bindings apply_bindings
inherited table h none = apply_bindings [] (get_bindings table global none)
inherited table h (some g) =
    apply_groups table (ancestor_ids g h) (apply_bindings [] (get_bindings table global none))

-- `null` and 0 count as no group where the source writes `if (row?.group_id)`.
abbrev pub if_truthy : Option ℕ → Option ℕ
if_truthy g = if truthy g then g else none

-- Bindings of the thing itself, where the source writes `if (id) { … }`.
unfoldable pub apply_own : List Binding → Scope → Option ℕ → List ℕ → List ℕ
unfolding get_bindings apply_bindings
apply_own table scope none ids = ids
apply_own table scope (some i) ids =
    if i == 0 then ids else apply_bindings ids (get_bindings table scope (some i))

unfoldable pub resolve_channels_for_monitor :
    List Binding → Hierarchy → ℕ → Option ℕ → Option ℕ → List ℕ
unfolding inherited apply_own get_bindings apply_bindings
resolve_channels_for_monitor table h monitor_id group_id agent_device_id =
    apply_own table agent agent_device_id
      (apply_bindings (inherited table h group_id) (get_bindings table monitor (some monitor_id)))

unfoldable pub resolve_channels_for_group : List Binding → Hierarchy → ℕ → List ℕ
unfolding inherited
resolve_channels_for_group table h group_id = inherited table h (some group_id)

-- `device_group` is the column `group_id` of the device's row, none without a row.
unfoldable pub resolve_channels_for_agent : List Binding → Hierarchy → ℕ → Option ℕ → List ℕ
unfolding inherited get_bindings apply_bindings
resolve_channels_for_agent table h device_id device_group =
    apply_bindings (inherited table h (if_truthy device_group))
      (get_bindings table agent (some device_id))

unfoldable pub resolve_channels_for_site : List Binding → Hierarchy → Option ℕ → Option ℕ → List ℕ
unfolding inherited apply_own
resolve_channels_for_site table h site_group_id site_id =
    apply_own table site site_id (inherited table h site_group_id)

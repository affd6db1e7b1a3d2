-- ===== src/Permission/Visible.antt =====
-- The list of visible monitors and the test for a single monitor agree.
use oblimap.Base.{
  ℕ, ◌≡◌, ◌≢◌, refl, sym, ◌∙◌, ap, subst, ◌↔◌, Bool, true, false, ◌&&◌, ◌||◌, some, List, [], ◌∷◌,
  Memᴰ, ◌==◌, ==_iff, ==?_iff, ◌==?◌, first, elem, elem-add_all, join→mem, mem→join, column→mem,
  mem→column, arith, ◌⊎◌, inl, inr,
}
use oblimap.Permission.{
  PermissionLevel, MonitorRow, Tables, same_scope, can_read_monitor, get_monitor_permission,
  get_user_team_ids,
}
use oblimap.Permission.PermissionScope.{group, monitor}
use oblimap.Permission.Lists.{
  VisibleIds, general_monitors, group_monitors, granted_ids, visible_monitors,
  get_visible_monitor_ids,
}
use oblimap.Permission.Grants.{Holds, HoldsAbove, member→elem, elem→member}
use oblimap.Permission.Access.{IsGeneral, Reads, can_read_monitor-Reads}

-- The monitor's row is the only one of its id, as the primary key makes it.
unfoldable pub IsKeyed : Tables → MonitorRow → Type 0
IsKeyed t x = (y : MonitorRow) → Memᴰ y t.monitors → y.id ≡ x.id → y ≡ x

module _ (t : Tables) (user_id : ℕ) (x : MonitorRow) (m : Memᴰ x t.monitors)
    (keyed : IsKeyed t x) where
  general→Reads : elem x.id (general_monitors t) ≡ true → Reads t user_id x.id x.group_id
  unfolding general_monitors IsKeyed
  general→Reads h =
      let (r, n, g, e) = column→mem (λ r. r.0.id) (λ r. r.1.is_general) x.id _ h in
      let (a, b, c) =
        join→mem (λ x g. x.group_id ==? some g.id) r t.monitors t.hierarchy.groups n in
      Reads.in_general r.1.id (ap (λ y. y.group_id) (sym (keyed r.0 a (sym e))) ∙ (==?_iff _ _).0 c)
        (record { row = r.1; listed = b; is_row = refl; general = g })

  general-back :
      (g : ℕ) → x.group_id ≡ some g → IsGeneral t g → elem x.id (general_monitors t) ≡ true
  unfolding general_monitors
  general-back g e i =
      mem→column (λ r. r.0.id) (λ r. r.1.is_general) (x, i.row)
        (mem→join (λ x g. x.group_id ==? some g.id) x i.row m i.listed
          ((==?_iff _ _).1 (e ∙ ap some (sym i.is_row))))
        i.general

  direct→Reads :
      elem x.id (granted_ids monitor (get_user_team_ids user_id t) t) ≡ true
      → Reads t user_id x.id x.group_id
  unfolding granted_ids
  direct→Reads h =
      let (p, l, c, e) =
        column→mem (λ p. p.scope_id)
          (λ p. elem p.team_id (get_user_team_ids user_id t) && same_scope p.scope monitor) x.id
          t.permissions h in
      Reads.on_monitor p.level (record {
        permission = p;
        listed = l;
        member = elem→member t user_id p.team_id (ground (arith, c));
        same = ground (arith, c);
        on_thing = sym e;
        has_level = refl;
      })

  direct-back :
      (l : PermissionLevel)
      → Holds t user_id monitor x.id l
      → elem x.id (granted_ids monitor (get_user_team_ids user_id t) t) ≡ true
  unfolding granted_ids
  direct-back l h =
      subst (λ i. elem i (granted_ids monitor (get_user_team_ids user_id t) t) ≡ true) h.on_thing
        (mem→column (λ p. p.scope_id)
          (λ p. elem p.team_id (get_user_team_ids user_id t) && same_scope p.scope monitor)
          h.permission h.listed
          (rw (member→elem t user_id h.permission.team_id h.member, h.same) refl))

  group→Reads :
      elem x.id (group_monitors (get_user_team_ids user_id t) t) ≡ true
      → Reads t user_id x.id x.group_id
  unfolding group_monitors IsKeyed
  group→Reads h =
      let (r, n, k, e) =
        column→mem (λ r. r.0.0.id) (λ r. elem r.1.team_id (get_user_team_ids user_id t)) x.id _ h in
      let (a, b, c) =
        join→mem (λ xl p. p.scope_id == xl.1.ancestor_id && same_scope p.scope group) r _
          t.permissions n in
      let (d, f, g) =
        join→mem (λ x l. x.group_id ==? some l.descendant_id) r.0 t.monitors t.hierarchy.closure
          a in
      Reads.on_group r.0.1.descendant_id r.1.level
        (ap (λ y. y.group_id) (sym (keyed r.0.0 d (sym e))) ∙ (==?_iff _ _).0 g)
        (record {
          link = r.0.1;
          listed = f;
          below = refl;
          holds = record {
            permission = r.1;
            listed = b;
            member = elem→member t user_id r.1.team_id k;
            same = ground (arith, c);
            on_thing = (==_iff _ _).0 (ground (arith, c));
            has_level = refl;
          };
        })

  group-back :
      (g : ℕ) (l : PermissionLevel)
      → x.group_id ≡ some g
      → HoldsAbove t user_id g l
      → elem x.id (group_monitors (get_user_team_ids user_id t) t) ≡ true
  unfolding group_monitors
  group-back g l e a =
      let h = a.holds in
      mem→column (λ r. r.0.0.id) (λ r. elem r.1.team_id (get_user_team_ids user_id t))
        ((x, a.link), h.permission)
        (mem→join (λ xl p. p.scope_id == xl.1.ancestor_id && same_scope p.scope group) (x, a.link)
          h.permission
          (mem→join (λ x l. x.group_id ==? some l.descendant_id) x a.link m a.listed
            ((==?_iff _ _).1 (e ∙ ap some (sym a.below))))
          h.listed (rw ((==_iff _ _).1 h.on_thing, h.same) refl))
        (member→elem t user_id h.permission.team_id h.member)

  -- The three sources of the list.
  in_list :
      (is : List ℕ)
      → elem x.id (visible_monitors is t) ≡ (
          elem x.id (general_monitors t)
          || elem x.id (granted_ids monitor is t)
          || elem x.id (group_monitors is t))
  unfolding visible_monitors elem
  in_list [] = ground (arith, no_granted, no_group)
    where
      no_granted : elem x.id (granted_ids monitor [] t) ≡ true → false ≡ true
      no_granted h =
          let (p, l, c, e) =
            column→mem (λ p. p.scope_id) (λ p. elem p.team_id [] && same_scope p.scope monitor) x.id
              t.permissions h in
          ground (arith, c)

      no_group : elem x.id (group_monitors [] t) ≡ true → false ≡ true
      no_group h =
          let (r, n, k, e) = column→mem (λ r. r.0.0.id) (λ r. elem r.1.team_id []) x.id _ h in k
  in_list (i ∷ is) =
      rw
        (
          elem-add_all x.id (general_monitors t),
          elem-add_all x.id (granted_ids monitor (i ∷ is) t),
          elem-add_all x.id (group_monitors (i ∷ is) t),
        )
        (ground arith)

  sources : (a b c : Bool) → (a || b || c) ≡ true → (a ≡ true) ⊎ (b ≡ true) ⊎ (c ≡ true)
  sources true b c h = inl refl
  sources false true c h = inr (inl refl)
  sources false false c h = inr (inr h)

  visible→Reads :
      elem x.id (visible_monitors (get_user_team_ids user_id t) t) ≡ true
      → Reads t user_id x.id x.group_id
  visible→Reads h = go (sources _ _ _ (sym (in_list (get_user_team_ids user_id t)) ∙ h))
    where
      go :
          (elem x.id (general_monitors t) ≡ true)
            ⊎ (elem x.id (granted_ids monitor (get_user_team_ids user_id t) t) ≡ true)
            ⊎ (elem x.id (group_monitors (get_user_team_ids user_id t) t) ≡ true)
          → Reads t user_id x.id x.group_id
      go (inl a) = general→Reads a
      go (inr (inl b)) = direct→Reads b
      go (inr (inr c)) = group→Reads c

  Reads→visible :
      Reads t user_id x.id x.group_id
      → elem x.id (visible_monitors (get_user_team_ids user_id t) t) ≡ true
  Reads→visible (Reads.in_general g e i) =
      in_list (get_user_team_ids user_id t) ∙ ground (arith, general-back g e i)
  Reads→visible (Reads.on_monitor l d) =
      in_list (get_user_team_ids user_id t) ∙ ground (arith, direct-back l d)
  Reads→visible (Reads.on_group g l e a) =
      in_list (get_user_team_ids user_id t) ∙ ground (arith, group-back g l e a)

abbrev pub shows : VisibleIds → ℕ → Bool
shows VisibleIds.all i = true
shows (VisibleIds.only ids) i = elem i ids

-- A monitor is in the list of the monitors that a user sees exactly if the test for that monitor
-- lets the user read it, for administrators and for others. The monitor is a row of the table, the
-- only one of its id, and is not in a group 0.
pub get_visible_monitor_ids-can_read :
    (t : Tables) (user_id : ℕ) (is_admin : Bool) (x : MonitorRow)
    → Memᴰ x t.monitors
    → first (λ y. y.id == x.id) t.monitors ≡ some x
    → IsKeyed t x
    → x.group_id ≢ some 0
    → (shows (get_visible_monitor_ids user_id is_admin t) x.id ≡ true)
      ↔ (can_read_monitor user_id x.id is_admin t ≡ true)
unfolding get_visible_monitor_ids can_read_monitor get_monitor_permission
get_visible_monitor_ids-can_read t user_id true x m found keyed p = (λ h. refl, λ h. refl)
get_visible_monitor_ids-can_read t user_id false x m found keyed p = (
  λ h. (can_read_monitor-Reads t user_id x found p).1 (visible→Reads t user_id x m keyed h),
  λ h. Reads→visible t user_id x m keyed ((can_read_monitor-Reads t user_id x found p).0 h),
)

-- ===== src/Permission/Users.antt =====
-- The list of users for a broadcast about a monitor and the test for a single user agree.
use oblimap.Base.{
  ℕ, ◌≡◌, ◌≢◌, refl, sym, ◌∙◌, ap, subst, ◌↔◌, Bool, true, false, ◌&&◌, ◌||◌, Option, none, some,
  List, [], map, ◌==◌, ==_iff, first, where_, elem, add_all, elem-add_all, join→mem, mem→join,
  column→mem, mem→column, arith, Bool-cases, ◌⊎◌, inl, inr,
}
use oblimap.Permission.{
  PermissionLevel, MonitorRow, Tables, same_scope, can_read_monitor, team_rows, is_general_group,
}
use oblimap.Permission.PermissionScope.{group, monitor}
use oblimap.Permission.Lists.{
  direct_users, group_users, add_group_users, users_with_access, get_users_with_monitor_access,
}
use oblimap.Permission.Grants.{Holds, HoldsAbove}
use oblimap.Permission.Access.{
  IsGeneral, is_general_group_iff, Reads, can_read_monitor-Reads, some_inj, not_zero,
}

module _ (t : Tables) (user_id monitor_id : ℕ) where
  direct→holds :
      elem user_id (direct_users monitor_id t) ≡ true
      → (l : PermissionLevel) × Holds t user_id monitor monitor_id l
  unfolding direct_users
  direct→holds h =
      let (r, n, c, e) =
        column→mem (λ r. r.1.user_id)
          (λ r. same_scope r.0.scope monitor && r.0.scope_id == monitor_id) user_id _ h in
      let (p, q, o) = join→mem (λ p m. p.team_id == m.team_id) r t.permissions t.memberships n in
      (
        r.0.level,
        record {
          permission = r.0;
          listed = p;
          member = record {
            membership = r.1;
            listed = q;
            is_user = sym e;
            is_team = sym ((==_iff _ _).0 o);
          };
          same = ground (arith, c);
          on_thing = (==_iff _ _).0 (ground (arith, c));
          has_level = refl;
        },
      )

  holds→direct :
      (l : PermissionLevel)
      → Holds t user_id monitor monitor_id l
      → elem user_id (direct_users monitor_id t) ≡ true
  unfolding direct_users
  holds→direct l h =
      subst (λ u. elem u (direct_users monitor_id t) ≡ true) h.member.is_user
        (mem→column (λ r. r.1.user_id)
          (λ r. same_scope r.0.scope monitor && r.0.scope_id == monitor_id)
          (h.permission, h.member.membership)
          (mem→join (λ p m. p.team_id == m.team_id) h.permission h.member.membership h.listed
            h.member.listed ((==_iff _ _).1 (sym h.member.is_team)))
          (rw (h.same, (==_iff _ _).1 h.on_thing) refl))

  group→above :
      (g : ℕ)
      → elem user_id (group_users g t) ≡ true
      → (l : PermissionLevel) × HoldsAbove t user_id g l
  unfolding group_users
  group→above g h =
      let (r, n, c, e) =
        column→mem (λ r. r.0.1.user_id)
          (λ r. same_scope r.0.0.scope group && r.1.descendant_id == g) user_id _ h in
      let (pm, l, on) =
        join→mem (λ pm l. l.ancestor_id == pm.0.scope_id) r (team_rows t) t.hierarchy.closure n in
      let (p, q, o) = join→mem (λ p m. p.team_id == m.team_id) r.0 t.permissions t.memberships pm in
      (
        r.0.0.level,
        record {
          link = r.1;
          listed = l;
          below = (==_iff _ _).0 (ground (arith, c));
          holds = record {
            permission = r.0.0;
            listed = p;
            member = record {
              membership = r.0.1;
              listed = q;
              is_user = sym e;
              is_team = sym ((==_iff _ _).0 o);
            };
            same = ground (arith, c);
            on_thing = sym ((==_iff _ _).0 on);
            has_level = refl;
          };
        },
      )

  above→group :
      (g : ℕ) (l : PermissionLevel)
      → HoldsAbove t user_id g l
      → elem user_id (group_users g t) ≡ true
  unfolding group_users
  above→group g l a =
      let h = a.holds in
      subst (λ u. elem u (group_users g t) ≡ true) h.member.is_user
        (mem→column (λ r. r.0.1.user_id)
          (λ r. same_scope r.0.0.scope group && r.1.descendant_id == g)
          ((h.permission, h.member.membership), a.link)
          (mem→join (λ pm l. l.ancestor_id == pm.0.scope_id) (h.permission, h.member.membership)
            a.link
            (mem→join (λ p m. p.team_id == m.team_id) h.permission h.member.membership h.listed
              h.member.listed ((==_iff _ _).1 (sym h.member.is_team)))
            a.listed ((==_iff _ _).1 (sym h.on_thing)))
          (rw (h.same, (==_iff _ _).1 a.below) refl))

  -- The id is that of an active user.
  pub active : ℕ → Bool
  active i = elem i (map (λ u. u.id) (where_ (λ u. u.is_active) t.users))

  in_add_group :
      (g : ℕ) (ids : List ℕ)
      → (g == 0) ≡ false
      → active user_id ≡ true
      → elem user_id (add_group_users (some g) t ids)
        ≡ (elem user_id ids || elem user_id (group_users g t) || is_general_group g t)
  unfolding add_group_users active
  in_add_group g ids p a = elim (Bool-cases (is_general_group g t)) [
    | inl e ↦
        rw
          (
            p,
            e,
            elem-add_all user_id (map (λ u. u.id) (where_ (λ u. u.is_active) t.users))
                (add_all (group_users g t) ids),
            a,
          )
          (ground arith)
    | inr e ↦ rw (p, e, elem-add_all user_id (group_users g t) ids) (ground arith)
  ]

  in_direct :
      elem user_id (add_all (direct_users monitor_id t) [])
      ≡ elem user_id (direct_users monitor_id t)
  unfolding elem
  in_direct = elem-add_all user_id (direct_users monitor_id t) [] ∙ ground arith

  pub listed-Reads :
      (row : MonitorRow)
      → row.group_id ≢ some 0
      → active user_id ≡ true
      → (elem user_id (users_with_access monitor_id (some row) t) ≡ true)
        ↔ Reads t user_id monitor_id row.group_id
  unfolding users_with_access add_group_users
  listed-Reads row p a = go row.group_id p
    where
      sources : (a b c : Bool) → (a || b || c) ≡ true → (a ≡ true) ⊎ (b ≡ true) ⊎ (c ≡ true)
      sources true b c h = inl refl
      sources false true c h = inr (inl refl)
      sources false false c h = inr (inr h)

      in_some :
          (g : ℕ)
          → some g ≢ some 0
          → elem user_id (add_group_users (some g) t (add_all (direct_users monitor_id t) [])) ≡ (
              elem user_id (direct_users monitor_id t)
              || elem user_id (group_users g t)
              || is_general_group g t)
      in_some g q =
          in_add_group g _ (not_zero g q) a
          ∙ ap (λ b. b || elem user_id (group_users g t) || is_general_group g t) in_direct

      split :
          (g : ℕ)
          → (elem user_id (direct_users monitor_id t) ≡ true)
            ⊎ (elem user_id (group_users g t) ≡ true)
            ⊎ (is_general_group g t ≡ true)
          → Reads t user_id monitor_id (some g)
      split g (inl d) = let (l, k) = direct→holds d in Reads.on_monitor l k
      split g (inr (inl u)) = let (l, k) = group→above g u in Reads.on_group g l refl k
      split g (inr (inr i)) = Reads.in_general g refl ((is_general_group_iff g t).0 i)

      back :
          (g : ℕ)
          → Reads t user_id monitor_id (some g)
          → (elem user_id (direct_users monitor_id t)
              || elem user_id (group_users g t)
              || is_general_group g t)
            ≡ true
      back g (Reads.on_monitor l d) = rw (holds→direct l d) refl
      back g (Reads.on_group j l e k) =
          ground
            (arith, above→group g l (subst (λ i. HoldsAbove t user_id i l) (sym (some_inj e)) k))
      back g (Reads.in_general j e i) =
          ground (arith, (is_general_group_iff g t).1 (subst (IsGeneral t) (sym (some_inj e)) i))

      lone : Reads t user_id monitor_id none → elem user_id (direct_users monitor_id t) ≡ true
      lone (Reads.on_monitor l d) = holds→direct l d
      lone (Reads.on_group j l e k) = absurd (ground (arith, e))
      lone (Reads.in_general j e i) = absurd (ground (arith, e))

      go :
          (o : Option ℕ)
          → o ≢ some 0
          → (elem user_id (add_group_users o t (add_all (direct_users monitor_id t) [])) ≡ true)
            ↔ Reads t user_id monitor_id o
      go none q = (
        λ h. (let (l, k) = direct→holds (sym in_direct ∙ h) in Reads.on_monitor l k),
        λ r. in_direct ∙ lone r,
      )
      go (some g) q =
          (λ h. split g (sources _ _ _ (sym (in_some g q) ∙ h)), λ r. in_some g q ∙ back g r)

-- A broadcast about a monitor goes to an active user exactly if the user, taken as no administrator,
-- may read the monitor. The monitor is the row found under its id, and is not in a group 0.
pub get_users_with_monitor_access-can_read :
    (t : Tables) (user_id : ℕ) (x : MonitorRow)
    → elem user_id (map (λ u. u.id) (where_ (λ u. u.is_active) t.users)) ≡ true
    → first (λ y. y.id == x.id) t.monitors ≡ some x
    → x.group_id ≢ some 0
    → (elem user_id (get_users_with_monitor_access x.id t) ≡ true)
      ↔ (can_read_monitor user_id x.id false t ≡ true)
unfolding get_users_with_monitor_access active
get_users_with_monitor_access-can_read t user_id x a found p =
    let reads =
      subst
        (λ o. (elem user_id (users_with_access x.id o t) ≡ true) ↔ Reads t user_id x.id x.group_id)
        (sym found) (listed-Reads t user_id x.id x p a) in
    let can = can_read_monitor-Reads t user_id x found p in
    (λ h. can.1 (reads.0 h), λ h. reads.1 (can.0 h))

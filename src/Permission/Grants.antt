-- ===== src/Permission/Grants.antt =====
-- What a team permission grants, as a relation: the specification that the queries of
-- `permissionService` are compared with.
use oblimap.Base.{
  ℕ, ◌≡◌, refl, sym, ◌∙◌, subst, ◌↔◌, true, ◌&&◌, List, [], ◌∷◌, map, Memᴰ, ◌==◌, ==_iff, is_some,
  where_, any, elem, join, any→mem, mem→any, join→mem, mem→join, where_→mem, mem→where_, column→mem,
  mem→column, arith,
}
use mathlib.Core.List.Memᴰ
use oblimap.Group.{Link}
use oblimap.Permission.{
  PermissionLevel, PermissionScope, Membership, TeamPermission, Tables, same_scope, is_rw,
  team_rows, has_rw, highest_level, get_highest_permission, get_group_permission_via_closure,
  get_user_team_ids,
}
use oblimap.Permission.PermissionScope.{group}
use oblimap.Permission.PermissionLevel.{ro, rw_}

-- The user is in the team.
pub record IsMember (t : Tables) (user_id team_id : ℕ) : Type 0 where
  pub membership : Membership
  pub listed : Memᴰ membership t.memberships
  pub is_user : membership.user_id ≡ user_id
  pub is_team : membership.team_id ≡ team_id

-- A permission of one of the user's teams on a thing.
pub record Holds (t : Tables) (user_id : ℕ) (scope : PermissionScope) (scope_id : ℕ)
    (level : PermissionLevel) : Type 0 where
  pub permission : TeamPermission
  pub listed : Memᴰ permission t.permissions
  pub member : IsMember t user_id permission.team_id
  pub same : same_scope permission.scope scope ≡ true
  pub on_thing : permission.scope_id ≡ scope_id
  pub has_level : permission.level ≡ level

-- A permission of one of the user's teams on the group or one above it.
pub record HoldsAbove (t : Tables) (user_id group_id : ℕ) (level : PermissionLevel) : Type 0 where
  pub link : Link
  pub listed : Memᴰ link t.hierarchy.closure
  pub below : link.descendant_id ≡ group_id
  pub holds : Holds t user_id group link.ancestor_id level

pub is_some-highest_level :
    (l : PermissionLevel) (ls : List PermissionLevel)
    → Memᴰ l ls
    → is_some (highest_level ls) ≡ true
unfolding highest_level
is_some-highest_level l [] m = elim m [ ]
is_some-highest_level l (k ∷ ls) m = refl

pub highest_level-member :
    (ls : List PermissionLevel)
    → is_some (highest_level ls) ≡ true
    → (l : PermissionLevel) × Memᴰ l ls
unfolding highest_level
highest_level-member [] h = absurd (ground (arith, h))
highest_level-member (k ∷ ls) h = (k, Memᴰ.head refl)

pub has_rw-highest_level : (ls : List PermissionLevel) → has_rw (highest_level ls) ≡ any is_rw ls
unfolding highest_level any
has_rw-highest_level [] = refl
has_rw-highest_level (k ∷ ls) = ground arith

rw_mem : (ls : List PermissionLevel) → any is_rw ls ≡ true → Memᴰ rw_ ls
rw_mem ls h = let (l, m, t) = any→mem is_rw ls h in go l m t
  where
    go : (l : PermissionLevel) → Memᴰ l ls → is_rw l ≡ true → Memᴰ rw_ ls
    go rw_ m t = m
    go ro m t = absurd (ground (arith, t))

module _ (t : Tables) (user_id : ℕ) where
  pub member→elem :
      (team_id : ℕ) → IsMember t user_id team_id → elem team_id (get_user_team_ids user_id t) ≡ true
  unfolding get_user_team_ids
  member→elem team_id m =
      subst
        (λ i.
          elem i (map (λ m. m.team_id) (where_ (λ m. m.user_id == user_id) t.memberships)) ≡ true)
        m.is_team
        (mem→column (λ m. m.team_id) (λ m. m.user_id == user_id) m.membership m.listed
          ((==_iff _ _).1 m.is_user))

  pub elem→member :
      (team_id : ℕ) → elem team_id (get_user_team_ids user_id t) ≡ true → IsMember t user_id team_id
  unfolding get_user_team_ids
  elem→member team_id h =
      let (m, l, u, e) =
        column→mem (λ m. m.team_id) (λ m. m.user_id == user_id) team_id t.memberships h in
      record { membership = m; listed = l; is_user = (==_iff _ _).0 u; is_team = sym e }

  -- The levels that `_getHighestPermission` selects are those that the user holds.
  pub direct_levels : PermissionScope → ℕ → List PermissionLevel
  direct_levels scope scope_id =
      map (λ r. r.0.level)
        (where_
          (λ r. r.1.user_id == user_id && (same_scope r.0.scope scope && r.0.scope_id == scope_id))
          (team_rows t))

  level→holds :
      (scope : PermissionScope) (i : ℕ) (level : PermissionLevel)
      → Memᴰ level (direct_levels scope i)
      → Holds t user_id scope i level
  unfolding direct_levels
  level→holds scope i level m =
      let (r, n, e) = Memᴰ.of_map (λ r. r.0.level) _ m in
      let (k, c) =
        where_→mem
          (λ r. r.1.user_id == user_id && (same_scope r.0.scope scope && r.0.scope_id == i)) r
          (team_rows t) n in
      let (p, q, o) = join→mem (λ p m. p.team_id == m.team_id) r t.permissions t.memberships k in
      record {
        permission = r.0;
        listed = p;
        member = record {
          membership = r.1;
          listed = q;
          is_user = (==_iff _ _).0 (ground (arith, c));
          is_team = sym ((==_iff _ _).0 o);
        };
        same = ground (arith, c);
        on_thing = (==_iff _ _).0 (ground (arith, c));
        has_level = e;
      }

  holds→level :
      (scope : PermissionScope) (i : ℕ) (level : PermissionLevel)
      → Holds t user_id scope i level
      → Memᴰ level (direct_levels scope i)
  unfolding direct_levels
  holds→level scope i level h =
      subst (λ l. Memᴰ l (direct_levels scope i)) h.has_level
        (Memᴰ.map (λ r. r.0.level)
          (mem→where_
            (λ r. r.1.user_id == user_id && (same_scope r.0.scope scope && r.0.scope_id == i))
            (h.permission, h.member.membership)
            (mem→join (λ p m. p.team_id == m.team_id) h.permission h.member.membership h.listed
              h.member.listed ((==_iff _ _).1 (sym h.member.is_team)))
            (rw ((==_iff _ _).1 h.member.is_user, h.same, (==_iff _ _).1 h.on_thing) refl)))

  -- The levels that `_getGroupPermissionViaClosure` selects.
  pub above_levels : ℕ → List PermissionLevel
  above_levels group_id =
      map (λ r. r.0.0.level)
        (where_
          (λ r.
            r.0.1.user_id == user_id
            && (same_scope r.0.0.scope group && r.1.descendant_id == group_id))
          (join (λ pm l. l.ancestor_id == pm.0.scope_id) (team_rows t) t.hierarchy.closure))

  level→above :
      (g : ℕ) (level : PermissionLevel) → Memᴰ level (above_levels g) → HoldsAbove t user_id g level
  unfolding above_levels
  level→above g level m =
      let (r, n, e) = Memᴰ.of_map (λ r. r.0.0.level) _ m in
      let (k, c) =
        where_→mem
          (λ r.
            r.0.1.user_id == user_id && (same_scope r.0.0.scope group && r.1.descendant_id == g))
          r _ n in
      let (pm, l, on) =
        join→mem (λ pm l. l.ancestor_id == pm.0.scope_id) r (team_rows t) t.hierarchy.closure k in
      let (p, q, o) = join→mem (λ p m. p.team_id == m.team_id) r.0 t.permissions t.memberships pm in
      record {
        link = r.1;
        listed = l;
        below = (==_iff _ _).0 (ground (arith, c));
        holds = record {
          permission = r.0.0;
          listed = p;
          member = record {
            membership = r.0.1;
            listed = q;
            is_user = (==_iff _ _).0 (ground (arith, c));
            is_team = sym ((==_iff _ _).0 o);
          };
          same = ground (arith, c);
          on_thing = sym ((==_iff _ _).0 on);
          has_level = e;
        };
      }

  above→level :
      (g : ℕ) (level : PermissionLevel) → HoldsAbove t user_id g level → Memᴰ level (above_levels g)
  unfolding above_levels
  above→level g level a =
      let h = a.holds in
      subst (λ l. Memᴰ l (above_levels g)) h.has_level
        (Memᴰ.map (λ r. r.0.0.level)
          (mem→where_
            (λ r.
              r.0.1.user_id == user_id && (same_scope r.0.0.scope group && r.1.descendant_id == g))
            ((h.permission, h.member.membership), a.link)
            (mem→join (λ pm l. l.ancestor_id == pm.0.scope_id) (h.permission, h.member.membership)
              a.link
              (mem→join (λ p m. p.team_id == m.team_id) h.permission h.member.membership h.listed
                h.member.listed ((==_iff _ _).1 (sym h.member.is_team)))
              a.listed ((==_iff _ _).1 (sym h.on_thing)))
            (rw ((==_iff _ _).1 h.member.is_user, h.same, (==_iff _ _).1 a.below) refl)))

  -- `_getHighestPermission` is not null exactly if a team of the user has a permission on the thing.
  pub get_highest_permission-some :
      (scope : PermissionScope) (i : ℕ)
      → (is_some (get_highest_permission user_id scope i t) ≡ true)
        ↔ ((level : PermissionLevel) × Holds t user_id scope i level)
  unfolding get_highest_permission direct_levels
  get_highest_permission-some scope i = (
    λ h.
        (let (l, m) = highest_level-member (direct_levels scope i) h in
          (l, level→holds scope i l m)),
    λ (l, h). is_some-highest_level l (direct_levels scope i) (holds→level scope i l h),
  )

  -- It is `rw` exactly if one of them is.
  pub get_highest_permission-rw :
      (scope : PermissionScope) (i : ℕ)
      → (has_rw (get_highest_permission user_id scope i t) ≡ true) ↔ Holds t user_id scope i rw_
  unfolding get_highest_permission direct_levels
  get_highest_permission-rw scope i = (
    λ h.
        level→holds scope i rw_
          (rw_mem (direct_levels scope i) (sym (has_rw-highest_level (direct_levels scope i)) ∙ h)),
    λ h.
        has_rw-highest_level (direct_levels scope i)
        ∙ mem→any is_rw rw_ (holds→level scope i rw_ h) refl,
  )

  -- The same of `_getGroupPermissionViaClosure`, for the permissions on a group and those above it.
  pub via_closure-some :
      (g : ℕ)
      → (is_some (get_group_permission_via_closure user_id g t) ≡ true)
        ↔ ((level : PermissionLevel) × HoldsAbove t user_id g level)
  unfolding get_group_permission_via_closure above_levels
  via_closure-some g = (
    λ h. (let (l, m) = highest_level-member (above_levels g) h in (l, level→above g l m)),
    λ (l, h). is_some-highest_level l (above_levels g) (above→level g l h),
  )

  pub via_closure-rw :
      (g : ℕ)
      → (has_rw (get_group_permission_via_closure user_id g t) ≡ true) ↔ HoldsAbove t user_id g rw_
  unfolding get_group_permission_via_closure above_levels
  via_closure-rw g = (
    λ h.
        level→above g rw_
          (rw_mem (above_levels g) (sym (has_rw-highest_level (above_levels g)) ∙ h)),
    λ h. has_rw-highest_level (above_levels g) ∙ mem→any is_rw rw_ (above→level g rw_ h) refl,
  )

-- ===== src/Permission/Summary.antt =====
-- The object of permissions that the client gets, against the queries of the server.
use oblimap.Base.{
  ℕ, ◌≡◌, refl, ◌∙◌, subst, Bool, true, false, ◌&&◌, ◌||◌, Option, none, some, List, [], ◌∷◌, Memᴰ,
  ◌==◌, ==_iff, is_some, where_, any, elem, any→mem, mem→any, where_→mem, mem→where_, Bool-ext,
  arith,
}
use oblimap.Permission.{
  PermissionLevel, PermissionScope, TeamPermission, Tables, same_scope, is_rw, has_rw,
  get_user_team_ids, get_highest_permission,
}
use oblimap.Permission.PermissionLevel.{ro, rw_}
use oblimap.Permission.Lists.{Permissions, raise, collect, get_user_permissions}
use oblimap.Permission.Grants.{
  Holds, member→elem, elem→member, get_highest_permission-some, get_highest_permission-rw,
}

abbrev matches : PermissionScope → ℕ → TeamPermission → Bool
matches scope i p = same_scope p.scope scope && p.scope_id == i

raise-some : (l : PermissionLevel) (o : Option PermissionLevel) → is_some (raise l o) ≡ true
raise-some l none = refl
raise-some l (some k) = ground arith

raise-rw :
    (l : PermissionLevel) (o : Option PermissionLevel) → has_rw (raise l o) ≡ (is_rw l || has_rw o)
raise-rw ro none = refl
raise-rw rw_ none = refl
raise-rw ro (some ro) = refl
raise-rw rw_ (some ro) = refl
raise-rw ro (some rw_) = refl
raise-rw rw_ (some rw_) = refl

collect-some :
    (ps : List TeamPermission) (f : Permissions) (scope : PermissionScope) (i : ℕ)
    → is_some (collect ps f scope i) ≡ (any (matches scope i) ps || is_some (f scope i))
unfolding collect any
collect-some [] f scope i = refl
collect-some (p ∷ ps) f scope i =
    collect-some ps _ scope i ∙ ground (arith, raise-some p.level (f scope i))

collect-rw :
    (ps : List TeamPermission) (f : Permissions) (scope : PermissionScope) (i : ℕ)
    → has_rw (collect ps f scope i)
      ≡ (any (λ p. matches scope i p && is_rw p.level) ps || has_rw (f scope i))
unfolding collect any
collect-rw [] f scope i = refl
collect-rw (p ∷ ps) f scope i =
    collect-rw ps _ scope i ∙ ground (arith, raise-rw p.level (f scope i))

level-ext : (a b : Option PermissionLevel) → is_some a ≡ is_some b → has_rw a ≡ has_rw b → a ≡ b
level-ext none none h k = refl
level-ext none (some l) h k = absurd (ground (arith, h))
level-ext (some l) none h k = absurd (ground (arith, h))
level-ext (some ro) (some ro) h k = refl
level-ext (some ro) (some rw_) h k = absurd (ground (arith, k))
level-ext (some rw_) (some ro) h k = absurd (ground (arith, k))
level-ext (some rw_) (some rw_) h k = refl

module _ (t : Tables) (user_id : ℕ) (scope : PermissionScope) (i : ℕ) where
  own : List TeamPermission
  own = where_ (λ p. elem p.team_id (get_user_team_ids user_id t)) t.permissions

  row→holds :
      (p : TeamPermission) → Memᴰ p own → matches scope i p ≡ true → Holds t user_id scope i p.level
  unfolding own
  row→holds p m c =
      let (l, k) =
        where_→mem (λ p. elem p.team_id (get_user_team_ids user_id t)) p t.permissions m in
      record {
        permission = p;
        listed = l;
        member = elem→member t user_id p.team_id k;
        same = ground (arith, c);
        on_thing = (==_iff _ _).0 (ground (arith, c));
        has_level = refl;
      }

  holds→row :
      (l : PermissionLevel) (h : Holds t user_id scope i l)
      → Memᴰ h.permission own × (matches scope i h.permission ≡ true)
  unfolding own
  holds→row l h = (
    mem→where_ (λ p. elem p.team_id (get_user_team_ids user_id t)) h.permission h.listed
        (member→elem t user_id h.permission.team_id h.member),
    rw (h.same, (==_iff _ _).1 h.on_thing) refl,
  )

  any-own : any (matches scope i) own ≡ is_some (get_highest_permission user_id scope i t)
  any-own =
      Bool-ext _ _
        (λ h.
          let (p, m, c) = any→mem (matches scope i) own h in
          (get_highest_permission-some t user_id scope i).1 (p.level, row→holds p m c))
        (λ h.
          (let (l, k) = (get_highest_permission-some t user_id scope i).0 h in
            let (m, c) = holds→row l k in mem→any (matches scope i) k.permission m c))

  any-own-rw :
      any (λ p. matches scope i p && is_rw p.level) own
      ≡ has_rw (get_highest_permission user_id scope i t)
  any-own-rw =
      Bool-ext _ _
        (λ h.
          let (p, m, c) = any→mem (λ p. matches scope i p && is_rw p.level) own h in
          (get_highest_permission-rw t user_id scope i).1 (
            subst (Holds t user_id scope i) (rw_level p.level (ground (arith, c)))
              (row→holds p m (ground (arith, c)))))
        (λ h.
          (let k = (get_highest_permission-rw t user_id scope i).0 h in
            let (m, c) = holds→row rw_ k in
            mem→any (λ p. matches scope i p && is_rw p.level) k.permission m
              (rw (c, k.has_level) refl)))
    where
      rw_level : (l : PermissionLevel) → is_rw l ≡ true → l ≡ rw_
      rw_level rw_ h = refl
      rw_level ro h = absurd (ground (arith, h))

-- For a user who is no administrator, the object of permissions that the client gets holds under
-- each scope and id what `_getHighestPermission` answers for them.
pub get_user_permissions-highest :
    (t : Tables) (user_id : ℕ) (scope : PermissionScope) (i : ℕ)
    → (get_user_permissions user_id false t).permissions scope i
      ≡ get_highest_permission user_id scope i t
unfolding get_user_permissions own
get_user_permissions-highest t user_id scope i =
    level-ext _ _
      (collect-some (own t user_id scope i) (λ s i. none) scope i
        ∙ ground (arith, any-own t user_id scope i))
      (collect-rw (own t user_id scope i) (λ s i. none) scope i
        ∙ ground (arith, any-own-rw t user_id scope i))

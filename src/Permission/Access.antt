-- ===== src/Permission/Access.antt =====
-- Who may read and write a monitor: `getMonitorPermission` against the grants of the user's teams.
use oblimap.Base.{
  ℕ, ◌≡◌, ◌≢◌, refl, sym, ◌∙◌, ap, subst, ◌↔◌, Bool, true, false, ◌&&◌, ◌||◌, Option, none, some,
  List, [], ◌∷◌, Memᴰ, ◌==◌, ==_iff, is_some, any, first, any→mem, mem→any, arith, Bool-cases, ◌⊎◌,
  inl, inr,
}
use oblimap.Group.{Group}
use oblimap.Permission.{
  PermissionLevel, MonitorRow, Tables, has_rw, highest, is_general_group, get_highest_permission,
  get_group_permission_via_closure, monitor_row_permission, get_monitor_permission,
  found_permission, can_read_monitor, can_write_monitor,
}
use oblimap.Permission.PermissionScope.{monitor}
use oblimap.Permission.PermissionLevel.{ro, rw_}
use oblimap.Permission.Grants.{
  Holds, HoldsAbove, get_highest_permission-some, get_highest_permission-rw, via_closure-some,
  via_closure-rw,
}

-- The group is marked as general.
pub record IsGeneral (t : Tables) (group_id : ℕ) : Type 0 where
  pub row : Group
  pub listed : Memᴰ row t.hierarchy.groups
  pub is_row : row.id ≡ group_id
  pub general : row.is_general ≡ true

-- The ways in which a user may read a monitor that is in the given group.
pub data Reads (t : Tables) (user_id monitor_id : ℕ) (in_group : Option ℕ) : Type 0 where
  in_general : (g : ℕ) → in_group ≡ some g → IsGeneral t g → Reads t user_id monitor_id in_group
  on_monitor :
      (l : PermissionLevel)
      → Holds t user_id monitor monitor_id l
      → Reads t user_id monitor_id in_group
  on_group :
      (g : ℕ) (l : PermissionLevel)
      → in_group ≡ some g
      → HoldsAbove t user_id g l
      → Reads t user_id monitor_id in_group

-- The ways in which a user may write it.
pub data Writes (t : Tables) (user_id monitor_id : ℕ) (in_group : Option ℕ) : Type 0 where
  on_monitor : Holds t user_id monitor monitor_id rw_ → Writes t user_id monitor_id in_group
  on_group :
      (g : ℕ)
      → in_group ≡ some g
      → HoldsAbove t user_id g rw_
      → Writes t user_id monitor_id in_group

is_some-first {ℓ} :
    {A : Type ℓ} (test : A → Bool) (xs : List A) → is_some (first test xs) ≡ any test xs
unfolding first any
is_some-first test [] = refl
is_some-first test (x ∷ xs) = ground (arith, is_some-first test xs)

pub is_general_group_iff : (g : ℕ) (t : Tables) → (is_general_group g t ≡ true) ↔ IsGeneral t g
unfolding is_general_group
is_general_group_iff g t = (
  λ h.
      (let (row, m, c) =
          any→mem (λ r. r.id == g && r.is_general) t.hierarchy.groups
            (sym (is_some-first _ t.hierarchy.groups) ∙ h) in
        record {
          row = row;
          listed = m;
          is_row = (==_iff _ _).0 (ground (arith, c));
          general = ground (arith, c);
        }),
  λ i.
      is_some-first (λ r. r.id == g && r.is_general) t.hierarchy.groups
      ∙ mem→any (λ r. r.id == g && r.is_general) i.row i.listed
          (rw ((==_iff _ _).1 i.is_row, i.general) refl),
)

highest-read : (a b : Option PermissionLevel) → is_some (highest a b) ≡ (is_some a || is_some b)
unfolding highest
highest-read none none = refl
highest-read none (some ro) = refl
highest-read none (some rw_) = refl
highest-read (some ro) none = refl
highest-read (some rw_) none = refl
highest-read (some ro) (some ro) = refl
highest-read (some ro) (some rw_) = refl
highest-read (some rw_) (some k) = refl

highest-write : (a b : Option PermissionLevel) → has_rw (highest a b) ≡ (has_rw a || has_rw b)
unfolding highest
highest-write none none = refl
highest-write none (some ro) = refl
highest-write none (some rw_) = refl
highest-write (some ro) none = refl
highest-write (some rw_) none = refl
highest-write (some ro) (some ro) = refl
highest-write (some ro) (some rw_) = refl
highest-write (some rw_) (some k) = refl

pub not_zero : (g : ℕ) → some g ≢ some 0 → (g == 0) ≡ false
not_zero g p = elim (Bool-cases (g == 0)) [
  | inl e ↦ absurd (p (ap some ((==_iff g 0).0 e)))
  | inr e ↦ e
]

pub some_inj : {m n : ℕ} → some m ≡ some n → m ≡ n
some_inj e = ground (arith, e)

module _ (t : Tables) (user_id monitor_id : ℕ) where
  row_read :
      (g : ℕ)
      → (g == 0) ≡ false
      → is_some (monitor_row_permission user_id monitor_id (some g) t) ≡ (
          is_general_group g t
          || is_some (get_highest_permission user_id monitor monitor_id t)
          || is_some (get_group_permission_via_closure user_id g t))
  unfolding monitor_row_permission
  row_read g p = ground (
    arith,
    p,
    highest-read (get_highest_permission user_id monitor monitor_id t)
        (get_group_permission_via_closure user_id g t),
  )

  row_write :
      (g : ℕ)
      → (g == 0) ≡ false
      → has_rw (monitor_row_permission user_id monitor_id (some g) t) ≡ (
          has_rw (get_highest_permission user_id monitor monitor_id t)
          || has_rw (get_group_permission_via_closure user_id g t))
  unfolding monitor_row_permission
  row_write g p = ground (
    arith,
    p,
    highest-write (get_highest_permission user_id monitor monitor_id t)
        (get_group_permission_via_closure user_id g t),
  )

  or_cases : (a b c : Bool) → (a || b || c) ≡ true → (a ≡ true) ⊎ (b ≡ true) ⊎ (c ≡ true)
  or_cases true b c h = inl refl
  or_cases false true c h = inr (inl refl)
  or_cases false false c h = inr (inr h)

  pub row_permission-Reads :
      (in_group : Option ℕ)
      → in_group ≢ some 0
      → (is_some (monitor_row_permission user_id monitor_id in_group t) ≡ true)
        ↔ Reads t user_id monitor_id in_group
  unfolding monitor_row_permission
  row_permission-Reads none p = (
    λ h.
        (let (l, d) = (get_highest_permission-some t user_id monitor monitor_id).0 (
            ground (
              arith,
              h,
              highest-read (get_highest_permission user_id monitor monitor_id t) none,
            )) in
          Reads.on_monitor l d),
    λ r. highest-read _ none ∙ none_direct r,
  )
    where
      none_direct :
          Reads t user_id monitor_id none
          → (is_some (get_highest_permission user_id monitor monitor_id t) || false) ≡ true
      none_direct (Reads.in_general g e i) = absurd (ground (arith, e))
      none_direct (Reads.on_monitor l d) =
          rw ((get_highest_permission-some t user_id monitor monitor_id).1 (l, d)) refl
      none_direct (Reads.on_group g l e a) = absurd (ground (arith, e))
  row_permission-Reads (some g) p = (
    λ h. split (or_cases _ _ _ (sym (row_read g (not_zero g p)) ∙ h)),
    λ r. row_read g (not_zero g p) ∙ back r,
  )
    where
      split :
          (is_general_group g t ≡ true)
            ⊎ (is_some (get_highest_permission user_id monitor monitor_id t) ≡ true)
            ⊎ (is_some (get_group_permission_via_closure user_id g t) ≡ true)
          → Reads t user_id monitor_id (some g)
      split (inl i) = Reads.in_general g refl ((is_general_group_iff g t).0 i)
      split (inr (inl d)) =
          let (l, k) = (get_highest_permission-some t user_id monitor monitor_id).0 d in
          Reads.on_monitor l k
      split (inr (inr a)) =
          let (l, k) = (via_closure-some t user_id g).0 a in Reads.on_group g l refl k

      back :
          Reads t user_id monitor_id (some g)
          → (is_general_group g t
              || is_some (get_highest_permission user_id monitor monitor_id t)
              || is_some (get_group_permission_via_closure user_id g t))
            ≡ true
      back (Reads.in_general j e i) =
          rw ((is_general_group_iff g t).1 (subst (IsGeneral t) (sym (some_inj e)) i)) refl
      back (Reads.on_monitor l d) =
          ground (arith, (get_highest_permission-some t user_id monitor monitor_id).1 (l, d))
      back (Reads.on_group j l e a) = ground (
        arith,
        (via_closure-some t user_id g).1
            (l, subst (λ i. HoldsAbove t user_id i l) (sym (some_inj e)) a),
      )

  pub row_permission-Writes :
      (in_group : Option ℕ)
      → in_group ≢ some 0
      → (has_rw (monitor_row_permission user_id monitor_id in_group t) ≡ true)
        ↔ Writes t user_id monitor_id in_group
  unfolding monitor_row_permission
  row_permission-Writes none p = (
    λ h. Writes.on_monitor (
        (get_highest_permission-rw t user_id monitor monitor_id).0 (
          ground
            (arith, h, highest-write (get_highest_permission user_id monitor monitor_id t) none))),
    λ r. highest-write _ none ∙ none_direct r,
  )
    where
      none_direct :
          Writes t user_id monitor_id none
          → (has_rw (get_highest_permission user_id monitor monitor_id t) || false) ≡ true
      none_direct (Writes.on_monitor d) =
          rw ((get_highest_permission-rw t user_id monitor monitor_id).1 d) refl
      none_direct (Writes.on_group g e a) = absurd (ground (arith, e))
  row_permission-Writes (some g) p = (
    λ h. split (or_cases _ _ false (ground (arith, sym (row_write g (not_zero g p)) ∙ h))),
    λ r. row_write g (not_zero g p) ∙ back r,
  )
    where
      split :
          (has_rw (get_highest_permission user_id monitor monitor_id t) ≡ true)
            ⊎ (has_rw (get_group_permission_via_closure user_id g t) ≡ true)
            ⊎ (false ≡ true)
          → Writes t user_id monitor_id (some g)
      split (inl d) =
          Writes.on_monitor ((get_highest_permission-rw t user_id monitor monitor_id).0 d)
      split (inr (inl a)) = Writes.on_group g refl ((via_closure-rw t user_id g).0 a)
      split (inr (inr f)) = absurd (ground (arith, f))

      back :
          Writes t user_id monitor_id (some g)
          → (has_rw (get_highest_permission user_id monitor monitor_id t)
              || has_rw (get_group_permission_via_closure user_id g t))
            ≡ true
      back (Writes.on_monitor d) =
          rw ((get_highest_permission-rw t user_id monitor monitor_id).1 d) refl
      back (Writes.on_group j e a) = ground (
        arith,
        (via_closure-rw t user_id g).1
            (subst (λ i. HoldsAbove t user_id i rw_) (sym (some_inj e)) a),
      )

-- A user who is no administrator may read a monitor exactly if its group is general, or a team of
-- the user has a permission on the monitor, on its group or on a group above that one. The monitor
-- is the row found under its id, and is not in a group 0.
pub can_read_monitor-Reads :
    (t : Tables) (user_id : ℕ) (x : MonitorRow)
    → first (λ y. y.id == x.id) t.monitors ≡ some x
    → x.group_id ≢ some 0
    → (can_read_monitor user_id x.id false t ≡ true) ↔ Reads t user_id x.id x.group_id
unfolding can_read_monitor get_monitor_permission found_permission
can_read_monitor-Reads t user_id x found p =
    subst
      (λ o. (is_some (found_permission user_id x.id o t) ≡ true) ↔ Reads t user_id x.id x.group_id)
      (sym found) (row_permission-Reads t user_id x.id x.group_id p)

-- A user who is no administrator may write a monitor exactly if a team of the user has a
-- permission of the level `rw` on the monitor, on its group or on a group above that one. The
-- monitor is the row found under its id, and is not in a group 0.
pub can_write_monitor-Writes :
    (t : Tables) (user_id : ℕ) (x : MonitorRow)
    → first (λ y. y.id == x.id) t.monitors ≡ some x
    → x.group_id ≢ some 0
    → (can_write_monitor user_id x.id false t ≡ true) ↔ Writes t user_id x.id x.group_id
unfolding can_write_monitor get_monitor_permission found_permission
can_write_monitor-Writes t user_id x found p =
    subst
      (λ o. (has_rw (found_permission user_id x.id o t) ≡ true) ↔ Writes t user_id x.id x.group_id)
      (sym found) (row_permission-Writes t user_id x.id x.group_id p)

-- ===== src/Notification/Agent/Nearest.antt =====
-- Where a device's notification types come from, in terms of the rows of `group_closure`.
use mathlib.Core.List.Memᴰ
use oblimap.Base.{
  ℕ, ◌≡◌, refl, sym, ◌∙◌, ap, inl, inr, ◌⊎◌, ◌≤◌, Bool, false, Option, none, some, List, [], ◌∷◌,
  Memᴰ, arith, Bool-cases, map, where_→mem, mem→where_, ◌==◌, ==_iff, or_else, where_, order_by,
  order→mem, mem→order, order_by-IsAscending, IsAscending, least→le,
}
use oblimap.Group.{Link, Hierarchy}
use oblimap.Notification.Agent.{
  NotificationTypeConfig, NotificationTypes, Device, keep, first_set, nearest_ids,
  resolve_notification_types_for_device, resolve_notification_types_for_device-first,
}

-- A row of the closure table that puts the group (or one above) over a device of group `g`; null and 0 are no group.
pub record IsOver (h : Hierarchy) (g : Option ℕ) (link : Link) : Type 0 where
  pub listed : Memᴰ link h.closure
  pub below : g ≡ some link.descendant_id
  pub real : (link.descendant_id == 0) ≡ false

-- The rows that `nearest_ids` goes through.
over_links : ℕ → Hierarchy → List Link
over_links g h = order_by (λ l. l.depth) (where_ (λ l. l.descendant_id == g) h.closure)

link→over :
    (h : Hierarchy) (g : ℕ) (l : Link)
    → (g == 0) ≡ false
    → Memᴰ l (over_links g h)
    → IsOver h (some g) l
unfolding over_links
link→over h g l real m =
    let (n, t) = where_→mem (λ l. l.descendant_id == g) l _ (order→mem (λ l. l.depth) l _ m) in
    record { listed = n; below = ap some (sym ((==_iff _ _).0 t)); real = ground (arith, t, real) }

over→link : (h : Hierarchy) (g : ℕ) (l : Link) → IsOver h (some g) l → Memᴰ l (over_links g h)
unfolding over_links
over→link h g l i =
    mem→order (λ l. l.depth) l _
      (mem→where_ (λ l. l.descendant_id == g) l i.listed (ground (arith, i.below)))

ascending : (g : ℕ) (h : Hierarchy) → IsAscending (λ l. l.depth) (over_links g h)
unfolding over_links
ascending g h = order_by-IsAscending (λ l. l.depth) _

module _ (field : NotificationTypeConfig → Option Bool)
    (group_types : ℕ → Option NotificationTypeConfig) where
  -- What a configuration sets the field to.
  abbrev pub set_by : Option NotificationTypeConfig → Option Bool
  set_by none = none
  set_by (some c) = field c

  -- The value of the field for a device with its own configuration, in a group, and with a default.
  pub data Takes (own : Option NotificationTypeConfig) (h : Hierarchy) (g : Option ℕ)
      (default : Bool) : Bool → Type 0 where
    by_device : (b : Bool) → set_by own ≡ some b → Takes own h g default b
    by_group :
        (b : Bool) (l : Link)
        → set_by own ≡ none
        → IsOver h g l
        → set_by (group_types l.ancestor_id) ≡ some b
        → ((k : Link) (c : Bool)
            → IsOver h g k
            → set_by (group_types k.ancestor_id) ≡ some c
            → l.depth ≤ k.depth)
        → Takes own h g default b
    by_default :
        set_by own ≡ none
        → ((k : Link) → IsOver h g k → set_by (group_types k.ancestor_id) ≡ none)
        → Takes own h g default default

  first_set-cons :
      (o : Option NotificationTypeConfig) (cs : List (Option NotificationTypeConfig))
      → first_set field (o ∷ cs) ≡ keep (set_by o) (first_set field cs)
  unfolding first_set
  first_set-cons none cs = refl
  first_set-cons (some c) cs = refl

  types_of : List Link → List (Option NotificationTypeConfig)
  types_of ls = map group_types (map (λ l. l.ancestor_id) ls)

  -- Of rows in ascending order, the first whose group sets the field is a nearest one.
  IsFirst : List Link → Type 0
  IsFirst ls =
      ((l : Link) × Memᴰ l ls
        × ((b : Bool) × (set_by (group_types l.ancestor_id) ≡ some b)
            × (first_set field (types_of ls) ≡ some b))
        × ((k : Link) (c : Bool)
            → Memᴰ k ls
            → set_by (group_types k.ancestor_id) ≡ some c
            → l.depth ≤ k.depth))
      ⊎ (((k : Link) → Memᴰ k ls → set_by (group_types k.ancestor_id) ≡ none)
          × (first_set field (types_of ls) ≡ none))

  head-IsFirst :
      (l : Link) (ls : List Link) (o : Option Bool)
      → set_by (group_types l.ancestor_id) ≡ o
      → IsAscending (λ l. l.depth) (l ∷ ls)
      → IsFirst ls
      → IsFirst (l ∷ ls)
  unfolding IsFirst types_of
  head-IsFirst l ls (some b) h s r = inl (
    l,
    Memᴰ.head refl,
    (b, h, first_set-cons (group_types l.ancestor_id) (types_of ls) ∙ rw h refl),
    λ k c m e. elim (Memᴰ.cases_cons m) [
      | inl q ↦ rw q (omega arith)
      | inr n ↦ least→le (λ l. l.depth) l.depth k n s.0
    ],
  )
  head-IsFirst l ls none h s (inl (x, m, (b, e, f), least)) = inl (
    x,
    Memᴰ.tail m,
    (b, e, first_set-cons (group_types l.ancestor_id) (types_of ls) ∙ rw h f),
    λ k c n q. elim (Memᴰ.cases_cons n) [
      | inl i ↦ absurd (ground (arith, h, rw i at q))
      | inr i ↦ least k c i q
    ],
  )
  head-IsFirst l ls none h s (inr (nobody, f)) = inr (
    λ k n. elim (Memᴰ.cases_cons n) [ inl q ↦ rw q h | inr i ↦ nobody k i ],
    first_set-cons (group_types l.ancestor_id) (types_of ls) ∙ rw h f,
  )

  links-IsFirst : (ls : List Link) → IsAscending (λ l. l.depth) ls → IsFirst ls
  unfolding IsFirst types_of first_set
  links-IsFirst [] s = inr (λ k n. elim n [ ], refl)
  links-IsFirst (l ∷ ls) s = head-IsFirst l ls _ refl s (links-IsFirst ls s.1)

  -- Without an own setting, and with no group.
  alone-Takes :
      (own : Option NotificationTypeConfig) (h : Hierarchy) (g : Option ℕ) (default : Bool)
      → set_by own ≡ none
      → ((k : Link) → ¬ IsOver h g k)
      → Takes own h g default default
  alone-Takes own h g default e nobody = by_default e (λ k i. absurd (nobody k i))

  groups-Takes :
      (own : Option NotificationTypeConfig) (h : Hierarchy) (g : Option ℕ) (default : Bool)
      → set_by own ≡ none
      → Takes own h g default
          (or_else (first_set field (map group_types (nearest_ids g h))) default)
  unfolding nearest_ids first_set IsFirst types_of over_links
  groups-Takes own h none default e =
      alone-Takes own h none default e (λ k i. ground (arith, i.below))
  groups-Takes own h (some g) default e = elim (Bool-cases (g == 0)) [
    | inl zero_ ↦
        rw zero_
          (alone-Takes own h (some g) default e (λ k i. ground (arith, i.below, i.real, zero_)))
    | inr real ↦ rw real (elim (links-IsFirst (over_links g h) (ascending g h)) [
      | inl (l, m, (b, q, f), least) ↦
          rw f
            (by_group b l e (link→over h g l real m) q (λ k c i p. least k c (over→link h g k i) p))
      | inr (nobody, f) ↦ rw f (by_default e (λ k i. nobody k (over→link h g k i)))
    ])
  ]

  chain-Takes :
      (own : Option NotificationTypeConfig) (h : Hierarchy) (g : Option ℕ) (default : Bool)
      (o : Option Bool)
      → set_by own ≡ o
      → Takes own h g default
          (or_else (first_set field (own ∷ map group_types (nearest_ids g h))) default)
  chain-Takes own h g default none e =
      rw (first_set-cons own (map group_types (nearest_ids g h)), e)
        (groups-Takes own h g default e)
  chain-Takes own h g default (some b) e =
      rw (first_set-cons own (map group_types (nearest_ids g h)), e) (by_device b e)

-- Each field of a device's types is what the device's own configuration sets it to; else what a group sets it
-- to that is the device's or above it in the closure table, where no such group that sets the field is nearer; and
-- the default of the application if neither the device nor any such group sets it. A group_id of null or 0 is no group.
pub resolve_notification_types_for_device-Takes :
    (device : Device) (h : Hierarchy) (group_types : ℕ → Option NotificationTypeConfig)
    (defaults : NotificationTypes)
    → let types = resolve_notification_types_for_device device h group_types defaults in
      let own = device.notification_types in
      let g = device.group_id in
      Takes (λ c. c.global) group_types own h g defaults.global types.global
      × Takes (λ c. c.down) group_types own h g defaults.down types.down
      × Takes (λ c. c.up) group_types own h g defaults.up types.up
      × Takes (λ c. c.alert) group_types own h g defaults.alert types.alert
      × Takes (λ c. c.update) group_types own h g defaults.update types.update
resolve_notification_types_for_device-Takes device h group_types defaults =
    let (global, down, up, alert, update) =
      resolve_notification_types_for_device-first device h group_types defaults in
    let own = device.notification_types in
    let g = device.group_id in
    (
      rw global (chain-Takes (λ c. c.global) group_types own h g defaults.global _ refl),
      rw down (chain-Takes (λ c. c.down) group_types own h g defaults.down _ refl),
      rw up (chain-Takes (λ c. c.up) group_types own h g defaults.up _ refl),
      rw alert (chain-Takes (λ c. c.alert) group_types own h g defaults.alert _ refl),
      rw update (chain-Takes (λ c. c.update) group_types own h g defaults.update _ refl),
    )

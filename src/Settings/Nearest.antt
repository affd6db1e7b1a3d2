-- ===== src/Settings/Nearest.antt =====
-- Which of its overrides a monitor's setting takes, in terms of the rows of `group_closure`.
use mathlib.Core.List.Memᴰ
use mathlib.Core.List.{reverse_aux}
use oblimap.Base.{
  ℕ, ◌≡◌, refl, sym, ◌∙◌, ap, subst, inl, inr, ◌⊎◌, ◌≤◌, true, Option, none, some, List, [], ◌∷◌,
  ◌++◌, String, Memᴰ, arith, map, IsDescending, greatest→le,
}
use oblimap.Group.{Group, Link}
use oblimap.Group.Queries.{ancestor_rows}
use oblimap.Group.Queries.Above.{IsAbove, row→above, above→row, ancestor_rows-IsDescending}
use oblimap.Settings.{Json, Scope, settings_keys, get_by_scope}
use oblimap.Settings.Resolve.{Tables, Resolved, Source, resolve_for_monitor}
use oblimap.Settings.Chain.{
  listed, Level, decided, entry, default_entry, global_level, group_level, group_levels,
  monitor_level,
}
use oblimap.Settings.Decided.{resolve_for_monitor-decided}

reverse_aux-last {ℓ} :
    {A : Type ℓ} (xs : List A) (x : A) (done : List A)
    → reverse_aux (xs ++ x ∷ []) done ≡ x ∷ reverse_aux xs done
reverse_aux-last [] x done = refl
reverse_aux-last (y ∷ xs) x done = reverse_aux-last xs x (y ∷ done)

module _ (J : Json) where
  open J use {Value}

  abbrev pub monitor_override : Tables → ℕ → String → Option Value
  monitor_override t m k = get_by_scope J t.settings Scope.monitor (some m) k

  abbrev pub group_override : Tables → Group → String → Option Value
  group_override t a k = get_by_scope J t.settings Scope.group (some a.id) k

  abbrev pub global_override : Tables → String → Option Value
  global_override t k = get_by_scope J t.settings Scope.global none k

  abbrev pub labelled : Value → Source → Option ℕ → String → Resolved J
  labelled v source id name = record {
    value = some v;
    source = source;
    source_id = id;
    source_name = name;
  }

  -- No group of the monitor overrides the key.
  abbrev pub NoGroup : Tables → Option ℕ → String → Type 0
  NoGroup t g k = (a : Group) (d : ℕ) → IsAbove t.hierarchy g a d → group_override t a k ≡ none

  -- The value of a key for a monitor in a group, with its label.
  pub data Decides (t : Tables) (m : ℕ) (g : Option ℕ) (k : String) : Resolved J → Type 0 where
    own :
        (v : Value)
        → monitor_override t m k ≡ some v
        → Decides t m g k (labelled v Source.monitor (some m) "This monitor")
    by_group :
        (v : Value) (a : Group) (d : ℕ)
        → monitor_override t m k ≡ none
        → IsAbove t.hierarchy g a d
        → group_override t a k ≡ some v
        → ((b : Group) (e : ℕ) (w : Value)
            → IsAbove t.hierarchy g b e
            → group_override t b k ≡ some w
            → d ≤ e)
        → Decides t m g k (labelled v Source.group (some a.id) a.name)
    by_global :
        (v : Value)
        → monitor_override t m k ≡ none
        → NoGroup t g k
        → global_override t k ≡ some v
        → Decides t m g k (labelled v Source.global none "Global")
    by_default :
        monitor_override t m k ≡ none
        → NoGroup t g k
        → global_override t k ≡ none
        → Decides t m g k (default_entry J k)

  decided-cons :
      (l : Level J) (ls : List (Level J)) (k : String) (o : Option Value)
      → l.overrides k ≡ o
      → decided J (l ∷ ls) k ≡ elim o [ none ↦ decided J ls k | some v ↦ entry J l v ]
  unfolding decided
  decided-cons l ls k o h = ap (λ o. elim o [ none ↦ decided J ls k | some v ↦ entry J l v ]) h

  -- Of rows from the root down, the last one that overrides the key decides it, and no overriding row is nearer.
  IsLast : Tables → String → List (Link × Group) → List (Level J) → Type 0
  IsLast t k rows done =
      ((r : Link × Group) × Memᴰ r rows
        × ((v : Value) × (group_override t r.1 k ≡ some v)
            × (decided J (reverse_aux (map (group_level J t.settings) rows) done) k
                ≡ labelled v Source.group (some r.1.id) r.1.name))
        × ((s : Link × Group) (w : Value)
            → Memᴰ s rows
            → group_override t s.1 k ≡ some w
            → r.0.depth ≤ s.0.depth))
      ⊎ (((r : Link × Group) → Memᴰ r rows → group_override t r.1 k ≡ none)
          × (decided J (reverse_aux (map (group_level J t.settings) rows) done) k
              ≡ decided J done k))

  head-IsLast :
      (t : Tables) (k : String) (r : Link × Group) (rows : List (Link × Group))
      (done : List (Level J)) (o : Option Value)
      → group_override t r.1 k ≡ o
      → IsDescending (λ r. r.0.depth) (r ∷ rows)
      → IsLast t k rows (group_level J t.settings r ∷ done)
      → IsLast t k (r ∷ rows) done
  unfolding IsLast decided group_level
  head-IsLast t k r rows done o h s (inl (x, m, held, least)) = inl (
    x,
    Memᴰ.tail m,
    held,
    λ y w n q. elim (Memᴰ.cases_cons n) [
      | inl e ↦ rw e (greatest→le (λ r. r.0.depth) r.0.depth x m s.0)
      | inr i ↦ least y w i q
    ],
  )
  head-IsLast t k r rows done none h s (inr (nobody, e)) = inr (
    λ y n. elim (Memᴰ.cases_cons n) [ inl q ↦ rw q h | inr i ↦ nobody y i ],
    e ∙ decided-cons (group_level J t.settings r) done k none h,
  )
  head-IsLast t k r rows done (some v) h s (inr (nobody, e)) = inl (
    r,
    Memᴰ.head refl,
    (v, h, e ∙ decided-cons (group_level J t.settings r) done k (some v) h),
    λ y w n q. elim (Memᴰ.cases_cons n) [
      | inl i ↦ rw i (omega arith)
      | inr i ↦ absurd (ground (arith, nobody y i, q))
    ],
  )

  rows-IsLast :
      (t : Tables) (k : String) (rows : List (Link × Group)) (done : List (Level J))
      → IsDescending (λ r. r.0.depth) rows
      → IsLast t k rows done
  unfolding IsLast
  rows-IsLast t k [] done s = inr (λ r n. elim n [ ], refl)
  rows-IsLast t k (r ∷ rows) done s =
      head-IsLast t k r rows done _ refl s
        (rows-IsLast t k rows (group_level J t.settings r ∷ done) s.1)

  from_global :
      (t : Tables) (m : ℕ) (g : Option ℕ) (k : String) (o : Option Value)
      → global_override t k ≡ o
      → monitor_override t m k ≡ none
      → NoGroup t g k
      → Decides t m g k (decided J (global_level J t.settings ∷ []) k)
  unfolding decided global_level
  from_global t m g k none h alone nobody =
      subst (Decides t m g k) (sym (decided-cons (global_level J t.settings) [] k none h))
        (by_default alone nobody h)
  from_global t m g k (some v) h alone nobody =
      subst (Decides t m g k) (sym (decided-cons (global_level J t.settings) [] k (some v) h))
        (by_global v alone nobody h)

  from_groups :
      (t : Tables) (m : ℕ) (g : Option ℕ) (k : String)
      → monitor_override t m k ≡ none
      → Decides t m g k
          (decided J (reverse_aux (group_levels J t g) (global_level J t.settings ∷ [])) k)
  unfolding group_levels IsLast
  from_groups t m none k alone =
      from_global t m none k _ refl alone (λ a d i. absurd (ground (arith, i.below)))
  from_groups t m (some g) k alone =
      let h = t.hierarchy in
      elim (rows-IsLast t k (ancestor_rows g h) (global_level J t.settings ∷ [])
        (ancestor_rows-IsDescending h g)) [
          | inl (r, n, (v, q, e), least) ↦ subst (Decides t m (some g) k) (sym e) (
              by_group v r.1 r.0.depth alone (row→above h g r n) q (λ b d w i p.
                subst (λ z. r.0.depth ≤ z) i.at_depth
                  (least (i.link, b) w (above→row h g b d i) p)))
          | inr (nobody, e) ↦ subst (Decides t m (some g) k) (sym e) (
              from_global t m (some g) k _ refl alone
                (λ a d i. nobody (i.link, a) (above→row h g a d i)))
        ]

  from_monitor :
      (t : Tables) (m : ℕ) (g : Option ℕ) (k : String) (o : Option Value) (ls : List (Level J))
      → monitor_override t m k ≡ o
      → (monitor_override t m k ≡ none → Decides t m g k (decided J ls k))
      → Decides t m g k (decided J (monitor_level J t.settings m "This monitor" ∷ ls) k)
  unfolding decided monitor_level
  from_monitor t m g k none ls h rest =
      subst (Decides t m g k)
        (sym (decided-cons (monitor_level J t.settings m "This monitor") ls k none h)) (rest h)
  from_monitor t m g k (some v) ls h rest =
      subst (Decides t m g k)
        (sym (decided-cons (monitor_level J t.settings m "This monitor") ls k (some v) h)) (own v h)

  -- For a monitor, each listed key gets the monitor's own override; else that of a group which is the
  -- monitor's or above it in the closure table, where no such group that overrides the key is nearer; else, if no
  -- such group overrides it, the global override; and else the default. The entry is labelled with where it is from.
  pub resolve_for_monitor-Decides :
      (t : Tables) (m : ℕ) (g : Option ℕ) (k : String)
      → listed settings_keys k ≡ true
      → (e : Resolved J) × (resolve_for_monitor J t m g k ≡ some e) × Decides t m g k e
  resolve_for_monitor-Decides t m g k h = (
    _,
    resolve_for_monitor-decided J t m g k h,
    subst (λ ls. Decides t m g k (decided J ls k))
        (sym (
          reverse_aux-last (group_levels J t g) (monitor_level J t.settings m "This monitor")
            (global_level J t.settings ∷ [])))
        (from_monitor t m g k _ _ refl (from_groups t m g k)),
  )

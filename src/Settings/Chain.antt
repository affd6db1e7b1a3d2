-- ===== src/Settings/Chain.antt =====
-- The most specific level that overrides a key decides it: the loops of the five resolutions against
-- the chain of levels that the settings service documents.
use text.Mathlib.TextEquality.{eq_iff}
use text.Mathlib.Text.{◌==◌ as str_eq}
use mathlib.Core.List.{reverse, reverse_aux}
use oblimap.Base.{
  ℕ, ◌≡◌, refl, ◌∙◌, inl, inr, Bool, true, false, ◌||◌, Option, none, some, List, [], ◌∷◌, ◌++◌,
  String, if◌then◌else◌, arith, Bool-cases, Option-cases, map,
}
use oblimap.Group.{Group, Link}
use oblimap.Group.Queries.{ancestor_rows}
use oblimap.Settings.{
  Json, Scope, SettingsRow, Object, assign, empty_object, settings_keys, default_value,
  get_by_scope,
}
use oblimap.Settings.Resolve.{
  Source, default, global, group, site, monitor, Tables, Resolved, start_from, apply_overrides,
  apply_groups, apply_chain,
}

-- Is the key one of these?
abbrev pub listed : List String → String → Bool
listed [] k = false
listed (key ∷ keys) k = str_eq key k || listed keys k

module _ (J : Json) where
  -- A level of the hierarchy: its overrides, and how its values are labelled.
  pub record Level : Type 0 where
    pub overrides : Object (J.Value)
    pub source : Source
    pub source_id : Option ℕ
    pub source_name : String

  abbrev pub entry : Level → J.Value → Resolved J
  entry l v = record {
    value = some v;
    source = l.source;
    source_id = l.source_id;
    source_name = l.source_name;
  }

  abbrev pub default_entry : String → Resolved J
  default_entry k = record {
    value = default_value J k;
    source = default;
    source_id = none;
    source_name = "Default";
  }

  -- The entry that the last overriding level of the chain gives, from the last level back.
  unfoldable pub decided : List Level → String → Resolved J
  decided [] k = default_entry k
  decided (l ∷ ls) k = elim (l.overrides k) [ none ↦ decided ls k | some v ↦ entry l v ]

  apply_overrides_lem :
      (keys : List String) (o : Object (J.Value)) (s : Source) (i : Option ℕ) (n : String)
      (r : Object (Resolved J)) (k : String)
      → apply_overrides J keys o s i n r k ≡ (
          if listed keys k
          then elim (o k) [
            | none ↦ r k
            | some v ↦ some (record { value = some v; source = s; source_id = i; source_name = n })
          ]
          else r k)
  unfolding apply_overrides
  apply_overrides_lem [] o s i n r k = refl
  apply_overrides_lem (key ∷ keys) o s i n r k = elim (Bool-cases (str_eq key k)) [
    | inl e ↦ elim (Option-cases (o key)) [
      | inl missing ↦
          ground (arith, missing, apply_overrides_lem keys o s i n r k, (eq_iff key k).0 e)
      | inr (v, found) ↦
          let a : Resolved J = record {
            value = some v;
            source = s;
            source_id = i;
            source_name = n;
          } in
          ground
            (arith, found, apply_overrides_lem keys o s i n (assign key a r) k, (eq_iff key k).0 e)
    ]
    | inr e ↦ elim (Option-cases (o key)) [
      | inl missing ↦ ground (arith, missing, apply_overrides_lem keys o s i n r k)
      | inr (v, found) ↦
          let a : Resolved J = record {
            value = some v;
            source = s;
            source_id = i;
            source_name = n;
          } in
          ground (arith, found, apply_overrides_lem keys o s i n (assign key a r) k)
    ]
  ]

  start_from_lem :
      (keys : List String) (r : Object (Resolved J)) (k : String)
      → start_from J keys r k ≡ (if listed keys k then some (default_entry k) else r k)
  unfolding start_from
  start_from_lem [] r k = refl
  start_from_lem (key ∷ keys) r k =
      ground (arith, start_from_lem keys (assign key (default_entry key) r) k, eq_iff key k)

  -- One more level decides the listed keys that it overrides.
  overlay :
      (keys : List String) (l : Level) (done : List Level) (r : Object (Resolved J)) (k : String)
      → listed keys k ≡ true
      → r k ≡ some (decided done k)
      → apply_overrides J keys l.overrides l.source l.source_id l.source_name r k
        ≡ some (decided (l ∷ done) k)
  unfolding decided
  overlay keys l done r k h e =
      apply_overrides_lem keys l.overrides l.source l.source_id l.source_name r k
      ∙ rw h (elim (Option-cases (l.overrides k)) [
        | inl missing ↦ rw missing e
        | inr (v, found) ↦ rw found refl
      ])

  start_from-decided :
      (keys : List String) (k : String)
      → listed keys k ≡ true
      → start_from J keys empty_object k ≡ some (decided [] k)
  unfolding decided
  start_from-decided keys k h = start_from_lem keys empty_object k ∙ rw h

  -- One level after the other, the least specific first.
  unfoldable pub apply_levels : List Level → Object (Resolved J) → Object (Resolved J)
  apply_levels [] r = r
  apply_levels (l ∷ ls) r =
      apply_levels ls
        (apply_overrides J settings_keys l.overrides l.source l.source_id l.source_name r)

  apply_levels-decided :
      (ls done : List Level) (r : Object (Resolved J)) (k : String)
      → listed settings_keys k ≡ true
      → r k ≡ some (decided done k)
      → apply_levels ls r k ≡ some (decided (reverse_aux ls done) k)
  unfolding apply_levels
  apply_levels-decided [] done r k h e = e
  apply_levels-decided (l ∷ ls) done r k h e =
      apply_levels-decided ls (l ∷ done) _ k h (overlay settings_keys l done r k h e)

  pub apply_levels-append :
      (ls ms : List Level) (r : Object (Resolved J))
      → apply_levels (ls ++ ms) r ≡ apply_levels ms (apply_levels ls r)
  unfolding apply_levels
  apply_levels-append [] ms r = refl
  apply_levels-append (l ∷ ls) ms r = apply_levels-append ls ms _

  -- The levels of the settings hierarchy.
  unfoldable pub global_level : List SettingsRow → Level
  global_level table = record {
    overrides = get_by_scope J table Scope.global none;
    source = global;
    source_id = none;
    source_name = "Global";
  }

  unfoldable pub group_level : List SettingsRow → Link × Group → Level
  group_level table r = record {
    overrides = get_by_scope J table Scope.group (some r.1.id);
    source = group;
    source_id = some r.1.id;
    source_name = r.1.name;
  }

  unfoldable pub site_level : List SettingsRow → ℕ → Level
  site_level table s = record {
    overrides = get_by_scope J table Scope.site (some s);
    source = site;
    source_id = some s;
    source_name = "This site";
  }

  unfoldable pub monitor_level : List SettingsRow → ℕ → String → Level
  monitor_level table m name = record {
    overrides = get_by_scope J table Scope.monitor (some m);
    source = monitor;
    source_id = some m;
    source_name = name;
  }

  -- The groups above, root first; none for a thing that is in no group.
  unfoldable pub group_levels : Tables → Option ℕ → List Level
  group_levels t none = []
  group_levels t (some g) = map (group_level t.settings) (ancestor_rows g t.hierarchy)

  pub apply_groups-levels :
      (table : List SettingsRow) (rows : List (Link × Group)) (r : Object (Resolved J))
      → apply_groups J table rows r ≡ apply_levels (map (group_level table) rows) r
  unfolding apply_groups apply_levels group_level
  apply_groups-levels table [] r = refl
  apply_groups-levels table (x ∷ rows) r = apply_groups-levels table rows _

  pub apply_chain-levels :
      (t : Tables) (g : Option ℕ) (r : Object (Resolved J))
      → apply_chain J t g r ≡ apply_levels (group_levels t g) r
  unfolding apply_chain apply_levels group_levels
  apply_chain-levels t none r = refl
  apply_chain-levels t (some g) r = apply_groups-levels t.settings (ancestor_rows g t.hierarchy) r

  -- Every level of a chain applied to the defaults.
  pub chain-decided :
      (ls : List Level) (k : String)
      → listed settings_keys k ≡ true
      → apply_levels ls (start_from J settings_keys empty_object) k ≡ some (decided (reverse ls) k)
  chain-decided ls k h = apply_levels-decided ls [] _ k h (start_from-decided settings_keys k h)

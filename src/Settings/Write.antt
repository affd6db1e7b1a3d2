-- ===== src/Settings/Write.antt =====
-- `set` and `setBulk` against `getByScope`.
use text.Mathlib.Text.{◌==◌ as str_eq}
use text.Mathlib.TextEquality.{eq_iff}
use oblimap.Base.{
  ℕ, ◌≡◌, refl, ◌∙◌, sym, Bool, true, false, ◌&&◌, not, Option, none, some, List, [], ◌∷◌, ◌++◌,
  String, arith, Bool-cases, Option-cases, inl, inr, subst, where_, update, any, first, ◌==◌, ◌==?◌,
}
use oblimap.Settings.{
  Json, Scope, SettingsRow, Object, assign, empty_object, get_by_scope, read_rows, decode, set,
  stored, conflicts, same_scope, upsert, settings_definitions,
}

module _ (J : Json) (scope : Scope) (i : ℕ) (key : String) (value : String) (tenant_id : ℕ) where
  abbrev row : SettingsRow
  row = record { scope = scope; scope_id = some i; key = key; value = value; tenant_id = tenant_id }

  abbrev selected : SettingsRow → Bool
  selected r = same_scope r.scope scope && r.scope_id ==? some i

  -- A row of another tenant for the same scope, id and key.
  abbrev pub foreign : SettingsRow → Bool
  foreign r = selected r && str_eq r.key key && not (r.tenant_id == tenant_id)

  abbrev Wanted : Object (J.Value) → Type 0
  Wanted o = o key ≡ some (decode J value)

  abbrev updated : List SettingsRow → List SettingsRow
  updated = update (conflicts row) (λ r. record r { value = value })

  read_updated :
      (table : List SettingsRow) (o : Object (J.Value))
      → any foreign table ≡ false
      → Wanted o
      → Wanted (read_rows J (where_ selected (updated table)) o)
  unfolding read_rows where_ update any
  read_updated [] o h w = w
  read_updated (r ∷ table) o h w = elim (Bool-cases (conflicts row r)) [
    | inl hit ↦ ground (
      arith,
      eq_iff key r.key,
      eq_iff r.key key,
      read_updated table (assign r.key (decode J value) o),
    )
    | inr miss ↦ ground (
      arith,
      eq_iff key r.key,
      eq_iff r.key key,
      read_updated table o,
      read_updated table (assign r.key (decode J r.value) o),
    )
  ]

  read_found :
      (table : List SettingsRow) (o : Object (J.Value))
      → any foreign table ≡ false
      → any (conflicts row) table ≡ true
      → Wanted (read_rows J (where_ selected (updated table)) o)
  unfolding read_rows where_ update any
  read_found [] o h w = ground arith
  read_found (r ∷ table) o h w = elim (Bool-cases (conflicts row r)) [
    | inl hit ↦ ground (
      arith,
      eq_iff key r.key,
      eq_iff r.key key,
      read_updated table (assign r.key (decode J value) o),
    )
    | inr miss ↦
        ground (arith, read_found table o, read_found table (assign r.key (decode J r.value) o))
  ]

  read_added :
      (table : List SettingsRow) (o : Object (J.Value))
      → Wanted (read_rows J (where_ selected (table ++ row ∷ [])) o)
  unfolding read_rows where_
  read_added [] o = ground (arith, eq_iff key key)
  read_added (r ∷ table) o =
      ground (arith, read_added table o, read_added table (assign r.key (decode J r.value) o))

  upsert_read :
      (table : List SettingsRow)
      → any foreign table ≡ false
      → Wanted (get_by_scope J (upsert J row table) scope (some i))
  unfolding get_by_scope upsert
  upsert_read table h = elim (Bool-cases (any (conflicts row) table)) [
    | inl old ↦ rw old (read_found table empty_object h old)
    | inr new ↦ rw new (read_added table empty_object)
  ]

module _ (J : Json) (scope : Scope) (key : String) (v : J.Value) (tenant_id : ℕ)
    (table table' : List SettingsRow) where
  abbrev pub new_row : Option ℕ → SettingsRow
  new_row scope_id = record {
    scope = scope;
    scope_id = scope_id;
    key = key;
    value = J.stringify v;
    tenant_id = tenant_id;
  }

  stored-upsert :
      (scope_id : Option ℕ)
      → set J scope scope_id key v tenant_id table ≡ stored table'
      → upsert J (new_row scope_id) table ≡ table'
  unfolding set
  stored-upsert scope_id e =
      elim (Option-cases (first (λ d. str_eq d.key key) settings_definitions)) [
        | inl missing ↦ absurd (ground (arith, missing, e))
        | inr (d, found) ↦ ground (arith, found, e)
      ]

  -- What `set` stores for a scope with an id is what `getByScope` then reads for the key, decoded, as
  -- long as no other tenant has a row for the same scope, id and key.
  pub set-get_by_scope :
      (i : ℕ)
      → set J scope (some i) key v tenant_id table ≡ stored table'
      → any (foreign J scope i key (J.stringify v) tenant_id) table ≡ false
      → get_by_scope J table' scope (some i) key ≡ some (decode J (J.stringify v))
  set-get_by_scope i e alone =
      subst (λ t. get_by_scope J t scope (some i) key ≡ some (decode J (J.stringify v)))
        (stored-upsert (some i) e) (upsert_read J scope i key (J.stringify v) tenant_id table alone)

  none-conflicts : (t : List SettingsRow) → any (conflicts (new_row none)) t ≡ false
  unfolding any
  none-conflicts [] = refl
  none-conflicts (r ∷ t) = ground (arith, none-conflicts t)

  -- In a scope without an id (the global one) `set` never finds the row that it should update: it adds
  -- one more row for the key, whatever the table holds.
  pub set_without_id :
      set J scope none key v tenant_id table ≡ stored table' → table' ≡ table ++ new_row none ∷ []
  unfolding upsert
  set_without_id e = sym (stored-upsert none e) ∙ rw (none-conflicts table)

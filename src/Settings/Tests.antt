-- ===== src/Settings/Tests.antt =====
-- The settings of a small tenant, with a simple model of JSON values.
use Prim.Native.Nat.{◌/◌, ◌%◌}
use Prim.Native.String.{◌++◌ as ◌<>◌}
use oblimap.Base.{
  ℕ, zero, suc, ◌≡◌, refl, Bool, true, false, Option, none, some, List, [], ◌∷◌, ◌++◌, String, ltb,
  any, first, if◌then◌else◌, update,
}
use oblimap.Group.{Group}
use oblimap.Settings.{Json, Scope, SettingsRow, set, get_by_scope, decode, in_range, upsert}
use oblimap.Settings.Resolve.{Tables, Resolved, resolve_for_monitor}
use oblimap.Settings.Nearest.{Decides, resolve_for_monitor-Decides}
use oblimap.Settings.Write.{set-get_by_scope, set_without_id, new_row}

data Value : Type 0 where
  text json : String → Value
  number : ℕ → Value
  boolean : Bool → Value

abbrev nth : List String → ℕ → String
nth [] n = ""
nth (s ∷ ss) zero = s
nth (s ∷ ss) (suc n) = nth ss n

abbrev digit : ℕ → String
digit = nth ("0" ∷ "1" ∷ "2" ∷ "3" ∷ "4" ∷ "5" ∷ "6" ∷ "7" ∷ "8" ∷ "9" ∷ [])

abbrev print : ℕ → ℕ → String
print zero n = ""
print (suc fuel) n = if ltb n 10 then digit n else print fuel (n / 10) <> digit (n % 10)

abbrev stringify : Value → String
stringify (text s) = "\"" <> (s <> "\"")
stringify (json s) = s
stringify (number n) = print 20 n
stringify (boolean true) = "true"
stringify (boolean false) = "false"

abbrev below : Value → ℕ → Bool
below (number m) n = ltb m n
below _ n = false

abbrev above : Value → ℕ → Bool
above (number m) n = ltb n m
above _ n = false

abbrev values : Json
values = record {
  Value = Value;
  text = text;
  number = number;
  boolean = boolean;
  below = below;
  above = above;
  stringify = stringify;
  parse = λ s. some (json s);
}

abbrev setting : Scope → Option ℕ → String → String → SettingsRow
setting scope scope_id key value = record {
  scope = scope;
  scope_id = scope_id;
  key = key;
  value = value;
  tenant_id = 1;
}

abbrev rows : List SettingsRow
rows =
    setting Scope.global none "scanIntervalSeconds" "600"
    ∷ setting Scope.group (some 1) "scanIntervalSeconds" "120"
    ∷ setting Scope.site (some 4) "maxMissedPushes" "5"
    ∷ []

abbrev office : Group
office = record {
  id = 1;
  name = "office";
  slug = "office";
  parent_id = none;
  tenant_id = 1;
  sort_order = 0;
  is_general = false;
  group_notifications = false;
}

abbrev tables : Tables
tables = record {
  settings = rows;
  hierarchy = record {
    groups = office ∷ [];
    closure = record { ancestor_id = 1; descendant_id = 1; depth = 0 } ∷ [];
    next_id = 2;
  };
  sites = record { id = 4; name = "floor"; group_id = some 1; tenant_id = 1 } ∷ [];
}

resolve_for_monitor-Decides_example :
    (e : Resolved values) × (resolve_for_monitor values tables 9 (some 1) "scanIntervalSeconds"
      ≡ some e)
    × Decides values tables 9 (some 1) "scanIntervalSeconds" e
resolve_for_monitor-Decides_example =
    resolve_for_monitor-Decides values tables 9 (some 1) "scanIntervalSeconds" refl

abbrev faster : List SettingsRow
faster =
    setting Scope.global none "scanIntervalSeconds" "600"
    ∷ setting Scope.group (some 1) "scanIntervalSeconds" "90"
    ∷ setting Scope.site (some 4) "maxMissedPushes" "5"
    ∷ []

set-get_by_scope_example :
    get_by_scope values faster Scope.group (some 1) "scanIntervalSeconds"
    ≡ some (decode values "90")
unfolding set upsert any first in_range update
set-get_by_scope_example =
    set-get_by_scope values Scope.group "scanIntervalSeconds" (number 90) 1 rows faster 1 refl refl

set_without_id_example :
    rows ++ setting Scope.global none "scanIntervalSeconds" "90" ∷ []
    ≡ rows ++ new_row values Scope.global "scanIntervalSeconds" (number 90) 1 rows rows none ∷ []
unfolding set upsert any first in_range update
set_without_id_example =
    set_without_id values Scope.global "scanIntervalSeconds" (number 90) 1 rows
      (rows ++ setting Scope.global none "scanIntervalSeconds" "90" ∷ []) refl

-- ===== src/LiveAlert.antt =====
-- Alerts of the notification panel: `liveAlertService` of server/src/services/liveAlert.service.ts over the
-- table `live_alerts`, newest row first.
pub mod Dedup
mod Tests
use text.Mathlib.Text.{◌==◌ as str_eq}
use oblimap.Base.{
  ℕ, suc, ◌*◌, ◌-◌, Bool, true, false, not, ◌&&◌, ◌||◌, Option, none, some, List, [], ◌∷◌, ◌==◌,
  ltb, if◌then◌else◌, where_, any, update, map, take, elem, order_by_desc, String,
}

pub data Severity : Type 0 where
  down up warning info : Severity

-- A row of `live_alerts`; time stamps are numbers of milliseconds.
pub record LiveAlert : Type 0 where
  pub id : ℕ
  pub tenant_id : ℕ
  pub severity : Severity
  pub title : String
  pub message : String
  pub navigate_to : Option String
  pub stable_key : Option String
  pub read_at : Option ℕ
  pub created_at : ℕ

-- The options of `add`.
pub record NewAlert : Type 0 where
  pub severity : Severity
  pub title : String
  pub message : String
  pub navigate_to : Option String
  pub stable_key : Option String

abbrev pub is_unread : Option ℕ → Bool
is_unread none = true
is_unread (some _) = false

abbrev pub has_key : String → Option String → Bool
has_key key none = false
has_key key (some k) = str_eq k key

-- An unread alert of the tenant with this key.
abbrev pub unread_with : ℕ → String → LiveAlert → Bool
unread_with tenant_id key a =
    a.tenant_id == tenant_id && (has_key key a.stable_key && is_unread a.read_at)

-- An unread alert with the same key is there already; an empty key counts as none.
unfoldable pub is_repeated : ℕ → Option String → List LiveAlert → Bool
is_repeated tenant_id none alerts = false
is_repeated tenant_id (some key) alerts =
    not (str_eq key "") && any (unread_with tenant_id key) alerts

-- `DELETE … WHERE tenant_id = ? AND id NOT IN (SELECT id … ORDER BY created_at DESC LIMIT 200)`
unfoldable pub trim : ℕ → List LiveAlert → List LiveAlert
trim tenant_id alerts =
    let newest =
      map (λ a. a.id)
        (take 200
          (order_by_desc (λ a. a.created_at) (where_ (λ a. a.tenant_id == tenant_id) alerts))) in
    where_ (λ a. not (a.tenant_id == tenant_id && not (elem a.id newest))) alerts

unfoldable pub new_alert : ℕ → ℕ → ℕ → NewAlert → LiveAlert
new_alert id now tenant_id opts = record {
  id = id;
  tenant_id = tenant_id;
  severity = opts.severity;
  title = opts.title;
  message = opts.message;
  navigate_to = opts.navigate_to;
  stable_key = opts.stable_key;
  read_at = none;
  created_at = now;
}

-- `add`, up to the message on the socket: the new row, none where the alert is a repetition.
unfoldable pub add : ℕ → ℕ → ℕ → NewAlert → List LiveAlert → Option LiveAlert × List LiveAlert
unfolding is_repeated trim new_alert
add id now tenant_id opts alerts =
    if is_repeated tenant_id opts.stable_key alerts then (none, alerts) else (
      some (new_alert id now tenant_id opts),
      trim tenant_id (new_alert id now tenant_id opts ∷ alerts),
    )

-- `getForTenant`
unfoldable pub get_for_tenant : ℕ → ℕ → List LiveAlert → List LiveAlert
get_for_tenant tenant_id limit alerts =
    take limit (order_by_desc (λ a. a.created_at) (where_ (λ a. a.tenant_id == tenant_id) alerts))

-- `markRead`
unfoldable pub mark_read : ℕ → ℕ → ℕ → List LiveAlert → List LiveAlert
mark_read id tenant_id now alerts =
    update (λ a. a.id == id && a.tenant_id == tenant_id) (λ a. record a { read_at = some now })
      alerts

-- `markAllRead`
unfoldable pub mark_all_read : ℕ → ℕ → List LiveAlert → List LiveAlert
mark_all_read tenant_id now alerts =
    update (λ a. a.tenant_id == tenant_id && is_unread a.read_at)
      (λ a. record a { read_at = some now }) alerts

-- `deleteAlert`
unfoldable pub delete_alert : ℕ → List LiveAlert → List LiveAlert
delete_alert id alerts = where_ (λ a. not (a.id == id)) alerts

-- `clearAll`
unfoldable pub clear_all : ℕ → List LiveAlert → List LiveAlert
clear_all tenant_id alerts = where_ (λ a. not (a.tenant_id == tenant_id)) alerts

-- `cleanup`
unfoldable pub cleanup : ℕ → ℕ → List LiveAlert → List LiveAlert
cleanup days_old now alerts =
    where_ (λ a. not (ltb a.created_at (now - days_old * 86400000))) alerts

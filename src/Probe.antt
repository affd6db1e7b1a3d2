-- ===== src/Probe.antt =====
-- Probes and their keys: `probeService` of server/src/services/probe.service.ts over the tables `probes` and
-- `probe_api_keys`. A table lists its newest row first; time stamps are numbers of milliseconds.
pub mod Mac
pub mod Dedup
pub mod Push
pub mod Primary
pub mod Commands
pub mod Messages
mod Tests
use text.Mathlib.Text.{◌==◌ as str_eq}
use oblimap.Base.{
  ℕ, ◌*◌, ◌-◌, Bool, true, false, not, ◌&&◌, Option, none, some, List, [], ◌∷◌, ◌==◌, ◌==?◌, ltb,
  if◌then◌else◌, is_some, where_, first, update, elem, order_by, String, Text, truthy,
}

pub data ProbeStatus : Type 0 where
  pending approved refused suspended : ProbeStatus

abbrev pub is_approved : ProbeStatus → Bool
is_approved pending = false
is_approved approved = true
is_approved refused = false
is_approved suspended = false

pub record ScanConfig : Type 0 where
  pub excluded_subnets : List String
  pub extra_subnets : List String
  pub port_scan_enabled : Option Bool
  pub port_scan_ports : Option (List ℕ)

-- A row of `probes`.
pub record Probe : Type 0 where
  pub id : ℕ
  pub uuid : String
  pub hostname : String
  pub ip : Option Text
  pub mac : Option Text
  pub ips : Option (List Text)
  pub os_info : Option String
  pub probe_version : String
  pub api_key_id : Option ℕ
  pub status : ProbeStatus
  pub tenant_id : ℕ
  pub site_id : Option ℕ
  pub name : Option String
  pub scan_interval_seconds : ℕ
  pub scan_config : ScanConfig
  pub last_seen_at : Option ℕ
  pub pending_command : Option String
  pub uninstall_commanded_at : Option ℕ
  pub updating_since : Option ℕ
  pub scan_config_override : Bool
  pub is_primary : Bool
  pub approved_by : Option ℕ
  pub approved_at : Option ℕ
  pub created_at : ℕ
  pub updated_at : ℕ

-- A row of `probe_api_keys`.
pub record ProbeApiKey : Type 0 where
  pub id : ℕ
  pub name : String
  pub key : String
  pub tenant_id : ℕ
  pub created_by : Option ℕ
  pub last_used_at : Option ℕ
  pub created_at : ℕ

-- `getApiKeys`
unfoldable pub get_api_keys : ℕ → List ProbeApiKey → List ProbeApiKey
get_api_keys tenant_id keys =
    order_by (λ k. k.created_at) (where_ (λ k. k.tenant_id == tenant_id) keys)

-- `createApiKey`; `key` is the random UUID.
unfoldable pub create_api_key :
    ℕ → ℕ → String → ℕ → String → ℕ → List ProbeApiKey → List ProbeApiKey
create_api_key id now key tenant_id name created_by keys =
    record {
      id = id;
      name = name;
      key = key;
      tenant_id = tenant_id;
      created_by = some created_by;
      last_used_at = none;
      created_at = now;
    }
    ∷ keys

-- `deleteApiKey`
unfoldable pub delete_api_key : ℕ → ℕ → List ProbeApiKey → List ProbeApiKey
delete_api_key tenant_id id keys = where_ (λ k. not (k.id == id && k.tenant_id == tenant_id)) keys

-- `where({ id, tenant_id: tenantId })`
abbrev pub is_row : ℕ → ℕ → Probe → Bool
is_row tenant_id id p = p.id == id && p.tenant_id == tenant_id

-- `getProbes`
unfoldable pub get_probes : ℕ → List Probe → List Probe
get_probes tenant_id probes =
    order_by (λ p. p.created_at) (where_ (λ p. p.tenant_id == tenant_id) probes)

-- `getProbe`, without `wsConnected`
unfoldable pub get_probe : ℕ → ℕ → List Probe → Option Probe
get_probe tenant_id id probes = first (is_row tenant_id id) probes

-- The updates of `updateProbe`; none stands for `undefined`.
pub record ProbeUpdates : Type 0 where
  pub name : Option String
  pub site_id : Option (Option ℕ)
  pub scan_interval_seconds : Option ℕ
  pub scan_config : Option ScanConfig
  pub scan_config_override : Option Bool
  pub is_primary : Option Bool

abbrev pub or_keep {ℓ} : {A : Type ℓ} → Option A → A → A
or_keep none old = old
or_keep (some new) old = new

abbrev pub or_keep_name : Option String → Option String → Option String
or_keep_name none old = old
or_keep_name (some new) old = some new

-- `update(patch)`
abbrev pub patch : ℕ → ProbeUpdates → Probe → Probe
patch now updates p = record p {
  name = or_keep_name updates.name p.name;
  site_id = or_keep updates.site_id p.site_id;
  scan_interval_seconds = or_keep updates.scan_interval_seconds p.scan_interval_seconds;
  scan_config = or_keep updates.scan_config p.scan_config;
  scan_config_override = or_keep updates.scan_config_override p.scan_config_override;
  is_primary = or_keep updates.is_primary p.is_primary;
  updated_at = now;
}

-- A primary probe of a site, as `where({ site_id, tenant_id, is_primary: true })` finds it.
abbrev pub is_primary_of : ℕ → ℕ → Probe → Bool
is_primary_of tenant_id site_id p =
    p.site_id ==? some site_id && (p.tenant_id == tenant_id && p.is_primary)

abbrev pub site_of : Option Probe → Option ℕ
site_of none = none
site_of (some p) = p.site_id

-- `if (probe?.site_id) …`: the other primary probes of the site are demoted.
unfoldable pub demote_others : ℕ → ℕ → Option ℕ → List Probe → List Probe
demote_others tenant_id id none probes = probes
demote_others tenant_id id (some site_id) probes =
    if site_id == 0
    then probes
    else update (λ p. is_primary_of tenant_id site_id p && not (p.id == id))
        (λ p. record p { is_primary = false }) probes

unfoldable pub demote_if : ℕ → ℕ → Option Bool → List Probe → List Probe
unfolding demote_others
demote_if tenant_id id none probes = probes
demote_if tenant_id id (some false) probes = probes
demote_if tenant_id id (some true) probes =
    demote_others tenant_id id (site_of (first (is_row tenant_id id) probes)) probes

-- `updateProbe`, without the message to the probe.
unfoldable pub update_probe : ℕ → ℕ → ℕ → ProbeUpdates → List Probe → List Probe
unfolding demote_if
update_probe now tenant_id id updates probes =
    update (is_row tenant_id id) (patch now updates)
      (demote_if tenant_id id updates.is_primary probes)

-- `approveProbe`
unfoldable pub approve_probe : ℕ → ℕ → ℕ → ℕ → List Probe → List Probe
approve_probe now tenant_id id approved_by probes =
    update (is_row tenant_id id)
      (λ p. record p {
        status = approved;
        approved_by = some approved_by;
        approved_at = some now;
        updated_at = now;
      })
      probes

-- `refuseProbe`
unfoldable pub refuse_probe : ℕ → ℕ → ℕ → List Probe → List Probe
refuse_probe now tenant_id id probes =
    update (is_row tenant_id id) (λ p. record p { status = refused; updated_at = now }) probes

-- `deleteProbe`
unfoldable pub delete_probe : ℕ → ℕ → List Probe → List Probe
delete_probe tenant_id id probes = where_ (λ p. not (is_row tenant_id id p)) probes

-- `bulkApprove`
unfoldable pub bulk_approve : ℕ → ℕ → List ℕ → ℕ → List Probe → List Probe
bulk_approve now tenant_id ids approved_by probes =
    update (λ p. p.tenant_id == tenant_id && elem p.id ids)
      (λ p. record p {
        status = approved;
        approved_by = some approved_by;
        approved_at = some now;
        updated_at = now;
      })
      probes

-- `bulkDelete`
unfoldable pub bulk_delete : ℕ → List ℕ → List Probe → List Probe
bulk_delete tenant_id ids probes =
    where_ (λ p. not (p.tenant_id == tenant_id && elem p.id ids)) probes

abbrev before : ℕ → Option ℕ → Bool
before cutoff none = false
before cutoff (some t) = ltb t cutoff

-- `cleanupUninstalledProbes`
unfoldable pub cleanup_uninstalled_probes : ℕ → List Probe → List Probe
cleanup_uninstalled_probes now probes =
    where_ (λ p. not (before (now - 10 * 60 * 1000) p.uninstall_commanded_at)) probes

-- `cleanupStuckUpdating`
unfoldable pub cleanup_stuck_updating : ℕ → List Probe → List Probe
cleanup_stuck_updating now probes =
    update (λ p. before (now - 10 * 60 * 1000) p.updating_since)
      (λ p. record p { updating_since = none }) probes

-- `setProbeUpdating`
unfoldable pub set_probe_updating : ℕ → String → List Probe → List Probe
set_probe_updating now uuid probes =
    update (λ p. str_eq p.uuid uuid) (λ p. record p { updating_since = some now; updated_at = now })
      probes

-- `getProbeByUuid`
unfoldable pub get_probe_by_uuid : String → List Probe → Option Probe
get_probe_by_uuid uuid probes = first (λ p. str_eq p.uuid uuid) probes

abbrev key_id : Option ProbeApiKey → Option ℕ
key_id none = none
key_id (some k) = some k.id

-- `getApiKeyIdByKey`
unfoldable pub get_api_key_id_by_key : String → List ProbeApiKey → Option ℕ
get_api_key_id_by_key raw_key keys = key_id (first (λ k. str_eq k.key raw_key) keys)

-- ===== src/Probe/Push.antt =====
-- A push of a probe: `handlePush`, but for the configuration that it answers with. The text of messages, the
-- link that `obligateService` registers and the settings are left out.
use text.Mathlib.Text.{◌==◌ as str_eq}
use oblimap.Base.{
  ℕ, suc, ◌*◌, ◌-◌, Bool, true, false, not, ◌&&◌, Option, none, some, List, [], ◌∷◌, ◌==◌, ◌==?◌,
  ltb, if◌then◌else◌, is_some, truthy, any, first, update, String, Text,
}
use oblimap.Item.{DiscoveredDevice}
use oblimap.Item.Vendor.{VendorTables}
use oblimap.Item.Process.{Scan, Progress, process_devices, mac_of}
use oblimap.Flow.{FlowEntry, Flows, process_flows}
use oblimap.Probe.{
  Probe, ProbeApiKey, ProbeStatus, pending, approved, refused, suspended, is_approved,
  is_primary_of,
}
use oblimap.Probe.Commands.{delivered}

pub record ProbePushPayload : Type 0 where
  pub hostname : String
  pub probe_version : String
  pub os_info : Option String
  pub probe_mac : Option Text
  pub probe_ips : Option (List Text)
  pub discovered_devices : List DiscoveredDevice
  pub discovered_flows : List FlowEntry

-- The tables that a push reads and writes; `progress` has those of `processDevices`.
pub record Tables : Type 0 where
  pub api_keys : List ProbeApiKey
  pub probes : List Probe
  pub next_probe : ℕ
  pub vendors : VendorTables
  pub progress : Progress
  pub flows : Flows

pub data Role : Type 0 where
  primary secondary : Role

-- What the probe is answered; `failed` is an exception of the database.
pub data PushResult : Type 0 where
  unauthorized failed : PushResult
  answered : ℕ → ProbeStatus → Option String → Role → PushResult

-- Which key the push comes with.
unfoldable pub find_key : Option ℕ → String → List ProbeApiKey → Option ProbeApiKey
find_key pre_validated value keys =
    if truthy pre_validated
    then first (λ k. some k.id ==? pre_validated) keys
    else first (λ k. str_eq k.key value) keys

unfoldable pub new_probe : ℕ → ℕ → ProbeApiKey → String → ProbePushPayload → Probe
unfolding mac_of
new_probe id now key uuid payload = record {
  id = id;
  uuid = uuid;
  hostname = payload.hostname;
  ip = none;
  mac = mac_of payload.probe_mac;
  ips = payload.probe_ips;
  os_info = payload.os_info;
  probe_version = payload.probe_version;
  api_key_id = some key.id;
  status = pending;
  tenant_id = key.tenant_id;
  site_id = none;
  name = some payload.hostname;
  scan_interval_seconds = 300;
  scan_config = record {
    excluded_subnets = [];
    extra_subnets = [];
    port_scan_enabled = none;
    port_scan_ports = none;
  };
  last_seen_at = some now;
  pending_command = none;
  uninstall_commanded_at = none;
  updating_since = none;
  scan_config_override = true;
  is_primary = false;
  approved_by = none;
  approved_at = none;
  created_at = now;
  updated_at = now;
}

abbrev given {ℓ} : {A : Type ℓ} → Option A → Option A → Option A
given none old = old
given (some new) old = some new

-- `updates` of a known probe `x`
unfoldable pub reported : ℕ → ProbeApiKey → ProbePushPayload → Probe → Probe → Probe
unfolding mac_of
reported now key payload x p = record p {
  hostname = payload.hostname;
  probe_version = payload.probe_version;
  last_seen_at = some now;
  updated_at = now;
  os_info = given payload.os_info p.os_info;
  mac = given (mac_of payload.probe_mac) p.mac;
  ips = given payload.probe_ips p.ips;
  api_key_id = if x.api_key_id ==? some key.id then p.api_key_id else some key.id;
  updating_since =
      if is_some x.updating_since && not (str_eq x.probe_version payload.probe_version)
      then none
      else p.updating_since;
}

-- The row of the probe, the table and the next id.
abbrev pub Found : Type 0
Found = Option Probe × List Probe × ℕ

-- A row is added unless another tenant has the uuid, which is unique in the table; a known row is
-- updated and read again.
unfoldable pub register :
    ℕ → ProbeApiKey → String → ProbePushPayload → Option Probe → List Probe → ℕ → Found
unfolding new_probe reported
register now key uuid payload none probes next =
    let taken : Found = (none, probes, suc next) in
    let row = new_probe next now key uuid payload in
    let added : Found = (some row, row ∷ probes, suc next) in
    if any (λ p. str_eq p.uuid uuid) probes then taken else added
register now key uuid payload (some x) probes next =
    let rows = update (λ p. p.id == x.id) (reported now key payload x) probes in
    (first (λ p. p.id == x.id) rows, rows, next)

unfoldable pub find_or_register :
    ℕ → ProbeApiKey → String → ProbePushPayload → List Probe → ℕ → Found
unfolding register
find_or_register now key uuid payload probes next =
    register now key uuid payload
      (first (λ p. str_eq p.uuid uuid && p.tenant_id == key.tenant_id) probes) probes next

abbrev pub set_primary : Bool → Probe → Probe
set_primary b p = record p { is_primary = b }

-- `now - last_seen_at > 5 * 60 * 1000`
abbrev pub is_gone : ℕ → Option ℕ → Bool
is_gone now none = false
is_gone now (some seen) = ltb (5 * 60 * 1000) (now - seen)

abbrev pub with_id : ℕ → Probe → Bool
with_id id p = p.id == id

-- The probe becomes the primary of its site.
unfoldable pub promote : Probe → List Probe → Probe × List Probe
promote probe probes = (set_primary true probe, update (with_id probe.id) (set_primary true) probes)

unfoldable pub challenge : ℕ → Probe → Option Probe → List Probe → Probe × List Probe
unfolding promote
challenge now probe none probes = promote probe probes
challenge now probe (some current) probes =
    let kept : Probe × List Probe = (probe, probes) in
    let won = promote probe (update (with_id current.id) (set_primary false) probes) in
    if not (current.id == probe.id) && is_gone now current.last_seen_at then won else kept

unfoldable pub elect_at : ℕ → ℕ → Probe → Option ℕ → List Probe → Probe × List Probe
unfolding challenge
elect_at now tenant_id probe none probes = (probe, probes)
elect_at now tenant_id probe (some site) probes =
    let kept : Probe × List Probe = (probe, probes) in
    let elected = challenge now probe (first (is_primary_of tenant_id site) probes) probes in
    if is_approved probe.status && not (site == 0) then elected else kept

-- The election of the primary probe.
unfoldable pub elect_primary : ℕ → ℕ → Probe → List Probe → Probe × List Probe
unfolding elect_at
elect_primary now tenant_id probe probes = elect_at now tenant_id probe probe.site_id probes

abbrev pub is_command : Option String → Bool
is_command none = false
is_command (some c) = not (str_eq c "")

abbrev pub stamped : ℕ → Option String → Probe → Probe
stamped now none p = p
stamped now (some command) p = record (delivered now command p) { updated_at = now }

-- A pending command is delivered once.
unfoldable pub take_command : ℕ → Probe → List Probe → List Probe
take_command now probe probes =
    if is_command probe.pending_command
    then update (with_id probe.id) (stamped now probe.pending_command) probes
    else probes

abbrev pub set_ip : ℕ → Option Text → Probe → Probe
set_ip now none p = p
set_ip now (some ip) p = record p { ip = some ip; updated_at = now }

-- Devices and flows, for an approved probe with a site: the tables, and the address for the probe's row.
unfoldable pub take_report : ℕ → ℕ → Probe → ProbePushPayload → Option ℕ → Tables → Tables
unfolding process_devices process_flows mac_of
take_report now tenant_id probe payload none t = t
take_report now tenant_id probe payload (some site) t =
    let scan : Scan = record {
      probe_id = probe.id;
      tenant_id = tenant_id;
      site_id = site;
      probe_mac = mac_of payload.probe_mac;
      is_probe_primary = probe.is_primary;
      now = now;
      vendors = t.vendors;
    } in
    let done =
      process_devices scan payload.discovered_devices (record t.progress { probe_ip = none }) in
    let flows =
      process_flows
        (record { tenant_id = tenant_id; site_id = site; probe_id = probe.id; now = now })
        payload.discovered_flows t.flows in
    if is_approved probe.status && not (site == 0)
    then record t {
      progress = done;
      flows = flows;
      probes = update (with_id probe.id) (set_ip now done.probe_ip) t.probes;
    }
    else t

abbrev http_status : ProbeStatus → ℕ
http_status pending = 202
http_status approved = 200
http_status refused = 200
http_status suspended = 200

abbrev role_of : Bool → Role
role_of true = primary
role_of false = secondary

unfoldable pub push_registered :
    ℕ → ℕ → ProbePushPayload → Option Probe → Tables → PushResult × Tables
unfolding elect_primary take_report take_command
push_registered now tenant_id payload none t = (failed, t)
push_registered now tenant_id payload (some row) t =
    let (probe, probes) = elect_primary now tenant_id row t.probes in
    let t' = take_report now tenant_id probe payload probe.site_id (record t { probes = probes }) in
    (
      answered (http_status probe.status) probe.status probe.pending_command
          (role_of probe.is_primary),
      record t' { probes = take_command now probe t'.probes },
    )

unfoldable pub push_with :
    ℕ → String → ProbePushPayload → Option ProbeApiKey → Tables → PushResult × Tables
unfolding find_or_register push_registered
push_with now uuid payload none t = (unauthorized, t)
push_with now uuid payload (some key) t =
    let (row, probes, next) = find_or_register now key uuid payload t.probes t.next_probe in
    push_registered now key.tenant_id payload row (record t {
      api_keys =
          update (λ k. k.id == key.id) (λ k. record k { last_used_at = some now }) t.api_keys;
      probes = probes;
      next_probe = next;
    })

-- `handlePush`
unfoldable pub handle_push :
    ℕ → Option ℕ → String → String → ProbePushPayload → Tables → PushResult × Tables
unfolding find_key push_with
handle_push now pre_validated api_key_value uuid payload t =
    push_with now uuid payload (find_key pre_validated api_key_value t.api_keys) t

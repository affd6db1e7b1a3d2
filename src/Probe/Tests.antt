-- ===== src/Probe/Tests.antt =====
-- Two probes of one tenant, each the primary probe of its site, and a push of the first.
use oblimap.Base.{
  ℕ, ◌≤◌, ◌≡◌, refl, true, false, none, some, ◌∷◌, [], List, codes, arith, count_where, where_,
  Memᴰ, first, any, lookup, Bool, ◌↔◌,
}
use oblimap.Hub.{Hub, start, send_to_probe}
use oblimap.Probe.{Probe, ProbeApiKey, approved, ProbeUpdates, update_probe, is_primary_of}
use oblimap.Probe.Mac.{normalize_mac, hex_values, normalize_mac_iff}
use oblimap.Probe.Dedup.{DedupKey, Report, new, passed}
use oblimap.Probe.Dedup.Window.{AreWithin, passed_le_two}
use oblimap.Probe.Push.{ProbePushPayload, Tables, handle_push}
use oblimap.Probe.Primary.{IsElected}
use oblimap.Probe.Primary.Election.{handle_push-IsElected}
use oblimap.Probe.Primary.Move.{update_probe-moved}
use oblimap.Probe.Commands.{send_command}
use oblimap.Probe.Commands.Delivery.{IsOutcome, send_command_cases, send_command_foreign}

normalize_mac_iff_example :
    (normalize_mac (codes "aa:bb:cc:00:00:01") ≡ normalize_mac (codes "AABB.CC00.0001"))
    ↔ (hex_values (codes "aa:bb:cc:00:00:01") ≡ hex_values (codes "AABB.CC00.0001"))
unfolding hex_values
normalize_mac_iff_example =
    normalize_mac_iff (codes "aa:bb:cc:00:00:01") (codes "AABB.CC00.0001") refl refl

abbrev key : DedupKey
key = record { tenant_id = 1; site_id = 4; mac = none; change_type = new }

abbrev report : ℕ → Bool → Report
report now is_primary = record { key = key; now = now; probe_id = now; is_primary = is_primary }

abbrev reports : List Report
reports = report 100 false ∷ report 200 false ∷ report 300 true ∷ report 400 true ∷ []

passed_le_two_example : passed key reports (λ k. none) ≤ 2
unfolding AreWithin
passed_le_two_example =
    passed_le_two 100 key reports (λ k. none) refl
      (
        omega arith,
        (
          omega arith,
          (
            omega arith,
            (omega arith, (omega arith, (omega arith, (omega arith, (omega arith, tt))))),
          ),
        ),
      )

-- Both a secondary and the primary probe pass.
passed_two : passed key reports (λ k. none) ≡ 2
unfolding passed
passed_two = refl

abbrev first_probe : Probe
first_probe = record {
  id = 7;
  uuid = "a";
  hostname = "a";
  ip = none;
  mac = none;
  ips = none;
  os_info = none;
  probe_version = "1";
  api_key_id = some 2;
  status = approved;
  tenant_id = 1;
  site_id = some 4;
  name = none;
  scan_interval_seconds = 300;
  scan_config = record {
    excluded_subnets = [];
    extra_subnets = [];
    port_scan_enabled = none;
    port_scan_ports = none;
  };
  last_seen_at = some 50;
  pending_command = some "rescan";
  uninstall_commanded_at = none;
  updating_since = none;
  scan_config_override = true;
  is_primary = true;
  approved_by = none;
  approved_at = none;
  created_at = 10;
  updated_at = 10;
}

abbrev second_probe : Probe
second_probe = record first_probe { id = 8; uuid = "b"; site_id = some 5 }

abbrev probes : List Probe
probes = first_probe ∷ second_probe ∷ []

abbrev api_key : ProbeApiKey
api_key = record {
  id = 2;
  name = "k";
  key = "secret";
  tenant_id = 1;
  created_by = none;
  last_used_at = none;
  created_at = 5;
}

abbrev tables : Tables
tables = record {
  api_keys = api_key ∷ [];
  probes = probes;
  next_probe = 9;
  vendors = record { mac_vendors = []; vendor_type_rules = [] };
  progress = record {
    items = [];
    next_item = 1;
    history = [];
    next_history = 1;
    updated_item_ids = [];
    dedup = λ k. none;
    probe_ip = none;
    outputs = [];
  };
  flows = record { rows = []; next_id = 1 };
}

abbrev payload : ProbePushPayload
payload = record {
  hostname = "a";
  probe_version = "2";
  os_info = none;
  probe_mac = none;
  probe_ips = none;
  discovered_devices = [];
  discovered_flows = [];
}

probes-IsElected : IsElected probes 9
unfolding count_where where_
probes-IsElected = record {
  distinct = λ id. ground arith;
  fresh = λ id h. ground (arith, h);
  single = λ t s. ground arith;
}

handle_push-IsElected_example :
    IsElected
      (handle_push 100 none "secret" "a" payload tables).1.probes
      (handle_push 100 none "secret" "a" payload tables).1.next_probe
handle_push-IsElected_example =
    handle_push-IsElected 100 none "secret" "a" payload tables probes-IsElected

abbrev no_updates : ProbeUpdates
no_updates = record {
  name = none;
  site_id = none;
  scan_interval_seconds = none;
  scan_config = none;
  scan_config_override = none;
  is_primary = none;
}

update_probe-moved_example :
    2
    ≤ count_where (is_primary_of 1 5) (
        update_probe 100 1 7
          (record no_updates { site_id = some (some 5); is_primary = none })
          probes)
update_probe-moved_example =
    update_probe-moved 100 1 7 5 no_updates probes first_probe second_probe (Memᴰ.head refl) refl
      refl (Memᴰ.tail (Memᴰ.head refl)) refl refl

abbrev hub : Hub
hub = record start {
  by_probe_id =
      (7, record { ws = 3; probe_id = 7; tenant_id = 1; probe_uuid = "a"; api_key_id = 2 }) ∷ [];
}

send_command_cases_example :
    IsOutcome
      (λ ws. true)
      (λ ws. false)
      1
      7
      "update"
      (some (record { ws = 3; probe_id = 7; tenant_id = 1; probe_uuid = "a"; api_key_id = 2 }))
      (send_command (λ ws. true) (λ ws. false) hub 100 1 7 "update" probes)
unfolding first lookup
send_command_cases_example =
    send_command_cases (λ ws. true) (λ ws. false) hub 100 1 7 "update" probes first_probe refl

-- The probe 7 belongs to tenant 1, and tenant 2 sends it a command.
send_command_foreign_example :
    send_command (λ ws. true) (λ ws. true) hub 100 2 7 "uninstall" probes
    ≡ ((3, "uninstall") ∷ [], probes)
unfolding any send_to_probe lookup
send_command_foreign_example =
    send_command_foreign (λ ws. true) (λ ws. true) hub 100 2 7 3 "uninstall" probes refl refl

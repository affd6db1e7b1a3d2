-- ===== src/Ipam/Tests.antt =====
-- A site with one probe, which runs on the only device, and the reservation of that device's address.
use oblimap.Base.{◌≡◌, refl, true, none, some, [], ◌∷◌, any, where_, codes, Memᴰ, ◌&&◌}
use oblimap.Item.{Item, unknown}
use oblimap.Probe.{Probe, approved}
use oblimap.Ipam.{IpReservation}
use oblimap.Ipam.Marks.{get_items, get_reservations, probe_in, reserved_in}
use oblimap.Ipam.Marks.Meaning.{get_items-marks, get_reservations-occupied, is_device, holds}

abbrev server_item : Item
server_item = record {
  id = 1;
  site_id = 4;
  tenant_id = 1;
  ip = codes "10.0.0.2";
  mac = some (codes "AA:BB:CC:00:00:01");
  hostname = none;
  custom_name = none;
  device_type = codes "unknown";
  vendor = none;
  notes = none;
  status = unknown;
  is_manual = true;
  discovered_by_probe_id = none;
  open_ports = none;
  first_seen_at = 10;
  last_seen_at = 10;
  created_at = 10;
  updated_at = 10;
}

abbrev server_reservation : IpReservation
server_reservation = record {
  id = 1;
  site_id = 4;
  tenant_id = 1;
  ip = codes "10.0.0.2";
  name = codes "server";
  description = none;
  device_type = none;
  created_by = none;
}

occupied_mark :
    Memᴰ
      (
        server_reservation,
        record { is_occupied = true; occupied_by_mac = some (codes "AA:BB:CC:00:00:01") },
      )
      (get_reservations 1 4 (server_item ∷ []) (server_reservation ∷ []))
unfolding get_reservations where_ any
occupied_mark = Memᴰ.head refl

get_reservations-occupied_example : true ≡ any (holds 1 4 (codes "10.0.0.2")) (server_item ∷ [])
get_reservations-occupied_example =
    get_reservations-occupied 1 4 (server_item ∷ []) (server_reservation ∷ []) server_reservation
      (record { is_occupied = true; occupied_by_mac = some (codes "AA:BB:CC:00:00:01") })
      occupied_mark

abbrev probe : Probe
probe = record {
  id = 7;
  uuid = "a";
  hostname = "a";
  ip = none;
  mac = some (codes "AA:BB:CC:00:00:01");
  ips = none;
  os_info = none;
  probe_version = "1";
  api_key_id = some 2;
  status = approved;
  tenant_id = 1;
  site_id = some 4;
  name = none;
  scan_interval_seconds = 300;
  scan_config = record {
    excluded_subnets = [];
    extra_subnets = [];
    port_scan_enabled = none;
    port_scan_ports = none;
  };
  last_seen_at = some 50;
  pending_command = none;
  uninstall_commanded_at = none;
  updating_since = none;
  scan_config_override = true;
  is_primary = true;
  approved_by = none;
  approved_at = none;
  created_at = 10;
  updated_at = 10;
}

item_mark :
    Memᴰ
      (server_item, record { has_reservation_conflict = true; is_probe = true; probe_id = some 7 })
      (get_items 1 4 (server_item ∷ []) (server_reservation ∷ []) (probe ∷ []))
unfolding get_items where_ any
item_mark = Memᴰ.head refl

get_items-marks_example :
    (true ≡ any (λ p. probe_in 1 4 p && is_device server_item p) (probe ∷ []))
    × (true ≡ any (reserved_in 1 4 (codes "10.0.0.2")) (server_reservation ∷ []))
get_items-marks_example =
    get_items-marks 1 4 (server_item ∷ []) (server_reservation ∷ []) (probe ∷ []) server_item
      (record { has_reservation_conflict = true; is_probe = true; probe_id = some 7 }) item_mark

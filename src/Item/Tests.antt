-- ===== src/Item/Tests.antt =====
-- A site with a laptop, and a push that reports it at a new address, and another device at its old one.
use oblimap.Base.{
  ℕ, ◌+◌, ◌*◌, Text, ◌=ᵗ◌, List, ◌≤◌, length, any, ◌≡◌, refl, true, false, none, some, ◌∷◌, [],
  codes, arith, count_where, where_, Memᴰ, update, elem, first,
}
use oblimap.Item.{IpHistory, Item, DiscoveredDevice, online, is_filled}
use oblimap.Item.Process.{Scan, Progress, process_devices, mac_of}
use oblimap.Item.Instability.{check_ip_instability, check_ip_instability-held, AreDistinct}
use oblimap.Item.Unique.{IsKeyed, process_devices-IsKeyed}
use oblimap.Item.Offline.{process_devices-online}

abbrev laptop : Item
laptop = record {
  id = 1;
  site_id = 4;
  tenant_id = 1;
  ip = codes "10.0.0.2";
  mac = some (codes "AA:BB:CC:00:00:01");
  hostname = none;
  custom_name = none;
  device_type = codes "unknown";
  vendor = none;
  notes = none;
  status = online;
  is_manual = false;
  discovered_by_probe_id = some 7;
  open_ports = none;
  first_seen_at = 10;
  last_seen_at = 10;
  created_at = 10;
  updated_at = 10;
}

abbrev scan : Scan
scan = record {
  probe_id = 7;
  tenant_id = 1;
  site_id = 4;
  probe_mac = none;
  is_probe_primary = true;
  now = 100;
  vendors = record { mac_vendors = []; vendor_type_rules = [] };
}

abbrev moved : DiscoveredDevice
moved = record {
  ip = codes "10.0.0.3";
  mac = some (codes "aa-bb-cc-00-00-01");
  hostname = none;
  is_online = true;
  open_ports = none;
}

abbrev guest : DiscoveredDevice
guest = record {
  ip = codes "10.0.0.2";
  mac = some (codes "aa-bb-cc-00-00-02");
  hostname = none;
  is_online = true;
  open_ports = none;
}

abbrev before : Progress
before = record {
  items = laptop ∷ [];
  next_item = 2;
  history = [];
  next_history = 1;
  updated_item_ids = [];
  dedup = λ k. none;
  probe_ip = none;
  outputs = [];
}

before-IsKeyed : IsKeyed (laptop ∷ []) 2
unfolding count_where where_
before-IsKeyed = record {
  distinct = λ id. ground arith;
  fresh = λ id h. ground (arith, h);
  apart = λ site mac f. ground arith;
}

process_devices-IsKeyed_example :
    IsKeyed
      (process_devices scan (moved ∷ guest ∷ []) before).items
      (process_devices scan (moved ∷ guest ∷ []) before).next_item
process_devices-IsKeyed_example =
    process_devices-IsKeyed scan (moved ∷ guest ∷ []) before before-IsKeyed

still_online :
    Memᴰ
      (record laptop { last_seen_at = 100; updated_at = 100; ip = codes "10.0.0.3" })
      (process_devices scan (moved ∷ []) before).items
unfolding process_devices update first elem
still_online = Memᴰ.head refl

process_devices-online_example :
    (d : DiscoveredDevice) × Memᴰ d (moved ∷ []) × (d.is_online ≡ true) × (codes "10.0.0.3" ≡ d.ip)
process_devices-online_example =
    process_devices-online scan (moved ∷ []) before
      (record laptop { last_seen_at = 100; updated_at = 100; ip = codes "10.0.0.3" }) before-IsKeyed
      still_online refl refl

abbrev row : ℕ → Text → IpHistory
row id mac = record {
  id = id;
  mac = mac;
  site_id = 4;
  tenant_id = 1;
  ip = codes "10.0.0.2";
  first_seen_at = 90;
  last_seen_at = 90;
}

-- Three devices had the address of the guest, and one of them twice.
abbrev history : List IpHistory
history = row 4 (codes "A") ∷ row 3 (codes "C") ∷ row 2 (codes "B") ∷ row 1 (codes "A") ∷ []

warned :
    Memᴰ
      (codes "10.0.0.2", codes "A" ∷ codes "C" ∷ codes "B" ∷ [])
      (check_ip_instability scan (guest ∷ []) history)
unfolding check_ip_instability where_ any
warned = Memᴰ.head refl

check_ip_instability-held_example :
    (3 ≤ length (codes "A" ∷ codes "C" ∷ codes "B" ∷ []))
    × AreDistinct (codes "A" ∷ codes "C" ∷ codes "B" ∷ [])
    × ((mac : Text)
        → any (λ t. mac =ᵗ t) (codes "A" ∷ codes "C" ∷ codes "B" ∷ []) ≡ true
        → ((r : IpHistory) × Memᴰ r history
            × (r.site_id ≡ 4)
            × (r.tenant_id ≡ 1)
            × (scan.now ≤ r.last_seen_at + 30 * 60 * 1000)
            × (r.ip ≡ codes "10.0.0.2")
            × (r.mac ≡ mac))
          × ((d : DiscoveredDevice) × Memᴰ d (guest ∷ [])
              × (d.ip ≡ codes "10.0.0.2")
              × (is_filled (mac_of d.mac) ≡ true)))
check_ip_instability-held_example =
    check_ip_instability-held scan (guest ∷ []) history (codes "10.0.0.2")
      (codes "A" ∷ codes "C" ∷ codes "B" ∷ []) warned

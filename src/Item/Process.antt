-- ===== src/Item/Process.antt =====
-- `processDevices`, but for the check of unstable addresses, which is in Item/Instability.
use oblimap.Base.{
  ℕ, suc, Bool, true, false, not, ◌&&◌, Option, none, some, List, [], ◌∷◌, ◌++◌, ◌==◌, ◌==?◌, ◌=ᵗ◌,
  ◌=ᵗ?◌, if◌then◌else◌, is_some, where_, first, update, elem, order_by_desc, Text,
}
use oblimap.Item.{
  Item, ItemStatus, online, offline, is_online, IpHistory, DiscoveredDevice, is_filled, or_text,
  Output, ip_changed, status_changed, new_device, notify_new, notify_offline, takeover_alert,
}
use oblimap.Item.Vendor.{VendorTables, find_vendor, apply_vendor_rules}
use oblimap.Probe.Mac.{normalize_mac}
use oblimap.Probe.Dedup.{DedupCache, Report, ChangeType, should_dedup}

-- The arguments of `processDevices` that stay the same for every device, and the time.
pub record Scan : Type 0 where
  pub probe_id : ℕ
  pub tenant_id : ℕ
  pub site_id : ℕ
  pub probe_mac : Option Text
  pub is_probe_primary : Bool
  pub now : ℕ
  pub vendors : VendorTables

-- What `processDevices` changes; `probe_ip` is the address that it writes to the row of the probe.
pub record Progress : Type 0 where
  pub items : List Item
  pub next_item : ℕ
  pub history : List IpHistory
  pub next_history : ℕ
  pub updated_item_ids : List ℕ
  pub dedup : DedupCache
  pub probe_ip : Option Text
  pub outputs : List Output

-- `device.mac ? normalizeMac(device.mac) : null`
unfoldable pub mac_of : Option Text → Option Text
unfolding normalize_mac
mac_of none = none
mac_of (some mac) = if is_filled (some mac) then some (normalize_mac mac) else none

-- The item of a device, the item whose address it takes over, or none.
pub data Match : Type 0 where
  known takeover : Item → Match
  unseen : Match

unfoldable pub match_ip : Option Text → Option Item → Match
match_ip mac none = unseen
match_ip mac (some item) =
    if is_filled mac && (is_filled item.mac && not (item.mac =ᵗ? mac))
    then takeover item
    else known item

unfoldable pub match_mac : Option Text → Option Item → Option Item → Match
unfolding match_ip
match_mac mac (some item) by_ip = known item
match_mac mac none by_ip = match_ip mac by_ip

-- `where({ site_id: siteId, mac }).first()`, if there is an address
unfoldable pub by_mac : ℕ → Option Text → List Item → Option Item
by_mac site_id none items = none
by_mac site_id (some mac) items =
    if is_filled (some mac)
    then first (λ i. i.site_id == site_id && i.mac =ᵗ? some mac) items
    else none

unfoldable pub find_match : ℕ → Option Text → Text → List Item → Match
unfolding match_mac by_mac
find_match site_id mac ip items =
    match_mac mac (by_mac site_id mac items) (first (λ i. i.site_id == site_id && i.ip =ᵗ ip) items)

-- `recordIpHistory`
unfoldable pub record_ip_history : Scan → Text → Text → List IpHistory × ℕ → List IpHistory × ℕ
record_ip_history s mac ip (history, next) =
    elim (first (λ r. r.mac =ᵗ mac && (r.site_id == s.site_id && r.ip =ᵗ ip))
      (order_by_desc (λ r. r.last_seen_at) history)) [
        | none ↦ (
          record {
            id = next;
            mac = mac;
            site_id = s.site_id;
            tenant_id = s.tenant_id;
            ip = ip;
            first_seen_at = s.now;
            last_seen_at = s.now;
          }
              ∷ history,
          suc next,
        )
        | some old ↦
            (update (λ r. r.id == old.id) (λ r. record r { last_seen_at = s.now }) history, next)
      ]

unfoldable pub history_of : Scan → Option Text → Text → List IpHistory × ℕ → List IpHistory × ℕ
unfolding record_ip_history
history_of s none ip h = h
history_of s (some mac) ip h = if is_filled (some mac) then record_ip_history s mac ip h else h

abbrev pub status_of : DiscoveredDevice → ItemStatus
status_of d = if d.is_online then online else offline

-- `update(updates)` of a known device `x`
unfoldable pub refreshed : Scan → Option Text → DiscoveredDevice → Item → Item → Item
unfolding find_vendor
refreshed s mac d x i = record i {
  status = status_of d;
  last_seen_at = s.now;
  updated_at = s.now;
  discovered_by_probe_id = some s.probe_id;
  open_ports = if is_some d.open_ports then d.open_ports else i.open_ports;
  mac = if is_filled mac && not (is_filled x.mac) then mac else i.mac;
  ip = if is_filled mac && not (x.ip =ᵗ d.ip) then d.ip else i.ip;
  hostname =
      if is_filled d.hostname && not (x.hostname =ᵗ? d.hostname) then d.hostname else i.hostname;
  vendor =
      if not (is_filled x.vendor)
        && (is_filled mac && is_filled (find_vendor s.vendors.mac_vendors mac))
      then find_vendor s.vendors.mac_vendors mac
      else i.vendor;
}

abbrev new_item : Scan → ℕ → Option Text → DiscoveredDevice → Item
new_item s id mac d = record {
  id = id;
  site_id = s.site_id;
  tenant_id = s.tenant_id;
  ip = d.ip;
  mac = mac;
  hostname = d.hostname;
  custom_name = none;
  device_type =
      apply_vendor_rules s.vendors.vendor_type_rules s.tenant_id none
        (find_vendor s.vendors.mac_vendors mac);
  vendor = find_vendor s.vendors.mac_vendors mac;
  notes = none;
  status = status_of d;
  is_manual = false;
  discovered_by_probe_id = some s.probe_id;
  open_ports = d.open_ports;
  first_seen_at = s.now;
  last_seen_at = s.now;
  created_at = s.now;
  updated_at = s.now;
}

-- The row that a new device gets.
unfoldable pub inserted : Scan → ℕ → Option Text → DiscoveredDevice → Item
unfolding apply_vendor_rules find_vendor
inserted s id mac d = new_item s id mac d

-- `if (probeMac && mac === probeMac)`
abbrev ip_if_probe : Scan → Option Text → Text → Option Text → Option Text
ip_if_probe s mac ip old = if is_filled s.probe_mac && mac =ᵗ? s.probe_mac then some ip else old

abbrev report : Scan → Option Text → ChangeType → Report
report s mac change = record {
  key = record { tenant_id = s.tenant_id; site_id = s.site_id; mac = mac; change_type = change };
  now = s.now;
  probe_id = s.probe_id;
  is_primary = s.is_probe_primary;
}

abbrev change_of : DiscoveredDevice → ChangeType
change_of d = if d.is_online then ChangeType.online else ChangeType.offline

abbrev same_status : ItemStatus → ItemStatus → Bool
same_status online online = true
same_status offline offline = true
same_status ItemStatus.reserved ItemStatus.reserved = true
same_status ItemStatus.unknown ItemStatus.unknown = true
same_status _ _ = false

-- An event, unless the cache suppresses it.
unfoldable pub unless_dedup : Report → Output → DedupCache → List Output → DedupCache × List Output
unfolding should_dedup
unless_dedup r event cache outputs =
    let (skip, cache') = should_dedup r cache in
    (cache', if skip then outputs else outputs ++ event ∷ [])

abbrev unless_same :
    Bool → DedupCache × List Output → DedupCache × List Output → DedupCache × List Output
unless_same true same changed = same
unless_same false same changed = changed

abbrev moved : Option Text → DiscoveredDevice → Item → List Output
moved none d x = []
moved (some mac) d x =
    if is_filled (some mac) && not (x.ip =ᵗ d.ip) then ip_changed x.id mac x.ip d.ip ∷ [] else []

-- The branch of a device that has an item.
unfoldable pub refresh : Scan → Option Text → DiscoveredDevice → Item → Progress → Progress
unfolding refreshed history_of unless_dedup
refresh s mac d x p =
    let outputs = p.outputs ++ moved mac d x in
    let (history, next_history) = history_of s mac d.ip (p.history, p.next_history) in
    let (dedup, outputs') =
      unless_same (same_status x.status (status_of d)) (p.dedup, outputs)
        (unless_dedup (report s mac (change_of d)) (status_changed x.id (status_of d)) p.dedup
          outputs) in
    record p {
      items = update (λ i. i.id == x.id) (refreshed s mac d x) p.items;
      history = history;
      next_history = next_history;
      updated_item_ids = p.updated_item_ids ++ x.id ∷ [];
      dedup = dedup;
      probe_ip = ip_if_probe s mac d.ip p.probe_ip;
      outputs = outputs';
    }

-- The branch of a new device.
unfoldable pub discover : Scan → Option Text → DiscoveredDevice → Progress → Progress
unfolding inserted history_of unless_dedup find_vendor
discover s mac d p =
    let row = inserted s p.next_item mac d in
    let (history, next_history) = history_of s mac d.ip (p.history, p.next_history) in
    let (dedup, outputs) =
      unless_dedup (report s mac ChangeType.new)
        (new_device row.id d.ip mac row.vendor row.device_type) p.dedup p.outputs in
    record p {
      items = row ∷ p.items;
      next_item = suc p.next_item;
      history = history;
      next_history = next_history;
      updated_item_ids = p.updated_item_ids ++ row.id ∷ [];
      dedup = dedup;
      probe_ip = ip_if_probe s mac d.ip p.probe_ip;
      outputs = outputs ++ notify_new d.ip mac row.vendor d.hostname ∷ [];
    }

abbrev text_or : Text → Option Text → Text
text_or other none = other
text_or other (some t) = t

abbrev filled_or : Text → Option Text → Text
filled_or other t = if is_filled t then text_or other t else other

abbrev alert_of : DiscoveredDevice → Option Text → Item → Output
alert_of d mac old =
    takeover_alert d.ip (filled_or old.ip (or_text old.custom_name old.hostname))
      (text_or [] old.mac) (text_or [] mac)

unfoldable pub process_match : Scan → Option Text → DiscoveredDevice → Match → Progress → Progress
unfolding refresh discover
process_match s mac d (known x) p = refresh s mac d x p
process_match s mac d unseen p = discover s mac d p
process_match s mac d (takeover old) p =
    discover s mac d (record p { outputs = p.outputs ++ alert_of d mac old ∷ [] })

-- The body of the loop.
unfoldable pub process_device : Scan → DiscoveredDevice → Progress → Progress
unfolding mac_of find_match process_match
process_device s d p =
    process_match s (mac_of d.mac) d (find_match s.site_id (mac_of d.mac) d.ip p.items) p

unfoldable pub process_all : Scan → List DiscoveredDevice → Progress → Progress
unfolding process_device
process_all s [] p = p
process_all s (d ∷ ds) p = process_all s ds (process_device s d p)

-- The devices of the probe that it did not see in this push.
abbrev pub goes_offline : Scan → List ℕ → Item → Bool
goes_offline s seen i =
    ((i.site_id == s.site_id && i.tenant_id == s.tenant_id)
      && (i.discovered_by_probe_id ==? some s.probe_id && not i.is_manual))
    && (is_online i.status && not (elem i.id seen))

unfoldable pub offline_outputs : List Item → List Output
offline_outputs [] = []
offline_outputs (i ∷ is) =
    status_changed i.id offline
    ∷ notify_offline i.ip i.mac
        (if is_some i.custom_name then text_or i.ip i.custom_name else text_or i.ip i.hostname)
    ∷ offline_outputs is

unfoldable pub mark_offline : Scan → Progress → Progress
unfolding offline_outputs
mark_offline s p = record p {
  items =
      update (goes_offline s p.updated_item_ids)
        (λ i. record i { status = offline; updated_at = s.now }) p.items;
  outputs = p.outputs ++ offline_outputs (where_ (goes_offline s p.updated_item_ids) p.items);
}

-- `processDevices`
unfoldable pub process_devices : Scan → List DiscoveredDevice → Progress → Progress
unfolding process_all mark_offline
process_devices s devices p =
    mark_offline s (process_all s devices (record p { updated_item_ids = [] }))

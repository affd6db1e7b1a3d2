-- ===== src/Item.antt =====
-- The devices of a site: `processDevices` and its helpers in server/src/services/probe.service.ts over the tables
-- `site_items`, `item_ip_history`, `mac_vendors` and `vendor_type_rules`. A table lists its newest row first, and no write
-- fails. A message on the socket, a notification or an alert is an `Output` with the values that it is
-- made of.
pub mod Vendor
pub mod Process
pub mod Unique
pub mod Offline
pub mod Instability
mod Tests
use oblimap.Base.{
  ℕ, Bool, true, false, not, ◌&&◌, Option, none, some, List, [], ◌∷◌, ◌==◌, ◌==?◌, ◌=ᵗ◌, ◌=ᵗ?◌,
  if◌then◌else◌, Text,
}

pub data ItemStatus : Type 0 where
  online offline reserved unknown : ItemStatus

abbrev pub is_online : ItemStatus → Bool
is_online online = true
is_online offline = false
is_online reserved = false
is_online unknown = false

-- A row of `site_items`.
pub record Item : Type 0 where
  pub id : ℕ
  pub site_id : ℕ
  pub tenant_id : ℕ
  pub ip : Text
  pub mac : Option Text
  pub hostname : Option Text
  pub custom_name : Option Text
  pub device_type : Text
  pub vendor : Option Text
  pub notes : Option Text
  pub status : ItemStatus
  pub is_manual : Bool
  pub discovered_by_probe_id : Option ℕ
  pub open_ports : Option (List ℕ)
  pub first_seen_at : ℕ
  pub last_seen_at : ℕ
  pub created_at : ℕ
  pub updated_at : ℕ

-- A row of `item_ip_history`.
pub record IpHistory : Type 0 where
  pub id : ℕ
  pub mac : Text
  pub site_id : ℕ
  pub tenant_id : ℕ
  pub ip : Text
  pub first_seen_at : ℕ
  pub last_seen_at : ℕ

-- A device as a probe reports it.
pub record DiscoveredDevice : Type 0 where
  pub ip : Text
  pub mac : Option Text
  pub hostname : Option Text
  pub is_online : Bool
  pub open_ports : Option (List ℕ)

-- `!!text` for a nullable text.
abbrev pub is_filled : Option Text → Bool
is_filled none = false
is_filled (some []) = false
is_filled (some (c ∷ s)) = true

-- `a || b`
abbrev pub or_text : Option Text → Option Text → Option Text
or_text a b = if is_filled a then a else b

pub data Output : Type 0 where
  ip_changed : ℕ → Text → Text → Text → Output
  status_changed : ℕ → ItemStatus → Output
  new_device : ℕ → Text → Option Text → Option Text → Text → Output
  notify_new : Text → Option Text → Option Text → Option Text → Output
  notify_offline : Text → Option Text → Text → Output
  takeover_alert : Text → Text → Text → Text → Output

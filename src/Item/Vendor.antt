-- ===== src/Item/Vendor.antt =====
-- The vendor and the type of a device: `lookupVendor` and `applyVendorRules`.
use oblimap.Base.{
  ℕ, Bool, ◌&&◌, ◌||◌, Option, none, some, List, [], ◌∷◌, ◌==◌, ◌==?◌, ◌=ᵗ◌, if◌then◌else◌, truthy,
  is_some, where_, first, order_by_desc, take, map, Text, codes, to_upper, to_lower, includes,
}
use oblimap.Item.{is_filled}

-- A row of `mac_vendors`.
pub record MacVendor : Type 0 where
  pub prefix : Text
  pub vendor_name : Option Text
  pub custom_name : Option Text

-- A row of `vendor_type_rules`.
pub record VendorTypeRule : Type 0 where
  pub tenant_id : ℕ
  pub group_id : Option ℕ
  pub vendor_pattern : Text
  pub priority : ℕ
  pub device_type : Text

pub record VendorTables : Type 0 where
  pub mac_vendors : List MacVendor
  pub vendor_type_rules : List VendorTypeRule

abbrev pub vendor_of : Option MacVendor → Option Text
vendor_of none = none
vendor_of (some row) = if is_some row.custom_name then row.custom_name else row.vendor_name

-- `lookupVendor`
unfoldable pub lookup_vendor : List MacVendor → Text → Option Text
unfolding to_upper
lookup_vendor vendors mac =
    vendor_of (first (λ row. row.prefix =ᵗ map to_upper (take 8 mac)) vendors)

-- The loop of `applyVendorRules`.
unfoldable pub first_match : Text → List VendorTypeRule → Text
unfolding to_lower includes
first_match vendor [] = codes "unknown"
first_match vendor (rule ∷ rules) =
    let other = first_match vendor rules in
    if includes (map to_lower rule.vendor_pattern) (map to_lower vendor)
    then rule.device_type
    else other

abbrev in_scope : ℕ → Option ℕ → VendorTypeRule → Bool
in_scope tenant_id group_id rule =
    rule.tenant_id == tenant_id
    && (rule.group_id ==? none || (truthy group_id && rule.group_id ==? group_id))

-- `applyVendorRules`
unfoldable pub apply_vendor_rules : List VendorTypeRule → ℕ → Option ℕ → Option Text → Text
unfolding first_match
apply_vendor_rules rules tenant_id group_id none = codes "unknown"
apply_vendor_rules rules tenant_id group_id (some vendor) =
    if is_filled (some vendor)
    then first_match vendor
        (order_by_desc (λ r. r.priority) (where_ (in_scope tenant_id group_id) rules))
    else codes "unknown"

-- `mac ? await lookupVendor(mac) : null`; `normalizeMac` never makes an empty text of a text that is not.
unfoldable pub find_vendor : List MacVendor → Option Text → Option Text
unfolding lookup_vendor
find_vendor vendors none = none
find_vendor vendors (some mac) = lookup_vendor vendors mac

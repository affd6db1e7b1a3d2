-- ===== src/Ipam.antt =====
-- Sites, their devices and their reserved addresses: `siteService` of server/src/services/site.service.ts over the
-- tables `sites`, `site_items` and `ip_reservations`. The newest row comes first; the order of the lists that a
-- call returns is left out.
pub mod Marks
mod Tests
use oblimap.Base.{
  ℕ, Bool, true, false, not, ◌&&◌, ◌||◌, Option, none, some, List, [], ◌∷◌, ◌++◌, map, ◌==◌, ◌==?◌,
  ◌=ᵗ◌, ◌=ᵗ?◌, if◌then◌else◌, is_some, or_else, where_, any, first, update, length, count_where,
  Text, codes, starts_with, String,
}
use oblimap.Site.{Site, find_site}
use oblimap.Item.{Item, ItemStatus, online, offline, unknown, is_online, is_filled}
use oblimap.Flow.{in_subnet}
use oblimap.Probe.{Probe, is_approved}

-- A row of `ip_reservations`.
pub record IpReservation : Type 0 where
  pub id : ℕ
  pub site_id : ℕ
  pub tenant_id : ℕ
  pub ip : Text
  pub name : Text
  pub description : Option Text
  pub device_type : Option Text
  pub created_by : Option ℕ

abbrev pub of_site : ℕ → ℕ → Item → Bool
of_site tenant_id site_id i = i.site_id == site_id && i.tenant_id == tenant_id

abbrev pub is_offline : ItemStatus → Bool
is_offline online = false
is_offline offline = true
is_offline ItemStatus.reserved = false
is_offline unknown = false

-- The counts that `getSites` and `getSite` add to a site.
pub record SiteCounts : Type 0 where
  pub item_count : ℕ
  pub online_count : ℕ
  pub offline_count : ℕ
  pub probe_count : ℕ

unfoldable pub count_site : ℕ → ℕ → List Item → List Probe → SiteCounts
unfolding count_where
count_site tenant_id site_id items probes = record {
  item_count = count_where (of_site tenant_id site_id) items;
  online_count = count_where (λ i. of_site tenant_id site_id i && is_online i.status) items;
  offline_count = count_where (λ i. of_site tenant_id site_id i && is_offline i.status) items;
  probe_count =
      count_where
        (λ p. p.site_id ==? some site_id && (p.tenant_id == tenant_id && is_approved p.status))
        probes;
}

-- The options of `getSites`; none stands for `undefined`.
abbrev in_group : Option ℕ → Bool → Site → Bool
in_group none ungrouped s = not ungrouped || not (is_some s.group_id)
in_group (some g) ungrouped s = s.group_id ==? some g && (not ungrouped || not (is_some s.group_id))

-- `getSites`
unfoldable pub get_sites :
    ℕ → Option ℕ → Bool → List Site → List Item → List Probe → List (Site × SiteCounts)
unfolding count_site
get_sites tenant_id group_id ungrouped sites items probes =
    map (λ s. (s, count_site tenant_id s.id items probes))
      (where_ (λ s. s.tenant_id == tenant_id && in_group group_id ungrouped s) sites)

abbrev with_counts : ℕ → List Item → List Probe → Option Site → Option (Site × SiteCounts)
with_counts tenant_id items probes none = none
with_counts tenant_id items probes (some s) = some (s, count_site tenant_id s.id items probes)

-- `getSite`
unfoldable pub get_site : ℕ → ℕ → List Site → List Item → List Probe → Option (Site × SiteCounts)
unfolding count_site find_site
get_site tenant_id id sites items probes =
    with_counts tenant_id items probes (find_site tenant_id id sites)

-- `createSite`
unfoldable pub create_site : ℕ → ℕ → String → Option ℕ → List Site → List Site
create_site id tenant_id name group_id sites =
    record { id = id; name = name; group_id = group_id; tenant_id = tenant_id } ∷ sites

-- `updateSite`; none stands for `undefined`.
unfoldable pub update_site : ℕ → ℕ → Option String → Option (Option ℕ) → List Site → List Site
update_site tenant_id id name group_id sites =
    update (λ s. s.id == id && s.tenant_id == tenant_id)
      (λ s. record s { name = or_else name s.name; group_id = or_else group_id s.group_id }) sites

-- The rows that belong to sites.
pub record SiteTables : Type 0 where
  pub sites : List Site
  pub items : List Item
  pub reservations : List IpReservation
  pub probes : List Probe

-- `deleteSite`: the foreign keys of devices and reservations cascade, that of probes is set to null.
unfoldable pub delete_site : ℕ → ℕ → SiteTables → SiteTables
unfolding find_site
delete_site tenant_id id t =
    if is_some (find_site tenant_id id t.sites)
    then record {
      sites = where_ (λ s. not (s.id == id && s.tenant_id == tenant_id)) t.sites;
      items = where_ (λ i. not (i.site_id == id)) t.items;
      reservations = where_ (λ r. not (r.site_id == id)) t.reservations;
      probes = update (λ p. p.site_id ==? some id) (λ p. record p { site_id = none }) t.probes;
    }
    else t

-- `createManualItem`
unfoldable pub create_manual_item :
    ℕ
    → ℕ
    → ℕ
    → ℕ
    → Text
    → Option Text
    → Option Text
    → Option Text
    → Option Text
    → List Item
    → List Item
create_manual_item id now tenant_id site_id ip mac custom_name device_type notes items =
    record {
      id = id;
      site_id = site_id;
      tenant_id = tenant_id;
      ip = ip;
      mac = mac;
      hostname = none;
      custom_name = custom_name;
      device_type = or_else device_type (codes "unknown");
      vendor = none;
      notes = notes;
      status = unknown;
      is_manual = true;
      discovered_by_probe_id = none;
      open_ports = none;
      first_seen_at = now;
      last_seen_at = now;
      created_at = now;
      updated_at = now;
    }
    ∷ items

-- The changes of `updateItem`; none stands for `undefined`.
pub record ItemChanges : Type 0 where
  pub custom_name : Option (Option Text)
  pub device_type : Option Text
  pub notes : Option (Option Text)
  pub status : Option ItemStatus

abbrev is_item : ℕ → ℕ → ℕ → Item → Bool
is_item tenant_id site_id id i = i.id == id && of_site tenant_id site_id i

-- `updateItem`
unfoldable pub update_item : ℕ → ℕ → ℕ → ℕ → ItemChanges → List Item → Option Item × List Item
update_item now tenant_id site_id id u items =
    let after =
      update (is_item tenant_id site_id id)
        (λ i. record i {
          custom_name = or_else u.custom_name i.custom_name;
          device_type = or_else u.device_type i.device_type;
          notes = or_else u.notes i.notes;
          status = or_else u.status i.status;
          updated_at = now;
        })
        items in
    (first (is_item tenant_id site_id id) after, after)

-- `deleteItem`
unfoldable pub delete_item : ℕ → ℕ → ℕ → List Item → List Item
delete_item tenant_id site_id id items = where_ (λ i. not (is_item tenant_id site_id id i)) items

-- `deleteItemsBySubnet`: how many devices are gone, and the table; the prefix has no wildcard.
unfoldable pub delete_items_by_subnet : ℕ → ℕ → Text → List Item → ℕ × List Item
unfolding starts_with
delete_items_by_subnet tenant_id site_id prefix items = (
  length (where_ (λ i. of_site tenant_id site_id i && in_subnet prefix i.ip) items),
  where_ (λ i. not (of_site tenant_id site_id i && in_subnet prefix i.ip)) items,
)

-- `createReservation`
unfoldable pub create_reservation :
    ℕ
    → ℕ
    → ℕ
    → Text
    → Text
    → Option Text
    → Option Text
    → Option ℕ
    → List IpReservation
    → List IpReservation
create_reservation id tenant_id site_id ip name description device_type created_by reservations =
    record {
      id = id;
      site_id = site_id;
      tenant_id = tenant_id;
      ip = ip;
      name = name;
      description = description;
      device_type = device_type;
      created_by = created_by;
    }
    ∷ reservations

abbrev is_reservation : ℕ → ℕ → ℕ → IpReservation → Bool
is_reservation tenant_id site_id id r =
    r.id == id && (r.site_id == site_id && r.tenant_id == tenant_id)

-- `updateReservation`; none stands for `undefined`.
unfoldable pub update_reservation :
    ℕ
    → ℕ
    → ℕ
    → Option Text
    → Option (Option Text)
    → Option (Option Text)
    → List IpReservation
    → Option IpReservation × List IpReservation
update_reservation tenant_id site_id id name description device_type reservations =
    let after =
      update (is_reservation tenant_id site_id id)
        (λ r. record r {
          name = or_else name r.name;
          description = or_else description r.description;
          device_type = or_else device_type r.device_type;
        })
        reservations in
    (first (is_reservation tenant_id site_id id) after, after)

-- `deleteReservation`
unfoldable pub delete_reservation : ℕ → ℕ → ℕ → List IpReservation → List IpReservation
delete_reservation tenant_id site_id id reservations =
    where_ (λ r. not (is_reservation tenant_id site_id id r)) reservations

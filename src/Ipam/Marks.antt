-- ===== src/Ipam/Marks.antt =====
-- The marks that `getItems` and `getReservations` add to their rows.
pub mod Meaning
use oblimap.Base.{
  ℕ, ◌≡◌, refl, sym, ap, ◌∙◌, subst, Bool, true, false, not, ◌&&◌, ◌||◌, Option, none, some, List,
  [], ◌∷◌, ◌++◌, map, ◌==◌, ◌==?◌, ◌=ᵗ◌, ◌=ᵗ?◌, if◌then◌else◌, is_some, or_else, where_, any, first,
  Text, arith, Bool-cases, inl, inr, text_eq→≡, text_eq_refl,
}
use oblimap.Item.{Item, is_filled}
use oblimap.Probe.{Probe}
use oblimap.Ipam.{IpReservation, of_site, is_offline}

-- `Map<string, V>`, as the list of its entries
module _ {ℓ} {V : Type ℓ} where
  -- `map.get(k)`
  unfoldable pub get_text : Text → List (Text × V) → Option V
  get_text k [] = none
  get_text k ((j, v) ∷ m) = if k =ᵗ j then some v else get_text k m

  -- `map.set(k, v)`
  unfoldable pub set_text : Text → V → List (Text × V) → List (Text × V)
  set_text k v [] = (k, v) ∷ []
  set_text k v ((j, w) ∷ m) = if k =ᵗ j then (j, v) ∷ m else (j, w) ∷ set_text k v m

abbrev pub set_filled : Option Text → ℕ → List (Text × ℕ) → List (Text × ℕ)
set_filled none id m = m
set_filled (some t) id m = if is_filled (some t) then set_text t id m else m

-- `for (const ip of allIps) if (!probeByIp.has(ip)) probeByIp.set(ip, p.id)`
unfoldable pub set_missing : List Text → ℕ → List (Text × ℕ) → List (Text × ℕ)
unfolding get_text set_text
set_missing [] id m = m
set_missing (ip ∷ ips) id m =
    set_missing ips id (if is_some (get_text ip m) then m else set_text ip id m)

abbrev pub all_ips : Option (List Text) → List Text
all_ips none = []
all_ips (some ips) = ips

-- `probeByIp` and `probeByMac`
unfoldable pub probe_by_ip : List Probe → List (Text × ℕ) → List (Text × ℕ)
unfolding set_missing set_text
probe_by_ip [] m = m
probe_by_ip (p ∷ ps) m = probe_by_ip ps (set_missing (all_ips p.ips) p.id (set_filled p.ip p.id m))

unfoldable pub probe_by_mac : List Probe → List (Text × ℕ) → List (Text × ℕ)
unfolding set_text
probe_by_mac [] m = m
probe_by_mac (p ∷ ps) m = probe_by_mac ps (set_filled p.mac p.id m)

abbrev pub or_other : Option ℕ → Option ℕ → Option ℕ
or_other none b = b
or_other (some a) b = some a

-- `probeByMac.get(itemMac ?? '') ?? probeByIp.get(itemIp) ?? null`
unfoldable pub probe_of : List Probe → Item → Option ℕ
unfolding probe_by_ip probe_by_mac get_text
probe_of probes i =
    or_other (get_text (or_else i.mac []) (probe_by_mac probes []))
      (get_text i.ip (probe_by_ip probes []))

-- What `getItems` adds to a device.
pub record ItemMarks : Type 0 where
  pub has_reservation_conflict : Bool
  pub is_probe : Bool
  pub probe_id : Option ℕ

abbrev pub reserved_in : ℕ → ℕ → Text → IpReservation → Bool
reserved_in tenant_id site_id ip r =
    (r.site_id == site_id && r.tenant_id == tenant_id) && r.ip =ᵗ ip

abbrev pub probe_in : ℕ → ℕ → Probe → Bool
probe_in tenant_id site_id p = p.site_id ==? some site_id && p.tenant_id == tenant_id

-- `getItems`
unfoldable pub get_items :
    ℕ → ℕ → List Item → List IpReservation → List Probe → List (Item × ItemMarks)
unfolding probe_of
get_items tenant_id site_id items reservations probes =
    let site_probes = where_ (probe_in tenant_id site_id) probes in
    map
      (λ i. (
        i,
        record {
          has_reservation_conflict = any (reserved_in tenant_id site_id i.ip) reservations;
          is_probe = is_some (probe_of site_probes i);
          probe_id = probe_of site_probes i;
        },
      ))
      (where_ (of_site tenant_id site_id) items)

-- The map of occupied addresses: a later row replaces an earlier one.
unfoldable pub occupied : List Item → List (Text × Option Text) → List (Text × Option Text)
unfolding set_text
occupied [] m = m
occupied (i ∷ is) m = occupied is (set_text i.ip i.mac m)

abbrev pub mac_at : Option (Option Text) → Option Text
mac_at none = none
mac_at (some mac) = mac

-- What `getReservations` adds to a reservation.
pub record ReservationMarks : Type 0 where
  pub is_occupied : Bool
  pub occupied_by_mac : Option Text

abbrev pub occupies : ℕ → ℕ → List IpReservation → Item → Bool
occupies tenant_id site_id reservations i =
    of_site tenant_id site_id i
    && (any (λ r. r.ip =ᵗ i.ip) reservations && not (is_offline i.status))

-- `getReservations`
unfoldable pub get_reservations :
    ℕ → ℕ → List Item → List IpReservation → List (IpReservation × ReservationMarks)
unfolding occupied get_text
get_reservations tenant_id site_id items reservations =
    let own = where_ (λ r. r.site_id == site_id && r.tenant_id == tenant_id) reservations in
    let by_ip = occupied (where_ (occupies tenant_id site_id own) items) [] in
    map
      (λ r. (
        r,
        record {
          is_occupied = is_some (get_text r.ip by_ip);
          occupied_by_mac = mac_at (get_text r.ip by_ip);
        },
      ))
      own

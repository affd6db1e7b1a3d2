-- ===== src/Item/Instability.antt =====
-- `checkIpInstability`: addresses that three or more devices have had within half an hour.
use mathlib.Core.List.Memᴰ
use oblimap.Base.{
  ◌+◌, ◌-◌, ◌*◌, ◌≤◌, ◌≡◌, refl, sym, subst, ◌∙◌, Bool, true, false, ◌&&◌, List, [], ◌∷◌, ◌++◌,
  ◌==◌, ◌=ᵗ◌, leb, if◌then◌else◌, where_, where_→mem, mem→any, any→mem, any, any-append, length,
  Text, Memᴰ, arith, Bool-cases, Bool-ext, inl, inr, text_eq→≡, text_eq_refl,
}
use oblimap.Item.{IpHistory, DiscoveredDevice, is_filled}
use oblimap.Item.Process.{Scan, mac_of}

-- The keys of `seenIpMacs`: the addresses of devices with a MAC address.
unfoldable pub seen_ips : List DiscoveredDevice → List Text
unfolding mac_of
seen_ips [] = []
seen_ips (d ∷ ds) = if is_filled (mac_of d.mac) then d.ip ∷ seen_ips ds else seen_ips ds

-- `macsByIp.get(ip).add(mac)`, with an empty set for a new address
unfoldable pub add_mac : Text → Text → List (Text × List Text) → List (Text × List Text)
add_mac ip mac [] = (ip, mac ∷ []) ∷ []
add_mac ip mac ((j, macs) ∷ m) =
    let wider = macs ++ mac ∷ [] in
    if ip =ᵗ j
    then (j, if any (λ t. mac =ᵗ t) macs then macs else wider) ∷ m
    else (j, macs) ∷ add_mac ip mac m

-- `macsByIp`
unfoldable pub macs_by_ip : List IpHistory → List (Text × List Text) → List (Text × List Text)
unfolding add_mac
macs_by_ip [] m = m
macs_by_ip (r ∷ rs) m = macs_by_ip rs (add_mac r.ip r.mac m)

-- The rows of the window, `windowMs` being half an hour.
abbrev pub is_recent : Scan → List Text → IpHistory → Bool
is_recent s ips r =
    (r.site_id == s.site_id && r.tenant_id == s.tenant_id)
    && (any (λ t. r.ip =ᵗ t) ips && leb (s.now - 30 * 60 * 1000) r.last_seen_at)

-- `checkIpInstability`: the addresses that it warns of, with their MAC addresses.
unfoldable pub check_ip_instability :
    Scan → List DiscoveredDevice → List IpHistory → List (Text × List Text)
unfolding seen_ips macs_by_ip
check_ip_instability s devices history =
    where_ (λ e. leb 3 (length e.1))
      (macs_by_ip (where_ (is_recent s (seen_ips devices)) history) [])

-- No text occurs twice.
unfoldable pub AreDistinct : List Text → Type 0
AreDistinct [] = Unit
AreDistinct (t ∷ ts) = (any (λ u. t =ᵗ u) ts ≡ false) × AreDistinct ts

text_eq_sym : (s t : Text) → (s =ᵗ t) ≡ (t =ᵗ s)
text_eq_sym s t =
    Bool-ext _ _ (λ h. subst (λ u. (u =ᵗ s) ≡ true) (text_eq→≡ s t h) (text_eq_refl s))
      (λ h. subst (λ u. (u =ᵗ t) ≡ true) (text_eq→≡ t s h) (text_eq_refl t))

AreDistinct-append :
    (ts : List Text) (t : Text)
    → AreDistinct ts
    → any (λ u. t =ᵗ u) ts ≡ false
    → AreDistinct (ts ++ t ∷ [])
unfolding AreDistinct any
AreDistinct-append [] t d h = (refl, tt)
AreDistinct-append (x ∷ xs) t (f, d) h = (
  any-append (λ u. x =ᵗ u) xs (t ∷ []) ∙ ground (arith, f, h, text_eq_sym t x),
  AreDistinct-append xs t d (ground (arith, h)),
)

-- Different MAC addresses, each of which some row gives to the address.
IsHeld : List IpHistory → Text × List Text → Type 0
IsHeld rows e =
    AreDistinct e.1
    × ((mac : Text)
        → any (λ t. mac =ᵗ t) e.1 ≡ true
        → any (λ r. r.ip =ᵗ e.0 && r.mac =ᵗ mac) rows ≡ true)

AreHeld : List IpHistory → List (Text × List Text) → Type 0
AreHeld rows m = (e : Text × List Text) → Memᴰ e m → IsHeld rows e

own_row :
    (rows : List IpHistory) (r : IpHistory)
    → Memᴰ r rows
    → (ip mac : Text) → (r.ip =ᵗ ip) ≡ true
    → (mac =ᵗ r.mac) ≡ true
    → any (λ x. x.ip =ᵗ ip && x.mac =ᵗ mac) rows ≡ true
own_row rows r m ip mac h k =
    mem→any (λ x. x.ip =ᵗ ip && x.mac =ᵗ mac) r m (ground (arith, h, k, text_eq_sym mac r.mac))

first-IsHeld :
    (rows : List IpHistory) (r : IpHistory) → Memᴰ r rows → IsHeld rows (r.ip, r.mac ∷ [])
unfolding IsHeld any AreDistinct
first-IsHeld rows r at_ =
    ((refl, tt), λ mac k. own_row rows r at_ r.ip mac (text_eq_refl r.ip) (ground (arith, k)))

wider-IsHeld :
    (rows : List IpHistory) (r : IpHistory) (j : Text) (macs : List Text)
    → Memᴰ r rows
    → (r.ip =ᵗ j) ≡ true
    → any (λ t. r.mac =ᵗ t) macs ≡ false
    → IsHeld rows (j, macs)
    → IsHeld rows (j, macs ++ r.mac ∷ [])
unfolding IsHeld any
wider-IsHeld rows r j macs at_ hit new (d, held) = (
  AreDistinct-append macs r.mac d new,
  λ mac k. elim (Bool-cases (mac =ᵗ r.mac)) [
    | inl own ↦ own_row rows r at_ j mac hit own
    | inr old ↦
        held mac (ground (arith, old, sym (any-append (λ t. mac =ᵗ t) macs (r.mac ∷ [])) ∙ k))
  ],
)

add_mac-AreHeld :
    (rows : List IpHistory) (r : IpHistory) (m : List (Text × List Text))
    → Memᴰ r rows
    → AreHeld rows m
    → AreHeld rows (add_mac r.ip r.mac m)
unfolding add_mac AreHeld
add_mac-AreHeld rows r [] at_ h e n = elim (Memᴰ.cases_cons n) [
  | inl q ↦ subst (IsHeld rows) (sym q) (first-IsHeld rows r at_)
  | inr o ↦ elim o [ ]
]
add_mac-AreHeld rows r ((j, macs) ∷ m) at_ h e n = elim (Bool-cases (r.ip =ᵗ j)) [
  | inl hit ↦ elim (Memᴰ.cases_cons (rw hit at n)) [
    | inl q ↦ elim (Bool-cases (any (λ t. r.mac =ᵗ t) macs)) [
      | inl known ↦ subst (IsHeld rows) (sym (rw known at q)) (h (j, macs) (Memᴰ.head refl))
      | inr new ↦
          subst (IsHeld rows) (sym (rw new at q))
            (wider-IsHeld rows r j macs at_ hit new (h (j, macs) (Memᴰ.head refl)))
    ]
    | inr o ↦ h e (Memᴰ.tail o)
  ]
  | inr miss ↦ elim (Memᴰ.cases_cons (rw miss at n)) [
    | inl q ↦ subst (IsHeld rows) (sym q) (h (j, macs) (Memᴰ.head refl))
    | inr o ↦ add_mac-AreHeld rows r m at_ (λ x k. h x (Memᴰ.tail k)) e o
  ]
]

macs_by_ip-AreHeld :
    (rows todo : List IpHistory) (m : List (Text × List Text))
    → ((r : IpHistory) → Memᴰ r todo → Memᴰ r rows)
    → AreHeld rows m
    → AreHeld rows (macs_by_ip todo m)
unfolding macs_by_ip
macs_by_ip-AreHeld rows [] m sub h = h
macs_by_ip-AreHeld rows (r ∷ rs) m sub h =
    macs_by_ip-AreHeld rows rs (add_mac r.ip r.mac m) (λ x k. sub x (Memᴰ.tail k))
      (add_mac-AreHeld rows r m (sub r (Memᴰ.head refl)) h)

-- The rows that `is_recent` selects are in the history, in the site and tenant, and of the window.
recent_row :
    (s : Scan) (ips : List Text) (history : List IpHistory) (ip mac : Text)
    → any (λ r. r.ip =ᵗ ip && r.mac =ᵗ mac) (where_ (is_recent s ips) history) ≡ true
    → (r : IpHistory) × Memᴰ r history
      × (r.site_id ≡ s.site_id)
      × (r.tenant_id ≡ s.tenant_id)
      × (s.now ≤ r.last_seen_at + 30 * 60 * 1000)
      × (r.ip ≡ ip)
      × (r.mac ≡ mac)
      × (any (λ t. r.ip =ᵗ t) ips ≡ true)
recent_row s ips history ip mac h =
    let (r, m, t) = any→mem (λ r. r.ip =ᵗ ip && r.mac =ᵗ mac) _ h in
    let (n, u) = where_→mem (is_recent s ips) r history m in
    (
      r,
      n,
      ground (arith, u),
      ground (arith, u),
      ground (arith, u),
      text_eq→≡ r.ip ip (ground (arith, t)),
      text_eq→≡ r.mac mac (ground (arith, t)),
      ground (arith, u),
    )

-- The devices that have a MAC address, as the code reads it.
seen_ip→device :
    (ip : Text) (ds : List DiscoveredDevice)
    → any (λ t. ip =ᵗ t) (seen_ips ds) ≡ true
    → (d : DiscoveredDevice) × Memᴰ d ds × (d.ip ≡ ip) × (is_filled (mac_of d.mac) ≡ true)
unfolding seen_ips any
seen_ip→device ip [] h = absurd (ground (arith, h))
seen_ip→device ip (d ∷ ds) h = elim (Bool-cases (is_filled (mac_of d.mac))) [
  | inl f ↦ elim (Bool-cases (ip =ᵗ d.ip)) [
    | inl e ↦ (d, Memᴰ.head refl, sym (text_eq→≡ ip d.ip e), f)
    | inr e ↦
        let (x, m, q, g) = seen_ip→device ip ds (ground (arith, rw (f, e) at h)) in
        (x, Memᴰ.tail m, q, g)
  ]
  | inr f ↦ let (x, m, q, g) = seen_ip→device ip ds (rw f at h) in (x, Memᴰ.tail m, q, g)
]

-- A warning names at least three different MAC addresses, and the history has for each of them a row of the
-- site and tenant, seen within the last half hour, with that MAC address and the address that the warning is
-- about, which a device of this push with a MAC address has.
pub check_ip_instability-held :
    (s : Scan) (devices : List DiscoveredDevice) (history : List IpHistory) (ip : Text)
    (macs : List Text)
    → Memᴰ (ip, macs) (check_ip_instability s devices history)
    → (3 ≤ length macs)
      × AreDistinct macs
      × ((mac : Text)
          → any (λ t. mac =ᵗ t) macs ≡ true
          → ((r : IpHistory) × Memᴰ r history
              × (r.site_id ≡ s.site_id)
              × (r.tenant_id ≡ s.tenant_id)
              × (s.now ≤ r.last_seen_at + 30 * 60 * 1000)
              × (r.ip ≡ ip)
              × (r.mac ≡ mac))
            × ((d : DiscoveredDevice) × Memᴰ d devices
                × (d.ip ≡ ip)
                × (is_filled (mac_of d.mac) ≡ true)))
unfolding check_ip_instability AreHeld IsHeld
check_ip_instability-held s devices history ip macs m =
    let rows = where_ (is_recent s (seen_ips devices)) history in
    let (n, t) = where_→mem (λ e. leb 3 (length e.1)) (ip, macs) (macs_by_ip rows []) m in
    let (d, held) = macs_by_ip-AreHeld rows rows [] (λ r k. k) (λ e k. elim k [ ]) (ip, macs) n in
    (
      ground (arith, t),
      d,
      λ mac k.
          let (r, at_, site, tenant, window, same_ip, same_mac, seen) =
            recent_row s (seen_ips devices) history ip mac (held mac k) in
          (
            (r, at_, site, tenant, window, same_ip, same_mac),
            seen_ip→device ip devices
                (subst (λ i. any (λ t. i =ᵗ t) (seen_ips devices) ≡ true) same_ip seen),
          ),
    )

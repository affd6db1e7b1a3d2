-- ===== src/Item/Offline.antt =====
-- Which devices are online after a push.
use oblimap.Base.{
  ℕ, ◌≡◌, refl, sym, ap, subst, ◌∙◌, Bool, true, false, not, ◌&&◌, ◌||◌, Option, none, some, List,
  [], ◌∷◌, ◌++◌, ◌==◌, ==_iff, ==_refl, ◌==?◌, ◌=ᵗ◌, ◌=ᵗ?◌, text_eq→≡, first, update, update→mem,
  same_row, mem-count, elem, elem-append, first→mem, Text, Memᴰ, arith, Bool-cases, inl, inr, ◌⊎◌,
}
use oblimap.Item.{Item, DiscoveredDevice, is_filled, is_online}
use oblimap.Item.Process.{
  Scan, Progress, Match, known, takeover, unseen, match_ip, match_mac, by_mac, find_match,
  refreshed, inserted, status_of, refresh, discover, process_match, process_device, process_all,
  mark_offline, process_devices, goes_offline, mac_of,
}
use oblimap.Item.Unique.{IsKeyed, MatchFacts, find_match_facts, process_match-IsKeyed}

status_of_online : (d : DiscoveredDevice) → is_online (status_of d) ≡ true → d.is_online ≡ true
status_of_online d h = ground (arith, h)

-- A known item has the device's address, or moves to it.
IpFacts : Option Text → Text → Match → Type 0
IpFacts mac ip (known x) = (x.ip ≡ ip) ⊎ (is_filled mac ≡ true)
IpFacts mac ip (takeover x) = Unit
IpFacts mac ip unseen = Unit

by_mac_filled :
    (site : ℕ) (mac : Option Text) (items : List Item) (x : Item)
    → by_mac site mac items ≡ some x
    → is_filled mac ≡ true
unfolding by_mac
by_mac_filled site none items x h = absurd (ground (arith, h))
by_mac_filled site (some []) items x h = absurd (ground (arith, h))
by_mac_filled site (some (c ∷ t)) items x h = refl

match_ip_at :
    (site : ℕ) (mac : Option Text) (ip : Text) (items : List Item) (o : Option Item)
    → first (λ i. i.site_id == site && i.ip =ᵗ ip) items ≡ o
    → IpFacts mac ip (match_ip mac o)
unfolding IpFacts match_ip
match_ip_at site mac ip items none h = tt
match_ip_at site mac ip items (some x) h =
    elim (Bool-cases (is_filled mac && (is_filled x.mac && not (x.mac =ᵗ? mac)))) [
      | inl e ↦ rw e tt
      | inr e ↦
          let (m, t) = first→mem (λ i. i.site_id == site && i.ip =ᵗ ip) x items h in
          rw e (inl (text_eq→≡ x.ip ip (ground (arith, t))))
    ]

find_match_at :
    (site : ℕ) (mac : Option Text) (ip : Text) (items : List Item)
    → IpFacts mac ip (find_match site mac ip items)
unfolding find_match IpFacts match_mac
find_match_at site mac ip items = go (by_mac site mac items) refl
  where
    go :
        (o : Option Item)
        → by_mac site mac items ≡ o
        → IpFacts mac ip (match_mac mac o (first (λ i. i.site_id == site && i.ip =ᵗ ip) items))
    go none h = match_ip_at site mac ip items _ refl
    go (some x) h = inr (by_mac_filled site mac items x h)

refreshed_ip :
    (s : Scan) (mac : Option Text) (d : DiscoveredDevice) (x : Item)
    → (x.ip ≡ d.ip) ⊎ (is_filled mac ≡ true)
    → (refreshed s mac d x x).ip ≡ d.ip
unfolding refreshed
refreshed_ip s mac d x f = elim (Bool-cases (x.ip =ᵗ d.ip)) [
  | inl e ↦
      let q : x.ip ≡ d.ip = text_eq→≡ x.ip d.ip e in
      elim (Bool-cases (is_filled mac)) [ inl g ↦ rw (g, e) q | inr g ↦ rw g q ]
  | inr e ↦ elim f [
    | inl q ↦ elim (Bool-cases (is_filled mac)) [ inl g ↦ rw (g, e) refl | inr g ↦ rw g q ]
    | inr g ↦ rw (g, e) refl
  ]
]

-- The items that the push has updated so far and that are online are at an address that was reported online.
AreReported : (Text → Type 0) → List ℕ → List Item → Type 0
AreReported Reported seen items =
    (i : Item) → Memᴰ i items → elem i.id seen ≡ true → is_online i.status ≡ true → Reported i.ip

module _ (Reported : Text → Type 0) where
  refreshed-AreReported :
      (s : Scan) (mac : Option Text) (d : DiscoveredDevice) (x : Item) (items : List Item)
      (next : ℕ) (seen : List ℕ)
      → IsKeyed items next
      → Memᴰ x items
      → (x.ip ≡ d.ip) ⊎ (is_filled mac ≡ true)
      → (d.is_online ≡ true → Reported d.ip)
      → AreReported Reported seen items
      → AreReported Reported
          (seen ++ x.id ∷ [])
          (update (λ i. i.id == x.id) (refreshed s mac d x) items)
  unfolding AreReported elem refreshed
  refreshed-AreReported s mac d x items next seen k at_ f r old y m shown on =
      let (i, n, e) = update→mem (λ i. i.id == x.id) (refreshed s mac d x) y items m in
      elim (Bool-cases (i.id == x.id)) [
        | inl hit ↦
            let it : i ≡ x = same_row (λ z. z.id) i x k.distinct n at_ ((==_iff _ _).0 hit) in
            let y_is : y ≡ refreshed s mac d x x = (rw hit at e) ∙ ap (refreshed s mac d x) it in
            subst Reported (sym (ap (λ z. z.ip) y_is ∙ refreshed_ip s mac d x f))
              (r (status_of_online d (patched (ap (λ z. is_online z.status) y_is) on)))
        | inr miss ↦
            let y_is : y ≡ i = rw miss at e in
            let old_id : (elem i.id seen || (i.id == x.id || false)) ≡ true =
              sym (elem-append i.id seen (x.id ∷ []))
              ∙ subst (λ z. elem z.id (seen ++ x.id ∷ []) ≡ true) y_is shown in
            subst (λ z. Reported z.ip) (sym y_is)
              (old i n (ground (arith, old_id, miss))
                (subst (λ z. is_online z.status ≡ true) y_is on))
      ]
    where
      patched : {b c : Bool} → b ≡ c → b ≡ true → c ≡ true
      patched q h = sym q ∙ h

  inserted-AreReported :
      (s : Scan) (mac : Option Text) (d : DiscoveredDevice) (items : List Item) (next : ℕ)
      (seen : List ℕ)
      → IsKeyed items next
      → (d.is_online ≡ true → Reported d.ip)
      → AreReported Reported seen items
      → AreReported Reported (seen ++ next ∷ []) (inserted s next mac d ∷ items)
  unfolding AreReported inserted elem
  inserted-AreReported s mac d items next seen k r old y (Memᴰ.head e) shown on =
      subst (λ z. Reported z.ip) (sym e)
        (r (status_of_online d (subst (λ z. is_online z.status ≡ true) e on)))
  inserted-AreReported s mac d items next seen k r old y (Memᴰ.tail m) shown on =
      let older : (y.id == next) ≡ false = elim (Bool-cases (y.id == next)) [
        | inl q ↦ absurd (
            ground (
              arith,
              k.fresh y.id (ground (arith, q)),
              mem-count (λ i. i.id == y.id) y m (==_refl y.id),
            ))
        | inr q ↦ q
      ] in
      let old_id : (elem y.id seen || (y.id == next || false)) ≡ true =
        sym (elem-append y.id seen (next ∷ [])) ∙ shown in
      old y m (ground (arith, old_id, older)) on

  process_match-AreReported :
      (s : Scan) (mac : Option Text) (d : DiscoveredDevice) (m : Match) (p : Progress)
      → IsKeyed p.items p.next_item
      → MatchFacts s.site_id mac p.items m
      → IpFacts mac d.ip m
      → (d.is_online ≡ true → Reported d.ip)
      → AreReported Reported p.updated_item_ids p.items
      → AreReported Reported
          (process_match s mac d m p).updated_item_ids
          (process_match s mac d m p).items
  unfolding process_match refresh discover MatchFacts IpFacts
  process_match-AreReported s mac d (known x) p k f g r old =
      refreshed-AreReported s mac d x p.items p.next_item p.updated_item_ids k f.0 g r old
  process_match-AreReported s mac d (takeover x) p k f g r old =
      inserted-AreReported s mac d p.items p.next_item p.updated_item_ids k r old
  process_match-AreReported s mac d unseen p k f g r old =
      inserted-AreReported s mac d p.items p.next_item p.updated_item_ids k r old

  process_all-AreReported :
      (s : Scan) (ds : List DiscoveredDevice) (p : Progress)
      → IsKeyed p.items p.next_item
      → ((d : DiscoveredDevice) → Memᴰ d ds → d.is_online ≡ true → Reported d.ip)
      → AreReported Reported p.updated_item_ids p.items
      → AreReported Reported (process_all s ds p).updated_item_ids (process_all s ds p).items
  unfolding process_all process_device
  process_all-AreReported s [] p k r old = old
  process_all-AreReported s (d ∷ ds) p k r old =
      let m = find_match s.site_id (mac_of d.mac) d.ip p.items in
      let f = find_match_facts s.site_id (mac_of d.mac) d.ip p.items in
      process_all-AreReported s ds (process_device s d p)
        (process_match-IsKeyed s (mac_of d.mac) d m p k f) (λ e n. r e (Memᴰ.tail n))
        (process_match-AreReported s (mac_of d.mac) d m p k f
          (find_match_at s.site_id (mac_of d.mac) d.ip p.items) (r d (Memᴰ.head refl)) old)

-- An item that this probe found in this site, and nobody entered by hand.
abbrev pub is_own : Scan → Item → Bool
is_own s i =
    (i.site_id == s.site_id && i.tenant_id == s.tenant_id)
    && (i.discovered_by_probe_id ==? some s.probe_id && not i.is_manual)

-- If ids are distinct and below the next one and no site has two items with one MAC address: after a push,
-- every item of the site and tenant that its probe found, that nobody entered by hand and that is online
-- is at the address of a device that this push reported as online.
pub process_devices-online :
    (s : Scan) (ds : List DiscoveredDevice) (p : Progress) (i : Item)
    → IsKeyed p.items p.next_item
    → Memᴰ i (process_devices s ds p).items
    → is_own s i ≡ true
    → is_online i.status ≡ true
    → (d : DiscoveredDevice) × Memᴰ d ds × (d.is_online ≡ true) × (i.ip ≡ d.ip)
unfolding process_devices mark_offline AreReported elem
process_devices-online s ds p i k m own on =
    let fresh = record p { updated_item_ids = [] } in
    let done = process_all s ds fresh in
    let (x, n, e) = update→mem (goes_offline s done.updated_item_ids) _ i done.items m in
    elim (Bool-cases (goes_offline s done.updated_item_ids x)) [
      | inl hit ↦
          let off = rw hit at e in
          absurd (ground (arith, subst (λ z. is_online z.status ≡ true) off on))
      | inr miss ↦
          let same : i ≡ x = rw miss at e in
          let x_own : is_own s x ≡ true = subst (λ z. is_own s z ≡ true) same own in
          let x_on : is_online x.status ≡ true = subst (λ z. is_online z.status ≡ true) same on in
          let seen : elem x.id done.updated_item_ids ≡ true = ground (arith, miss, x_own, x_on) in
          subst (λ z. (d : DiscoveredDevice) × Memᴰ d ds × (d.is_online ≡ true) × (z.ip ≡ d.ip))
            (sym same)
            (process_all-AreReported
              (λ ip. (d : DiscoveredDevice) × Memᴰ d ds × (d.is_online ≡ true) × (ip ≡ d.ip)) s ds
              fresh k (λ d h o. (d, h, o, refl)) (λ y h shown o. absurd (ground (arith, shown))) x n
              seen x_on)
    ]

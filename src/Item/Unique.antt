-- ===== src/Item/Unique.antt =====
-- A push keeps the MAC addresses of a site apart.
use oblimap.Base.{
  ℕ, suc, ◌≤◌, ◌≡◌, refl, sym, ap, subst, Bool, true, false, not, ◌&&◌, Option, none, some, List,
  [], ◌∷◌, ◌==◌, ==_iff, ◌=ᵗ◌, ◌=ᵗ?◌, text_eq→≡, if◌then◌else◌, first, update, where_, count_where,
  count-update, count-update_same, count_none, count_mono, count_disjoint, mem-count, first→mem,
  first-none-count, Text, Memᴰ, arith, Bool-cases, inl, inr,
}
use oblimap.Item.{Item, DiscoveredDevice, is_filled}
use oblimap.Item.Process.{
  Scan, Progress, Match, known, takeover, unseen, match_ip, match_mac, by_mac, find_match,
  refreshed, inserted, refresh, discover, process_match, process_device, process_all, mark_offline,
  process_devices, goes_offline, mac_of,
}

-- The item with this address in this site.
abbrev pub has_mac : ℕ → Text → Item → Bool
has_mac site_id mac i = i.site_id == site_id && i.mac =ᵗ? some mac

-- Ids are distinct and below the next one, and no site has two items with the same MAC address.
pub record IsKeyed (items : List Item) (next : ℕ) : Type 0 where
  pub distinct : (id : ℕ) → count_where (λ i. i.id == id) items ≤ 1
  pub fresh : (id : ℕ) → next ≤ id → count_where (λ i. i.id == id) items ≡ 0
  pub apart :
      (site : ℕ) (mac : Text)
      → is_filled (some mac) ≡ true
      → count_where (has_mac site mac) items ≤ 1

-- Rows of one id that move to a test are at most one, and none if the row of that id is elsewhere.
moved_le_one :
    (items : List Item) (next id : ℕ) (test : Item → Bool)
    → IsKeyed items next
    → count_where (λ i. i.id == id && test i) items ≤ 1
moved_le_one items next id test k = omega (
  arith,
  k.distinct id,
  count_mono (λ i. i.id == id && test i) (λ i. i.id == id) items (λ i h. ground (arith, h)),
)

moved_elsewhere :
    (items : List Item) (next : ℕ) (x : Item) (test : Item → Bool) (site : ℕ)
    → IsKeyed items next
    → Memᴰ x items
    → (x.site_id == site) ≡ false
    → ((i : Item) → test i ≡ true → (i.site_id == site) ≡ true)
    → count_where (λ i. i.id == x.id && test i) items ≡ 0
moved_elsewhere items next x test site k m apart inside = omega (
  arith,
  k.distinct x.id,
  mem-count (λ i. i.id == x.id && i.site_id == x.site_id) x m (ground arith),
  count_disjoint (λ i. i.id == x.id && test i) (λ i. i.id == x.id && i.site_id == x.site_id)
      (λ i. i.id == x.id) items (λ i h. ground (arith, h)) (λ i h. ground (arith, h))
      (λ i. ground (arith, inside i, apart)),
)

-- The patch keeps the address of a row that has one, and sets it where there was none.
refreshed_mac :
    (s : Scan) (mac : Option Text) (d : DiscoveredDevice) (x i : Item)
    → (refreshed s mac d x i).mac ≡ (if is_filled mac && not (is_filled x.mac) then mac else i.mac)
unfolding refreshed
refreshed_mac s mac d x i = refl

-- A patch that leaves ids, sites and addresses alone.
kept-IsKeyed :
    (hit : Item → Bool) (change : Item → Item) (items : List Item) (next : ℕ)
    → ((i : Item) → (change i).id ≡ i.id)
    → ((i : Item) → (change i).site_id ≡ i.site_id)
    → ((i : Item) → (change i).mac ≡ i.mac)
    → IsKeyed items next
    → IsKeyed (update hit change items) next
kept-IsKeyed hit change items next ids sites macs k = record {
  distinct = λ id.
      rw (count-update_same (λ i. i.id == id) hit change items (λ i. ap (λ n. n == id) (ids i)))
        (k.distinct id);
  fresh = λ id h.
      rw (count-update_same (λ i. i.id == id) hit change items (λ i. ap (λ n. n == id) (ids i)))
        (k.fresh id h);
  apart = λ site mac f.
      rw
        (count-update_same (has_mac site mac) hit change items
          (λ i. λ j. sites i j == site && macs i j =ᵗ? some mac))
        (k.apart site mac f);
}

-- The patch gives an address that the site does not have yet to a row of that site.
set-IsKeyed :
    (s : Scan) (m : Text) (d : DiscoveredDevice) (x : Item) (items : List Item) (next : ℕ)
    → IsKeyed items next
    → Memᴰ x items
    → (x.site_id == s.site_id) ≡ true
    → (is_filled (some m) && not (is_filled x.mac)) ≡ true
    → count_where (has_mac s.site_id m) items ≡ 0
    → IsKeyed (update (λ i. i.id == x.id) (refreshed s (some m) d x) items) next
unfolding refreshed
set-IsKeyed s m d x items next k at_ here sets absent = record {
  distinct =
      λ id. rw (count-update_same (λ i. i.id == id) hit change items (λ i. refl)) (k.distinct id);
  fresh =
      λ id h. rw (count-update_same (λ i. i.id == id) hit change items (λ i. refl)) (k.fresh id h);
  apart = λ site mac f.
      let bound = count-update (has_mac site mac) hit change items in
      elim (Bool-cases (m =ᵗ mac)) [
        | inl same ↦ elim (Bool-cases (s.site_id == site)) [
          | inl own ↦
              let none_yet : count_where (has_mac site mac) items ≡ 0 =
                subst (λ n. count_where (has_mac n mac) items ≡ 0) ((==_iff _ _).0 own)
                  (subst (λ t. count_where (has_mac s.site_id t) items ≡ 0) (text_eq→≡ m mac same)
                    absent) in
              omega (
                arith,
                bound,
                none_yet,
                moved_le_one items next x.id (λ i. has_mac site mac (change i)) k,
              )
          | inr other ↦ omega (
            arith,
            bound,
            k.apart site mac f,
            moved_elsewhere items next x (λ i. has_mac site mac (change i)) site k at_
                (ground (arith, here, other)) (λ i h. ground (arith, h)),
          )
        ]
        | inr differs ↦ omega (
          arith,
          bound,
          k.apart site mac f,
          count_none (λ i. i.id == x.id && has_mac site mac (change i)) items
              (λ i. rw sets (ground (arith, differs))),
        )
      ];
}
  where
    hit : Item → Bool
    hit i = i.id == x.id

    change : Item → Item
    change = refreshed s (some m) d x

-- The site has no item with the address, if it is one.
unfoldable pub IsAbsent : ℕ → Option Text → List Item → Type 0
IsAbsent site mac items =
    (m : Text) → mac ≡ some m → is_filled (some m) ≡ true → count_where (has_mac site m) items ≡ 0

inserted-IsKeyed :
    (s : Scan) (mac : Option Text) (d : DiscoveredDevice) (items : List Item) (next : ℕ)
    → IsKeyed items next
    → IsAbsent s.site_id mac items
    → IsKeyed (inserted s next mac d ∷ items) (suc next)
unfolding IsAbsent inserted count_where where_
inserted-IsKeyed s mac d items next k absent = record {
  distinct = λ id. ground (arith, k.distinct id, k.fresh id);
  fresh = λ id h. ground (arith, h, k.fresh id (omega (arith, h)));
  apart = λ site m f. elim (Bool-cases (s.site_id == site && mac =ᵗ? some m)) [
    | inl hit ↦
        let same : mac ≡ some m = filled mac m (ground (arith, hit)) in
        let own : s.site_id ≡ site = (==_iff _ _).0 (ground (arith, hit)) in
        let none_yet : count_where (has_mac site m) items ≡ 0 =
          subst (λ n. count_where (has_mac n m) items ≡ 0) own (absent m same f) in
        rw hit (omega (arith, none_yet))
    | inr miss ↦ rw miss (k.apart site m f)
  ];
}
  where
    filled : (o : Option Text) (m : Text) → (o =ᵗ? some m) ≡ true → o ≡ some m
    filled none m h = absurd (ground (arith, h))
    filled (some t) m h = ap some (text_eq→≡ t m h)

-- What the search for a device's item tells.
unfoldable pub MatchFacts : ℕ → Option Text → List Item → Match → Type 0
MatchFacts site mac items (known x) =
    Memᴰ x items
    × (((x.site_id == site) ≡ true)
        × ((is_filled mac && not (is_filled x.mac)) ≡ true → IsAbsent site mac items))
MatchFacts site mac items (takeover x) = IsAbsent site mac items
MatchFacts site mac items unseen = IsAbsent site mac items

by_mac-none :
    (site : ℕ) (mac : Option Text) (items : List Item)
    → by_mac site mac items ≡ none
    → IsAbsent site mac items
unfolding by_mac IsAbsent
by_mac-none site none items h m e f = absurd (ground (arith, e))
by_mac-none site (some t) items h m e f =
    let same : t ≡ m = ground (arith, e) in
    let filled_t : is_filled (some t) ≡ true =
      subst (λ u. is_filled (some u) ≡ true) (sym same) f in
    subst (λ u. count_where (has_mac site u) items ≡ 0) same
      (first-none-count (has_mac site t) items (rw filled_t at h))

pub by_mac-some :
    (site : ℕ) (mac : Option Text) (items : List Item) (x : Item)
    → by_mac site mac items ≡ some x
    → Memᴰ x items × (((x.site_id == site) ≡ true) × (is_filled x.mac ≡ true))
unfolding by_mac
by_mac-some site none items x h = absurd (ground (arith, h))
by_mac-some site (some []) items x h = absurd (ground (arith, h))
by_mac-some site (some (c ∷ t)) items x h =
    let (m, e) = first→mem (has_mac site (c ∷ t)) x items h in
    (m, (ground (arith, e), filled x.mac (ground (arith, e))))
  where
    filled : (o : Option Text) → (o =ᵗ? some (c ∷ t)) ≡ true → is_filled o ≡ true
    filled none q = absurd (ground (arith, q))
    filled (some []) q = absurd (ground (arith, q))
    filled (some (b ∷ u)) q = refl

match_ip_facts :
    (site : ℕ) (mac : Option Text) (ip : Text) (items : List Item) (o : Option Item)
    → first (λ i. i.site_id == site && i.ip =ᵗ ip) items ≡ o
    → IsAbsent site mac items
    → MatchFacts site mac items (match_ip mac o)
unfolding MatchFacts match_ip
match_ip_facts site mac ip items none h absent = absent
match_ip_facts site mac ip items (some x) h absent =
    elim (Bool-cases (is_filled mac && (is_filled x.mac && not (x.mac =ᵗ? mac)))) [
      | inl e ↦ rw e absent
      | inr e ↦
          let (m, t) = first→mem (λ i. i.site_id == site && i.ip =ᵗ ip) x items h in
          rw e (m, (ground (arith, t), λ _. absent))
    ]

pub find_match_facts :
    (site : ℕ) (mac : Option Text) (ip : Text) (items : List Item)
    → MatchFacts site mac items (find_match site mac ip items)
unfolding find_match MatchFacts match_mac
find_match_facts site mac ip items = go (by_mac site mac items) refl
  where
    go :
        (o : Option Item)
        → by_mac site mac items ≡ o
        → MatchFacts site mac items
            (match_mac mac o (first (λ i. i.site_id == site && i.ip =ᵗ ip) items))
    go none h = match_ip_facts site mac ip items _ refl (by_mac-none site mac items h)
    go (some x) h =
        let (m, (here, filled)) = by_mac-some site mac items x h in
        (m, (here, λ q. absurd (ground (arith, q, filled))))

refreshed-IsKeyed :
    (s : Scan) (mac : Option Text) (d : DiscoveredDevice) (x : Item) (items : List Item) (next : ℕ)
    → IsKeyed items next
    → MatchFacts s.site_id mac items (known x)
    → IsKeyed (update (λ i. i.id == x.id) (refreshed s mac d x) items) next
unfolding MatchFacts IsAbsent refreshed
refreshed-IsKeyed s none d x items next k f =
    kept-IsKeyed (λ i. i.id == x.id) (refreshed s none d x) items next (λ i. refl) (λ i. refl)
      (λ i. refl) k
refreshed-IsKeyed s (some m) d x items next k (at_, (here, absent)) =
    elim (Bool-cases (is_filled (some m) && not (is_filled x.mac))) [
      | inl sets ↦
          set-IsKeyed s m d x items next k at_ here sets (absent sets m refl (ground (arith, sets)))
      | inr keeps ↦
          kept-IsKeyed (λ i. i.id == x.id) (refreshed s (some m) d x) items next (λ i. refl)
            (λ i. refl) (λ i. rw keeps refl) k
    ]

pub process_match-IsKeyed :
    (s : Scan) (mac : Option Text) (d : DiscoveredDevice) (m : Match) (p : Progress)
    → IsKeyed p.items p.next_item
    → MatchFacts s.site_id mac p.items m
    → IsKeyed (process_match s mac d m p).items (process_match s mac d m p).next_item
unfolding process_match refresh discover MatchFacts
process_match-IsKeyed s mac d (known x) p k f = refreshed-IsKeyed s mac d x p.items p.next_item k f
process_match-IsKeyed s mac d (takeover old) p k f =
    inserted-IsKeyed s mac d p.items p.next_item k f
process_match-IsKeyed s mac d unseen p k f = inserted-IsKeyed s mac d p.items p.next_item k f

process_all-IsKeyed :
    (s : Scan) (ds : List DiscoveredDevice) (p : Progress)
    → IsKeyed p.items p.next_item
    → IsKeyed (process_all s ds p).items (process_all s ds p).next_item
unfolding process_all process_device
process_all-IsKeyed s [] p k = k
process_all-IsKeyed s (d ∷ ds) p k = process_all-IsKeyed s ds (process_device s d p) (
    process_match-IsKeyed s (mac_of d.mac) d (find_match s.site_id (mac_of d.mac) d.ip p.items) p k
      (find_match_facts s.site_id (mac_of d.mac) d.ip p.items))

-- If ids are distinct and below the next one and no site has two items with one MAC address that is not empty,
-- then the same is so after a push, whatever devices it reports.
pub process_devices-IsKeyed :
    (s : Scan) (ds : List DiscoveredDevice) (p : Progress)
    → IsKeyed p.items p.next_item
    → IsKeyed (process_devices s ds p).items (process_devices s ds p).next_item
unfolding process_devices mark_offline
process_devices-IsKeyed s ds p k =
    let done = process_all s ds (record p { updated_item_ids = [] }) in
    kept-IsKeyed (goes_offline s done.updated_item_ids) _ done.items done.next_item (λ i. refl)
      (λ i. refl) (λ i. refl) (process_all-IsKeyed s ds (record p { updated_item_ids = [] }) k)

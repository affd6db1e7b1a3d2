-- ===== src/Ipam/Marks/Meaning.antt =====
-- What the marks mean.
use mathlib.Core.List.Memᴰ
use oblimap.Base.{
  ℕ, ◌≡◌, refl, sym, ap, ◌∙◌, subst, Bool, true, false, not, ◌&&◌, ◌||◌, Option, none, some, List,
  [], ◌∷◌, ◌==◌, ◌=ᵗ◌, ◌=ᵗ?◌, if◌then◌else◌, is_some, or_else, where_, mem→any, any, Text, arith,
  Bool-cases, Bool-ext, inl, inr, text_eq→≡, text_eq_refl, Memᴰ,
}
use oblimap.Item.{Item, is_filled}
use oblimap.Probe.{Probe}
use oblimap.Ipam.{IpReservation, of_site, is_offline}
use oblimap.Ipam.Marks.{
  get_text, set_text, set_filled, set_missing, all_ips, probe_by_ip, probe_by_mac, or_other,
  probe_of, ItemMarks, reserved_in, probe_in, get_items, occupied, occupies, ReservationMarks,
  get_reservations,
}

module _ {ℓ} {V : Type ℓ} where
  has-set_text :
      (k j : Text) (v : V) (m : List (Text × V))
      → is_some (get_text k (set_text j v m)) ≡ (k =ᵗ j || is_some (get_text k m))
  unfolding get_text set_text
  has-set_text k j v [] = ground arith
  has-set_text k j v ((i, w) ∷ m) = elim (Bool-cases (j =ᵗ i)) [
    | inl e ↦ rw e (
        subst
          (λ t.
            is_some (if k =ᵗ i then some v else get_text k m)
            ≡ (k =ᵗ t || is_some (if k =ᵗ i then some w else get_text k m)))
          (sym (text_eq→≡ j i e)) (ground arith))
    | inr e ↦ rw e (ground (arith, has-set_text k j v m))
  ]

has-occupied :
    (k : Text) (items : List Item) (m : List (Text × Option Text))
    → is_some (get_text k (occupied items m))
      ≡ (any (λ i. k =ᵗ i.ip) items || is_some (get_text k m))
unfolding occupied any
has-occupied k [] m = refl
has-occupied k (i ∷ is) m =
    has-occupied k is (set_text i.ip i.mac m) ∙ ground (arith, has-set_text k i.ip i.mac m)

any-where_ :
    {A : Type 0} (p q : A → Bool) (xs : List A) → any p (where_ q xs) ≡ any (λ x. q x && p x) xs
unfolding any where_
any-where_ p q [] = refl
any-where_ p q (x ∷ xs) = ground (arith, any-where_ p q xs)

any-cong : {A : Type 0} (p q : A → Bool) (xs : List A) → ((x : A) → p x ≡ q x) → any p xs ≡ any q xs
unfolding any
any-cong p q [] h = refl
any-cong p q (x ∷ xs) h = ground (arith, h x, any-cong p q xs h)

-- A device of the site that is not offline has the address.
abbrev pub holds : ℕ → ℕ → Text → Item → Bool
holds tenant_id site_id ip i =
    of_site tenant_id site_id i && (not (is_offline i.status) && ip =ᵗ i.ip)

occupied_meaning :
    (tenant site : ℕ) (own : List IpReservation) (items : List Item) (s : IpReservation)
    → Memᴰ s own
    → (any (λ i. s.ip =ᵗ i.ip) (where_ (occupies tenant site own) items) || false)
      ≡ any (holds tenant site s.ip) items
occupied_meaning tenant site own items s n =
    or_false _
    ∙ (any-where_ (λ i. s.ip =ᵗ i.ip) (occupies tenant site own) items
        ∙ any-cong _ (holds tenant site s.ip) items one)
  where
    or_false : (b : Bool) → (b || false) ≡ b
    or_false b = ground arith

    one : (i : Item) → (occupies tenant site own i && s.ip =ᵗ i.ip) ≡ holds tenant site s.ip i
    one i = elim (Bool-cases (s.ip =ᵗ i.ip)) [
      | inl e ↦ rw (e, mem→any (λ r. r.ip =ᵗ i.ip) s n e) (ground arith)
      | inr e ↦ rw e (ground arith)
    ]

-- `getReservations` marks a reservation as occupied exactly if a device of the site has its address and is not offline.
pub get_reservations-occupied :
    (tenant site : ℕ) (items : List Item) (reservations : List IpReservation) (r : IpReservation)
    (marks : ReservationMarks)
    → Memᴰ (r, marks) (get_reservations tenant site items reservations)
    → marks.is_occupied ≡ any (holds tenant site r.ip) items
unfolding get_reservations
get_reservations-occupied tenant site items reservations r marks m =
    let own = where_ (λ r. r.site_id == site && r.tenant_id == tenant) reservations in
    let (s, n, e) = Memᴰ.of_map _ own m in
    let same : s ≡ r = ap (λ p. p.0) e in
    let marked : is_some (get_text s.ip (occupied (where_ (occupies tenant site own) items) []))
        ≡ marks.is_occupied =
      ap (λ p. p.1.is_occupied) e in
    let at_s =
      has-occupied s.ip (where_ (occupies tenant site own) items) []
      ∙ occupied_meaning tenant site own items s n in
    sym marked ∙ at_s ∙ ap (λ q. any (holds tenant site q.ip) items) same

has-set_filled :
    (k : Text) (o : Option Text) (id : ℕ) (m : List (Text × ℕ))
    → is_some (get_text k (set_filled o id m))
      ≡ ((is_filled o && o =ᵗ? some k) || is_some (get_text k m))
has-set_filled k none id m = refl
has-set_filled k (some []) id m = refl
has-set_filled k (some (c ∷ t)) id m =
    has-set_text k (c ∷ t) id m ∙ ap (λ b. b || is_some (get_text k m)) (text_sym k (c ∷ t))
  where
    text_sym : (s t : Text) → (s =ᵗ t) ≡ (t =ᵗ s)
    text_sym s t =
        Bool-ext _ _ (λ h. subst (λ u. (u =ᵗ s) ≡ true) (text_eq→≡ s t h) (text_eq_refl s))
          (λ h. subst (λ u. (u =ᵗ t) ≡ true) (text_eq→≡ t s h) (text_eq_refl t))

has-missing :
    (k ip : Text) (id : ℕ) (m : List (Text × ℕ))
    → is_some (get_text k (if is_some (get_text ip m) then m else set_text ip id m))
      ≡ (k =ᵗ ip || is_some (get_text k m))
has-missing k ip id m = elim (Bool-cases (is_some (get_text ip m))) [
  | inl e ↦ elim (Bool-cases (k =ᵗ ip)) [
    | inl q ↦
        let there : is_some (get_text k m) ≡ true =
          subst (λ t. is_some (get_text t m) ≡ true) (sym (text_eq→≡ k ip q)) e in
        rw (e, q, there) refl
    | inr q ↦ rw (e, q) refl
  ]
  | inr e ↦ rw e (has-set_text k ip id m)
]

has-set_missing :
    (k : Text) (ips : List Text) (id : ℕ) (m : List (Text × ℕ))
    → is_some (get_text k (set_missing ips id m))
      ≡ (any (λ t. k =ᵗ t) ips || is_some (get_text k m))
unfolding set_missing any
has-set_missing k [] id m = refl
has-set_missing k (ip ∷ ips) id m =
    has-set_missing k ips id _ ∙ ground (arith, has-missing k ip id m)

-- The probe has the address, as its own or among its others.
abbrev pub has_ip : Text → Probe → Bool
has_ip ip p = any (λ t. ip =ᵗ t) (all_ips p.ips) || (is_filled p.ip && p.ip =ᵗ? some ip)

has-probe_by_ip :
    (k : Text) (ps : List Probe) (m : List (Text × ℕ))
    → is_some (get_text k (probe_by_ip ps m)) ≡ (any (has_ip k) ps || is_some (get_text k m))
unfolding probe_by_ip any
has-probe_by_ip k [] m = refl
has-probe_by_ip k (p ∷ ps) m =
    has-probe_by_ip k ps _
    ∙ ground (
      arith,
      has-set_missing k (all_ips p.ips) p.id (set_filled p.ip p.id m),
      has-set_filled k p.ip p.id m,
    )

has-probe_by_mac :
    (k : Text) (ps : List Probe) (m : List (Text × ℕ))
    → is_some (get_text k (probe_by_mac ps m))
      ≡ (any (λ p. is_filled p.mac && p.mac =ᵗ? some k) ps || is_some (get_text k m))
unfolding probe_by_mac any
has-probe_by_mac k [] m = refl
has-probe_by_mac k (p ∷ ps) m =
    has-probe_by_mac k ps _ ∙ ground (arith, has-set_filled k p.mac p.id m)

-- The probe is the device: it has its MAC address, or its address.
abbrev pub is_device : Item → Probe → Bool
is_device i p = (is_filled p.mac && p.mac =ᵗ? i.mac) || has_ip i.ip p

any-or : (f g : Probe → Bool) (ps : List Probe) → (any f ps || any g ps) ≡ any (λ p. f p || g p) ps
unfolding any
any-or f g [] = refl
any-or f g (p ∷ ps) = ground (arith, any-or f g ps)

no_empty_mac :
    (a b : Option Text) → (is_filled a && a =ᵗ? some (or_else b [])) ≡ (is_filled a && a =ᵗ? b)
no_empty_mac none b = refl
no_empty_mac (some []) b = refl
no_empty_mac (some (c ∷ t)) none = refl
no_empty_mac (some (c ∷ t)) (some u) = refl

some-or_other : (a b : Option ℕ) → is_some (or_other a b) ≡ (is_some a || is_some b)
some-or_other none b = refl
some-or_other (some a) b = refl

some-probe_of : (ps : List Probe) (i : Item) → is_some (probe_of ps i) ≡ any (is_device i) ps
unfolding probe_of get_text
some-probe_of ps i =
    some-or_other _ _
    ∙ (both _ _ (has-probe_by_mac (or_else i.mac []) ps []) (has-probe_by_ip i.ip ps [])
        ∙ (any-or _ (has_ip i.ip) ps
            ∙ any-cong _ (is_device i) ps
                (λ p. ap (λ b. b || has_ip i.ip p) (no_empty_mac p.mac i.mac))))
  where
    both : {a b : Bool} (c d : Bool) → a ≡ (c || false) → b ≡ (d || false) → (a || b) ≡ (c || d)
    both c d p q = ground (arith, p, q)

-- `getItems` marks a device as a probe exactly if a probe of the site has its MAC address, or has its address as its own
-- or among its others; and as a conflict exactly if its address is reserved in the site.
pub get_items-marks :
    (tenant site : ℕ) (items : List Item) (reservations : List IpReservation) (probes : List Probe)
    (i : Item) (marks : ItemMarks)
    → Memᴰ (i, marks) (get_items tenant site items reservations probes)
    → (marks.is_probe ≡ any (λ p. probe_in tenant site p && is_device i p) probes)
      × (marks.has_reservation_conflict ≡ any (reserved_in tenant site i.ip) reservations)
unfolding get_items
get_items-marks tenant site items reservations probes i marks m =
    let (x, n, e) = Memᴰ.of_map _ (where_ (of_site tenant site) items) m in
    let same : x ≡ i = ap (λ p. p.0) e in
    let marked : is_some (probe_of (where_ (probe_in tenant site) probes) x) ≡ marks.is_probe =
      ap (λ p. p.1.is_probe) e in
    let reserved_ : any (reserved_in tenant site x.ip) reservations
        ≡ marks.has_reservation_conflict =
      ap (λ p. p.1.has_reservation_conflict) e in
    (
      sym marked
          ∙ (some-probe_of (where_ (probe_in tenant site) probes) x
              ∙ (any-where_ (is_device x) (probe_in tenant site) probes
                  ∙ ap (λ y. any (λ p. probe_in tenant site p && is_device y p) probes) same)),
      sym reserved_ ∙ ap (λ y. any (reserved_in tenant site y.ip) reservations) same,
    )

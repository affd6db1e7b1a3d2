-- ===== src/Tunnel/Choice.antt =====
-- The probe that `selectProbe` chooses.
use text.Mathlib.Text.{◌==◌ as str_eq}
use mathlib.Core.List.Memᴰ
use oblimap.Base.{
  ℕ, ◌≤◌, ◌≡◌, refl, ap, subst, ◌⊎◌, inl, inr, true, ◌&&◌, Option, none, some, List, [], ◌∷◌, Memᴰ,
  ◌==◌, any, first, where_→mem, order→mem, mem→order, order_by-IsAscending, IsAscending, least→le,
  arith, Bool-cases, String,
}
use oblimap.Tunnel.{
  Tunnel, Registry, Probe, Inventory, has_connection, is_probe_connected, load, candidates,
  least_loaded, head_id, prefer, if_truthy, discoverer, id_of, on_site, select_probe,
}

-- A connected probe is in the registry.
connected→has :
    (i : ℕ) (registry : Registry)
    → is_probe_connected i registry ≡ true
    → has_connection i registry ≡ true
unfolding is_probe_connected has_connection any
connected→has i [] h = h
connected→has i (c ∷ registry) h = ground (arith, connected→has i registry, h)

abbrev IsLeast : List ℕ → (ℕ → ℕ) → Option ℕ → Type 0
IsLeast is weight none = Unit
IsLeast is weight (some i) = Memᴰ i is × ((j : ℕ) → Memᴰ j is → weight i ≤ weight j)

head-IsLeast :
    (weight : ℕ → ℕ) (is sorted : List ℕ)
    → IsAscending weight sorted
    → ((j : ℕ) → Memᴰ j sorted → Memᴰ j is)
    → ((j : ℕ) → Memᴰ j is → Memᴰ j sorted)
    → IsLeast is weight (head_id sorted)
head-IsLeast weight is [] s to from = tt
head-IsLeast weight is (i ∷ sorted) s to from = (
  to i (Memᴰ.head refl),
  λ j m. elim (Memᴰ.cases_cons (from j m)) [
    | inl q ↦ rw (ap weight q) (omega arith)
    | inr n ↦ least→le weight (weight i) j n s.0
  ],
)

-- Step 3 of `selectProbe` answers one of the candidates, and none of them has fewer live tunnels.
pub least_loaded-IsLeast :
    (tenant site i : ℕ) (probes : List Probe) (registry : Registry) (ts : List Tunnel)
    → least_loaded tenant site probes registry ts ≡ some i
    → Memᴰ i (candidates tenant site probes registry)
      × ((j : ℕ) → Memᴰ j (candidates tenant site probes registry) → load ts i ≤ load ts j)
unfolding least_loaded
least_loaded-IsLeast tenant site i probes registry ts e =
    subst (IsLeast (candidates tenant site probes registry) (load ts)) e (
      head-IsLeast (load ts) (candidates tenant site probes registry) _
        (order_by-IsAscending (load ts) _) (λ j. order→mem (load ts) j _)
        (λ j. mem→order (load ts) j _))

prefer_cases :
    (registry : Registry) (o other : Option ℕ) (i : ℕ)
    → prefer registry o other ≡ some i
    → ((o ≡ some i) × (is_probe_connected i registry ≡ true)) ⊎ (other ≡ some i)
prefer_cases registry none other i e = inr e
prefer_cases registry (some j) other i e = elim (Bool-cases (is_probe_connected j registry)) [
  | inl c ↦
      let same : some j ≡ some i = rw c at e in
      inl (same, subst (λ k. is_probe_connected k registry ≡ true) (ground (arith, same)) c)
  | inr c ↦ inr (rw c at e)
]

-- A probe that `selectProbe` answers has a connection in the registry, and it is connected unless it
-- is the least loaded of the candidates.
pub select_probe-connected :
    (tenant site i : ℕ) (ip : String) (inventory : Inventory) (registry : Registry)
    (ts : List Tunnel)
    → select_probe tenant site ip inventory registry ts ≡ some i
    → (has_connection i registry ≡ true)
      × ((is_probe_connected i registry ≡ true)
          ⊎ (least_loaded tenant site inventory.probes registry ts ≡ some i))
unfolding select_probe candidates
select_probe-connected tenant site i ip inventory registry ts e =
    let item =
      first (λ i. i.site_id == site && (i.tenant_id == tenant && str_eq i.ip ip))
        inventory.site_items in
    let primary = first (λ p. on_site tenant site p && p.is_primary) inventory.probes in
    let last = least_loaded tenant site inventory.probes registry ts in
    elim (prefer_cases registry (if_truthy (discoverer item)) (prefer registry (id_of primary) last)
      i e) [
        | inl (q, c) ↦ (connected→has i registry c, inl c)
        | inr f ↦ elim (prefer_cases registry (id_of primary) last i f) [
          | inl (q, c) ↦ (connected→has i registry c, inl c)
          | inr l ↦ (listed l, inr l)
        ]
      ]
  where
    listed :
        least_loaded tenant site inventory.probes registry ts ≡ some i
        → has_connection i registry ≡ true
    listed l =
        (where_→mem (λ k. has_connection k registry) i _
          (least_loaded-IsLeast tenant site i inventory.probes registry ts l).0).1

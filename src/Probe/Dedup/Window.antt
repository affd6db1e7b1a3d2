-- ===== src/Probe/Dedup/Window.antt =====
-- How often one change is reported.
use oblimap.Base.{
  ℕ, ◌+◌, ◌-◌, ◌≤◌, ◌<◌, ◌≡◌, refl, sym, ap, subst, true, false, not, ◌&&◌, Option, none, some,
  List, [], ◌∷◌, ◌=ᵗ?◌, ltb, leb, if◌then◌else◌, Text, arith, Bool-cases, inl, inr, text_eq→≡,
  text_eq_refl, ==_iff, ==_refl,
}
use oblimap.Probe.Dedup.{
  ChangeType, same_change, DedupKey, same_key, DedupEntry, DedupCache, is_conflict, Report, decide,
  should_dedup, passed, dedup_ttl_ms,
}

same_change→≡ : (a b : ChangeType) → same_change a b ≡ true → a ≡ b
same_change→≡ a b h = ground (arith, h)

same_mac→≡ : (a b : Option Text) → (a =ᵗ? b) ≡ true → a ≡ b
same_mac→≡ none none h = refl
same_mac→≡ none (some t) h = absurd (ground (arith, h))
same_mac→≡ (some s) none h = absurd (ground (arith, h))
same_mac→≡ (some s) (some t) h = ap some (text_eq→≡ s t h)

same_key→≡ : (j k : DedupKey) → same_key j k ≡ true → j ≡ k
same_key→≡ j k h =
    let t : j.tenant_id ≡ k.tenant_id = (==_iff _ _).0 (ground (arith, h)) in
    let s : j.site_id ≡ k.site_id = (==_iff _ _).0 (ground (arith, h)) in
    let m : j.mac ≡ k.mac = same_mac→≡ j.mac k.mac (ground (arith, h)) in
    let c : j.change_type ≡ k.change_type = same_change→≡ _ _ (ground (arith, h)) in
    λ i. record { tenant_id = t i; site_id = s i; mac = m i; change_type = c i }

-- The reports come within the time that the cache remembers, from `t0` on.
unfoldable pub AreWithin : ℕ → List Report → Type 0
AreWithin t0 [] = Unit
AreWithin t0 (r ∷ rs) = (t0 ≤ r.now) × ((r.now < t0 + dedup_ttl_ms) × AreWithin t0 rs)

-- How many reports the cache still lets through.
left : ℕ → Option DedupEntry → ℕ
left t0 none = 2
left t0 (some e) = if leb t0 e.ts then (if e.is_primary then 0 else 1) else 2

decide-left :
    (t0 : ℕ) (r : Report) (o : Option DedupEntry) (cache : DedupCache)
    → t0 ≤ r.now
    → r.now < t0 + dedup_ttl_ms
    → cache r.key ≡ o
    → same_key r.key r.key ≡ true
    → (if not (decide r o cache).0 then 1 else 0) + left t0 ((decide r o cache).1 r.key) ≤ left t0 o
unfolding decide left
decide-left t0 r none cache h k e s = rw s (ground (arith, h))
decide-left t0 r (some x) cache h k e s = elim (Bool-cases (ltb (r.now - x.ts) dedup_ttl_ms)) [
  | inl within ↦ elim (Bool-cases (r.is_primary && not x.is_primary)) [
    | inl first ↦ rw (within, first, s) (ground (arith, h, first))
    | inr again ↦ rw (within, again, e) (ground (arith, h))
  ]
  | inr out ↦ rw (out, s) (ground (arith, h, k, out))
]

same_change_refl : (a : ChangeType) → same_change a a ≡ true
same_change_refl a = ground arith

same_mac_refl : (a : Option Text) → (a =ᵗ? a) ≡ true
same_mac_refl none = refl
same_mac_refl (some s) = text_eq_refl s

same_key_refl : (k : DedupKey) → same_key k k ≡ true
same_key_refl k = ground (
  arith,
  ==_refl k.tenant_id,
  ==_refl k.site_id,
  same_mac_refl k.mac,
  same_change_refl k.change_type,
)

decide_other :
    (key : DedupKey) (r : Report) (o : Option DedupEntry) (cache : DedupCache)
    → same_key key r.key ≡ false
    → (decide r o cache).1 key ≡ cache key
unfolding decide
decide_other key r none cache apart = rw apart refl
decide_other key r (some x) cache apart = elim (Bool-cases (ltb (r.now - x.ts) dedup_ttl_ms)) [
  | inl within ↦ elim (Bool-cases (r.is_primary && not x.is_primary)) [
    | inl first ↦ rw (within, first, apart) refl
    | inr again ↦ rw (within, again) refl
  ]
  | inr out ↦ rw (out, apart) refl
]

-- A report of another key leaves the entry alone.
other_left :
    (key : DedupKey) (r : Report) (cache : DedupCache)
    → same_key key r.key ≡ false
    → (should_dedup r cache).1 key ≡ cache key
unfolding should_dedup
other_left key r cache apart = elim (Bool-cases (is_conflict r.key.change_type)) [
  | inl e ↦ rw e refl
  | inr e ↦ rw e (decide_other key r (cache r.key) cache apart)
]

own_left :
    (t0 : ℕ) (key : DedupKey) (r : Report) (cache : DedupCache)
    → is_conflict key.change_type ≡ false
    → t0 ≤ r.now
    → r.now < t0 + dedup_ttl_ms
    → key ≡ r.key
    → (if not (should_dedup r cache).0 then 1 else 0) + left t0 ((should_dedup r cache).1 key)
      ≤ left t0 (cache key)
unfolding should_dedup
own_left t0 key r cache real h k e =
    subst
      (λ j.
        (if not (should_dedup r cache).0 then 1 else 0) + left t0 ((should_dedup r cache).1 j)
        ≤ left t0 (cache j))
      (sym e)
      (let plain : is_conflict r.key.change_type ≡ false =
          subst (λ j. is_conflict j.change_type ≡ false) e real in
        rw plain (decide-left t0 r (cache r.key) cache h k refl (same_key_refl r.key)))

passed-left :
    (t0 : ℕ) (key : DedupKey) (rs : List Report) (cache : DedupCache)
    → is_conflict key.change_type ≡ false
    → AreWithin t0 rs
    → passed key rs cache ≤ left t0 (cache key)
unfolding passed AreWithin
passed-left t0 key [] cache real w = omega arith
passed-left t0 key (r ∷ rs) cache real (h, (k, w)) =
    let rest = passed-left t0 key rs (should_dedup r cache).1 real w in
    elim (Bool-cases (same_key key r.key)) [
      | inl e ↦
          rw e (omega (arith, rest, own_left t0 key r cache real h k (same_key→≡ key r.key e)))
      | inr e ↦ rw e (omega (arith, rw (other_left key r cache e) at rest))
    ]

left_bound : (t0 : ℕ) (o : Option DedupEntry) → left t0 o ≤ 2
unfolding left
left_bound t0 none = omega arith
left_bound t0 (some e) = ground arith

-- Within any minute, however many probes report it and whatever else they report, a change that is not a conflict
-- passes the cache at most twice.
pub passed_le_two :
    (t0 : ℕ) (key : DedupKey) (rs : List Report) (cache : DedupCache)
    → is_conflict key.change_type ≡ false
    → AreWithin t0 rs
    → passed key rs cache ≤ 2
passed_le_two t0 key rs cache real w =
    omega (arith, passed-left t0 key rs cache real w, left_bound t0 (cache key))

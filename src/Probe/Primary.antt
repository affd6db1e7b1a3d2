-- ===== src/Probe/Primary.antt =====
-- At most one primary probe for a site.
pub mod Election
pub mod Move
use text.Mathlib.Text.{◌==◌ as str_eq}
use oblimap.Base.{
  ℕ, suc, ◌+◌, ◌≤◌, ◌<◌, ◌≡◌, refl, sym, ap, subst, ◌∙◌, Bool, true, false, not, ◌&&◌, Option, none,
  some, List, [], ◌∷◌, ◌==◌, ◌==?◌, ==_iff, ==_refl, ==?_iff, if◌then◌else◌, any, first, update,
  where_, length, count_where, count-update, count-update_same, count_none, count_mono,
  count_disjoint, mem-count, first→mem, first-none-count, same_row, mem→update, Text, String, Memᴰ,
  arith, Bool-cases, Option-cases, inl, inr,
}
use oblimap.Probe.{Probe, ProbeApiKey, is_primary_of, is_approved}
use oblimap.Probe.Push.{
  Tables, ProbePushPayload, Found, find_or_register, register, new_probe, reported, promote,
  challenge, elect_at, elect_primary, take_command, take_report, push_registered, push_with,
  handle_push, find_key, is_gone, set_ip, stamped, is_command, with_id, set_primary,
}

-- Ids are distinct and below the next one, and no site has two primary probes.
pub record IsElected (probes : List Probe) (next : ℕ) : Type 0 where
  pub distinct : (id : ℕ) → count_where (with_id id) probes ≤ 1
  pub fresh : (id : ℕ) → next ≤ id → count_where (with_id id) probes ≡ 0
  pub single : (tenant site : ℕ) → count_where (is_primary_of tenant site) probes ≤ 1

-- A patch that leaves ids, sites and ranks alone.
pub kept-IsElected :
    (hit : Probe → Bool) (change : Probe → Probe) (probes : List Probe) (next : ℕ)
    → ((p : Probe) → (change p).id ≡ p.id)
    → ((p : Probe) (t s : ℕ) → is_primary_of t s (change p) ≡ is_primary_of t s p)
    → IsElected probes next
    → IsElected (update hit change probes) next
kept-IsElected hit change probes next ids ranks e = record {
  distinct = λ id.
      rw (count-update_same (with_id id) hit change probes (λ p. ap (λ n. n == id) (ids p)))
        (e.distinct id);
  fresh = λ id h.
      rw (count-update_same (with_id id) hit change probes (λ p. ap (λ n. n == id) (ids p)))
        (e.fresh id h);
  single = λ t s.
      rw (count-update_same (is_primary_of t s) hit change probes (λ p. ranks p t s))
        (e.single t s);
}

-- A patch of ranks alone.
ranked_ids :
    (id i : ℕ) (b : Bool) (probes : List Probe)
    → count_where (with_id id) (update (with_id i) (set_primary b) probes)
      ≡ count_where (with_id id) probes
ranked_ids id i b probes =
    count-update_same (with_id id) (with_id i) (set_primary b) probes (λ p. refl)

abbrev pub at_site : ℕ → ℕ → Probe → Bool
at_site tenant site p = p.site_id ==? some site && p.tenant_id == tenant

-- A probe is in one site.
one_site :
    (b : Bool) (o : Option ℕ) (u t s tenant site : ℕ)
    → (t == tenant && s == site) ≡ false
    → ((b && (o ==? some s && (u == t && true))) && (b && (o ==? some site && u == tenant))) ≡ false
one_site b none u t s tenant site other = ground arith
one_site b (some n) u t s tenant site other = ground (arith, other)

-- Promoting a probe whose site has no primary probe.
pub promoted_single :
    (probes : List Probe) (next : ℕ) (x : Probe) (tenant site : ℕ)
    → IsElected probes next
    → Memᴰ x probes
    → at_site tenant site x ≡ true
    → count_where (is_primary_of tenant site) probes ≡ 0
    → IsElected (update (with_id x.id) (set_primary true) probes) next
promoted_single probes next x tenant site e m here vacant = record {
  distinct = λ id. rw (ranked_ids id x.id true probes) (e.distinct id);
  fresh = λ id h. rw (ranked_ids id x.id true probes) (e.fresh id h);
  single = λ t s.
      let bound = count-update (is_primary_of t s) (with_id x.id) (set_primary true) probes in
      elim (Bool-cases (t == tenant && s == site)) [
        | inl own ↦
            let none_yet : count_where (is_primary_of t s) probes ≡ 0 =
              subst (λ n. count_where (is_primary_of n s) probes ≡ 0)
                (sym ((==_iff t tenant).0 (ground (arith, own))))
                (subst (λ n. count_where (is_primary_of tenant n) probes ≡ 0)
                  (sym ((==_iff s site).0 (ground (arith, own)))) vacant) in
            omega (
              arith,
              bound,
              none_yet,
              e.distinct x.id,
              count_mono (λ p. with_id x.id p && is_primary_of t s (set_primary true p))
                  (with_id x.id) probes (λ p h. ground (arith, h)),
            )
        | inr other ↦ omega (
          arith,
          bound,
          e.single t s,
          e.distinct x.id,
          mem-count (λ p. with_id x.id p && at_site tenant site p) x m (ground (arith, here)),
          count_disjoint (λ p. with_id x.id p && is_primary_of t s (set_primary true p))
              (λ p. with_id x.id p && at_site tenant site p) (with_id x.id) probes
              (λ p h. ground (arith, h)) (λ p h. ground (arith, h))
              (λ p. one_site (with_id x.id p) p.site_id p.tenant_id t s tenant site other),
        )
      ];
}

demoted_count :
    (id tenant site : ℕ) (xs : List Probe)
    → count_where (is_primary_of tenant site) (update (with_id id) (set_primary false) xs)
        + count_where (λ p. with_id id p && is_primary_of tenant site p) xs
      ≡ count_where (is_primary_of tenant site) xs
unfolding count_where where_ update
demoted_count id tenant site [] = omega arith
demoted_count id tenant site (x ∷ xs) = ground (arith, demoted_count id tenant site xs)

-- Demoting the primary probe of a site leaves the site without one.
pub demoted_vacant :
    (probes : List Probe) (next : ℕ) (c : Probe) (tenant site : ℕ)
    → IsElected probes next
    → Memᴰ c probes
    → is_primary_of tenant site c ≡ true
    → count_where (is_primary_of tenant site) (update (with_id c.id) (set_primary false) probes) ≡ 0
demoted_vacant probes next c tenant site e m rank = omega (
  arith,
  e.single tenant site,
  e.distinct c.id,
  demoted_count c.id tenant site probes,
  mem-count (λ p. with_id c.id p && is_primary_of tenant site p) c m (ground (arith, rank)),
)

pub demoted-IsElected :
    (probes : List Probe) (next i : ℕ)
    → IsElected probes next
    → IsElected (update (with_id i) (set_primary false) probes) next
demoted-IsElected probes next i e = record {
  distinct = λ id. rw (ranked_ids id i false probes) (e.distinct id);
  fresh = λ id h. rw (ranked_ids id i false probes) (e.fresh id h);
  single = λ t s. omega (
    arith,
    e.single t s,
    count-update (is_primary_of t s) (with_id i) (set_primary false) probes,
    count_none (λ p. with_id i p && is_primary_of t s (set_primary false p)) probes
        (λ p. ground arith),
  );
}

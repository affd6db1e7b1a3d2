-- ===== src/Probe/Primary/Move.antt =====
-- What `updateProbe` does when it moves a primary probe to another site.
use oblimap.Base.{
  ℕ, ◌≤◌, ◌≡◌, Bool, true, false, not, ◌&&◌, none, some, List, ◌==◌, ==_refl, update, count_where,
  count_disjoint, mem-count, mem→update, Memᴰ, arith,
}
use oblimap.Probe.{Probe, ProbeUpdates, is_primary_of, is_row, patch, update_probe, demote_if}

-- Two rows of a table that pass a test, one with an id and one without.
two_rows :
    (test : Probe → Bool) (id : ℕ) (x y : Probe) (probes : List Probe)
    → Memᴰ x probes
    → Memᴰ y probes
    → test x ≡ true
    → test y ≡ true
    → (x.id == id) ≡ true
    → (y.id == id) ≡ false
    → 2 ≤ count_where test probes
two_rows test id x y probes m n t u h k = omega (
  arith,
  mem-count (λ p. test p && p.id == id) x m (ground (arith, t, h)),
  mem-count (λ p. test p && not (p.id == id)) y n (ground (arith, u, k)),
  count_disjoint (λ p. test p && p.id == id) (λ p. test p && not (p.id == id)) test probes
      (λ p q. ground (arith, q)) (λ p q. ground (arith, q)) (λ p. ground arith),
)

-- Moving a primary probe to a site that has another primary probe, without a word on ranks, leaves that site with
-- two primary probes.
pub update_probe-moved :
    (now tenant id site : ℕ) (u : ProbeUpdates) (probes : List Probe) (x y : Probe)
    → Memᴰ x probes
    → is_row tenant id x ≡ true
    → x.is_primary ≡ true
    → Memᴰ y probes
    → is_primary_of tenant site y ≡ true
    → (y.id == id) ≡ false
    → 2
      ≤ count_where (is_primary_of tenant site) (
          update_probe now tenant id
            (record u { site_id = some (some site); is_primary = none })
            probes)
unfolding update_probe demote_if
update_probe-moved now tenant id site u probes x y m row lead n rank other =
    let v = record u { site_id = some (some site); is_primary = none } in
    let moved : Memᴰ (patch now v x) (update (is_row tenant id) (patch now v) probes) =
      rw row at (mem→update (is_row tenant id) (patch now v) x m) in
    let not_hit : is_row tenant id y ≡ false = ground (arith, other) in
    let stays : Memᴰ y (update (is_row tenant id) (patch now v) probes) =
      rw not_hit at (mem→update (is_row tenant id) (patch now v) y n) in
    two_rows (is_primary_of tenant site) id (patch now v x) y _ moved stays
      (ground (arith, row, lead, ==_refl site)) rank (ground (arith, row)) other

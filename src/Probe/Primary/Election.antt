-- ===== src/Probe/Primary/Election.antt =====
-- A push keeps the primary probes of sites single.
use text.Mathlib.Text.{◌==◌ as str_eq}
use oblimap.Base.{
  ℕ, suc, ◌≡◌, refl, sym, subst, true, false, not, ◌&&◌, Option, none, some, List, ◌∷◌, ◌==◌, ◌==?◌,
  ==_iff, ==_refl, any, first, update, where_, count_where, first→mem, first-none-count, same_row,
  mem→update, Text, String, Memᴰ, arith, Bool-cases, inl, inr,
}
use oblimap.Probe.{Probe, ProbeApiKey, is_primary_of, is_approved}
use oblimap.Probe.Push.{
  Tables, ProbePushPayload, Found, find_or_register, register, new_probe, reported, promote,
  challenge, elect_at, elect_primary, take_command, take_report, push_registered, push_with,
  handle_push, find_key, is_gone, set_ip, stamped, is_command, with_id, set_primary,
}
use oblimap.Probe.Primary.{
  IsElected, kept-IsElected, at_site, promoted_single, demoted_vacant, demoted-IsElected,
}

-- The probe is a row of the table and belongs to the tenant.
abbrev IsRow : ℕ → Probe → List Probe → Type 0
IsRow tenant probe probes = Memᴰ probe probes × ((probe.tenant_id == tenant) ≡ true)

challenge-IsElected :
    (now tenant site : ℕ) (probe : Probe) (o : Option Probe) (probes : List Probe) (next : ℕ)
    → IsElected probes next
    → Memᴰ probe probes
    → at_site tenant site probe ≡ true
    → first (is_primary_of tenant site) probes ≡ o
    → IsElected (challenge now probe o probes).1 next
unfolding challenge promote
challenge-IsElected now tenant site probe none probes next e m here h =
    promoted_single probes next probe tenant site e m here
      (first-none-count (is_primary_of tenant site) probes h)
challenge-IsElected now tenant site probe (some c) probes next e m here h =
    elim (Bool-cases (not (c.id == probe.id) && is_gone now c.last_seen_at)) [
      | inl won ↦
          let (at_, rank) = first→mem (is_primary_of tenant site) c probes h in
          let other : (probe.id == c.id) ≡ false = ground (arith, won) in
          let still : Memᴰ probe (update (with_id c.id) (set_primary false) probes) =
            rw other at (mem→update (with_id c.id) (set_primary false) probe m) in
          rw won (
            promoted_single (update (with_id c.id) (set_primary false) probes) next probe tenant
              site (demoted-IsElected probes next c.id e) still here
              (demoted_vacant probes next c tenant site e at_ rank))
      | inr lost ↦ rw lost e
    ]

elect_at-IsElected :
    (now tenant : ℕ) (probe : Probe) (site : Option ℕ) (probes : List Probe) (next : ℕ)
    → IsElected probes next
    → IsRow tenant probe probes
    → probe.site_id ≡ site
    → IsElected (elect_at now tenant probe site probes).1 next
unfolding elect_at
elect_at-IsElected now tenant probe none probes next e r q = e
elect_at-IsElected now tenant probe (some site) probes next e (m, own) q =
    elim (Bool-cases (is_approved probe.status && not (site == 0))) [
      | inl ok ↦ rw ok (
          challenge-IsElected now tenant site probe (first (is_primary_of tenant site) probes)
            probes next e m here refl)
      | inr refused_ ↦ rw refused_ e
    ]
  where
    here : at_site tenant site probe ≡ true
    here =
        subst (λ o. (o ==? some site && probe.tenant_id == tenant) ≡ true) (sym q)
          (ground (arith, own))

-- The row that `find_or_register` finds is in the table and belongs to the tenant of the key.
RowFacts : ℕ → Found → Type 0
RowFacts tenant (none, probes, next) = IsElected probes next
RowFacts tenant (some p, probes, next) = IsElected probes next × IsRow tenant p probes

new-IsElected :
    (now : ℕ) (key : ProbeApiKey) (uuid : String) (payload : ProbePushPayload) (probes : List Probe)
    (next : ℕ)
    → IsElected probes next
    → IsElected (new_probe next now key uuid payload ∷ probes) (suc next)
unfolding new_probe count_where where_
new-IsElected now key uuid payload probes next e = record {
  distinct = λ id. ground (arith, e.distinct id, e.fresh id);
  fresh = λ id h. ground (arith, h, e.fresh id (omega (arith, h)));
  single = λ t s. ground (arith, e.single t s);
}

found_row :
    (now : ℕ) (key : ProbeApiKey) (payload : ProbePushPayload) (x : Probe) (probes : List Probe)
    (next : ℕ) (o : Option Probe)
    → let rows = update (λ p. p.id == x.id) (reported now key payload x) probes in
      first (λ p. p.id == x.id) rows ≡ o
      → IsElected rows next
      → Memᴰ x probes
      → (x.tenant_id == key.tenant_id) ≡ true
      → RowFacts key.tenant_id (o, rows, next)
unfolding RowFacts reported
found_row now key payload x probes next none h e m own = e
found_row now key payload x probes next (some y) h e m own =
    let rows = update (λ p. p.id == x.id) (reported now key payload x) probes in
    let (n, t) = first→mem (λ p. p.id == x.id) y rows h in
    let patched : Memᴰ (reported now key payload x x) rows =
      rw (==_refl x.id) at (mem→update (λ p. p.id == x.id) (reported now key payload x) x m) in
    let it : y ≡ reported now key payload x x =
      same_row (λ p. p.id) y (reported now key payload x x) e.distinct n patched
        ((==_iff _ _).0 t) in
    (e, (n, subst (λ z. (z.tenant_id == key.tenant_id) ≡ true) (sym it) own))

register_facts :
    (now : ℕ) (key : ProbeApiKey) (uuid : String) (payload : ProbePushPayload) (probes : List Probe)
    (next : ℕ) (o : Option Probe)
    → first (λ p. str_eq p.uuid uuid && p.tenant_id == key.tenant_id) probes ≡ o
    → IsElected probes next
    → RowFacts key.tenant_id (register now key uuid payload o probes next)
unfolding register RowFacts new_probe reported
register_facts now key uuid payload probes next none h e =
    elim (Bool-cases (any (λ p. str_eq p.uuid uuid) probes)) [
      | inl taken ↦ rw taken (later e)
      | inr free ↦ rw free (
        new-IsElected now key uuid payload probes next e,
        (Memᴰ.head refl, ==_refl key.tenant_id),
      )
    ]
  where
    later : IsElected probes next → IsElected probes (suc next)
    later k = record {
      distinct = k.distinct;
      fresh = λ id le. k.fresh id (omega (arith, le));
      single = k.single;
    }
register_facts now key uuid payload probes next (some x) h e =
    let (m, t) = first→mem (λ p. str_eq p.uuid uuid && p.tenant_id == key.tenant_id) x probes h in
    found_row now key payload x probes next _ refl
      (kept-IsElected (λ p. p.id == x.id) (reported now key payload x) probes next (λ p. refl)
        (λ p t s. refl) e)
      m (ground (arith, t))

set_ip_id : (now : ℕ) (o : Option Text) (p : Probe) → (set_ip now o p).id ≡ p.id
set_ip_id now none p = refl
set_ip_id now (some ip) p = refl

set_ip_rank :
    (now : ℕ) (o : Option Text) (p : Probe) (t s : ℕ)
    → is_primary_of t s (set_ip now o p) ≡ is_primary_of t s p
set_ip_rank now none p t s = refl
set_ip_rank now (some ip) p t s = refl

stamped_id : (now : ℕ) (o : Option String) (p : Probe) → (stamped now o p).id ≡ p.id
stamped_id now none p = refl
stamped_id now (some c) p = refl

stamped_rank :
    (now : ℕ) (o : Option String) (p : Probe) (t s : ℕ)
    → is_primary_of t s (stamped now o p) ≡ is_primary_of t s p
stamped_rank now none p t s = refl
stamped_rank now (some c) p t s = refl

take_report_probes :
    (now tenant : ℕ) (probe : Probe) (payload : ProbePushPayload) (o : Option ℕ) (t : Tables)
    → IsElected t.probes t.next_probe
    → IsElected
        (take_report now tenant probe payload o t).probes
        (take_report now tenant probe payload o t).next_probe
unfolding take_report
take_report_probes now tenant probe payload none t e = e
take_report_probes now tenant probe payload (some site) t e =
    elim (Bool-cases (is_approved probe.status && not (site == 0))) [
      | inl ok ↦ rw ok (
          kept-IsElected (with_id probe.id) _ t.probes t.next_probe (set_ip_id now _)
            (set_ip_rank now _) e)
      | inr refused_ ↦ rw refused_ e
    ]

take_command-IsElected :
    (now : ℕ) (probe : Probe) (probes : List Probe) (next : ℕ)
    → IsElected probes next
    → IsElected (take_command now probe probes) next
unfolding take_command
take_command-IsElected now probe probes next e =
    elim (Bool-cases (is_command probe.pending_command)) [
      | inl c ↦ rw c (
          kept-IsElected (with_id probe.id) _ probes next (stamped_id now probe.pending_command)
            (stamped_rank now probe.pending_command) e)
      | inr n ↦ rw n e
    ]

push_registered-IsElected :
    (now tenant : ℕ) (payload : ProbePushPayload) (o : Option Probe) (t : Tables)
    → RowFacts tenant (o, t.probes, t.next_probe)
    → IsElected
        (push_registered now tenant payload o t).1.probes
        (push_registered now tenant payload o t).1.next_probe
unfolding push_registered RowFacts elect_primary
push_registered-IsElected now tenant payload none t e = e
push_registered-IsElected now tenant payload (some row) t (e, r) =
    let (probe, probes) = elect_at now tenant row row.site_id t.probes in
    let t' = take_report now tenant probe payload probe.site_id (record t { probes = probes }) in
    take_command-IsElected now probe t'.probes t'.next_probe (
      take_report_probes now tenant probe payload probe.site_id (record t { probes = probes })
        (elect_at-IsElected now tenant row row.site_id t.probes t.next_probe e r refl))

push_with-IsElected :
    (now : ℕ) (uuid : String) (payload : ProbePushPayload) (o : Option ProbeApiKey) (t : Tables)
    → IsElected t.probes t.next_probe
    → IsElected
        (push_with now uuid payload o t).1.probes
        (push_with now uuid payload o t).1.next_probe
unfolding push_with find_or_register
push_with-IsElected now uuid payload none t e = e
push_with-IsElected now uuid payload (some key) t e =
    push_registered-IsElected now key.tenant_id payload _ _
      (register_facts now key uuid payload t.probes t.next_probe _ refl e)

-- If ids of probes are distinct and below the next one and no site has two primary probes, the same is so
-- after a push, whatever the probe sends and whether it is let in or not.
pub handle_push-IsElected :
    (now : ℕ) (pre_validated : Option ℕ) (value uuid : String) (payload : ProbePushPayload)
    (t : Tables)
    → IsElected t.probes t.next_probe
    → let after = (handle_push now pre_validated value uuid payload t).1 in
      IsElected after.probes after.next_probe
unfolding handle_push
handle_push-IsElected now pre_validated value uuid payload t e =
    push_with-IsElected now uuid payload (find_key pre_validated value t.api_keys) t e

-- ===== src/Tunnel/Revival.antt =====
-- A tunnel that is closed while `openTunnel` still waits for its probe.
use oblimap.Base.{
  ℕ, ==_iff, ◌≡◌, refl, sym, ◌∙◌, ap, subst, true, none, some, List, [], ◌∷◌, ◌==◌, first, update,
  arith, Bool-cases, inl, inr,
}
use oblimap.Tunnel.{Tunnel, closed, active}
use oblimap.Tunnel.Calls.{settle_tunnel, close_tunnel, close_found}

first-update :
    (id : ℕ) (change : Tunnel → Tunnel)
    → ((x : Tunnel) → (change x).id ≡ x.id)
    → (ts : List Tunnel) (x : Tunnel) → first (λ t. t.id == id) ts ≡ some x
    → first (λ t. t.id == id) (update (λ t. t.id == id) change ts) ≡ some (change x)
unfolding first update
first-update id change same [] x e = absurd (ground (arith, e))
first-update id change same (t ∷ ts) x e = elim (Bool-cases (t.id == id)) [
  | inl hit ↦
      let there : ((change t).id == id) ≡ true = (==_iff _ _).1 (same t ∙ (==_iff _ _).0 hit) in
      rw (hit, there) (ap (λ y. some (change y)) (some_row (rw hit at e)))
  | inr miss ↦ rw (miss, miss) (first-update id change same ts x (rw miss at e))
]
  where
    some_row : {y z : Tunnel} → some y ≡ some z → y ≡ z
    some_row {y} h = ap (λ o. elim o [ none ↦ y | some w ↦ w ]) h

-- The answer of the probe does not look at the status: a tunnel that is closed while `openTunnel`
-- still waits is made active again when the probe then reports that it is ready.
pub close_tunnel-revived :
    (id now : ℕ) (ts : List Tunnel) (x : Tunnel)
    → first (λ t. t.id == id) ts ≡ some x
    → (first (λ t. t.id == id) (close_tunnel id none now ts)
        ≡ some (record x { status = closed; closed_at = some now }))
      × (first (λ t. t.id == id) (settle_tunnel id now none (close_tunnel id none now ts)).1
          ≡ some (record x { status = active; closed_at = some now }))
unfolding settle_tunnel close_tunnel close_found
close_tunnel-revived id now ts x e =
    let shut =
      subst
        (λ o.
          first (λ t. t.id == id) (close_found id none now o ts)
          ≡ some (record x { status = closed; closed_at = some now }))
        (sym e)
        (first-update id (λ t. record t { status = closed; closed_at = some now }) (λ y. refl) ts x
          e) in
    (
      shut,
      first-update id (λ t. record t { status = active }) (λ y. refl) (close_tunnel id none now ts)
          _ shut,
    )

-- ===== src/Tunnel/Limits.antt =====
-- The limits on live tunnels.
use text.Mathlib.Text.{◌==◌ as str_eq}
use oblimap.Base.{
  ℕ, ◌+◌, ◌≤◌, ◌<◌, ==_iff, ==?_iff, ◌≡◌, refl, sym, ◌∙◌, subst, Bool, true, false, Option, none,
  some, List, [], ◌∷◌, Memᴰ, ◌==◌, if◌then◌else◌, where_, first, update, String, arith, Bool-cases,
  inl, inr, truthy,
}
use oblimap.Tunnel.{
  Tunnel, Registry, Inventory, OpenError, is_live, of_user, of_tenant, count, rate_limit,
  select_probe, is_probe_connected, no_probe, not_connected, closed, active,
}
use oblimap.Tunnel.Calls.{
  Request, Start, started, refused, start_tunnel, insert_through, new_tunnel, settle_tunnel,
  close_tunnel, close_found, close_disconnected, cleanup_stale_tunnels, mark_closed, mark_error,
  unless_refused, is_foreign,
}

some_inj : {m n : ℕ} → some m ≡ some n → m ≡ n
some_inj e = ground (arith, e)

-- No user has more than 5 live tunnels in a tenant, and no tenant more than 20.
pub record IsWithin (tunnels : List Tunnel) : Type 0 where
  pub users : (u t : ℕ) → count (of_user u t) tunnels ≤ 5
  pub tenants : (t : ℕ) → count (of_tenant t) tunnels ≤ 20

count-cons :
    (test : Tunnel → Bool) (x : Tunnel) (ts : List Tunnel)
    → count test (x ∷ ts) ≡ (if test x then 1 + count test ts else count test ts)
unfolding count where_
count-cons test x ts = ground arith

-- A change that adds nothing to a count.
count-update :
    (test at : Tunnel → Bool) (change : Tunnel → Tunnel) (ts : List Tunnel)
    → ((x : Tunnel) → Memᴰ x ts → at x ≡ true → test (change x) ≡ true → test x ≡ true)
    → count test (update at change ts) ≤ count test ts
unfolding count update where_
count-update test at change [] h = omega arith
count-update test at change (x ∷ ts) h =
    ground (arith, count-update test at change ts (λ y m. h y (Memᴰ.tail m)), h x (Memᴰ.head refl))

-- A change after which a row counts only if it counted before keeps the limits.
shrink-IsWithin :
    (at : Tunnel → Bool) (change : Tunnel → Tunnel) (ts : List Tunnel)
    → ((x : Tunnel) (u t : ℕ)
        → Memᴰ x ts
        → at x ≡ true
        → of_user u t (change x) ≡ true
        → of_user u t x ≡ true)
    → ((x : Tunnel) (t : ℕ)
        → Memᴰ x ts
        → at x ≡ true
        → of_tenant t (change x) ≡ true
        → of_tenant t x ≡ true)
    → IsWithin ts
    → IsWithin (update at change ts)
shrink-IsWithin at change ts hu ht w = record {
  users =
      λ u t. omega (arith, w.users u t, count-update (of_user u t) at change ts (λ x. hu x u t));
  tenants = λ t. omega (arith, w.tenants t, count-update (of_tenant t) at change ts (λ x. ht x t));
}

-- A change to a status that is not live.
end-IsWithin :
    (at : Tunnel → Bool) (change : Tunnel → Tunnel)
    → ((x : Tunnel) → is_live (change x).status ≡ false)
    → (ts : List Tunnel) → IsWithin ts
    → IsWithin (update at change ts)
end-IsWithin at change ended ts =
    shrink-IsWithin at change ts (λ x u t m a h. ground (arith, ended x, h))
      (λ x t m a h. ground (arith, ended x, h))

abbrev pub left : Start → List Tunnel → List Tunnel
left (refused e) tunnels = tunnels
left (started ts) tunnels = ts

limited :
    (tenant user : ℕ) (ts : List Tunnel)
    → rate_limit tenant user ts ≡ none
    → (count (of_user user tenant) ts < 5) × (count (of_tenant tenant) ts < 20)
unfolding rate_limit
limited tenant user ts e = ground (arith, e)

added-IsWithin :
    (row : Tunnel) (user tenant : ℕ) (ts : List Tunnel)
    → row.requested_by ≡ some user
    → row.tenant_id ≡ tenant
    → count (of_user user tenant) ts < 5
    → count (of_tenant tenant) ts < 20
    → IsWithin ts
    → IsWithin (row ∷ ts)
added-IsWithin row user tenant ts by at few some_left w = record {
  users = users;
  tenants = tenants;
}
  where
    users : (u t : ℕ) → count (of_user u t) (row ∷ ts) ≤ 5
    users u t = elim (Bool-cases (of_user u t row)) [
      | inl e ↦
          let (same_u, same_t) = owner u t e in
          let room =
            subst (λ v. count (of_user v t) ts < 5) same_u
              (subst (λ v. count (of_user user v) ts < 5) same_t few) in
          rw (count-cons (of_user u t) row ts, e) (omega (arith, room))
      | inr e ↦ rw (count-cons (of_user u t) row ts, e) (w.users u t)
    ]
      where
        owner : (u t : ℕ) → of_user u t row ≡ true → (user ≡ u) × (tenant ≡ t)
        owner u t e = (
          some_inj (sym by ∙ (==?_iff _ _).0 (ground (arith, e))),
          sym at ∙ (==_iff _ _).0 (ground (arith, e)),
        )

    tenants : (t : ℕ) → count (of_tenant t) (row ∷ ts) ≤ 20
    tenants t = elim (Bool-cases (of_tenant t row)) [
      | inl e ↦
          let same : tenant ≡ t = sym at ∙ (==_iff _ _).0 (ground (arith, e)) in
          let room = subst (λ v. count (of_tenant v) ts < 20) same some_left in
          rw (count-cons (of_tenant t) row ts, e) (omega (arith, room))
      | inr e ↦ rw (count-cons (of_tenant t) row ts, e) (w.tenants t)
    ]

insert_through-IsWithin :
    (id now : ℕ) (r : Request) (p : Option ℕ) (registry : Registry) (ts : List Tunnel)
    → rate_limit r.tenant_id r.user_id ts ≡ none
    → IsWithin ts
    → IsWithin (left (insert_through id now r p registry ts) ts)
unfolding insert_through new_tunnel
insert_through-IsWithin id now r none registry ts room w = w
insert_through-IsWithin id now r (some p) registry ts room w =
    let (few, some_left) = limited r.tenant_id r.user_id ts room in
    go (p == 0) (is_probe_connected p registry)
      (added-IsWithin (new_tunnel id now r p) r.user_id r.tenant_id ts refl refl few some_left w)
  where
    go :
        (zero_ ok : Bool)
        → IsWithin (new_tunnel id now r p ∷ ts)
        → IsWithin (
            left
              (if zero_
                then refused no_probe
                else if ok
                then started (new_tunnel id now r p ∷ ts)
                else refused not_connected)
              ts)
    go true ok v = w
    go false true v = v
    go false false v = w

-- If a table of tunnels has no user with more than 5 live tunnels in a tenant and no tenant with
-- more than 20, it still has after `openTunnel` up to its insert, whichever way that ends, when no
-- other call comes between its queries.
pub start_tunnel-IsWithin :
    (id now : ℕ) (r : Request) (inventory : Inventory) (registry : Registry) (ts : List Tunnel)
    → IsWithin ts
    → IsWithin (left (start_tunnel id now r inventory registry ts) ts)
unfolding start_tunnel
start_tunnel-IsWithin id now r inventory registry ts w =
    go (rate_limit r.tenant_id r.user_id ts) _ λ room.
      insert_through-IsWithin id now r
        (if truthy r.probe_id
          then r.probe_id
          else select_probe r.tenant_id r.site_id r.target_ip inventory registry ts)
        registry ts room w
  where
    go :
        (o : Option OpenError) (next : Start)
        → (o ≡ none → IsWithin (left next ts))
        → IsWithin (left (unless_refused o next) ts)
    go none next h = h refl
    go (some e) next h = w

-- If a table of tunnels has no user with more than 5 live tunnels in a tenant and no tenant with
-- more than 20, it still has after `closeTunnel`.
pub close_tunnel-IsWithin :
    (id : ℕ) (tenant : Option ℕ) (now : ℕ) (ts : List Tunnel)
    → IsWithin ts
    → IsWithin (close_tunnel id tenant now ts)
unfolding close_tunnel close_found
close_tunnel-IsWithin id tenant now ts w = go (first (λ t. t.id == id) ts)
  where
    go : (o : Option Tunnel) → IsWithin (close_found id tenant now o ts)
    go none = w
    go (some t) = elim (Bool-cases (is_foreign tenant t)) [
      | inl other ↦
          subst
            (λ b. IsWithin (
              if b
              then ts
              else update (λ t. t.id == id)
                  (λ t. record t { status = closed; closed_at = some now }) ts))
            (sym other) w
      | inr own ↦
          subst
            (λ b. IsWithin (
              if b
              then ts
              else update (λ t. t.id == id)
                  (λ t. record t { status = closed; closed_at = some now }) ts))
            (sym own) (end-IsWithin _ _ (λ x. refl) ts w)
    ]

close_disconnected-IsWithin :
    (live : List Tunnel) (registry : Registry) (now : ℕ) (ts : List Tunnel)
    → IsWithin ts
    → IsWithin (close_disconnected live registry now ts)
unfolding close_disconnected
close_disconnected-IsWithin [] registry now ts w = w
close_disconnected-IsWithin (a ∷ rest) registry now ts w =
    close_disconnected-IsWithin rest registry now _ (go (is_probe_connected a.probe_id registry))
  where
    go :
        (b : Bool)
        → IsWithin
            (if b then ts else update (λ t. t.id == a.id) (mark_closed now "Probe disconnected") ts)
    go true = w
    go false = end-IsWithin _ _ (λ x. refl) ts w

-- If a table of tunnels has no user with more than 5 live tunnels in a tenant and no tenant with
-- more than 20, it still has after `cleanupStaleTunnels`.
pub cleanup_stale_tunnels-IsWithin :
    (registry : Registry) (now : ℕ) (ts : List Tunnel)
    → IsWithin ts
    → IsWithin (cleanup_stale_tunnels registry now ts)
unfolding cleanup_stale_tunnels
cleanup_stale_tunnels-IsWithin registry now ts w =
    end-IsWithin _ (mark_closed now "Inactivity timeout") (λ x. refl) _
      (close_disconnected-IsWithin (where_ (λ t. is_live t.status) ts) registry now ts w)

activate-IsWithin :
    (id : ℕ) (ts : List Tunnel)
    → ((x : Tunnel) → Memᴰ x ts → x.id ≡ id → is_live x.status ≡ true)
    → IsWithin ts
    → IsWithin (update (λ t. t.id == id) (λ t. record t { status = active }) ts)
activate-IsWithin id ts live =
    shrink-IsWithin _ _ ts (λ x u t m a h. ground (arith, live x m ((==_iff _ _).0 a), h))
      (λ x t m a h. ground (arith, live x m ((==_iff _ _).0 a), h))

-- If a table of tunnels has no user with more than 5 live tunnels in a tenant and no tenant with
-- more than 20, and the tunnels with the given id are live, the table still has after the answer
-- of the probe is stored.
pub settle_tunnel-IsWithin :
    (id now : ℕ) (answer : Option String) (ts : List Tunnel)
    → ((x : Tunnel) → Memᴰ x ts → x.id ≡ id → is_live x.status ≡ true)
    → IsWithin ts
    → IsWithin (settle_tunnel id now answer ts).1
unfolding settle_tunnel
settle_tunnel-IsWithin id now none ts live w = activate-IsWithin id ts live w
settle_tunnel-IsWithin id now (some message) ts live w = elim (Bool-cases (str_eq message "")) [
  | inl e ↦ rw e (activate-IsWithin id ts live w)
  | inr e ↦ rw e (end-IsWithin _ (mark_error now message) (λ x. refl) ts w)
]

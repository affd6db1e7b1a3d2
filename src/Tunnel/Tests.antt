-- ===== src/Tunnel/Tests.antt =====
-- One tenant with a site, two connected probes and a live tunnel.
use mathlib.Core.List.Memᴰ
use oblimap.Base.{
  ◌≡◌, refl, subst, ◌⊎◌, true, false, none, some, [], ◌∷◌, Memᴰ, ◌==◌, inl, inr, ap, arith, first,
  where_, any, order_by, insert_by,
}
use oblimap.Tunnel.{
  Tunnel, opening, active, closed, Registry, Inventory, select_probe, least_loaded, candidates,
  load, has_connection, is_probe_connected, rate_limit, count, is_live,
}
use oblimap.Tunnel.Calls.{
  Request, start_tunnel, settle_tunnel, close_tunnel, insert_through, new_tunnel,
}
use oblimap.Tunnel.Limits.{IsWithin, left, start_tunnel-IsWithin}
use oblimap.Tunnel.Reached.{Reached, none_yet, after, opens, answers, closes, Reached-IsWithin}
use oblimap.Tunnel.Revival.{close_tunnel-revived}
use oblimap.Tunnel.Choice.{select_probe-connected}

abbrev inventory : Inventory
inventory = record {
  site_items = [];
  probes =
      record { id = 3; site_id = some 4; tenant_id = 1; is_approved = true; is_primary = false }
      ∷ record { id = 5; site_id = some 4; tenant_id = 1; is_approved = true; is_primary = false }
      ∷ [];
}

abbrev registry : Registry
registry = (3, true) ∷ (5, true) ∷ []

abbrev request : Request
request = record {
  tenant_id = 1;
  user_id = 8;
  site_id = 4;
  target_ip = "10.0.0.9";
  target_port = 22;
  probe_id = none;
}

empty-IsWithin : IsWithin []
unfolding count where_
empty-IsWithin = record { users = λ u t. omega arith; tenants = λ t. omega arith }

abbrev opened : Tunnel
opened = record {
  id = 1;
  tenant_id = 1;
  probe_id = 3;
  site_id = 4;
  target_ip = "10.0.0.9";
  target_port = 22;
  status = opening;
  requested_by = some 8;
  error_message = none;
  created_at = 100;
  closed_at = none;
}

one-IsWithin : IsWithin (opened ∷ [])
unfolding start_tunnel rate_limit count where_ select_probe least_loaded candidates load
    has_connection is_probe_connected insert_through new_tunnel any first order_by insert_by
one-IsWithin = start_tunnel-IsWithin 1 100 request inventory registry [] empty-IsWithin

one_live : (x : Tunnel) → Memᴰ x (opened ∷ []) → x.id ≡ 1 → is_live x.status ≡ true
one_live x m e = elim (Memᴰ.cases_cons m) [
  | inl q ↦ ap (λ y. is_live y.status) q
  | inr n ↦ elim n [ ]
]

close_tunnel-revived_example :
    (first (λ t. t.id == 1) (close_tunnel 1 none 120 (opened ∷ []))
      ≡ some (record opened { status = closed; closed_at = some 120 }))
    × (first (λ t. t.id == 1) (settle_tunnel 1 120 none (close_tunnel 1 none 120 (opened ∷ []))).1
        ≡ some (record opened { status = active; closed_at = some 120 }))
unfolding first
close_tunnel-revived_example = close_tunnel-revived 1 120 (opened ∷ []) opened refl

select_probe-connected_example :
    (has_connection 5 registry ≡ true)
    × ((is_probe_connected 5 registry ≡ true)
        ⊎ (least_loaded 1 4 inventory.probes registry (opened ∷ []) ≡ some 5))
unfolding select_probe least_loaded candidates load has_connection count where_ any order_by
    insert_by first
select_probe-connected_example =
    select_probe-connected 1 4 5 "10.0.0.9" inventory registry (opened ∷ []) refl

-- What `openTunnel` leaves, without tunnels before.
first_tunnel : left (start_tunnel 1 100 request inventory registry []) [] ≡ opened ∷ []
unfolding start_tunnel rate_limit select_probe least_loaded candidates load has_connection count
    where_ any order_by insert_by first insert_through new_tunnel is_probe_connected
first_tunnel = refl

opened-Reached : Reached (opened ∷ [])
opened-Reached =
    subst Reached first_tunnel (after none_yet (opens 1 100 request inventory registry []))

-- A tunnel is opened, its probe answers, and it is closed.
one_call : Reached (close_tunnel 1 none 180 (settle_tunnel 1 150 none (opened ∷ [])).1)
one_call =
    after (after opened-Reached (answers 1 150 none (opened ∷ []) one_live)) (closes 1 none 180 _)

Reached-IsWithin_example :
    IsWithin (close_tunnel 1 none 180 (settle_tunnel 1 150 none (opened ∷ [])).1)
Reached-IsWithin_example = Reached-IsWithin one_call

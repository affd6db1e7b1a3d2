-- ===== src/Tunnel/Calls.antt =====
-- The calls of `tunnelService`: opening, closing, cleaning up and listing.
use text.Mathlib.Text.{◌==◌ as str_eq}
use oblimap.Base.{
  ℕ, Bool, not, ◌&&◌, Option, none, some, List, [], ◌∷◌, ◌==◌, ◌==?◌, ltb, if◌then◌else◌, truthy,
  where_, first, update, order_by_desc, ◌-◌, String,
}
use oblimap.Tunnel.{
  is_live, Tunnel, tunnel_inactivity_ttl_ms, of_tenant, OpenError, rate_limit, Registry,
  is_probe_connected, Inventory, select_probe, opening, active, closed, error, no_probe,
  not_connected, failed,
}

-- What `openTunnel` is called with.
pub record Request : Type 0 where
  pub tenant_id : ℕ
  pub user_id : ℕ
  pub site_id : ℕ
  pub target_ip : String
  pub target_port : ℕ
  pub probe_id : Option ℕ

pub data Start : Type 0 where
  refused : OpenError → Start
  started : List Tunnel → Start

unfoldable pub new_tunnel : ℕ → ℕ → Request → ℕ → Tunnel
new_tunnel id now request probe_id = record {
  id = id;
  tenant_id = request.tenant_id;
  probe_id = probe_id;
  site_id = request.site_id;
  target_ip = request.target_ip;
  target_port = request.target_port;
  status = opening;
  requested_by = some request.user_id;
  error_message = none;
  created_at = now;
  closed_at = none;
}

-- The tests on the chosen probe, and the insert.
unfoldable pub insert_through : ℕ → ℕ → Request → Option ℕ → Registry → List Tunnel → Start
unfolding new_tunnel is_probe_connected
insert_through id now request none registry tunnels = refused no_probe
insert_through id now request (some p) registry tunnels =
    if p == 0
    then refused no_probe
    else if is_probe_connected p registry
    then started (new_tunnel id now request p ∷ tunnels)
    else refused not_connected

abbrev pub unless_refused : Option OpenError → Start → Start
unless_refused (some e) next = refused e
unless_refused none next = next

-- `openTunnel`, up to the insert, when no other call comes between its queries.
unfoldable pub start_tunnel : ℕ → ℕ → Request → Inventory → Registry → List Tunnel → Start
unfolding rate_limit select_probe insert_through
start_tunnel id now request inventory registry tunnels =
    unless_refused (rate_limit request.tenant_id request.user_id tunnels) (
      insert_through id now request
        (if truthy request.probe_id
          then request.probe_id
          else select_probe request.tenant_id request.site_id request.target_ip inventory registry
              tunnels)
        registry tunnels)

-- `update({ status: 'error', … })`
abbrev pub mark_error : ℕ → String → Tunnel → Tunnel
mark_error now message t = record t {
  status = error;
  error_message = some message;
  closed_at = some now;
}

-- `openTunnel`, from the probe's answer on: `answer` is the answer's `error`, an empty one being falsy.
unfoldable pub settle_tunnel : ℕ → ℕ → Option String → List Tunnel → Option OpenError × List Tunnel
settle_tunnel id now none tunnels =
    (none, update (λ t. t.id == id) (λ t. record t { status = active }) tunnels)
settle_tunnel id now (some message) tunnels =
    if str_eq message ""
    then (none, update (λ t. t.id == id) (λ t. record t { status = active }) tunnels)
    else (some (failed message), update (λ t. t.id == id) (mark_error now message) tunnels)

-- `tenantId && tunnel.tenant_id !== tenantId`
abbrev pub is_foreign : Option ℕ → Tunnel → Bool
is_foreign tenant_id t = truthy tenant_id && not (some t.tenant_id ==? tenant_id)

-- `closeTunnel`, once the row is looked up.
unfoldable pub close_found : ℕ → Option ℕ → ℕ → Option Tunnel → List Tunnel → List Tunnel
close_found id tenant_id now none tunnels = tunnels
close_found id tenant_id now (some t) tunnels =
    if is_foreign tenant_id t
    then tunnels
    else update (λ t. t.id == id) (λ t. record t { status = closed; closed_at = some now }) tunnels

-- `closeTunnel`
unfoldable pub close_tunnel : ℕ → Option ℕ → ℕ → List Tunnel → List Tunnel
unfolding close_found
close_tunnel id tenant_id now tunnels =
    close_found id tenant_id now (first (λ t. t.id == id) tunnels) tunnels

abbrev pub mark_closed : ℕ → String → Tunnel → Tunnel
mark_closed now message t = record t {
  status = closed;
  error_message = some message;
  closed_at = some now;
}

-- The loop of `cleanupStaleTunnels`.
unfoldable pub close_disconnected : List Tunnel → Registry → ℕ → List Tunnel → List Tunnel
unfolding is_probe_connected
close_disconnected [] registry now tunnels = tunnels
close_disconnected (a ∷ rest) registry now tunnels = close_disconnected rest registry now (
    if is_probe_connected a.probe_id registry
    then tunnels
    else update (λ t. t.id == a.id) (mark_closed now "Probe disconnected") tunnels)

-- `cleanupStaleTunnels`
unfoldable pub cleanup_stale_tunnels : Registry → ℕ → List Tunnel → List Tunnel
unfolding close_disconnected
cleanup_stale_tunnels registry now tunnels =
    let left = close_disconnected (where_ (λ t. is_live t.status) tunnels) registry now tunnels in
    update (λ t. is_live t.status && ltb t.created_at (now - tunnel_inactivity_ttl_ms))
      (mark_closed now "Inactivity timeout") left

-- `getTunnel`
unfoldable pub get_tunnel : ℕ → ℕ → List Tunnel → Option Tunnel
get_tunnel id tenant_id tunnels = first (λ t. t.id == id && t.tenant_id == tenant_id) tunnels

-- `listTunnels`
unfoldable pub list_tunnels : ℕ → List Tunnel → List Tunnel
list_tunnels tenant_id tunnels =
    order_by_desc (λ t. t.created_at) (where_ (of_tenant tenant_id) tunnels)

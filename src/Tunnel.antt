-- ===== src/Tunnel.antt =====
-- Tunnels through a probe to a device: `tunnelService` of server/src/services/tunnel.service.ts over the
-- table `tunnels`. The ids of tunnels are numbers here; which probes are connected comes from the
-- registry of server/src/services/probeHub.service.ts.
pub mod Calls
pub mod Revival
pub mod Limits
pub mod Reached
pub mod Choice
mod Tests
use text.Mathlib.Text.{◌==◌ as str_eq}
use oblimap.Base.{
  ℕ, ◌+◌, ◌*◌, Bool, true, false, not, ◌&&◌, Option, none, some, List, [], ◌∷◌, ◌++◌, ◌==◌, ◌==?◌,
  ltb, leb, if◌then◌else◌, truthy, where_, any, first, update, map, order_by, order_by_desc, ◌-◌,
  length, String,
}

pub data TunnelStatus : Type 0 where
  opening active closed error : TunnelStatus

-- `whereIn('status', ['opening', 'active'])`
abbrev pub is_live : TunnelStatus → Bool
is_live opening = true
is_live active = true
is_live closed = false
is_live error = false

-- A row of `tunnels`; time stamps are numbers of milliseconds.
pub record Tunnel : Type 0 where
  pub id : ℕ
  pub tenant_id : ℕ
  pub probe_id : ℕ
  pub site_id : ℕ
  pub target_ip : String
  pub target_port : ℕ
  pub status : TunnelStatus
  pub requested_by : Option ℕ
  pub error_message : Option String
  pub created_at : ℕ
  pub closed_at : Option ℕ

abbrev pub max_tunnels_per_user : ℕ
max_tunnels_per_user = 5

abbrev pub max_tunnels_per_tenant : ℕ
max_tunnels_per_tenant = 20

abbrev pub tunnel_inactivity_ttl_ms : ℕ
tunnel_inactivity_ttl_ms = 30 * 60 * 1000

-- The live tunnels that a user opened in a tenant.
abbrev pub of_user : ℕ → ℕ → Tunnel → Bool
of_user user_id tenant_id t =
    (t.requested_by ==? some user_id && t.tenant_id == tenant_id) && is_live t.status

-- The live tunnels of a tenant.
abbrev pub of_tenant : ℕ → Tunnel → Bool
of_tenant tenant_id t = t.tenant_id == tenant_id && is_live t.status

-- `.count('* as cnt')`
unfoldable pub count : (Tunnel → Bool) → List Tunnel → ℕ
count test tunnels = length (where_ test tunnels)

pub data OpenError : Type 0 where
  too_many_for_user too_many_for_tenant no_probe not_connected : OpenError
  failed : String → OpenError

-- The two rate limits.
unfoldable pub rate_limit : ℕ → ℕ → List Tunnel → Option OpenError
unfolding count
rate_limit tenant_id user_id tunnels =
    if leb max_tunnels_per_user (count (of_user user_id tenant_id) tunnels)
    then some too_many_for_user
    else if leb max_tunnels_per_tenant (count (of_tenant tenant_id) tunnels)
    then some too_many_for_tenant
    else none

-- A row of `site_items`.
pub record SiteItem : Type 0 where
  pub site_id : ℕ
  pub tenant_id : ℕ
  pub ip : String
  pub discovered_by_probe_id : Option ℕ

-- A row of `probes`; `is_approved` is `status = 'approved'`.
pub record Probe : Type 0 where
  pub id : ℕ
  pub site_id : Option ℕ
  pub tenant_id : ℕ
  pub is_approved : Bool
  pub is_primary : Bool

-- The registry: the probes with a connection, and whether its `readyState` is OPEN.
abbrev pub Registry : Type 0
Registry = List (ℕ × Bool)

-- `getConnectedProbes().has(id)`
unfoldable pub has_connection : ℕ → Registry → Bool
has_connection probe_id registry = any (λ c. c.0 == probe_id) registry

-- `isProbeConnected`
unfoldable pub is_probe_connected : ℕ → Registry → Bool
is_probe_connected probe_id registry = any (λ c. c.0 == probe_id && c.1) registry

abbrev pub discoverer : Option SiteItem → Option ℕ
discoverer none = none
discoverer (some item) = item.discovered_by_probe_id

abbrev pub head_id : List ℕ → Option ℕ
head_id [] = none
head_id (i ∷ is) = some i

-- Approved probes of a site.
abbrev pub on_site : ℕ → ℕ → Probe → Bool
on_site tenant_id site_id p =
    p.site_id ==? some site_id && (p.tenant_id == tenant_id && p.is_approved)

-- Live tunnels through a probe, `countMap.get(id) ?? 0`.
unfoldable pub load : List Tunnel → ℕ → ℕ
unfolding count
load tunnels probe_id = count (λ t. t.probe_id == probe_id && is_live t.status) tunnels

-- Step 3 of `selectProbe`.
unfoldable pub candidates : ℕ → ℕ → List Probe → Registry → List ℕ
unfolding has_connection
candidates tenant_id site_id probes registry =
    where_ (λ i. has_connection i registry)
      (map (λ p. p.id) (where_ (on_site tenant_id site_id) probes))

unfoldable pub least_loaded : ℕ → ℕ → List Probe → Registry → List Tunnel → Option ℕ
unfolding candidates load
least_loaded tenant_id site_id probes registry tunnels =
    head_id (order_by (load tunnels) (candidates tenant_id site_id probes registry))

-- `if (… && isProbeConnected(id)) return id`
abbrev pub prefer : Registry → Option ℕ → Option ℕ → Option ℕ
prefer registry none other = other
prefer registry (some i) other = if is_probe_connected i registry then some i else other

abbrev pub if_truthy : Option ℕ → Option ℕ
if_truthy i = if truthy i then i else none

abbrev pub id_of : Option Probe → Option ℕ
id_of none = none
id_of (some p) = some p.id

-- The tables that the choice of a probe reads.
pub record Inventory : Type 0 where
  pub site_items : List SiteItem
  pub probes : List Probe

-- `selectProbe`
unfoldable pub select_probe : ℕ → ℕ → String → Inventory → Registry → List Tunnel → Option ℕ
unfolding is_probe_connected least_loaded
select_probe tenant_id site_id target_ip inventory registry tunnels =
    let item =
      first (λ i. i.site_id == site_id && (i.tenant_id == tenant_id && str_eq i.ip target_ip))
        inventory.site_items in
    let primary = first (λ p. on_site tenant_id site_id p && p.is_primary) inventory.probes in
    prefer registry (if_truthy (discoverer item)) (
      prefer registry (id_of primary)
        (least_loaded tenant_id site_id inventory.probes registry tunnels))

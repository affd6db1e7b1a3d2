-- ===== src/Flow.antt =====
-- Network flows that probes report: `flowService` of server/src/services/flow.service.ts over the table `network_flows`.
-- The newest row comes first; time stamps are numbers of milliseconds.
pub mod Counted
mod Tests
use oblimap.Base.{
  ℕ, suc, ◌+◌, ◌-◌, ◌*◌, Bool, true, false, not, ◌&&◌, ◌||◌, Option, none, some, List, [], ◌∷◌,
  ◌++◌, ◌==◌, ◌=ᵗ◌, leb, if◌then◌else◌, where_, any, first, update, order_by_desc, Text, codes,
  starts_with, length, truthy,
}
use oblimap.Item.{Item, is_filled, or_text}

-- A row of `network_flows`.
pub record NetworkFlow : Type 0 where
  pub id : ℕ
  pub site_id : ℕ
  pub tenant_id : ℕ
  pub source_ip : Text
  pub source_port : Option ℕ
  pub dest_ip : Text
  pub dest_port : ℕ
  pub protocol : Text
  pub source_process : Option Text
  pub connection_count : ℕ
  pub discovered_by_probe_id : Option ℕ
  pub first_seen_at : ℕ
  pub last_seen_at : ℕ

-- A flow as a probe reports it.
pub record FlowEntry : Type 0 where
  pub source_ip : Text
  pub source_port : Option ℕ
  pub dest_ip : Text
  pub dest_port : ℕ
  pub protocol : Text
  pub process : Option Text

-- The arguments of `processFlows` that stay the same, and the time.
pub record FlowScan : Type 0 where
  pub tenant_id : ℕ
  pub site_id : ℕ
  pub probe_id : ℕ
  pub now : ℕ

-- `flow.protocol || 'tcp'`
abbrev pub protocol_of : FlowEntry → Text
protocol_of f = if is_filled (some f.protocol) then f.protocol else codes "tcp"

-- What `where({ site_id, tenant_id, source_ip, … })` compares.
pub record FlowKey : Type 0 where
  pub site_id : ℕ
  pub tenant_id : ℕ
  pub source_ip : Text
  pub dest_ip : Text
  pub dest_port : ℕ
  pub protocol : Text

abbrev pub key_of : FlowScan → FlowEntry → FlowKey
key_of s f = record {
  site_id = s.site_id;
  tenant_id = s.tenant_id;
  source_ip = f.source_ip;
  dest_ip = f.dest_ip;
  dest_port = f.dest_port;
  protocol = protocol_of f;
}

abbrev pub has_key : FlowKey → NetworkFlow → Bool
has_key k r =
    ((r.site_id == k.site_id && r.tenant_id == k.tenant_id)
      && (r.source_ip =ᵗ k.source_ip && r.dest_ip =ᵗ k.dest_ip))
    && (r.dest_port == k.dest_port && r.protocol =ᵗ k.protocol)

abbrev pub or_null : Option ℕ → Option ℕ
or_null n = if truthy n then n else none

abbrev pub filled_or_null : Option Text → Option Text
filled_or_null t = if is_filled t then t else none

-- The update of a known flow `x`.
unfoldable pub counted : FlowScan → FlowEntry → NetworkFlow → NetworkFlow → NetworkFlow
counted s f x r = record r {
  last_seen_at = s.now;
  connection_count = r.connection_count + 1;
  source_process = or_text f.process x.source_process;
  discovered_by_probe_id = some s.probe_id;
}

unfoldable pub new_flow : FlowScan → ℕ → FlowEntry → NetworkFlow
new_flow s id f = record {
  id = id;
  site_id = s.site_id;
  tenant_id = s.tenant_id;
  source_ip = f.source_ip;
  source_port = or_null f.source_port;
  dest_ip = f.dest_ip;
  dest_port = f.dest_port;
  protocol = protocol_of f;
  source_process = filled_or_null f.process;
  connection_count = 1;
  discovered_by_probe_id = some s.probe_id;
  first_seen_at = s.now;
  last_seen_at = s.now;
}

-- The table and the sequence that numbers its rows.
pub record Flows : Type 0 where
  pub rows : List NetworkFlow
  pub next_id : ℕ

unfoldable pub store_flow : FlowScan → FlowEntry → Option NetworkFlow → Flows → Flows
unfolding counted new_flow
store_flow s f none t = record { rows = new_flow s t.next_id f ∷ t.rows; next_id = suc t.next_id }
store_flow s f (some x) t = record t { rows = update (λ r. r.id == x.id) (counted s f x) t.rows }

-- The body of the loop.
unfoldable pub process_flow : FlowScan → FlowEntry → Flows → Flows
unfolding store_flow
process_flow s f t = store_flow s f (first (has_key (key_of s f)) t.rows) t

-- `processFlows`
unfoldable pub process_flows : FlowScan → List FlowEntry → Flows → Flows
unfolding process_flow
process_flows s [] t = t
process_flows s (f ∷ fs) t = process_flows s fs (process_flow s f t)

abbrev in_site : ℕ → ℕ → NetworkFlow → Bool
in_site tenant_id site_id r = r.site_id == site_id && r.tenant_id == tenant_id

pub data FlowPeriod : Type 0 where
  hour day month year : FlowPeriod

-- `periodToInterval`, in milliseconds
abbrev pub period_to_interval : FlowPeriod → ℕ
period_to_interval hour = 3600000
period_to_interval day = 24 * 3600000
period_to_interval month = 30 * (24 * 3600000)
period_to_interval year = 365 * (24 * 3600000)

abbrev known_ip : ℕ → ℕ → List Item → Text → Bool
known_ip tenant_id site_id items ip =
    any (λ i. (i.site_id == site_id && i.tenant_id == tenant_id) && i.ip =ᵗ ip) items

-- `getFlows`
unfoldable pub get_flows : ℕ → ℕ → ℕ → FlowPeriod → List Item → List NetworkFlow → List NetworkFlow
get_flows now tenant_id site_id period items flows =
    where_
      (λ r.
        known_ip tenant_id site_id items r.source_ip || known_ip tenant_id site_id items r.dest_ip)
      (order_by_desc (λ r. r.connection_count)
        (where_
          (λ r. in_site tenant_id site_id r && leb (now - period_to_interval period) r.last_seen_at)
          flows))

-- `clearFlows`: how many rows are gone, and the table.
unfoldable pub clear_flows : ℕ → ℕ → List NetworkFlow → ℕ × List NetworkFlow
clear_flows tenant_id site_id flows = (
  length (where_ (in_site tenant_id site_id) flows),
  where_ (λ r. not (in_site tenant_id site_id r)) flows,
)

-- `LIKE 'prefix.%'`, where the prefix has no `%`, `_` or backslash
abbrev pub in_subnet : Text → Text → Bool
in_subnet prefix ip = starts_with (prefix ++ b'.' ∷ []) ip

abbrev of_subnet : ℕ → ℕ → Text → NetworkFlow → Bool
of_subnet tenant_id site_id prefix r =
    in_site tenant_id site_id r && (in_subnet prefix r.source_ip || in_subnet prefix r.dest_ip)

-- `clearFlowsForSubnet`
unfoldable pub clear_flows_for_subnet : ℕ → ℕ → Text → List NetworkFlow → ℕ × List NetworkFlow
unfolding starts_with
clear_flows_for_subnet tenant_id site_id prefix flows = (
  length (where_ (of_subnet tenant_id site_id prefix) flows),
  where_ (λ r. not (of_subnet tenant_id site_id prefix r)) flows,
)

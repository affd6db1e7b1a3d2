-- ===== src/Flow/Tests.antt =====
-- Three reports, two of one flow.
use oblimap.Base.{◌≡◌, refl, none, some, ◌∷◌, [], List, codes, arith, count_where, where_, ◌+◌}
use oblimap.Flow.{FlowEntry, FlowScan, FlowKey, Flows, key_of, process_flows}
use oblimap.Flow.Counted.{IsTallied, total, reports, process_flows-counted}

abbrev scan : FlowScan
scan = record { tenant_id = 1; site_id = 4; probe_id = 7; now = 100 }

abbrev to_server : FlowEntry
to_server = record {
  source_ip = codes "10.0.0.2";
  source_port = some 5000;
  dest_ip = codes "10.0.0.9";
  dest_port = 443;
  protocol = [];
  process = none;
}

abbrev flows : List FlowEntry
flows = to_server ∷ record to_server { dest_port = 22 } ∷ to_server ∷ []

abbrev empty : Flows
empty = record { rows = []; next_id = 1 }

empty-IsTallied : IsTallied empty
unfolding count_where where_
empty-IsTallied = record {
  distinct = λ i. omega arith;
  fresh = λ i h. refl;
  apart = λ k. omega arith;
}

process_flows-counted_example :
    IsTallied (process_flows scan flows empty)
    × ((k : FlowKey)
        → total k (process_flows scan flows empty).rows ≡ total k [] + reports scan k flows)
process_flows-counted_example = process_flows-counted scan flows empty empty-IsTallied

counted_twice : reports scan (key_of scan to_server) flows ≡ 2
unfolding reports
counted_twice = refl

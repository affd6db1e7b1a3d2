-- ===== src/Hub/Tests.antt =====
-- Two sockets of one probe, and a tunnel that waits for it.
use oblimap.Base.{◌≡◌, refl, true, ◌∷◌, [], ◌++◌, ◌==◌, List, arith, any, lookup, put}
use oblimap.Hub.{
  ProbeConn, ready, HubEvent, connected, closed, waited, fired, answered, start, run, step,
  is_probe_connected, wait_for_tunnel_response, on_tunnel_answer,
}
use oblimap.Hub.Settled.{resolved, timer_settles}
use oblimap.Hub.Registered.{connected_stays}

abbrev old_conn : ProbeConn
old_conn = record { ws = 1; probe_id = 7; tenant_id = 1; probe_uuid = "u"; api_key_id = 2 }

abbrev new_conn : ProbeConn
new_conn = record { ws = 2; probe_id = 7; tenant_id = 1; probe_uuid = "u"; api_key_id = 2 }

abbrev before : List HubEvent
before = connected old_conn ∷ waited 40 ∷ answered 40 ready ∷ []

-- The answer came first, so the timer changes nothing.
timer_settles_example : resolved 0 (run (before ++ fired 0 ∷ waited 41 ∷ []) start).0 ≡ 1
unfolding run step wait_for_tunnel_response on_tunnel_answer put lookup
timer_settles_example = timer_settles before (waited 41 ∷ []) 0 (omega arith)

-- The old socket closes after the new one is registered.
connected_stays_example :
    is_probe_connected
      (λ ws. ws == 2)
      7
      (run
        (connected new_conn ∷ closed old_conn ∷ waited 40 ∷ [])
        (run (connected old_conn ∷ []) start).1).1
    ≡ true
unfolding any
connected_stays_example =
    connected_stays (closed old_conn ∷ waited 40 ∷ []) new_conn
      (run (connected old_conn ∷ []) start).1 (λ ws. ws == 2) refl

-- ===== src/Probe/Messages.antt =====
-- The messages that a probe sends over its WebSocket: `handleProbeMessage` of server/src/services/probeHub.service.ts.
use oblimap.Base.{ℕ, Bool, Option, none, some, List, [], ◌==◌, update, or_else, String}
use oblimap.Hub.{Hub, ProbeConn, ready, failed, Resolution, send_to_probe, on_tunnel_answer}
use oblimap.Probe.Push.{ProbePushPayload, PushResult, unauthorized, answered, Tables, handle_push}

-- `ProbeWsMessage`, by its type; a tunnel goes by a number.
pub data ProbeWsMessage : Type 0 where
  scan_result : ProbePushPayload → ProbeWsMessage
  heartbeat other : ProbeWsMessage
  tunnel_ready : ℕ → ProbeWsMessage
  tunnel_error : ℕ → Option String → ProbeWsMessage

-- What the server sends back; the push's own configuration is left out.
pub data Reply : Type 0 where
  config_update : PushResult → Reply
  heartbeat_ack : Reply

-- The message that goes out, with its socket, the promises that are resolved, and the two states.
pub record Handled : Type 0 where
  pub sent : Option (ℕ × Reply)
  pub resolutions : List Resolution
  pub hub : Hub
  pub tables : Tables

abbrev over : Option ℕ → Reply → Option (ℕ × Reply)
over none reply = none
over (some ws) reply = some (ws, reply)

abbrev settled : List Resolution × Hub → Tables → Handled
settled (resolutions, hub) t = record {
  sent = none;
  resolutions = resolutions;
  hub = hub;
  tables = t;
}

abbrev replied : (ℕ → Bool) → (ℕ → Bool) → ProbeConn → Hub → PushResult → Tables → Handled
replied open_ws sends conn hub result t = record {
  sent = over (send_to_probe open_ws sends conn.probe_id hub) (config_update result);
  resolutions = [];
  hub = hub;
  tables = t;
}

-- An exception of the push is logged and not answered.
abbrev pushed : (ℕ → Bool) → (ℕ → Bool) → ProbeConn → Hub → PushResult × Tables → Handled
pushed open_ws sends conn hub (PushResult.failed, t) = settled ([], hub) t
pushed open_ws sends conn hub (unauthorized, t) = replied open_ws sends conn hub unauthorized t
pushed open_ws sends conn hub (answered code status command role, t) =
    replied open_ws sends conn hub (answered code status command role) t

-- `handleProbeMessage`, if nothing else happens while it runs
unfoldable pub handle_probe_message :
    (ℕ → Bool) → (ℕ → Bool) → ℕ → ProbeConn → ProbeWsMessage → Hub → Tables → Handled
unfolding send_to_probe on_tunnel_answer handle_push
handle_probe_message open_ws sends now conn (scan_result payload) hub t =
    pushed open_ws sends conn hub
      (handle_push now (some conn.api_key_id) "" conn.probe_uuid payload t)
handle_probe_message open_ws sends now conn heartbeat hub t = record {
  sent = over (send_to_probe open_ws sends conn.probe_id hub) heartbeat_ack;
  resolutions = [];
  hub = hub;
  tables = record t {
    probes =
        update (λ p. p.id == conn.probe_id) (λ p. record p { last_seen_at = some now }) t.probes;
  };
}
handle_probe_message open_ws sends now conn (tunnel_ready id) hub t =
    settled (on_tunnel_answer id ready hub) t
handle_probe_message open_ws sends now conn (tunnel_error id message) hub t =
    settled (on_tunnel_answer id (failed (or_else message "Unknown error")) hub) t
handle_probe_message open_ws sends now conn other hub t = settled ([], hub) t

-- ===== src/Hub.antt =====
-- The WebSocket connections of probes: server/src/services/probeHub.service.ts. The state of the module is
-- `byProbeId`, `tunnelCallbacks`, `tunnelDataWs` and the timers that `waitForTunnelResponse` has set and nothing
-- has cleared. A socket is a number; whether its `readyState` is OPEN is a function of the call, since
-- the library `ws` keeps it, and so is whether its `send` returns without an exception.
pub mod Registered
pub mod Paired
pub mod Settled
mod Tests
use oblimap.Base.{
  ℕ, suc, Bool, false, not, ◌&&◌, Option, none, some, List, [], ◌∷◌, ◌++◌, ◌==◌, if◌then◌else◌,
  String, lookup, put, erase,
}

pub record ProbeConn : Type 0 where
  pub ws : ℕ
  pub probe_id : ℕ
  pub tenant_id : ℕ
  pub probe_uuid : String
  pub api_key_id : ℕ

-- The promise of `waitForTunnelResponse` goes by the number of its timer.
pub record Hub : Type 0 where
  pub by_probe_id : List (ℕ × ProbeConn)
  pub tunnel_callbacks : List (ℕ × ℕ)
  pub tunnel_data_ws : List (ℕ × ℕ)
  pub timers : List (ℕ × ℕ)
  pub next_timer : ℕ

abbrev pub start : Hub
start = record {
  by_probe_id = [];
  tunnel_callbacks = [];
  tunnel_data_ws = [];
  timers = [];
  next_timer = 0;
}

-- What a promise is resolved with: `{}`, or an object with `error`.
pub data Answer : Type 0 where
  ready timed_out : Answer
  failed : String → Answer

-- A promise and what it is resolved with.
abbrev pub Resolution : Type 0
Resolution = ℕ × Answer

abbrev pub is_open : (ℕ → Bool) → Option ProbeConn → Bool
is_open open_ws none = false
is_open open_ws (some conn) = open_ws conn.ws

-- `isProbeConnected`
unfoldable pub is_probe_connected : (ℕ → Bool) → ℕ → Hub → Bool
is_probe_connected open_ws probe_id hub = is_open open_ws (lookup probe_id hub.by_probe_id)

-- No message goes out if the socket is not open, nor if `send` throws, which is caught.
abbrev pub send_over : (ℕ → Bool) → (ℕ → Bool) → Option ProbeConn → Option ℕ
send_over open_ws sends none = none
send_over open_ws sends (some conn) =
    if not (open_ws conn.ws) then none else if sends conn.ws then some conn.ws else none

-- `sendToProbe`: the socket that the message goes over, none where the code returns false.
unfoldable pub send_to_probe : (ℕ → Bool) → (ℕ → Bool) → ℕ → Hub → Option ℕ
send_to_probe open_ws sends probe_id hub = send_over open_ws sends (lookup probe_id hub.by_probe_id)

abbrev ws_of : Option ProbeConn → Option ℕ
ws_of none = none
ws_of (some conn) = some conn.ws

-- `registerProbeWs`: the socket that it closes, and the registry after it.
unfoldable pub register_probe_ws : ProbeConn → Hub → Option ℕ × Hub
register_probe_ws conn hub = (
  ws_of (lookup conn.probe_id hub.by_probe_id),
  record hub { by_probe_id = put conn.probe_id conn hub.by_probe_id },
)

unfoldable pub drop_if_same :
    ProbeConn → Option ProbeConn → List (ℕ × ProbeConn) → List (ℕ × ProbeConn)
drop_if_same conn none conns = conns
drop_if_same conn (some current) conns =
    if current.ws == conn.ws then erase conn.probe_id conns else conns

-- `ws.on('close', …)` of `registerProbeWs`
unfoldable pub on_close : ProbeConn → Hub → Hub
unfolding drop_if_same
on_close conn hub = record hub {
  by_probe_id = drop_if_same conn (lookup conn.probe_id hub.by_probe_id) hub.by_probe_id;
}

-- `registerTunnelDataWs`
unfoldable pub register_tunnel_data_ws : ℕ → ℕ → Hub → Hub
register_tunnel_data_ws tunnel_id ws hub = record hub {
  tunnel_data_ws = put tunnel_id ws hub.tunnel_data_ws;
}

-- `ws.on('close', …)` of `registerTunnelDataWs`
unfoldable pub on_data_close : ℕ → Hub → Hub
on_data_close tunnel_id hub = record hub { tunnel_data_ws = erase tunnel_id hub.tunnel_data_ws }

-- `waitForTunnelResponse`
unfoldable pub wait_for_tunnel_response : ℕ → Hub → Hub
wait_for_tunnel_response tunnel_id hub = record hub {
  tunnel_callbacks = put tunnel_id hub.next_timer hub.tunnel_callbacks;
  timers = (hub.next_timer, tunnel_id) ∷ hub.timers;
  next_timer = suc hub.next_timer;
}

abbrev pub expired : ℕ → Option ℕ → Hub → List Resolution × Hub
expired timer none hub = ([], hub)
expired timer (some tunnel_id) hub = (
  (timer, timed_out) ∷ [],
  record hub {
    tunnel_callbacks = erase tunnel_id hub.tunnel_callbacks;
    timers = erase timer hub.timers;
  },
)

-- A timer fires, if nothing has cleared it.
unfoldable pub on_timeout : ℕ → Hub → List Resolution × Hub
on_timeout timer hub = expired timer (lookup timer hub.timers) hub

abbrev pub settle : ℕ → Answer → Option ℕ → Hub → List Resolution × Hub
settle tunnel_id answer none hub = ([], hub)
settle tunnel_id answer (some timer) hub = (
  (timer, answer) ∷ [],
  record hub {
    tunnel_callbacks = erase tunnel_id hub.tunnel_callbacks;
    timers = erase timer hub.timers;
  },
)

-- `tunnel_ready` and `tunnel_error` of `handleProbeMessage`
unfoldable pub on_tunnel_answer : ℕ → Answer → Hub → List Resolution × Hub
on_tunnel_answer tunnel_id answer hub =
    settle tunnel_id answer (lookup tunnel_id hub.tunnel_callbacks) hub

-- What happens to the module, in the order in which the event loop runs it.
pub data HubEvent : Type 0 where
  connected closed : ProbeConn → HubEvent
  data_opened : ℕ → ℕ → HubEvent
  data_closed waited fired : ℕ → HubEvent
  answered : ℕ → Answer → HubEvent

unfoldable pub step : HubEvent → Hub → List Resolution × Hub
unfolding register_probe_ws on_close register_tunnel_data_ws on_data_close wait_for_tunnel_response
    on_timeout on_tunnel_answer
step (connected conn) hub = ([], (register_probe_ws conn hub).1)
step (closed conn) hub = ([], on_close conn hub)
step (data_opened tunnel_id ws) hub = ([], register_tunnel_data_ws tunnel_id ws hub)
step (data_closed tunnel_id) hub = ([], on_data_close tunnel_id hub)
step (waited tunnel_id) hub = ([], wait_for_tunnel_response tunnel_id hub)
step (fired timer) hub = on_timeout timer hub
step (answered tunnel_id answer) hub = on_tunnel_answer tunnel_id answer hub

unfoldable pub run : List HubEvent → Hub → List Resolution × Hub
unfolding step
run [] hub = ([], hub)
run (e ∷ es) hub =
    let (now, after) = step e hub in let (later, end) = run es after in (now ++ later, end)

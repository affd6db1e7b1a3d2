-- ===== src/Probe/Commands.antt =====
-- Commands for probes: they wait in `pending_command` for the next push, or go over the probe's WebSocket
-- at once.
pub mod Delivery
use text.Mathlib.Text.{◌==◌ as str_eq}
use oblimap.Base.{
  ℕ, Bool, Option, none, some, List, [], ◌∷◌, ◌++◌, ◌==◌, ◌&&◌, if◌then◌else◌, update, elem, String,
}
use oblimap.Hub.{Hub, is_probe_connected, send_to_probe}
use oblimap.Probe.{Probe, is_row}

-- `...(command === 'uninstall' ? … : {}), ...(command === 'update' ? … : {})`
abbrev pub stamp : ℕ → String → Probe → Probe
stamp now command p = record p {
  uninstall_commanded_at =
      if str_eq command "uninstall" then some now else p.uninstall_commanded_at;
  updating_since = if str_eq command "update" then some now else p.updating_since;
}

-- The pending command is cleared, since it has been delivered.
abbrev pub delivered : ℕ → String → Probe → Probe
delivered now command p = record (stamp now command p) { pending_command = none }

-- The messages with a command, as the socket and the command, and the table.
abbrev pub Sent : Type 0
Sent = List (ℕ × String)

abbrev pub sent_over : Option ℕ → String → Sent
sent_over none command = []
sent_over (some ws) command = (ws, command) ∷ []

-- `if (isProbeConnected(id)) { … }`, the same in `sendCommand` and in the loop of `bulkCommand`.
unfoldable pub deliver_now :
    (ℕ → Bool) → (ℕ → Bool) → Hub → ℕ → ℕ → ℕ → String → List Probe → Sent × List Probe
unfolding is_probe_connected send_to_probe
deliver_now open_ws sends hub now tenant_id id command probes =
    let cleared : Sent × List Probe = (
      sent_over (send_to_probe open_ws sends id hub) command,
      update (is_row tenant_id id) (delivered now command) probes,
    ) in
    let untouched : Sent × List Probe = ([], probes) in
    if is_probe_connected open_ws id hub then cleared else untouched

-- `sendCommand`
unfoldable pub send_command :
    (ℕ → Bool) → (ℕ → Bool) → Hub → ℕ → ℕ → ℕ → String → List Probe → Sent × List Probe
unfolding deliver_now
send_command open_ws sends hub now tenant_id id command probes =
    deliver_now open_ws sends hub now tenant_id id command (
      update (is_row tenant_id id)
        (λ p. record p { pending_command = some command; updated_at = now }) probes)

-- The loop of `bulkCommand`.
unfoldable pub deliver_all :
    (ℕ → Bool) → (ℕ → Bool) → Hub → ℕ → ℕ → List ℕ → String → List Probe → Sent × List Probe
unfolding deliver_now
deliver_all open_ws sends hub now tenant_id [] command probes = ([], probes)
deliver_all open_ws sends hub now tenant_id (id ∷ ids) command probes =
    let (sent, probes') = deliver_now open_ws sends hub now tenant_id id command probes in
    let (more, end) = deliver_all open_ws sends hub now tenant_id ids command probes' in
    (sent ++ more, end)

-- `bulkCommand`
unfoldable pub bulk_command :
    (ℕ → Bool) → (ℕ → Bool) → Hub → ℕ → ℕ → List ℕ → String → List Probe → Sent × List Probe
unfolding deliver_all
bulk_command open_ws sends hub now tenant_id ids command probes =
    deliver_all open_ws sends hub now tenant_id ids command (
      update (λ p. p.tenant_id == tenant_id && elem p.id ids)
        (λ p. record p { pending_command = some command; updated_at = now }) probes)

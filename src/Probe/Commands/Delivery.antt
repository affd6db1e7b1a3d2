-- ===== src/Probe/Commands/Delivery.antt =====
-- Where a command for a probe ends up: sent, lost or waiting; and it may go to a probe of another tenant.
use oblimap.Base.{
  ℕ, ◌≡◌, refl, ◌⊎◌, ap, ◌∙◌, Bool, true, false, Option, none, some, List, [], ◌∷◌, any, first,
  update, lookup, String, arith, Bool-cases, inl, inr, if◌then◌else◌,
}
use oblimap.Hub.{Hub, ProbeConn, is_open, send_over, is_probe_connected, send_to_probe}
use oblimap.Probe.{Probe, is_row}
use oblimap.Probe.Commands.{Sent, sent_over, deliver_now, send_command, delivered}

first-update :
    (test : Probe → Bool) (change : Probe → Probe)
    → ((p : Probe) → test (change p) ≡ test p)
    → (ps : List Probe) (x : Probe) → first test ps ≡ some x
    → first test (update test change ps) ≡ some (change x)
unfolding first update
first-update test change same [] x e = absurd (ground (arith, e))
first-update test change same (p ∷ ps) x e = elim (Bool-cases (test p)) [
  | inl hit ↦
      let there : test (change p) ≡ true = same p ∙ hit in
      let it : p ≡ x = ground (arith, rw hit at e) in rw (hit, there) (ap (λ y. some (change y)) it)
  | inr miss ↦ rw (miss, miss) (first-update test change same ps x (rw miss at e))
]

untouched :
    (test : Probe → Bool) (change : Probe → Probe) (ps : List Probe)
    → any test ps ≡ false
    → update test change ps ≡ ps
unfolding any update
untouched test change [] h = refl
untouched test change (p ∷ ps) h =
    let miss : test p ≡ false = ground (arith, h) in
    rw miss (ap (λ l. p ∷ l) (untouched test change ps (ground (arith, h))))

-- `update({ pending_command: command, … })`
abbrev set_pending : ℕ → String → Probe → Probe
set_pending now command p = record p { pending_command = some command; updated_at = now }

-- The tenant's row of the probe has this pending command.
abbrev pub IsPending : ℕ → ℕ → Option String → List Probe → Type 0
IsPending tenant id command probes =
    (y : Probe) × (first (is_row tenant id) probes ≡ some y) × (y.pending_command ≡ command)

-- What becomes of a command, by the connection of the probe.
abbrev pub IsOutcome :
    (ℕ → Bool) → (ℕ → Bool) → ℕ → ℕ → String → Option ProbeConn → Sent × List Probe → Type 0
IsOutcome open_ws sends tenant id command none (sent, after) =
    (sent ≡ []) × IsPending tenant id (some command) after
IsOutcome open_ws sends tenant id command (some conn) (sent, after) =
    ((open_ws conn.ws ≡ false) × (sent ≡ []) × IsPending tenant id (some command) after)
    ⊎ (((open_ws conn.ws ≡ true)
          × (sends conn.ws ≡ true)
          × (sent ≡ (conn.ws, command) ∷ [])
          × IsPending tenant id none after)
        ⊎ ((open_ws conn.ws ≡ true)
            × (sends conn.ws ≡ false)
            × (sent ≡ [])
            × IsPending tenant id none after))

-- The two ends of `if (isProbeConnected(id))`, by the connection.
by_conn :
    (open_ws sends : ℕ → Bool) (tenant id : ℕ) (command : String) (pending cleared : List Probe)
    → IsPending tenant id (some command) pending
    → IsPending tenant id none cleared
    → (o : Option ProbeConn)
    → IsOutcome open_ws sends tenant id command o (
        if is_open open_ws o
        then (sent_over (send_over open_ws sends o) command, cleared)
        else ([], pending))
by_conn open_ws sends tenant id command pending cleared w c none = (refl, w)
by_conn open_ws sends tenant id command pending cleared w c (some conn) =
    elim (Bool-cases (open_ws conn.ws)) [
      | inl e ↦ elim (Bool-cases (sends conn.ws)) [
        | inl q ↦ rw (e, q) (inr (inl (refl, refl, refl, c)))
        | inr q ↦ rw (e, q) (inr (inr (refl, refl, refl, c)))
      ]
      | inr e ↦ rw e (inl (refl, refl, w))
    ]

-- For a probe of the tenant: with no open socket, its command is not sent and waits in the table for the next
-- push; over an open socket that takes it, it is sent once and does not wait; and if the socket is open but its
-- `send` throws, the command is neither sent nor waiting.
pub send_command_cases :
    (open_ws sends : ℕ → Bool) (hub : Hub) (now tenant id : ℕ) (command : String)
    (probes : List Probe) (x : Probe)
    → first (is_row tenant id) probes ≡ some x
    → IsOutcome open_ws sends tenant id command
        (lookup id hub.by_probe_id)
        (send_command open_ws sends hub now tenant id command probes)
unfolding send_command deliver_now is_probe_connected send_to_probe
send_command_cases open_ws sends hub now tenant id command probes x h =
    let waiting =
      first-update (is_row tenant id) (set_pending now command) (λ p. refl) probes x h in
    let taken = first-update (is_row tenant id) (delivered now command) (λ p. refl) _ _ waiting in
    by_conn open_ws sends tenant id command _ _ (set_pending now command x, waiting, refl)
      (delivered now command (set_pending now command x), taken, refl) (lookup id hub.by_probe_id)

open_send :
    (open_ws sends : ℕ → Bool) (o : Option ProbeConn) (ws : ℕ)
    → send_over open_ws sends o ≡ some ws
    → is_open open_ws o ≡ true
open_send open_ws sends none ws h = absurd (ground (arith, h))
open_send open_ws sends (some conn) ws h = elim (Bool-cases (open_ws conn.ws)) [
  | inl e ↦ e
  | inr e ↦ absurd (ground (arith, rw e at h))
]

-- The socket is not looked up by tenant: a command for a probe that is not one of the tenant's changes no row, but
-- is sent if the probe is connected and its socket takes the message.
pub send_command_foreign :
    (open_ws sends : ℕ → Bool) (hub : Hub) (now tenant id ws : ℕ) (command : String)
    (probes : List Probe)
    → any (is_row tenant id) probes ≡ false
    → send_to_probe open_ws sends id hub ≡ some ws
    → send_command open_ws sends hub now tenant id command probes ≡ ((ws, command) ∷ [], probes)
unfolding send_command deliver_now is_probe_connected send_to_probe
send_command_foreign open_ws sends hub now tenant id ws command probes h s =
    let same : update (is_row tenant id) (set_pending now command) probes ≡ probes =
      untouched (is_row tenant id) (set_pending now command) probes h in
    let again : update (is_row tenant id) (delivered now command) probes ≡ probes =
      untouched (is_row tenant id) (delivered now command) probes h in
    let c = open_send open_ws sends (lookup id hub.by_probe_id) ws s in rw (c, s, same, again) refl

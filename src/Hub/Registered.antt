-- ===== src/Hub/Registered.antt =====
-- A connection stays registered until it closes or another one replaces it.
use oblimap.Base.{
  ℕ, ◌≡◌, refl, sym, ap, subst, ◌∙◌, Bool, false, Option, none, some, List, [], ◌∷◌, ◌==◌, ◌&&◌,
  ==_iff, lookup, lookup-put, lookup-erase, any, arith, Bool-cases, inl, inr, ==_refl,
}
use oblimap.Hub.{
  Hub, Answer, HubEvent, ProbeConn, step, run, connected, closed, data_opened, data_closed, waited,
  fired, answered, expired, settle, register_probe_ws, on_close, register_tunnel_data_ws,
  on_data_close, wait_for_tunnel_response, on_timeout, on_tunnel_answer, drop_if_same,
  is_probe_connected,
}

-- The event takes the connection away: its own socket closes, or its probe connects again.
abbrev pub ends : ProbeConn → HubEvent → Bool
ends conn (connected other) = other.probe_id == conn.probe_id
ends conn (closed other) = other.probe_id == conn.probe_id && other.ws == conn.ws
ends conn (data_opened _ _) = false
ends conn (data_closed _) = false
ends conn (waited _) = false
ends conn (fired _) = false
ends conn (answered _ _) = false

expired_registry :
    (timer : ℕ) (o : Option ℕ) (hub : Hub) → (expired timer o hub).1.by_probe_id ≡ hub.by_probe_id
expired_registry timer none hub = refl
expired_registry timer (some t) hub = refl

settled_registry :
    (tunnel : ℕ) (a : Answer) (o : Option ℕ) (hub : Hub)
    → (settle tunnel a o hub).1.by_probe_id ≡ hub.by_probe_id
settled_registry tunnel a none hub = refl
settled_registry tunnel a (some t) hub = refl

closed_keeps :
    (conn other : ProbeConn) (o : Option ProbeConn) (conns : List (ℕ × ProbeConn))
    → lookup other.probe_id conns ≡ o
    → lookup conn.probe_id conns ≡ some conn
    → ends conn (closed other) ≡ false
    → lookup conn.probe_id (drop_if_same other o conns) ≡ some conn
unfolding drop_if_same
closed_keeps conn other none conns h k e = k
closed_keeps conn other (some current) conns h k e =
    elim (Bool-cases (other.probe_id == conn.probe_id)) [
      | inl same ↦
          let found : some current ≡ some conn =
            sym h ∙ (ap (λ i. lookup i conns) ((==_iff _ _).0 same) ∙ k) in
          let it : current ≡ conn = ap (λ o. elim o [ none ↦ conn | some c ↦ c ]) found in
          let other_ws : (other.ws == current.ws) ≡ false =
            subst (λ c. (other.ws == c.ws) ≡ false) (sym it) (ground (arith, same, e)) in
          let apart : (current.ws == other.ws) ≡ false = ground (arith, other_ws) in rw apart k
      | inr apart ↦ elim (Bool-cases (current.ws == other.ws)) [
        | inl hit ↦
            rw (hit, lookup-erase conn.probe_id other.probe_id conns) (ground (arith, apart, k))
        | inr miss ↦ rw miss k
      ]
    ]

step_keeps :
    (e : HubEvent) (conn : ProbeConn) (hub : Hub)
    → lookup conn.probe_id hub.by_probe_id ≡ some conn
    → ends conn e ≡ false
    → lookup conn.probe_id (step e hub).1.by_probe_id ≡ some conn
unfolding step register_probe_ws on_close register_tunnel_data_ws on_data_close
    wait_for_tunnel_response on_timeout on_tunnel_answer
step_keeps (connected other) conn hub h e =
    ground (arith, h, e, lookup-put conn.probe_id other.probe_id other hub.by_probe_id)
step_keeps (closed other) conn hub h e =
    closed_keeps conn other (lookup other.probe_id hub.by_probe_id) hub.by_probe_id refl h e
step_keeps (data_opened tunnel_id ws) conn hub h e = h
step_keeps (data_closed tunnel_id) conn hub h e = h
step_keeps (waited tunnel_id) conn hub h e = h
step_keeps (fired timer) conn hub h e = rw (expired_registry timer (lookup timer hub.timers) hub) h
step_keeps (answered tunnel_id answer) conn hub h e =
    rw (settled_registry tunnel_id answer (lookup tunnel_id hub.tunnel_callbacks) hub) h

run_keeps :
    (es : List HubEvent) (conn : ProbeConn) (hub : Hub)
    → lookup conn.probe_id hub.by_probe_id ≡ some conn
    → any (ends conn) es ≡ false
    → lookup conn.probe_id (run es hub).1.by_probe_id ≡ some conn
unfolding run any
run_keeps [] conn hub h e = h
run_keeps (e ∷ es) conn hub h n =
    run_keeps es conn (step e hub).1 (step_keeps e conn hub h (ground (arith, n)))
      (ground (arith, n))

-- A probe that has connected is connected as long as its socket is open, unless that socket closes or
-- the probe connects again; in particular the late `close` of a socket that it replaced changes nothing.
pub connected_stays :
    (es : List HubEvent) (conn : ProbeConn) (hub : Hub) (open_ws : ℕ → Bool)
    → any (ends conn) es ≡ false
    → is_probe_connected open_ws conn.probe_id (run (connected conn ∷ es) hub).1 ≡ open_ws conn.ws
unfolding is_probe_connected run step register_probe_ws
connected_stays es conn hub open_ws n =
    rw
      (run_keeps es conn (register_probe_ws conn hub).1
        (lookup-put conn.probe_id conn.probe_id conn hub.by_probe_id
          ∙ rw (==_refl conn.probe_id) refl)
        n)
      refl

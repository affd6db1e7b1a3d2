-- ===== src/Hub/Paired.antt =====
-- A promise that waits has its timer set.
use oblimap.Base.{
  ℕ, ◌≤◌, ◌≡◌, refl, sym, subst, false, Option, none, some, ◌==◌, leb, ==_iff, lookup, erase,
  lookup-put, lookup-erase, arith, Bool-cases, inl, inr,
}
use oblimap.Hub.{
  Hub, HubEvent, start, step, connected, closed, data_opened, data_closed, waited, fired, answered,
  expired, settle, wait_for_tunnel_response, register_probe_ws, on_close, register_tunnel_data_ws,
  on_data_close, on_timeout, on_tunnel_answer,
}

-- A callback's timer is set, and only promises that exist have one.
pub record IsPaired (hub : Hub) : Type 0 where
  pub timed : (t w : ℕ) → lookup t hub.tunnel_callbacks ≡ some w → lookup w hub.timers ≡ some t
  pub issued : (w : ℕ) → hub.next_timer ≤ w → lookup w hub.timers ≡ none

cleared-IsPaired :
    (timer tunnel : ℕ) (hub : Hub)
    → IsPaired hub
    → lookup timer hub.timers ≡ some tunnel
    → IsPaired (record hub {
      tunnel_callbacks = erase tunnel hub.tunnel_callbacks;
      timers = erase timer hub.timers;
    })
cleared-IsPaired timer tunnel hub p found = record {
  timed = λ t w h. elim (Bool-cases (t == tunnel)) [
    | inl e ↦ absurd (ground (arith, h, lookup-erase t tunnel hub.tunnel_callbacks))
    | inr e ↦
        let kept : lookup t hub.tunnel_callbacks ≡ some w =
          ground (arith, h, lookup-erase t tunnel hub.tunnel_callbacks) in
        let there : lookup w hub.timers ≡ some t = p.timed t w kept in
        elim (Bool-cases (w == timer)) [
          | inl q ↦
              let same : lookup w hub.timers ≡ some tunnel =
                subst (λ i. lookup i hub.timers ≡ some tunnel) (sym ((==_iff w timer).0 q)) found in
              absurd (ground (arith, e, there, same))
          | inr q ↦ rw (lookup-erase w timer hub.timers, q) there
        ]
  ];
  issued = λ w h. ground (arith, lookup-erase w timer hub.timers, p.issued w h);
}

waited-IsPaired :
    (tunnel : ℕ) (hub : Hub) → IsPaired hub → IsPaired (wait_for_tunnel_response tunnel hub)
unfolding wait_for_tunnel_response lookup
waited-IsPaired tunnel hub p = record {
  timed = λ t w h. elim (Bool-cases (t == tunnel)) [
    | inl e ↦ ground (arith, e, h, lookup-put t tunnel hub.next_timer hub.tunnel_callbacks)
    | inr e ↦
        let kept : lookup t hub.tunnel_callbacks ≡ some w =
          ground (arith, e, h, lookup-put t tunnel hub.next_timer hub.tunnel_callbacks) in
        let there : lookup w hub.timers ≡ some t = p.timed t w kept in
        let old : leb hub.next_timer w ≡ false = elim (Bool-cases (leb hub.next_timer w)) [
          | inl q ↦ absurd (ground (arith, there, p.issued w (ground (arith, q))))
          | inr q ↦ q
        ] in
        ground (arith, there, old)
  ];
  issued = λ w h. ground (arith, h, p.issued w (omega (arith, h)));
}

pub step-IsPaired : (e : HubEvent) (hub : Hub) → IsPaired hub → IsPaired (step e hub).1
unfolding step register_probe_ws on_close register_tunnel_data_ws on_data_close on_timeout
    on_tunnel_answer
step-IsPaired (connected conn) hub p = record { timed = p.timed; issued = p.issued }
step-IsPaired (closed conn) hub p = record { timed = p.timed; issued = p.issued }
step-IsPaired (data_opened tunnel_id ws) hub p = record { timed = p.timed; issued = p.issued }
step-IsPaired (data_closed tunnel_id) hub p = record { timed = p.timed; issued = p.issued }
step-IsPaired (waited tunnel_id) hub p = waited-IsPaired tunnel_id hub p
step-IsPaired (fired timer) hub p = go (lookup timer hub.timers) refl
  where
    go : (o : Option ℕ) → lookup timer hub.timers ≡ o → IsPaired (expired timer o hub).1
    go none h = p
    go (some t) h = cleared-IsPaired timer t hub p h
step-IsPaired (answered tunnel_id answer) hub p = go (lookup tunnel_id hub.tunnel_callbacks) refl
  where
    go :
        (o : Option ℕ)
        → lookup tunnel_id hub.tunnel_callbacks ≡ o
        → IsPaired (settle tunnel_id answer o hub).1
    go none h = p
    go (some t) h = cleared-IsPaired t tunnel_id hub p (p.timed tunnel_id t h)

pub start-IsPaired : IsPaired start
unfolding lookup
start-IsPaired = record { timed = λ t w h. absurd (ground (arith, h)); issued = λ w h. refl }

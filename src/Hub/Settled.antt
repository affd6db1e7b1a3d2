-- ===== src/Hub/Settled.antt =====
-- Every promise of `waitForTunnelResponse` is resolved once.
use oblimap.Base.{
  ℕ, ◌+◌, ◌≤◌, ◌<◌, ◌≡◌, refl, subst, Option, none, some, List, [], ◌∷◌, ◌++◌, ◌==◌, ◌&&◌, ltb, leb,
  ==_iff, if◌then◌else◌, lookup, erase, lookup-erase, arith, Bool-cases, inl, inr, is_some,
}
use oblimap.Hub.{
  Hub, HubEvent, start, Resolution, step, run, connected, closed, data_opened, data_closed, waited,
  fired, answered, expired, settle, Answer, timed_out, wait_for_tunnel_response, register_probe_ws,
  on_close, register_tunnel_data_ws, on_data_close, on_timeout, on_tunnel_answer,
}
use oblimap.Hub.Paired.{IsPaired, step-IsPaired, start-IsPaired}

-- How often a promise is resolved.
unfoldable pub resolved : ℕ → List Resolution → ℕ
resolved w [] = 0
resolved w (r ∷ rs) = (if r.0 == w then 1 else 0) + resolved w rs

-- Is the promise's timer set?
unfoldable pub armed : ℕ → Hub → ℕ
armed w hub = if is_some (lookup w hub.timers) then 1 else 0

-- Is it a promise that was made between two states?
unfoldable pub made : ℕ → Hub → Hub → ℕ
made w before after = if leb before.next_timer w && ltb w after.next_timer then 1 else 0

armed_timer : (w : ℕ) (hub : Hub) (t : ℕ) → lookup w hub.timers ≡ some t → armed w hub ≡ 1
unfolding armed
armed_timer w hub t h = rw h refl

-- A timer that is set is cleared and its promise resolved.
cleared_once :
    (timer tunnel w : ℕ) (answer : Answer) (hub : Hub) (callbacks : List (ℕ × ℕ))
    → lookup timer hub.timers ≡ some tunnel
    → resolved w ((timer, answer) ∷ [])
        + armed w (record hub { tunnel_callbacks = callbacks; timers = erase timer hub.timers })
      ≡ armed w hub
unfolding resolved armed
cleared_once timer tunnel w answer hub callbacks h = elim (Bool-cases (timer == w)) [
  | inl e ↦
      let same : timer ≡ w = (==_iff timer w).0 e in
      let found : lookup w hub.timers ≡ some tunnel =
        subst (λ i. lookup i hub.timers ≡ some tunnel) same h in
      rw (found, lookup-erase w timer hub.timers) (ground (arith, e))
  | inr e ↦ rw (lookup-erase w timer hub.timers) (ground (arith, e))
]

waited_once :
    (w tunnel : ℕ) (hub : Hub)
    → IsPaired hub
    → 0 + armed w (wait_for_tunnel_response tunnel hub)
      ≡ armed w hub + made w hub (wait_for_tunnel_response tunnel hub)
unfolding wait_for_tunnel_response armed made lookup
waited_once w tunnel hub p = elim (Bool-cases (w == hub.next_timer)) [
  | inl e ↦
      let none_yet : lookup w hub.timers ≡ none = p.issued w (ground (arith, e)) in
      rw (e, none_yet) (ground (arith, e))
  | inr e ↦ ground (arith, e)
]

made_none :
    (w : ℕ) (before after : Hub) → before.next_timer ≡ after.next_timer → made w before after ≡ 0
unfolding made
made_none w before after e = ground (arith, e)

cleared_step :
    (timer tunnel w : ℕ) (answer : Answer) (hub : Hub)
    → lookup timer hub.timers ≡ some tunnel
    → let after = record hub {
      tunnel_callbacks = erase tunnel hub.tunnel_callbacks;
      timers = erase timer hub.timers;
    } in
      resolved w ((timer, answer) ∷ []) + armed w after ≡ armed w hub + made w hub after
cleared_step timer tunnel w answer hub h = omega (
  arith,
  cleared_once timer tunnel w answer hub (erase tunnel hub.tunnel_callbacks) h,
  made_none w hub
      (record hub {
        tunnel_callbacks = erase tunnel hub.tunnel_callbacks;
        timers = erase timer hub.timers;
      })
      refl,
)

fired_once :
    (timer w : ℕ) (hub : Hub) (o : Option ℕ)
    → lookup timer hub.timers ≡ o
    → resolved w (expired timer o hub).0 + armed w (expired timer o hub).1
      ≡ armed w hub + made w hub (expired timer o hub).1
unfolding resolved
fired_once timer w hub none h = omega (arith, made_none w hub hub refl)
fired_once timer w hub (some t) h = cleared_step timer t w timed_out hub h

answered_once :
    (tunnel w : ℕ) (answer : Answer) (hub : Hub) (o : Option ℕ)
    → IsPaired hub
    → lookup tunnel hub.tunnel_callbacks ≡ o
    → resolved w (settle tunnel answer o hub).0 + armed w (settle tunnel answer o hub).1
      ≡ armed w hub + made w hub (settle tunnel answer o hub).1
unfolding resolved
answered_once tunnel w answer hub none p h = omega (arith, made_none w hub hub refl)
answered_once tunnel w answer hub (some t) p h =
    cleared_step t tunnel w answer hub (p.timed tunnel t h)

step_once :
    (e : HubEvent) (hub : Hub) (w : ℕ)
    → IsPaired hub
    → resolved w (step e hub).0 + armed w (step e hub).1 ≡ armed w hub + made w hub (step e hub).1
unfolding step register_probe_ws on_close register_tunnel_data_ws on_data_close resolved armed made
    on_timeout on_tunnel_answer
step_once (connected conn) hub w p = ground arith
step_once (closed conn) hub w p = ground arith
step_once (data_opened tunnel_id ws) hub w p = ground arith
step_once (data_closed tunnel_id) hub w p = ground arith
step_once (waited tunnel_id) hub w p = waited_once w tunnel_id hub p
step_once (fired timer) hub w p = fired_once timer w hub (lookup timer hub.timers) refl
step_once (answered tunnel_id answer) hub w p =
    answered_once tunnel_id w answer hub (lookup tunnel_id hub.tunnel_callbacks) p refl

step_issues : (e : HubEvent) (hub : Hub) → hub.next_timer ≤ (step e hub).1.next_timer
unfolding step register_probe_ws on_close register_tunnel_data_ws on_data_close
    wait_for_tunnel_response on_timeout on_tunnel_answer
step_issues (connected conn) hub = omega arith
step_issues (closed conn) hub = omega arith
step_issues (data_opened tunnel_id ws) hub = omega arith
step_issues (data_closed tunnel_id) hub = omega arith
step_issues (waited tunnel_id) hub = omega arith
step_issues (fired timer) hub = go (lookup timer hub.timers)
  where
    go : (o : Option ℕ) → hub.next_timer ≤ (expired timer o hub).1.next_timer
    go none = omega arith
    go (some t) = omega arith
step_issues (answered tunnel_id answer) hub = go (lookup tunnel_id hub.tunnel_callbacks)
  where
    go : (o : Option ℕ) → hub.next_timer ≤ (settle tunnel_id answer o hub).1.next_timer
    go none = omega arith
    go (some t) = omega arith

run_issues : (es : List HubEvent) (hub : Hub) → hub.next_timer ≤ (run es hub).1.next_timer
unfolding run
run_issues [] hub = omega arith
run_issues (e ∷ es) hub = omega (arith, step_issues e hub, run_issues es (step e hub).1)

resolved-append :
    (w : ℕ) (xs ys : List Resolution) → resolved w (xs ++ ys) ≡ resolved w xs + resolved w ys
unfolding resolved
resolved-append w [] ys = omega arith
resolved-append w (x ∷ xs) ys = omega (arith, resolved-append w xs ys)

made_trans :
    (w : ℕ) (a b c : Hub)
    → a.next_timer ≤ b.next_timer
    → b.next_timer ≤ c.next_timer
    → made w a b + made w b c ≡ made w a c
unfolding made
made_trans w a b c h k = ground (arith, h, k)

run_once :
    (es : List HubEvent) (hub : Hub) (w : ℕ)
    → IsPaired hub
    → resolved w (run es hub).0 + armed w (run es hub).1 ≡ armed w hub + made w hub (run es hub).1
unfolding run resolved
run_once [] hub w p = omega (arith, made_none w hub hub refl)
run_once (e ∷ es) hub w p =
    let (now, after) = step e hub in
    let (later, end) = run es after in
    omega (
      arith,
      resolved-append w now later,
      step_once e hub w p,
      run_once es after w (step-IsPaired e hub p),
      made_trans w hub after end (step_issues e hub) (run_issues es after),
    )

-- Whatever happens, in any order: each promise of `waitForTunnelResponse` has been resolved once and its timer
-- is not set, or has not been resolved and its timer is set; other promises are not resolved.
pub settles_once :
    (es : List HubEvent) (w : ℕ)
    → resolved w (run es start).0 + armed w (run es start).1
      ≡ (if ltb w (run es start).1.next_timer then 1 else 0)
unfolding armed made lookup
settles_once es w = ground (arith, run_once es start w start-IsPaired)

run-append :
    (es fs : List HubEvent) (hub : Hub) (w : ℕ)
    → resolved w (run (es ++ fs) hub).0
      ≡ resolved w (run es hub).0 + resolved w (run fs (run es hub).1).0
unfolding run resolved
run-append [] fs hub w = omega arith
run-append (e ∷ es) fs hub w = omega (
  arith,
  resolved-append w (step e hub).0 (run (es ++ fs) (step e hub).1).0,
  resolved-append w (step e hub).0 (run es (step e hub).1).0,
  run-append es fs (step e hub).1 w,
)

expired_resolves :
    (w : ℕ) (o : Option ℕ) (hub : Hub)
    → (if is_some o then 1 else 0) ≤ resolved w (expired w o hub).0
unfolding resolved
expired_resolves w none hub = omega arith
expired_resolves w (some t) hub = ground arith

fired_resolves :
    (w : ℕ) (hub : Hub) (fs : List HubEvent) → armed w hub ≤ resolved w (run (fired w ∷ fs) hub).0
unfolding run step armed on_timeout
fired_resolves w hub fs = omega (
  arith,
  resolved-append w (step (fired w) hub).0 (run fs (step (fired w) hub).1).0,
  expired_resolves w (lookup w hub.timers) hub,
)

-- Once its timer has fired, a promise of `waitForTunnelResponse` has been resolved, and no more than once, whatever
-- happened before and happens after.
pub timer_settles :
    (es fs : List HubEvent) (w : ℕ)
    → w < (run es start).1.next_timer
    → resolved w (run (es ++ fired w ∷ fs) start).0 ≡ 1
timer_settles es fs w known = ground (
  arith,
  known,
  settles_once es w,
  settles_once (es ++ fired w ∷ fs) w,
  run-append es (fired w ∷ fs) start w,
  fired_resolves w (run es start).1 fs,
)

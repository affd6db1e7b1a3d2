-- ===== src/GroupNotification/Messages.antt =====
-- The messages about a group over a whole run of events.
use oblimap.Base.{
  ℕ, ◌≡◌, refl, Bool, true, false, ◌&&◌, Option, none, some, List, [], ◌∷◌, ◌==◌, ==_iff,
  if◌then◌else◌, String, lookup, put, lookup-put, lookup-change_all, map_some, ap, ◌∙◌, arith,
  subst, sym,
}
use oblimap.GroupNotification.{
  GroupNotifState, GroupStates, or_new, get_or_create_state, DownResult, UpResult,
  handle_monitor_down, handle_monitor_up, forget_monitor, check_recovered, recover, is_empty,
  remove_monitor,
}

-- What the monitor worker and the monitor service report.
pub data Event : Type 0 where
  went_down : ℕ → String → ℕ → Event
  went_up : ℕ → ℕ → Event
  removed : ℕ → Event

pub data Message : Type 0 where
  group_down group_recovered : Message

unfoldable pub step : Event → GroupStates → GroupStates
unfolding handle_monitor_down handle_monitor_up remove_monitor
step (went_down m name g) states = (handle_monitor_down m name g states).1
step (went_up m g) states = (handle_monitor_up m g states).1
step (removed m) states = remove_monitor m states

abbrev down_message : DownResult → List Message → List Message
down_message DownResult.first_down ms = group_down ∷ ms
down_message DownResult.already_down ms = ms

abbrev up_message : UpResult → List Message → List Message
up_message UpResult.all_recovered ms = group_recovered ∷ ms
up_message UpResult.still_down ms = ms

-- The message about the group `g` that an event asks for, before the later ones.
abbrev pub sent : ℕ → Event → GroupStates → List Message → List Message
sent g (went_down m name j) states ms =
    if g == j then down_message (handle_monitor_down m name j states).0 ms else ms
sent g (went_up m j) states ms =
    if g == j then up_message (handle_monitor_up m j states).0 ms else ms
sent g (removed m) states ms = ms

-- The messages about the group `g` in a run.
unfoldable pub messages : ℕ → List Event → GroupStates → List Message
unfolding step
messages g [] states = []
messages g (e ∷ es) states = sent g e states (messages g es (step e states))

-- Down and recovered alternate; `told` says that the last message was that the group is down.
pub Alternates : Bool → List Message → Type 0
Alternates told [] = Unit
Alternates told (group_down ∷ ms) = (told ≡ false) × Alternates true ms
Alternates told (group_recovered ∷ ms) = (told ≡ true) × Alternates false ms

abbrev pub notified : ℕ → GroupStates → Bool
notified g states = (or_new (lookup g states)).notified_down

notified-put :
    (g j : ℕ) (s : GroupNotifState) (states : GroupStates)
    → notified g (put j s states) ≡ (if g == j then s.notified_down else notified g states)
notified-put g j s states =
    ap (λ o. (or_new o).notified_down) (lookup-put g j s states) ∙ ground arith

notified-remove :
    (g m : ℕ) (states : GroupStates) → notified g (remove_monitor m states) ≡ notified g states
unfolding remove_monitor forget_monitor
notified-remove g m states =
    ap (λ o. (or_new o).notified_down) (lookup-change_all (forget_monitor m) g states)
    ∙ go (lookup g states)
  where
    go :
        (o : Option GroupNotifState)
        → (or_new (map_some (forget_monitor m) o)).notified_down ≡ (or_new o).notified_down
    go none = refl
    go (some s) = refl

module _ (told : Bool) (ms : List Message) where
  after_down :
      (same mine : Bool)
      → (same ≡ true → mine ≡ told)
      → Alternates (if same then true else told) ms
      → Alternates told (
          if same
          then down_message (if mine then DownResult.already_down else DownResult.first_down) ms
          else ms)
  unfolding Alternates
  after_down false mine h a = a
  after_down true true h a = subst (λ b. Alternates b ms) (h refl) a
  after_down true false h a = (sym (h refl), a)

  after_recovered :
      (same : Bool)
      → (same ≡ true → told ≡ true)
      → Alternates (if same then false else told) ms
      → Alternates told (if same then group_recovered ∷ ms else ms)
  unfolding Alternates
  after_recovered false h a = a
  after_recovered true h a = (h refl, a)

  after_still :
      (same mine : Bool)
      → (same ≡ true → mine ≡ told)
      → Alternates (if same then mine else told) ms
      → Alternates told (if same then ms else ms)
  after_still false mine h a = a
  after_still true mine h a = subst (λ b. Alternates b ms) (h refl) a

notified-same :
    (g j : ℕ) (states : GroupStates) → (g == j) ≡ true → notified j states ≡ notified g states
notified-same g j states h = ap (λ i. notified i states) (sym ((==_iff g j).0 h))

-- One event on top of a run that alternates.
module _ (g : ℕ) (es : List Event)
    (run : (states : GroupStates) → Alternates (notified g states) (messages g es states)) where
  put_run :
      (j : ℕ) (s : GroupNotifState) (states : GroupStates)
      → Alternates
          (if g == j then s.notified_down else notified g states)
          (messages g es (put j s states))
  put_run j s states =
      subst (λ b. Alternates b (messages g es (put j s states))) (notified-put g j s states)
        (run (put j s states))

  recover-Alternates :
      (m j : ℕ) (states : GroupStates) (o : Option GroupNotifState)
      → ((g == j) ≡ true → (or_new o).notified_down ≡ notified g states)
      → Alternates (notified g states) (
          if g == j
          then up_message (recover m j states o).0 (messages g es (recover m j states o).1)
          else messages g es (recover m j states o).1)
  unfolding recover check_recovered forget_monitor
  recover-Alternates m j states none h = ground (arith, run states)
  recover-Alternates m j states (some s) h =
      go (is_empty left.down_monitor_ids && left.notified_down) (λ b. ground (arith, b))
    where
      left : GroupNotifState
      left = forget_monitor m s

      go :
          (b : Bool)
          → (b ≡ true → s.notified_down ≡ true)
          → let x : UpResult × GroupStates =
              if b
              then (UpResult.all_recovered, put j (record left { notified_down = false }) states)
              else (UpResult.still_down, put j left states) in
            Alternates
              (notified g states)
              (if g == j then up_message x.0 (messages g es x.1) else messages g es x.1)
      go true t =
          after_recovered _ _ (g == j) (λ e. sym (h e) ∙ t refl)
            (put_run j (record left { notified_down = false }) states)
      go false t = after_still _ _ (g == j) s.notified_down h (put_run j left states)

-- In any run of monitors that go down, come up and are removed, the messages about a group
-- alternate: it is never twice reported as down, nor twice as recovered.
pub messages-Alternates :
    (g : ℕ) (es : List Event) (states : GroupStates)
    → Alternates (notified g states) (messages g es states)
unfolding messages Alternates step handle_monitor_down handle_monitor_up get_or_create_state
messages-Alternates g [] states = tt
messages-Alternates g (went_down m name j ∷ es) states =
    after_down _ _ (g == j) (notified j states) (notified-same g j states)
      (put_run g es (messages-Alternates g es) j _ states)
messages-Alternates g (went_up m j ∷ es) states =
    recover-Alternates g es (messages-Alternates g es) m j states (lookup j states)
      (notified-same g j states)
messages-Alternates g (removed m ∷ es) states =
    subst (λ told. Alternates told (messages g es (remove_monitor m states)))
      (notified-remove g m states) (messages-Alternates g es (remove_monitor m states))

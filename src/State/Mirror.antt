-- ===== src/State/Mirror.antt =====
-- The retained state topics that the actions leave on a broker, against the states of the devices.
use mochad_mqtt_bridge.Prelude.{
  ◌≡◌, refl, sym, ap, ◌∙◌, subst, inl, inr, Bool, true, not, ◌&&◌, ◌||◌, false≢true, Option, none,
  some, List, [], ◌∷◌, ◌++◌, arith, if◌then◌else◌, Bool-cases,
}
use mochad_mqtt_bridge.Text.{Text, text_eq, text_eq_sound, text_eq_refl}
use mochad_mqtt_bridge.Dict.{Dict, lookup}
use mochad_mqtt_bridge.Dict.Keys.{Fresh, lookup_of_Fresh, HasDistinctKeys, Entries}
use mochad_mqtt_bridge.Models.Enums.{Command, command_eq_iff}
use mochad_mqtt_bridge.Models.Runtime.{
  DeviceState, BridgeStatistics, Time, BridgeAction, publish_state,
}
use mochad_mqtt_bridge.State.{
  StateManager, Touched, authoritative_state, is_command, set_device_state, discovery_actions, walk,
}
use mochad_mqtt_bridge.State.WellFormed.{IsEntry, walk-Fresh}

-- What a subscriber reads on the retained state topic of each address.
abbrev pub View : Type 0
View = Text → Option Command

abbrev pub publish : BridgeAction → View → View
publish (publish_state address command retain) v k =
    if retain && text_eq address k then some command else v k
publish _ v k = v k

abbrev pub replay : List BridgeAction → View → View
replay [] v = v
replay (a ∷ acts) v = replay acts (publish a v)

abbrev pub current : Option DeviceState → Option Command
current none = none
current (some s) = s.current_state

-- What the manager itself holds.
abbrev pub state_view : StateManager → View
state_view m k = current (lookup k m.devices)

pub replay-append :
    (acts bs : List BridgeAction) (v : View) → replay (acts ++ bs) v ≡ replay bs (replay acts v)
replay-append [] bs v = refl
replay-append (a ∷ acts) bs v = replay-append acts bs (publish a v)

-- The actions of a change to one device leave on its topic the state that the device then has, and
-- leave the other topics alone.
-- `address` and `old` are the device's before the change, and `s'` is the device after it.
pub record Syncs (address : Text) (old : Option Command) (s' : DeviceState)
    (acts : List BridgeAction) : Type 0 where
  pub shows :
      (v : View)
      → v address ≡ old
      → (k : Text) → replay acts v k ≡ (if text_eq address k then s'.current_state else v k)

pub silent :
    (a : Text) (old new : Option Command) (v : View) (k : Text)
    → new ≡ old
    → v a ≡ old
    → v k ≡ (if text_eq a k then new else v k)
silent a old new v k e h = elim (Bool-cases (text_eq a k)) [
  | inl same ↦ rw same (ap v (sym (text_eq_sound a k same)) ∙ (h ∙ sym e))
  | inr other ↦ rw other
]

-- Actions that leave every view as it is.
abbrev pub Silent : List BridgeAction → Type 0
Silent acts = (v : View) (k : Text) → replay acts v k ≡ v k

pub Syncs-Silent :
    (a : Text) (s : DeviceState) (acts : List BridgeAction)
    → Silent acts
    → Syncs a s.current_state s acts
Syncs-Silent a s acts quiet = record {
  shows = λ v h k. quiet v k ∙ silent a s.current_state s.current_state v k refl h;
}

is_command-eq : (o : Option Command) (c : Command) → is_command o c ≡ true → o ≡ some c
unfolding is_command
is_command-eq none c h = absurd (false≢true h)
is_command-eq (some d) c h = ap some ((command_eq_iff d c).0 h)

-- The state after `_set_device_state`, on both branches, is the authoritative one.
pub current-set_device_state :
    (s : DeviceState) (n : BridgeStatistics) (c : Command) (now : Time) (retain clear : Bool)
    → (set_device_state s n c now retain clear).0.current_state ≡ some (authoritative_state c)
unfolding set_device_state
current-set_device_state s n c now retain clear =
    ground (arith, is_command-eq s.current_state (authoritative_state c))

-- It publishes exactly when the state changes.
pub actions-set_device_state :
    (s : DeviceState) (n : BridgeStatistics) (c : Command) (now : Time) (retain clear : Bool)
    → (set_device_state s n c now retain clear).2 ≡ (
        if is_command s.current_state (authoritative_state c)
        then []
        else publish_state s.address (authoritative_state c) retain ∷ [])
unfolding set_device_state
actions-set_device_state s n c now retain clear = ground arith

pub set_device_state-Syncs :
    (s : DeviceState) (n : BridgeStatistics) (c : Command) (now : Time) (clear : Bool)
    → Syncs s.address s.current_state
        (set_device_state s n c now true clear).0
        (set_device_state s n c now true clear).2
set_device_state-Syncs s n c now clear = record {
  shows = λ v h k.
      rw
        (
          current-set_device_state s n c now true clear,
          actions-set_device_state s n c now true clear,
        )
        (elim (Bool-cases (is_command s.current_state (authoritative_state c))) [
          | inl same ↦ rw same (
              silent s.address _ (some (authoritative_state c)) v k
                (sym (is_command-eq s.current_state _ same)) h)
          | inr other ↦ rw other
        ]);
}

pub discovery_actions-Syncs :
    (connected : Bool) (s : DeviceState) (n : BridgeStatistics)
    → Syncs s.address s.current_state
        (discovery_actions connected s n).0
        (discovery_actions connected s n).2
unfolding discovery_actions
discovery_actions-Syncs connected s n = record {
  shows = λ v h k. elim (Bool-cases (not connected || s.discovered)) [
    | inl done ↦ rw done (silent s.address _ s.current_state v k refl h)
    | inr new ↦ rw new (silent s.address _ s.current_state v k refl h)
  ];
}

-- Two changes in a row.
pub Syncs-append :
    {a : Text} {old : Option Command} {t u : DeviceState} {acts more : List BridgeAction}
    → t.address ≡ a
    → Syncs a old t acts
    → Syncs t.address t.current_state u more
    → Syncs a old u (acts ++ more)
Syncs-append {a} {t = t} {acts = acts} {more = more} same first second = record {
  shows = λ v h k.
      let here : replay acts v t.address ≡ t.current_state =
        rw same (first.shows v h a ∙ rw text_eq_refl) in
      rw replay-append (
        second.shows (replay acts v) here k
        ∙ rw same (elim (Bool-cases (text_eq a k)) [
          | inl e ↦ rw e
          | inr e ↦ rw e (first.shows v h k ∙ rw e)
        ]));
}

-- A walk whose body syncs each device, over distinct keys that are the addresses.
abbrev after : Option DeviceState → Option Command → Option Command
after none old = old
after (some s) old = s.current_state

module _ (body : Text → DeviceState → BridgeStatistics → Touched)
    (keeps : (k : Text) (s : DeviceState) (n : BridgeStatistics)
      → (body k s n).0.address ≡ s.address)
    (syncs : (k : Text) (s : DeviceState) (n : BridgeStatistics)
      → Syncs s.address s.current_state (body k s n).0 (body k s n).2)
    (codes : Option (List Text)) where
  abbrev Agrees : Dict DeviceState → View → Type 0
  Agrees d v = (k : Text) (s : DeviceState) → lookup k d ≡ some s → v k ≡ s.current_state

  body_view :
      (j : Text) (s : DeviceState) (n : BridgeStatistics) (v : View)
      → s.address ≡ j
      → v j ≡ s.current_state
      → (k : Text)
      → replay (body j s n).2 v k ≡ (if text_eq j k then (body j s n).0.current_state else v k)
  body_view j s n v named h k =
      subst
        (λ a.
          replay (body j s n).2 v k ≡ (if text_eq a k then (body j s n).0.current_state else v k))
        named ((syncs j s n).shows v (ap v named ∙ h) k)

  rest-Agrees :
      (j : Text) (s : DeviceState) (d : Dict DeviceState) (v v' : View) (o : Option Command)
      → Fresh j d
      → Agrees ((j, s) ∷ d) v
      → ((k : Text) → v' k ≡ (if text_eq j k then o else v k))
      → Agrees d v'
  unfolding lookup
  rest-Agrees j s d v v' o fresh agrees changed k t e = elim (Bool-cases (text_eq j k)) [
    | inl same ↦
        absurd (cc (e, lookup_of_Fresh j d fresh, ap (λ a. lookup a d) (text_eq_sound j k same)))
    | inr other ↦ changed k ∙ rw other (agrees k t (rw other e))
  ]

  walk-after :
      (d : Dict DeviceState) (n : BridgeStatistics) (v : View)
      → HasDistinctKeys d
      → Entries (IsEntry codes) d
      → Agrees d v
      → (k : Text) → replay (walk body d n).2 v k ≡ after (lookup k (walk body d n).0) (v k)
  unfolding walk lookup
  walk-after [] n v distinct entries agrees k = refl
  walk-after ((j, s) ∷ d) n v distinct entries agrees k =
      let here = body_view j s n v entries.0.0 (agrees j s (rw text_eq_refl refl)) in
      let ih =
        walk-after d (body j s n).1 (replay (body j s n).2 v) distinct.1 entries.1
          (rest-Agrees j s d v _ _ distinct.0 agrees here) k in
      rw replay-append (elim (Bool-cases (text_eq j k)) [
        | inl same ↦ rw same (
            ih
            ∙ ap (λ o. after o (replay (body j s n).2 v k))
                (ap (λ a. lookup a (walk body d (body j s n).1).0) (sym (text_eq_sound j k same))
                  ∙ lookup_of_Fresh j _ (walk-Fresh body keeps j d (body j s n).1 distinct.0))
            ∙ (here k ∙ rw same))
        | inr other ↦
            rw other (ih ∙ ap (after (lookup k (walk body d (body j s n).1).0)) (here k ∙ rw other))
      ])

  lookup-walk-none :
      (d : Dict DeviceState) (n : BridgeStatistics) (k : Text)
      → lookup k (walk body d n).0 ≡ none
      → lookup k d ≡ none
  unfolding walk lookup
  lookup-walk-none [] n k h = refl
  lookup-walk-none ((j, s) ∷ d) n k h = ground (arith, lookup-walk-none d (body j s n).1 k)

  after-current :
      (d : Dict DeviceState) (n : BridgeStatistics) (k : Text) (o : Option DeviceState)
      → lookup k (walk body d n).0 ≡ o
      → after o (current (lookup k d)) ≡ current o
  after-current d n k none e = ap current (lookup-walk-none d n k e)
  after-current d n k (some s) e = refl

  -- After a walk the view is the state of each device again.
  pub walk-mirrors :
      (d : Dict DeviceState) (n : BridgeStatistics) (v : View)
      → HasDistinctKeys d
      → Entries (IsEntry codes) d
      → ((k : Text) → v k ≡ current (lookup k d))
      → (k : Text) → replay (walk body d n).2 v k ≡ current (lookup k (walk body d n).0)
  walk-mirrors d n v distinct entries same k =
      walk-after d n v distinct entries (λ k s e. same k ∙ ap current e) k
      ∙ ap (after (lookup k (walk body d n).0)) (same k)
      ∙ after-current d n k (lookup k (walk body d n).0) refl

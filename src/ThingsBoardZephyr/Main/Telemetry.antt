-- ===== src/ThingsBoardZephyr/Main/Telemetry.antt =====
-- When the main loop publishes telemetry.
use winegrid_internship.Base.{
  is_zero, ℕ, ◌⊎◌, ◌+◌, ◌≤◌, ◌<◌, ◌≡◌, refl, sym, ◌∙◌, ℤ, false, arith, true, ◌&&◌, if◌then◌else◌,
  leb, List, [], ◌∷◌, ◌++◌, Bytes, codes, length, str_eq, Bool-cases, Option-cases, inl, inr,
  starts_with,
}
use winegrid_internship.Mqtt.{Message}
use winegrid_internship.ThingsBoardZephyr.{
  Client, MqttEvt, mqtt_evt_connack, mqtt_evt_publish, mqtt_evt_disconnect, mqtt_evt_other,
  mqtt_publish, mqtt_subscribe, payload_text, fill_payload_buf, rpc_request_prefix,
  json_extract_string, handle_rpc_request,
}
use winegrid_internship.ThingsBoardZephyr.Main.{
  MainTurn, MainLoop, main_evt_handler, main_events, publish_telemetry, main_turn, main_loop,
}

-- The messages on the topic of telemetry.
abbrev pub telemetry_count : List Message → ℕ
telemetry_count [] = 0
telemetry_count (m ∷ ms) =
    (if str_eq m.topic (codes "v1/devices/me/telemetry") then 1 else 0) + telemetry_count ms

count-append :
    (a b : List Message) → telemetry_count (a ++ b) ≡ telemetry_count a + telemetry_count b
count-append [] b = omega arith
count-append (m ∷ ms) b = omega (arith, count-append ms b)

rpc_count :
    (uptime : ℕ) (topic payload : Bytes) (h : Client)
    → telemetry_count (handle_rpc_request uptime topic payload h).outbox ≡ telemetry_count h.outbox
unfolding handle_rpc_request mqtt_publish str_eq
rpc_count uptime topic payload h =
    elim (Option-cases (json_extract_string payload (codes "method") 32)) [
      | inl missing ↦ rw (missing, handle_rpc_request) refl
      | inr (method, found) ↦
          rw (found, handle_rpc_request)
            (elim (Bool-cases (str_eq method (codes "reboot"))) [
              | inl reboots ↦ rw reboots (omega (arith, count-append h.outbox _))
              | inr stays ↦ rw stays (omega (arith, count-append h.outbox _))
            ])
    ]

event_count :
    (uptime : ℕ) (e : MqttEvt) (h : Client)
    → telemetry_count (main_evt_handler uptime e h).outbox ≡ telemetry_count h.outbox
unfolding main_evt_handler mqtt_subscribe
event_count uptime (mqtt_evt_connack result) h = elim (Bool-cases (is_zero result)) [
  | inl accepted ↦ rw accepted refl
  | inr refused ↦ rw refused refl
]
event_count uptime (mqtt_evt_publish p) h =
    elim (Bool-cases (
      leb (length rpc_request_prefix) (length p.topic) && starts_with rpc_request_prefix p.topic)) [
        | inl rpc ↦ rw rpc (
            rpc_count uptime p.topic (payload_text p h.payload_buf)
              (record h { payload_buf = fill_payload_buf p h.payload_buf }))
        | inr passed_by ↦ rw passed_by refl
      ]
event_count uptime mqtt_evt_disconnect h = refl
event_count uptime mqtt_evt_other h = refl

events_count :
    (es : List (ℕ × MqttEvt)) (h : Client)
    → telemetry_count (main_events es h).outbox ≡ telemetry_count h.outbox
unfolding main_events
events_count [] h = refl
events_count (e ∷ es) h = elim (Bool-cases h.rebooting) [
  | inl off ↦ simp off
  | inr on ↦ simp (on, events_count es (main_evt_handler e.0 e.1 h), event_count e.0 e.1 h)
]

false-ne-true : false ≡ true → ⊥
false-ne-true e = cc

stopped : (turns : List MainTurn) (l : MainLoop) → l.client.rebooting ≡ true → main_loop turns l ≡ l
unfolding main_loop
stopped [] l off = refl
stopped (t ∷ turns) l off = simp off

abbrev pub handled : MainTurn → MainLoop → Client
handled t l = main_events ((if t.readable then t.input else []) ++ t.live) l.client

abbrev pub sends : MainTurn → MainLoop → MainLoop
sends t l = record {
  client = publish_telemetry t.publish_err (handled t l);
  next_telemetry = t.published + 10000;
  tries = (t.checked, t.publish_err) ∷ l.tries;
}

-- A turn that reboots, one that publishes and one that waits.
pub turn_cases :
    (t : MainTurn) (l : MainLoop)
    → ((main_turn t l ≡ record l { client = handled t l }) × ((handled t l).rebooting ≡ true))
      ⊎ (((main_turn t l ≡ sends t l) × (l.next_telemetry ≤ t.checked))
          ⊎ ((main_turn t l ≡ record l { client = handled t l }) × (t.checked < l.next_telemetry)))
unfolding main_turn
turn_cases t l = elim (Bool-cases (handled t l).rebooting) [
  | inl off ↦ inl (simp off, off)
  | inr on ↦ elim (Bool-cases (leb l.next_telemetry t.checked)) [
    | inl due ↦ inr (inl (simp (on, due), ground arith))
    | inr early ↦ inr (inr (simp (on, early), ground arith))
  ]
]

-- The clock does not run backwards. A check of it is at most `delay` ms after the one before, and a
-- publication takes at most `cost` ms.
abbrev pub Steady : ℕ → ℕ → ℕ → List MainTurn → Type 0
Steady delay cost checked [] = Unit
Steady delay cost checked (t ∷ turns) =
    (checked ≤ t.checked)
    × (t.checked ≤ checked + delay)
    × (t.checked ≤ t.published)
    × (t.published ≤ t.checked + cost)
    × Steady delay cost t.checked turns

-- The uptime at the last check of the clock.
abbrev pub last_check : ℕ → List MainTurn → ℕ
last_check checked [] = checked
last_check checked (t ∷ turns) = last_check t.checked turns

-- Each time is between `low` and `high` ms after the one before, which the list holds next.
abbrev pub Spaced : ℕ → ℕ → List (ℕ × ℤ) → Type 0
Spaced low high [] = Unit
Spaced low high (t ∷ []) = Unit
Spaced low high (t ∷ u ∷ tries) =
    (u.0 + low ≤ t.0) × (t.0 ≤ u.0 + high) × Spaced low high (u ∷ tries)

-- The next publication, from 10000 ms after the last one on, was not due at the last check.
abbrev Due : ℕ → ℕ → ℕ → List (ℕ × ℤ) → Type 0
Due cost checked next [] = next ≤ checked
Due cost checked next (t ∷ tries) =
    (t.0 + 10000 ≤ next) × (next ≤ t.0 + (10000 + cost)) × (checked < next)

-- There was a publication, the last one less than `high` ms before this uptime.
abbrev pub Recent : ℕ → ℕ → List (ℕ × ℤ) → Type 0
Recent high checked [] = ⊥
Recent high checked (t ∷ tries) = checked < t.0 + high

module _ (delay cost : ℕ) where
  -- After a check: a device that reboots, or a recent publication.
  abbrev IsLive : ℕ → MainLoop → Type 0
  IsLive checked l = (l.client.rebooting ≡ true) ⊎ Recent (10000 + cost) checked l.tries

  abbrev OnTime : MainLoop → Type 0
  OnTime l = Spaced 10000 (10000 + cost + delay) l.tries

  Spaced-push :
      (checked next t : ℕ) (e : ℤ) (tries : List (ℕ × ℤ))
      → t ≤ checked + delay
      → next ≤ t
      → Due cost checked next tries
      → Spaced 10000 (10000 + cost + delay) tries
      → Spaced 10000 (10000 + cost + delay) ((t, e) ∷ tries)
  Spaced-push checked next t e [] near due d s = tt
  Spaced-push checked next t e (u ∷ tries) near due d s = (omega arith, omega arith, s)

  -- A check at which nothing was due.
  Due-later :
      (checked next t : ℕ) (tries : List (ℕ × ℤ))
      → checked ≤ t
      → t < next
      → Due cost checked next tries
      → Due cost t next tries × Recent (10000 + cost) t tries
  Due-later checked next t [] on early d = absurd (omega arith)
  Due-later checked next t (u ∷ tries) on early d = ((d.0, d.1, early), omega arith)

  -- Between two turns.
  After : ℕ → MainLoop → Type 0
  After checked l =
      OnTime l
      × ((l.client.rebooting ≡ true)
          ⊎ (Due cost checked l.next_telemetry l.tries × Recent (10000 + cost) checked l.tries))

  turn-After :
      (checked : ℕ) (t : MainTurn) (l : MainLoop)
      → checked ≤ t.checked
      → t.checked ≤ checked + delay
      → t.checked ≤ t.published
      → t.published ≤ t.checked + cost
      → Due cost checked l.next_telemetry l.tries
      → OnTime l
      → After t.checked (main_turn t l)
  unfolding After
  turn-After checked t l on near begins costs due s = elim (turn_cases t l) [
    | inl (turn, off) ↦ rw turn (s, inl off)
    | inr (inl (turn, now)) ↦ rw turn (
      Spaced-push checked l.next_telemetry t.checked t.publish_err l.tries near now due s,
      inr ((omega arith, omega arith, omega arith), omega arith),
    )
    | inr (inr (turn, early)) ↦
        rw turn (s, inr (Due-later checked l.next_telemetry t.checked l.tries on early due))
  ]

  loop-After :
      (checked : ℕ) (turns : List MainTurn) (l : MainLoop)
      → Steady delay cost checked turns
      → After checked l
      → After (last_check checked turns) (main_loop turns l)
  unfolding main_loop After
  loop-After checked [] l steady s = s
  loop-After checked (t ∷ turns) l (on, near, begins, costs, steady) s =
      elim (Bool-cases l.client.rebooting) [
        | inl off ↦ simp off (s.0, inl refl)
        | inr running ↦ elim s.1 [
          | inl off ↦ absurd (false-ne-true (sym running ∙ off))
          | inr (due, recent) ↦ simp running (
              loop-After t.checked turns (main_turn t l) steady
                (turn-After checked t l on near begins costs due s.0))
        ]
      ]

  After-IsLive : (checked : ℕ) (l : MainLoop) → After checked l → OnTime l × IsLive checked l
  unfolding After
  After-IsLive checked l (s, inl off) = (s, inl off)
  After-IsLive checked l (s, inr (due, recent)) = (s, inr recent)

  start_lem :
      (uptime : ℕ) (t : MainTurn) (turns : List MainTurn) (h : Client)
      → Steady delay cost uptime (t ∷ turns)
      → After
          (last_check uptime (t ∷ turns))
          (main_loop (t ∷ turns) (record { client = h; next_telemetry = uptime; tries = [] }))
  unfolding main_loop After
  start_lem uptime t turns h (on, near, begins, costs, steady) =
      let start : MainLoop = record { client = h; next_telemetry = uptime; tries = [] } in
      elim (Bool-cases h.rebooting) [
        | inl off ↦ simp off (tt, inl refl)
        | inr running ↦ simp running (
            loop-After t.checked turns (main_turn t start) steady
              (turn-After uptime t start on near begins costs (omega arith) tt))
      ]

-- How many of the publications `mqtt_publish` sent.
abbrev pub sent_count : List (ℕ × ℤ) → ℕ
sent_count [] = 0
sent_count (t ∷ tries) = (if is_zero t.1 then 1 else 0) + sent_count tries

publish_count :
    (err : ℤ) (h : Client)
    → telemetry_count (publish_telemetry err h).outbox
      ≡ telemetry_count h.outbox + (if is_zero err then 1 else 0)
unfolding publish_telemetry mqtt_publish str_eq
publish_count err h = elim (Bool-cases (is_zero err)) [
  | inl sent ↦ rw (sent, publish_telemetry) (omega (arith, count-append h.outbox _))
  | inr refused ↦ rw (refused, publish_telemetry) (omega arith)
]

loop_counts :
    (turns : List MainTurn) (l : MainLoop)
    → telemetry_count (main_loop turns l).client.outbox + sent_count l.tries
      ≡ telemetry_count l.client.outbox + sent_count (main_loop turns l).tries
unfolding main_loop
loop_counts [] l = refl
loop_counts (t ∷ turns) l =
    let es = (if t.readable then t.input else []) ++ t.live in
    elim (Bool-cases l.client.rebooting) [
      | inl off ↦ simp off
      | inr running ↦ elim (turn_cases t l) [
        | inl (turn, off) ↦
            simp (running, turn)
              (omega (
                arith,
                loop_counts turns (record l { client = handled t l }),
                events_count es l.client,
              ))
        | inr (inl (turn, now)) ↦
            simp (running, turn)
              (omega (
                arith,
                loop_counts turns (sends t l),
                events_count es l.client,
                publish_count t.publish_err (handled t l),
              ))
        | inr (inr (turn, early)) ↦
            simp (running, turn)
              (omega (
                arith,
                loop_counts turns (record l { client = handled t l }),
                events_count es l.client,
              ))
      ]
    ]

-- In any run of at least one turn of the main loop in which the clock does not run backwards, a
-- check of it is at most `delay` ms after the one before and a publication takes at most `cost` ms,
-- whatever messages come and requests are answered: the calls of `publish_telemetry` lie at least
-- 10000 ms apart and at most 10000 + `cost` + `delay` ms; at the last check of the clock there was
-- a call, less than 10000 + `cost` ms before, unless the device reboots; and one message on the
-- topic of telemetry was sent for each call in which `mqtt_publish` returned 0, and no other.
pub telemetry_on_time :
    (delay cost uptime : ℕ) (t : MainTurn) (turns : List MainTurn) (h : Client)
    → Steady delay cost uptime (t ∷ turns)
    → let l = main_loop (t ∷ turns) (record { client = h; next_telemetry = uptime; tries = [] }) in
      Spaced 10000 (10000 + cost + delay) l.tries
      × ((l.client.rebooting ≡ true)
          ⊎ Recent (10000 + cost) (last_check uptime (t ∷ turns)) l.tries)
      × (telemetry_count l.client.outbox ≡ telemetry_count h.outbox + sent_count l.tries)
telemetry_on_time delay cost uptime t turns h steady =
    let start : MainLoop = record { client = h; next_telemetry = uptime; tries = [] } in
    let (spaced, live) =
      After-IsLive delay cost (last_check uptime (t ∷ turns)) (main_loop (t ∷ turns) start)
        (start_lem delay cost uptime t turns h steady) in
    (spaced, live, omega (arith, loop_counts (t ∷ turns) start))

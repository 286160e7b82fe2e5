-- ===== src/ThingsBoardZephyr/Provisioning/Outcome.antt =====
-- What provisioning returns, and what it leaves alone.
use winegrid_internship.Base.{
  is_zero, ℕ, ◌⊎◌, ◌+◌, ◌≤◌, ◌<◌, ◌≡◌, refl, sym, ap, ◌∙◌, arith, Bool, false, ◌&&◌, ◌||◌, not, ltb,
  ◌==◌, List, [], ◌∷◌, Option, none, some, Bytes, pos, codes, length, take_all, Bool-cases,
  Option-cases, inl, inr, none-ne-some,
}
use mathlib.Core.Option.{some-injective}
use winegrid_internship.ThingsBoardZephyr.{
  Client, MqttEvt, PublishParam, mqtt_evt_connack, mqtt_evt_publish, mqtt_evt_disconnect,
  mqtt_evt_other, mqtt_publish, mqtt_subscribe, client_configure,
}
use winegrid_internship.ThingsBoardZephyr.Buffer.{IsComplete, payload_text_complete}
use winegrid_internship.ThingsBoardZephyr.Provisioning.{
  Settings, Turn, request_credentials, issued_token, take_token, provisioning_evt_handler,
  provisioning_events, turn_events, provisioning_loop, provisioning_result, connect,
  run_provisioning,
}
use winegrid_internship.ThingsBoardZephyr.Provisioning.Bounds.{length-issued}

-- The payload of every message fits the buffer and has arrived when the handler reads it.
abbrev pub IsWhole : MqttEvt → Type 0
IsWhole (mqtt_evt_connack result) = Unit
IsWhole (mqtt_evt_publish p) = IsComplete p
IsWhole mqtt_evt_disconnect = Unit
IsWhole mqtt_evt_other = Unit

abbrev pub AreWhole : List MqttEvt → Type 0
AreWhole [] = Unit
AreWhole (e ∷ es) = IsWhole e × AreWhole es

abbrev pub TurnsAreWhole : List Turn → Type 0
TurnsAreWhole [] = Unit
TurnsAreWhole (t ∷ turns) = AreWhole (turn_events t) × TurnsAreWhole turns

-- At one of the tests of the loop the deadline has passed.
abbrev pub PassesDeadline : ℕ → List Turn → Type 0
PassesDeadline deadline [] = ⊥
PassesDeadline deadline (t ∷ turns) = (deadline ≤ t.uptime) ⊎ PassesDeadline deadline turns

-- One of the messages is an answer that issues the token.
pub data Issues (token : Bytes) : List MqttEvt → Type 0 where
  answer :
      {es : List MqttEvt} (p : PublishParam)
      → issued_token p.payload ≡ some token
      → Issues token (mqtt_evt_publish p ∷ es)
  later : {es : List MqttEvt} (e : MqttEvt) → Issues token es → Issues token (e ∷ es)

pub data IssuedIn (token : Bytes) : List Turn → Type 0 where
  this_turn :
      {turns : List Turn} (t : Turn) → Issues token (turn_events t) → IssuedIn token (t ∷ turns)
  next_turn : {turns : List Turn} (t : Turn) → IssuedIn token turns → IssuedIn token (t ∷ turns)

length-Issues : {token : Bytes} {es : List MqttEvt} → Issues token es → length token ≤ 63
length-Issues {token} (answer p e) = length-issued p.payload token e
length-Issues (later e i) = length-Issues i

pub length-IssuedIn : {token : Bytes} {turns : List Turn} → IssuedIn token turns → length token ≤ 63
length-IssuedIn (this_turn t i) = length-Issues i
length-IssuedIn (next_turn t i) = length-IssuedIn i

module _ (s : Settings) where
  event_token :
      (e : MqttEvt) (es : List MqttEvt) (h : Client)
      → IsWhole e
      → ((provisioning_evt_handler s e h).provisioned_token ≡ h.provisioned_token)
        ⊎ Issues (provisioning_evt_handler s e h).provisioned_token (e ∷ es)
  unfolding provisioning_evt_handler request_credentials mqtt_publish mqtt_subscribe take_token
  event_token (mqtt_evt_connack result) es h w = elim (Bool-cases (is_zero result)) [
    | inl accepted ↦ rw accepted (inl refl)
    | inr refused ↦ rw refused (inl refl)
  ]
  event_token (mqtt_evt_publish p) es h w =
      rw (payload_text_complete p h.payload_buf w) (elim (Option-cases (issued_token p.payload)) [
        | inl refused ↦ rw (refused, take_token) (inl refl)
        | inr (token, issued) ↦ rw (issued, take_token) (inr (answer p issued))
      ])
  event_token mqtt_evt_disconnect es h w = inl refl
  event_token mqtt_evt_other es h w = inl refl

  events_token :
      (es : List MqttEvt) (h : Client)
      → AreWhole es
      → ((provisioning_events s es h).provisioned_token ≡ h.provisioned_token)
        ⊎ Issues (provisioning_events s es h).provisioned_token es
  unfolding provisioning_events
  events_token [] h w = inl refl
  events_token (e ∷ es) h w = elim (events_token es (provisioning_evt_handler s e h) w.1) [
    | inr i ↦ inr (later e i)
    | inl kept ↦ elim (event_token e es h w.0) [
      | inl same ↦ inl (kept ∙ same)
      | inr i ↦ inr (rw kept i)
    ]
  ]

  abbrev goes_on : Turn → ℕ → Client → Bool
  goes_on t deadline h = not h.provisioning_done && ltb t.uptime deadline

  loop_token :
      (deadline : ℕ) (turns : List Turn) (h q : Client)
      → TurnsAreWhole turns
      → provisioning_loop s deadline turns h ≡ some q
      → (q.provisioned_token ≡ h.provisioned_token) ⊎ IssuedIn q.provisioned_token turns
  unfolding provisioning_loop
  loop_token deadline [] h q w e = elim (Bool-cases h.provisioning_done) [
    | inl done ↦
        inl (ap (λ (o : Client). o.provisioned_token) (sym (some-injective _ _ (simp done at e))))
    | inr pending ↦ absurd (none-ne-some (simp pending at e))
  ]
  loop_token deadline (t ∷ turns) h q w e = elim (Bool-cases (goes_on t deadline h)) [
    | inr stop ↦
        inl (ap (λ (o : Client). o.provisioned_token) (sym (some-injective _ _ (rw stop at e))))
    | inl go ↦
        elim (loop_token deadline turns (provisioning_events s (turn_events t) h) q w.1
          (rw go at e)) [
            | inr i ↦ inr (next_turn t i)
            | inl kept ↦ elim (events_token (turn_events t) h w.0) [
              | inl same ↦ inl (kept ∙ same)
              | inr i ↦ inr (this_turn t (rw kept i))
            ]
          ]
  ]

  loop_returns :
      (deadline : ℕ) (turns : List Turn) (h : Client)
      → PassesDeadline deadline turns
      → (q : Client) × (provisioning_loop s deadline turns h ≡ some q)
  unfolding provisioning_loop
  loop_returns deadline [] h passes = elim passes [ ]
  loop_returns deadline (t ∷ turns) h passes = elim (Bool-cases (goes_on t deadline h)) [
    | inr stop ↦ (h, rw stop refl)
    | inl go ↦ elim passes [
      | inl late ↦ absurd (ground arith)
      | inr rest ↦
          let (q, e) = loop_returns deadline turns (provisioning_events s (turn_events t) h) rest in
          (q, rw go e)
    ]
  ]

  pub result_cases :
      (q : Client)
      → length q.provisioned_token ≤ 63
      → (provisioning_result 64 q ≡ none)
        ⊎ ((provisioning_result 64 q ≡ some q.provisioned_token) × (0 < length q.provisioned_token))
  unfolding provisioning_result
  result_cases q l =
      elim (Bool-cases (not q.provisioning_done || length q.provisioned_token == 0)) [
        | inl failed ↦ inl (rw failed refl)
        | inr good ↦ inr (rw (good, take_all 63 q.provisioned_token l) refl, ground arith)
      ]

  -- The state in which the loop of `run_provisioning` begins.
  abbrev pub provisioning_start : Client → Client
  provisioning_start h =
      record (connect (client_configure h.broker_addr s.broker_hostname (codes "provision")) h) {
        provisioning_done = false;
      }

  -- Where the payload of every message has at most 511 bytes and has arrived when it is read, and
  -- no token was issued before, provisioning over a connection returns when the clock passes its
  -- deadline, 15000 ms after it began, or before: it fails, or it returns a token of at least one
  -- byte and at most 63 that one of the answers issued with the status SUCCESS.
  pub zephyr_provisioning_returns :
      (uptime : ℕ) (turns : List Turn) (h : Client)
      → PassesDeadline (uptime + 15000) turns
      → TurnsAreWhole turns
      → h.provisioned_token ≡ []
      → (q : Client) × ((run_provisioning s (pos 0) uptime turns 64 h ≡ some (none, q))
          ⊎ ((token : Bytes) × (run_provisioning s (pos 0) uptime turns 64 h ≡ some (some token, q))
              × (0 < length token)
              × (length token ≤ 63)
              × IssuedIn token turns))
  unfolding run_provisioning is_zero connect
  zephyr_provisioning_returns uptime turns h passes w fresh =
      let (q, e) = loop_returns (uptime + 15000) turns (provisioning_start h) passes in
      let returned : run_provisioning s (pos 0) uptime turns 64 h
          ≡ some (provisioning_result 64 q, q) =
        rw (e, run_provisioning) refl in
      let result = λ (r : Option Bytes) (p : provisioning_result 64 q ≡ r).
        returned ∙ ap (λ o. some (o, q)) p in
      (
        q,
        elim (loop_token (uptime + 15000) turns (provisioning_start h) q w e) [
          | inl kept ↦
              let empty : length q.provisioned_token ≡ 0 = ap (length {A = ℕ}) (kept ∙ fresh) in
              elim (result_cases q (omega (arith, empty))) [
                | inl failed ↦ inl (result none failed)
                | inr (good, positive) ↦ absurd (omega (arith, empty, positive))
              ]
          | inr issued ↦ elim (result_cases q (length-IssuedIn issued)) [
            | inl failed ↦ inl (result none failed)
            | inr (good, positive) ↦ inr (
              q.provisioned_token,
              result (some q.provisioned_token) good,
              positive,
              length-IssuedIn issued,
              issued,
            )
          ]
        ],
      )

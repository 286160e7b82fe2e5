-- ===== src/ThingsBoardZephyr/Main/Run.antt =====
-- How `thingsboard_run` ends, and the connections that it makes.
use winegrid_internship.Base.{
  ℤ, is_zero, ℕ, ◌==◌, ◌||◌, take, length-take, ◌+◌, ◌≤◌, ◌<◌, ◌≡◌, refl, sym, ap, ◌∙◌, arith, ◌&&◌,
  not, leb, ltb, if◌then◌else◌, List, [], ◌∷◌, ◌++◌, some, Bytes, codes, length, starts_with,
  int_ltb, Bool-cases, Option-cases, inl, inr, none-ne-some,
}
use mathlib.Core.Option.{some-injective}
use winegrid_internship.ThingsBoardZephyr.{
  Address, Client, MqttClient, MqttEvt, mqtt_evt_connack, mqtt_evt_publish, mqtt_evt_disconnect,
  mqtt_evt_other, payload_text, fill_payload_buf, mqtt_publish, mqtt_subscribe, client_configure,
  rpc_request_prefix, handle_rpc_request,
}
use winegrid_internship.ThingsBoardZephyr.Provisioning.{
  Settings, Turn, request_credentials, provisioning_evt_handler, provisioning_events, turn_events,
  provisioning_loop, provisioning_result, connect, run_provisioning,
}
use winegrid_internship.ThingsBoardZephyr.Provisioning.Outcome.{provisioning_start}
use winegrid_internship.ThingsBoardZephyr.Main.{
  MainTurn, MainLoop, RunAnswers, Progress, provisioning, returned, running, main_evt_handler,
  main_events, publish_telemetry, main_turn, main_loop, resolve_broker, run_main,
  after_provisioning, thingsboard_run,
}
use winegrid_internship.ThingsBoardZephyr.Main.Telemetry.{handled, turn_cases}

-- The connections that were begun, and the address that the next one goes to.
abbrev links : Client → List MqttClient × Address
links h = (h.connects, h.broker_addr)

rpc_links :
    (uptime : ℕ) (topic payload : Bytes) (h : Client)
    → links (handle_rpc_request uptime topic payload h) ≡ links h
unfolding handle_rpc_request mqtt_publish
rpc_links uptime topic payload h = ground arith

event_links :
    (uptime : ℕ) (e : MqttEvt) (h : Client) → links (main_evt_handler uptime e h) ≡ links h
unfolding main_evt_handler mqtt_subscribe
event_links uptime (mqtt_evt_connack result) h = ground arith
event_links uptime (mqtt_evt_publish p) h =
    elim (Bool-cases (
      leb (length rpc_request_prefix) (length p.topic) && starts_with rpc_request_prefix p.topic)) [
        | inl rpc ↦ rw rpc (
            rpc_links uptime p.topic (payload_text p h.payload_buf)
              (record h { payload_buf = fill_payload_buf p h.payload_buf }))
        | inr passed_by ↦ rw passed_by refl
      ]
event_links uptime mqtt_evt_disconnect h = refl
event_links uptime mqtt_evt_other h = refl

events_links : (es : List (ℕ × MqttEvt)) (h : Client) → links (main_events es h) ≡ links h
unfolding main_events
events_links [] h = refl
events_links (e ∷ es) h = elim (Bool-cases h.rebooting) [
  | inl off ↦ simp off
  | inr on ↦ simp (on, events_links es (main_evt_handler e.0 e.1 h), event_links e.0 e.1 h)
]

publish_links : (err : ℤ) (h : Client) → links (publish_telemetry err h) ≡ links h
unfolding publish_telemetry mqtt_publish
publish_links err h = elim (Bool-cases (is_zero err)) [
  | inl sent ↦ rw (sent, publish_telemetry) refl
  | inr refused ↦ rw (refused, publish_telemetry) refl
]

turn_links : (t : MainTurn) (l : MainLoop) → links (main_turn t l).client ≡ links l.client
turn_links t l =
    let es = (if t.readable then t.input else []) ++ t.live in
    elim (turn_cases t l) [
      | inl (turn, off) ↦ simp turn (events_links es l.client)
      | inr (inl (turn, now)) ↦
          simp turn (publish_links t.publish_err (handled t l) ∙ events_links es l.client)
      | inr (inr (turn, early)) ↦ simp turn (events_links es l.client)
    ]

loop_links :
    (turns : List MainTurn) (l : MainLoop) → links (main_loop turns l).client ≡ links l.client
unfolding main_loop
loop_links [] l = refl
loop_links (t ∷ turns) l = elim (Bool-cases l.client.rebooting) [
  | inl off ↦ simp off
  | inr on ↦ simp on (loop_links turns (main_turn t l) ∙ turn_links t l)
]

module _ (s : Settings) where
  provision_event_links :
      (e : MqttEvt) (h : Client) → links (provisioning_evt_handler s e h) ≡ links h
  unfolding provisioning_evt_handler request_credentials mqtt_publish mqtt_subscribe
  provision_event_links (mqtt_evt_connack result) h = ground arith
  provision_event_links (mqtt_evt_publish p) h = refl
  provision_event_links mqtt_evt_disconnect h = refl
  provision_event_links mqtt_evt_other h = refl

  provision_events_links :
      (es : List MqttEvt) (h : Client) → links (provisioning_events s es h) ≡ links h
  unfolding provisioning_events
  provision_events_links [] h = refl
  provision_events_links (e ∷ es) h =
      provision_events_links es (provisioning_evt_handler s e h) ∙ provision_event_links e h

  provision_loop_links :
      (deadline : ℕ) (turns : List Turn) (h q : Client)
      → provisioning_loop s deadline turns h ≡ some q
      → links q ≡ links h
  unfolding provisioning_loop
  provision_loop_links deadline [] h q e = elim (Bool-cases h.provisioning_done) [
    | inl done ↦ ap links (sym (some-injective _ _ (simp done at e)))
    | inr pending ↦ absurd (none-ne-some (simp pending at e))
  ]
  provision_loop_links deadline (t ∷ turns) h q e =
      elim (Bool-cases (not h.provisioning_done && ltb t.uptime deadline)) [
        | inr stop ↦ ap links (sym (some-injective _ _ (rw stop at e)))
        | inl go ↦
            provision_loop_links deadline turns (provisioning_events s (turn_events t) h) q
              (rw go at e)
            ∙ provision_events_links (turn_events t) h
      ]

  -- How a run stands: provisioning is not over, it has returned after at most two connections, or
  -- it is in its endless loop after one connection to ask for a token and one with that token.
  pub data Stands : Progress → Type 0 where
    waiting : Stands provisioning
    stopped_after : (h : Client) → length h.connects ≤ 2 → Stands (returned h)
    serving :
        (l : MainLoop) (broker : Address) (token : Bytes)
        → 0 < length token
        → length token ≤ 63
        → l.client.connects
          ≡ client_configure broker s.broker_hostname (codes "provision")
            ∷ client_configure broker s.broker_hostname token
            ∷ []
        → Stands (running l)

  token_length :
      (q : Client) (token : Bytes)
      → provisioning_result 64 q ≡ some token
      → (0 < length token) × (length token ≤ 63)
  unfolding provisioning_result
  token_length q token e =
      elim (Bool-cases (not q.provisioning_done || length q.provisioned_token == 0)) [
        | inl failed ↦ absurd (none-ne-some (rw failed at e))
        | inr good ↦
            let cut : take 63 q.provisioned_token ≡ token = some-injective _ _ (rw good at e) in
            let positive : 0 < length q.provisioned_token = ground arith in
            (
              omega (arith, ap (length {A = ℕ}) cut, length-take 63 q.provisioned_token, positive),
              omega (arith, ap (length {A = ℕ}) cut, length-take 63 q.provisioned_token),
            )
      ]

  abbrev provision_client : Address → MqttClient
  provision_client broker = client_configure broker s.broker_hostname (codes "provision")

  main-Stands :
      (a : RunAnswers) (broker : Address) (token : Bytes) (q : Client)
      → 0 < length token
      → length token ≤ 63
      → links q ≡ (provision_client broker ∷ [], broker)
      → Stands (run_main s a token q)
  unfolding run_main connect
  main-Stands a broker token q positive short e = elim (Bool-cases (is_zero a.main_connect)) [
    | inr refused ↦ rw refused (stopped_after _ (simp (ap (λ l. l.0) e) (omega arith)))
    | inl accepted ↦ rw accepted (
        serving _ broker token positive short
          (ap (λ l. l.0) (loop_links a.main_turns _) ∙ simp (ap (λ l. l.0) e, ap (λ l. l.1) e)))
  ]

  provisioned-Stands :
      (a : RunAnswers) (broker : Address) (h : Client)
      → links h ≡ ([], broker)
      → Stands (
          after_provisioning s a (
            run_provisioning s a.provisioning_connect a.provisioning_uptime a.provisioning_turns 64
              h))
  unfolding run_provisioning connect after_provisioning
  provisioned-Stands a broker h e = elim (Bool-cases (is_zero a.provisioning_connect)) [
    | inr refused ↦ rw refused (stopped_after _ (simp (ap (λ l. l.0) e) (omega arith)))
    | inl accepted ↦
        let begun = provisioning_start s h in
        elim (Option-cases
          (provisioning_loop s (a.provisioning_uptime + 15000) a.provisioning_turns begun)) [
            | inl pending ↦ rw (accepted, pending) waiting
            | inr (q, e') ↦
                let kept : links q ≡ (provision_client broker ∷ [], broker) =
                  provision_loop_links (a.provisioning_uptime + 15000) a.provisioning_turns begun q
                    e'
                  ∙ simp (ap (λ l. l.0) e, ap (λ l. l.1) e) in
                elim (Option-cases (provisioning_result 64 q)) [
                  | inl failed ↦
                      rw (accepted, e', run_provisioning, failed)
                        (stopped_after q (simp (ap (λ l. l.0) kept) (omega arith)))
                  | inr (token, issued) ↦
                      let (positive, short) = token_length q token issued in
                      rw (accepted, e', run_provisioning, issued)
                        (main-Stands a broker token q positive short kept)
                ]
          ]
  ]

  -- Whatever the libraries answer and whatever messages come, a run that began with no connection
  -- has returned after at most two connections, is still in provisioning, or is in its endless loop
  -- after exactly two: one as `provision` and one, to the same address, with a token of 1 to 63 bytes as its user
  -- name. The endless loop never connects again.
  pub thingsboard_run_connects :
      (a : RunAnswers) (h : Client) → h.connects ≡ [] → Stands (thingsboard_run s a h)
  unfolding thingsboard_run
  thingsboard_run_connects a h none_yet = elim (Bool-cases (int_ltb a.tls_credential_add 0)) [
    | inl failed ↦ rw failed (stopped_after h (simp none_yet (omega arith)))
    | inr registered ↦ elim (Option-cases (resolve_broker a.getaddrinfo_err a.getaddrinfo_result)) [
      | inl unresolved ↦ rw (registered, unresolved) (stopped_after h (simp none_yet (omega arith)))
      | inr (address, resolved) ↦
          rw (registered, resolved)
            (provisioned-Stands a address (record h { broker_addr = address }) (simp none_yet refl))
    ]
  ]

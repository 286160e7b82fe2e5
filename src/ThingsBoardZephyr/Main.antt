-- ===== src/ThingsBoardZephyr/Main.antt =====
-- The main phase of zephyr-thingsboard/src/thingsboard_mqtt.c: `main_evt_handler`,
-- `publish_telemetry`, `resolve_broker` and `thingsboard_run`.
pub mod Requests
pub mod Telemetry
pub mod Run
use winegrid_internship.Base.{
  is_zero, ℕ, ◌+◌, ◌-◌, ◌%◌, Bool, true, false, ◌&&◌, ◌||◌, not, if◌then◌else◌, leb, List, [], ◌∷◌,
  ◌++◌, Option, none, some, Bytes, ℤ, pos, negsuc, codes, dec, length, snprintf, starts_with,
  int_ltb,
}
use winegrid_internship.ThingsBoardZephyr.{
  Address, Client, MqttEvt, mqtt_evt_connack, mqtt_evt_publish, mqtt_evt_disconnect, mqtt_evt_other,
  client_configure, mqtt_subscribe, mqtt_publish, payload_text, fill_payload_buf,
  rpc_request_prefix, handle_rpc_request,
}
use winegrid_internship.ThingsBoardZephyr.Provisioning.{Settings, Turn, connect, run_provisioning}

-- `main_evt_handler`; the number is `k_uptime_get()`.
unfoldable pub main_evt_handler : ℕ → MqttEvt → Client → Client
unfolding is_zero mqtt_subscribe fill_payload_buf payload_text handle_rpc_request
main_evt_handler uptime (mqtt_evt_connack result) h =
    if not (is_zero result) then h else mqtt_subscribe (codes "v1/devices/me/rpc/request/+") h
main_evt_handler uptime (mqtt_evt_publish p) h =
    let filled = record h { payload_buf = fill_payload_buf p h.payload_buf } in
    if leb (length rpc_request_prefix) (length p.topic) && starts_with rpc_request_prefix p.topic
    then handle_rpc_request uptime p.topic (payload_text p h.payload_buf) filled
    else filled
main_evt_handler uptime mqtt_evt_disconnect h = h
main_evt_handler uptime mqtt_evt_other h = h

-- Events with the uptime at which each is handled; `sys_reboot` does not return.
unfoldable pub main_events : List (ℕ × MqttEvt) → Client → Client
unfolding main_evt_handler
main_events [] h = h
main_events (e ∷ es) h = if h.rebooting then h else main_events es (main_evt_handler e.0 e.1 h)

unfoldable pub next_temperature : ℕ → ℕ
next_temperature t = 20 + (t + 1 - 20) % 10

-- `publish_telemetry`; the first argument is what `mqtt_publish` returns, 0 for a message that is
-- sent. It is only logged.
unfoldable pub publish_telemetry : ℤ → Client → Client
unfolding mqtt_publish next_temperature is_zero
publish_telemetry err h =
    let t = next_temperature h.fake_temperature in
    let stepped = record h { fake_temperature = t } in
    if is_zero err
    then mqtt_publish (codes "v1/devices/me/telemetry")
        (snprintf 64 (codes "{\"temperature\":" ++ (dec t ++ codes "}"))) stepped
    else stepped

-- One turn of the loop of `thingsboard_run`: the events, the uptime that `next_telemetry` is
-- compared with, what `mqtt_publish` returns if telemetry is due, and the uptime that
-- `next_telemetry` is then set from.
pub record MainTurn : Type 0 where
  pub readable : Bool
  pub input : List (ℕ × MqttEvt)
  pub live : List (ℕ × MqttEvt)
  pub checked : ℕ
  pub publish_err : ℤ
  pub published : ℕ

-- The loop's state, with the uptimes at which it called `publish_telemetry` and what `mqtt_publish`
-- returned then, the last one first.
pub record MainLoop : Type 0 where
  pub client : Client
  pub next_telemetry : ℕ
  pub tries : List (ℕ × ℤ)

unfoldable pub main_turn : MainTurn → MainLoop → MainLoop
unfolding main_events publish_telemetry
main_turn t l =
    let h = main_events ((if t.readable then t.input else []) ++ t.live) l.client in
    if not h.rebooting && leb l.next_telemetry t.checked
    then record {
      client = publish_telemetry t.publish_err h;
      next_telemetry = t.published + 10000;
      tries = (t.checked, t.publish_err) ∷ l.tries;
    }
    else record l { client = h }

unfoldable pub main_loop : List MainTurn → MainLoop → MainLoop
unfolding main_turn
main_loop [] l = l
main_loop (t ∷ turns) l = if l.client.rebooting then l else main_loop turns (main_turn t l)

-- What the libraries answer during a run.
pub record RunAnswers : Type 0 where
  pub tls_credential_add : ℤ
  pub getaddrinfo_err : ℤ
  pub getaddrinfo_result : Option Address
  pub provisioning_connect : ℤ
  pub provisioning_uptime : ℕ
  pub provisioning_turns : List Turn
  pub main_connect : ℤ
  pub main_uptime : ℕ
  pub main_turns : List MainTurn

-- How far a run gets: the turns end during provisioning, it returns, or it is in its endless loop.
pub data Progress : Type 0 where
  provisioning : Progress
  returned : Client → Progress
  running : MainLoop → Progress

-- `resolve_broker`; `none` where it returns -EIO.
unfoldable pub resolve_broker : ℤ → Option Address → Option Address
unfolding is_zero
resolve_broker err none = none
resolve_broker err (some address) = if is_zero err then some address else none

-- `thingsboard_run` from `client_configure` on.
unfoldable pub run_main : Settings → RunAnswers → Bytes → Client → Progress
unfolding is_zero connect client_configure main_loop
run_main s a access_token h =
    let connecting = connect (client_configure h.broker_addr s.broker_hostname access_token) h in
    if not (is_zero a.main_connect)
    then returned connecting
    else running (
        main_loop a.main_turns
          (record { client = connecting; next_telemetry = a.main_uptime; tries = [] }))

unfoldable pub after_provisioning :
    Settings → RunAnswers → Option (Option Bytes × Client) → Progress
unfolding run_main
after_provisioning s a none = provisioning
after_provisioning s a (some (none, h)) = returned h
after_provisioning s a (some (some access_token, h)) = run_main s a access_token h

-- `thingsboard_run`.
unfoldable pub thingsboard_run : Settings → RunAnswers → Client → Progress
unfolding resolve_broker run_provisioning after_provisioning
thingsboard_run s a h =
    if int_ltb a.tls_credential_add 0
    then returned h
    else elim (resolve_broker a.getaddrinfo_err a.getaddrinfo_result) [
      | none ↦ returned h
      | some address ↦ after_provisioning s a (
          run_provisioning s a.provisioning_connect a.provisioning_uptime a.provisioning_turns 64
            (record h { broker_addr = address }))
    ]

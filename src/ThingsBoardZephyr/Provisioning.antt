-- ===== src/ThingsBoardZephyr/Provisioning.antt =====
-- Device provisioning of zephyr-thingsboard/src/thingsboard_mqtt.c: `get_device_name`,
-- `provisioning_evt_handler` and `run_provisioning`.
pub mod Outcome
pub mod Bounds
use winegrid_internship.Base.{
  ℕ, ◌+◌, ◌-◌, Bool, true, false, ◌&&◌, ◌||◌, not, if◌then◌else◌, leb, ltb, ◌==◌, List, [], ◌∷◌,
  ◌++◌, Option, none, some, Bytes, ℤ, pos, negsuc, codes, length, take, snprintf, str_eq, hex_bytes,
  is_zero,
}
use winegrid_internship.ThingsBoardZephyr.{
  Client, MqttClient, MqttEvt, mqtt_evt_connack, mqtt_evt_publish, mqtt_evt_disconnect,
  mqtt_evt_other, client_configure, mqtt_subscribe, mqtt_publish, payload_text, fill_payload_buf,
  json_extract_string,
}

-- The CONFIG_TB_ constants, and the link-layer address of the network interface, if it has one.
pub record Settings : Type 0 where
  pub broker_hostname : Bytes
  pub provision_key : Bytes
  pub provision_secret : Bytes
  pub link_addr : Option Bytes

-- One turn of a loop: `k_uptime_get()` where the loop is tested, and the events that `mqtt_input`,
-- which is called if the socket is readable, and `mqtt_live` hand to the handler.
pub record Turn : Type 0 where
  pub uptime : ℕ
  pub readable : Bool
  pub input : List MqttEvt
  pub live : List MqttEvt

-- `get_device_name`.
unfoldable pub get_device_name : Option Bytes → ℕ → Bytes
get_device_name none out_size = snprintf out_size (codes "zephyr-unknown")
get_device_name (some addr) out_size =
    if length addr == 6
    then snprintf out_size (codes "zephyr-" ++ hex_bytes addr)
    else snprintf out_size (codes "zephyr-unknown")

-- The text that is printed into `char payload[256]`.
unfoldable pub provision_text : Settings → Bytes
unfolding get_device_name
provision_text s =
    codes "{\"deviceName\":\""
    ++ (get_device_name s.link_addr 48
        ++ (codes "\",\"provisionDeviceKey\":\""
            ++ (s.provision_key
                ++ (codes "\",\"provisionDeviceSecret\":\""
                    ++ (s.provision_secret ++ codes "\"}")))))

-- The answer to a CONNACK without an error. `payload.len` is what `snprintf` returned, the length of
-- the whole text.
unfoldable pub request_credentials : Settings → Client → Client
unfolding mqtt_subscribe mqtt_publish provision_text
request_credentials s h =
    let text = provision_text s in
    mqtt_publish (codes "/provision/request") (snprintf 256 text)
      (record (mqtt_subscribe (codes "/provision/response") h) {
        over_read = leb 256 (length text) || h.over_read;
      })

-- The token of an answer with the status SUCCESS.
unfoldable pub issued_token : Bytes → Option Bytes
unfolding json_extract_string
issued_token text = elim (json_extract_string text (codes "status") 32) [
  | none ↦ none
  | some status ↦
      let token = json_extract_string text (codes "credentialsValue") 64 in
      if str_eq status (codes "SUCCESS") then token else none
]

-- What is left in `s_provisioned_token`.
unfoldable pub take_token : Bytes → Bytes → Bytes
unfolding issued_token
take_token text old = elim (issued_token text) [ none ↦ old | some token ↦ token ]

-- `provisioning_evt_handler`.
unfoldable pub provisioning_evt_handler : Settings → MqttEvt → Client → Client
unfolding is_zero request_credentials take_token payload_text fill_payload_buf
provisioning_evt_handler s (mqtt_evt_connack result) h =
    if not (is_zero result) then record h { provisioning_done = true } else request_credentials s h
provisioning_evt_handler s (mqtt_evt_publish p) h = record h {
  payload_buf = fill_payload_buf p h.payload_buf;
  provisioned_token = take_token (payload_text p h.payload_buf) h.provisioned_token;
  provisioning_done = true;
}
provisioning_evt_handler s mqtt_evt_disconnect h = h
provisioning_evt_handler s mqtt_evt_other h = h

unfoldable pub provisioning_events : Settings → List MqttEvt → Client → Client
unfolding provisioning_evt_handler
provisioning_events s [] h = h
provisioning_events s (e ∷ es) h = provisioning_events s es (provisioning_evt_handler s e h)

unfoldable pub turn_events : Turn → List MqttEvt
turn_events t = (if t.readable then t.input else []) ++ t.live

-- The loop, up to the given deadline; `none` where the given turns end before it does.
unfoldable pub provisioning_loop : Settings → ℕ → List Turn → Client → Option Client
unfolding provisioning_events turn_events
provisioning_loop s deadline [] h = if h.provisioning_done then some h else none
provisioning_loop s deadline (t ∷ turns) h =
    let rest = provisioning_loop s deadline turns (provisioning_events s (turn_events t) h) in
    if not h.provisioning_done && ltb t.uptime deadline then rest else some h

-- What `run_provisioning` leaves in `out_token` after its loop; `none` where it returns false.
unfoldable pub provisioning_result : ℕ → Client → Option Bytes
provisioning_result out_size h =
    if not h.provisioning_done || length h.provisioned_token == 0
    then none
    else some (take (out_size - 1) h.provisioned_token)

unfoldable pub connect : MqttClient → Client → Client
connect client h = record h { connects = h.connects ++ client ∷ [] }

-- `run_provisioning`: the result of `mqtt_connect`, the uptime when the deadline is set, and the
-- turns of the loop.
unfoldable pub run_provisioning :
    Settings → ℤ → ℕ → List Turn → ℕ → Client → Option (Option Bytes × Client)
unfolding provisioning_loop provisioning_result client_configure connect is_zero
run_provisioning s connect_err uptime turns out_size h =
    let connecting =
      connect (client_configure h.broker_addr s.broker_hostname (codes "provision")) h in
    if not (is_zero connect_err)
    then some (none, connecting)
    else elim (provisioning_loop s (uptime + 15000) turns
        (record connecting { provisioning_done = false })) [
          | none ↦ none
          | some q ↦ some (provisioning_result out_size q, q)
        ]

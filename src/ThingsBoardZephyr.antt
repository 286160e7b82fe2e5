-- ===== src/ThingsBoardZephyr.antt =====
-- The ThingsBoard client of Zephyr, zephyr-thingsboard/src/thingsboard_mqtt.c: its state, the
-- settings of the MQTT client, the payload buffer, the extraction of strings from JSON and the RPC
-- requests.
pub mod Extract
pub mod Search
pub mod Buffer
pub mod Provisioning
pub mod Main
pub mod Boot
mod Tests
mod RunTests
use winegrid_internship.Base.{
  ℕ, ◌-◌, Bool, true, false, if◌then◌else◌, leb, ltb, ◌==◌, List, [], ◌∷◌, ◌++◌, Option, none, some,
  Bytes, ℤ, codes, dec, length, take, drop, set, snprintf, starts_with, str_eq,
}
use winegrid_internship.Mqtt.{Message}

-- `struct sockaddr_in`, whose family is AF_INET.
pub record Address : Type 0 where
  pub sin_addr : ℕ
  pub sin_port : ℕ

pub data Transport : Type 0 where
  mqtt_transport_non_secure mqtt_transport_secure : Transport

pub data PeerVerify : Type 0 where
  tls_peer_verify_none tls_peer_verify_optional tls_peer_verify_required : PeerVerify

-- `struct mqtt_client`, as far as `client_configure` sets it; the version 4 is MQTT 3.1.1.
pub record MqttClient : Type 0 where
  pub broker : Address
  pub client_id : Bytes
  pub user_name : Bytes
  pub password : Option Bytes
  pub protocol_version : ℕ
  pub rx_buf_size : ℕ
  pub tx_buf_size : ℕ
  pub transport_type : Transport
  pub peer_verify : PeerVerify
  pub sec_tag_list : List ℕ
  pub hostname : Bytes

-- The static variables of the file, with what the client has done: the clients that it called
-- `mqtt_connect` with, its subscriptions, the messages that it handed to `mqtt_publish`, whether
-- one of them was as long as the array that was to hold it and its NUL, or longer, so that more was
-- sent than was printed, and whether it called `sys_reboot`.
pub record Client : Type 0 where
  pub fake_temperature : ℕ
  pub broker_addr : Address
  pub payload_buf : Bytes
  pub provisioning_done : Bool
  pub provisioned_token : Bytes
  pub connects : List MqttClient
  pub subscriptions : List Bytes
  pub outbox : List Message
  pub over_read : Bool
  pub rebooting : Bool

-- `evt->param.publish`, and how many bytes of the payload have arrived when the handler reads them.
pub record PublishParam : Type 0 where
  pub topic : Bytes
  pub payload : Bytes
  pub arrived : ℕ

-- `struct mqtt_evt`; a CONNACK has its result, and `mqtt_evt_other` stands for the other types.
pub data MqttEvt : Type 0 where
  mqtt_evt_connack : ℤ → MqttEvt
  mqtt_evt_publish : PublishParam → MqttEvt
  mqtt_evt_disconnect mqtt_evt_other : MqttEvt

-- `client_configure`.
unfoldable pub client_configure : Address → Bytes → Bytes → MqttClient
client_configure broker_addr hostname username = record {
  broker = broker_addr;
  client_id = codes "zephyr-tb-client";
  user_name = username;
  password = none;
  protocol_version = 4;
  rx_buf_size = 1024;
  tx_buf_size = 1024;
  transport_type = mqtt_transport_secure;
  peer_verify = tls_peer_verify_required;
  sec_tag_list = 1 ∷ [];
  hostname = hostname;
}

-- `mqtt_subscribe` and `mqtt_publish`, as the client calls them.
unfoldable pub mqtt_subscribe : Bytes → Client → Client
mqtt_subscribe topic h = record h { subscriptions = h.subscriptions ++ topic ∷ [] }

unfoldable pub mqtt_publish : Bytes → Bytes → Client → Client
mqtt_publish topic payload h = record h {
  outbox = h.outbox ++ record { topic = topic; payload = payload } ∷ [];
}

-- The number of bytes that a handler reads: at most `sizeof(payload_buf) - 1`.
unfoldable pub payload_len : PublishParam → ℕ
payload_len p = if ltb 511 (length p.payload) then 511 else length p.payload

-- What `mqtt_read_publish_payload`, which does not wait, leaves in `payload_buf`: the bytes that
-- have arrived, over what was there, and then the NUL that the handler writes.
unfoldable pub fill_payload_buf : PublishParam → Bytes → Bytes
unfolding payload_len
fill_payload_buf p buf =
    let received = take p.arrived (take (payload_len p) p.payload) in
    set (received ++ drop (length received) buf) (payload_len p) 0

-- The `len` bytes that the handler goes on with.
unfoldable pub payload_text : PublishParam → Bytes → Bytes
unfolding fill_payload_buf
payload_text p buf = take (payload_len p) (fill_payload_buf p buf)

-- `char pattern[40]`, for a key that fits.
unfoldable pub pattern : Bytes → Bytes
pattern key = codes "\"" ++ (key ++ codes "\":\"")

-- The bytes before the first `"`.
unfoldable pub before_quote : Bytes → Bytes
before_quote [] = []
before_quote (c ∷ cs) = if c == b'"' then [] else c ∷ before_quote cs

-- The search, over what is left at `i`: it goes on while more than the pattern is left.
unfoldable pub search_pattern : Bytes → ℕ → Bytes → Option Bytes
unfolding before_quote
search_pattern p out_size [] = none
search_pattern p out_size (c ∷ cs) =
    let rest = search_pattern p out_size cs in
    if ltb (length p) (length (c ∷ cs))
    then if starts_with p (c ∷ cs)
      then some (take (out_size - 1) (before_quote (drop (length p) (c ∷ cs))))
      else rest
    else none

-- `json_extract_string`: the string that it leaves in `out`, `none` where it returns false.
unfoldable pub json_extract_string : Bytes → Bytes → ℕ → Option Bytes
unfolding search_pattern pattern
json_extract_string json key out_size =
    if leb (length json) (length (pattern key))
    then none
    else search_pattern (pattern key) out_size json

abbrev pub rpc_request_prefix : Bytes
rpc_request_prefix = codes "v1/devices/me/rpc/request/"

-- The payload of an answer; the second number is `k_uptime_get()`.
unfoldable pub rpc_response : Bytes → ℕ → ℕ → Bytes
rpc_response method temperature uptime =
    if str_eq method (codes "getStatus")
    then snprintf 128 (
        codes "{\"temperature\":"
        ++ (dec temperature ++ (codes ",\"uptimeMs\":" ++ (dec uptime ++ codes "}"))))
    else if str_eq method (codes "reboot")
    then codes "{\"result\":\"rebooting\"}"
    else codes "{\"error\":\"unknown method\"}"

-- `handle_rpc_request`, on a topic that begins with the prefix.
unfoldable pub handle_rpc_request : ℕ → Bytes → Bytes → Client → Client
unfolding json_extract_string rpc_response mqtt_publish
handle_rpc_request uptime topic payload h = elim (json_extract_string payload (codes "method") 32) [
  | none ↦ h
  | some method ↦
      let answered =
        mqtt_publish
          (snprintf 64
            (codes "v1/devices/me/rpc/response/" ++ drop (length rpc_request_prefix) topic))
          (rpc_response method h.fake_temperature uptime) h in
      if str_eq method (codes "reboot") then record answered { rebooting = true } else answered
]

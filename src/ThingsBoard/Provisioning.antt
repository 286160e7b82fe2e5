-- ===== src/ThingsBoard/Provisioning.antt =====
-- Device provisioning of esp-idf-thingsboard/main/app_main.c: `provisioning_event_handler` and
-- `run_provisioning`.
pub mod Outcome
pub mod Success
use winegrid_internship.Base.{
  ℕ, ◌+◌, ◌-◌, Bool, true, false, ◌&&◌, ◌||◌, if◌then◌else◌, leb, ltb, ◌==◌, List, [], ◌∷◌, ◌++◌,
  Option, none, some, Bytes, codes, length, take, snprintf, str_eq, hex_bytes,
}
use winegrid_internship.Json.{CJson}
use winegrid_internship.Mqtt.{
  Event, Message, connected, disconnected, transport_error, other, message,
}

-- `s_provisioning_done` and `s_provisioned_token`, with what the client sent.
pub record Provisioning : Type 0 where
  pub done : Bool
  pub token : Bytes
  pub outbox : List Message
  pub subscriptions : List Bytes

-- CONFIG_TB_PROVISION_KEY, CONFIG_TB_PROVISION_SECRET and the MAC address of the station.
pub record Identity : Type 0 where
  pub provision_key : Bytes
  pub provision_secret : Bytes
  pub mac : Bytes

unfoldable pub provision_request : Identity → Bytes
provision_request identity = snprintf 256 (
    codes "{\"deviceName\":\""
    ++ (snprintf 48 (codes "esp32-" ++ hex_bytes identity.mac)
        ++ (codes "\",\"provisionDeviceKey\":\""
            ++ (identity.provision_key
                ++ (codes "\",\"provisionDeviceSecret\":\""
                    ++ (identity.provision_secret ++ codes "\"}"))))))

-- The loop of `run_provisioning` ends: `s_provisioning_done`, or 15000 ms have passed.
unfoldable pub stops : ℕ → Provisioning → Bool
stops waited_ms p = p.done || leb 15000 waited_ms

-- What `run_provisioning` returns after its loop, into a buffer of the given size: the token, or
-- `none` where it returns false.
unfoldable pub provisioning_result : ℕ → Provisioning → Option Bytes
provisioning_result out_size p =
    if p.done && ltb 0 (length p.token) then some (take (out_size - 1) p.token) else none

module _ (json : CJson) (identity : Identity) where
  open json use {Value, parse, get_object_item, string_of}

  unfoldable pub string_at : Value → Bytes → Option Bytes
  string_at root key = elim (get_object_item root key) [ none ↦ none | some item ↦ string_of item ]

  -- The token of an answer with the status SUCCESS.
  unfoldable pub issued_token : Value → Option Bytes
  unfolding string_at
  issued_token root = elim (string_at root (codes "status")) [
    | none ↦ none
    | some status ↦
        if str_eq status (codes "SUCCESS") then string_at root (codes "credentialsValue") else none
  ]

  -- The answer is read into `char s_provisioned_token[64]`.
  unfoldable pub take_token : Option Value → Provisioning → Provisioning
  unfolding issued_token
  take_token none p = p
  take_token (some root) p = elim (issued_token root) [
    | none ↦ p
    | some credentials_value ↦ record p { token = take 63 credentials_value }
  ]

  -- `provisioning_event_handler`.
  unfoldable pub provisioning_event_handler : Event → Provisioning → Provisioning
  unfolding take_token
  provisioning_event_handler connected p = record p {
    subscriptions = p.subscriptions ++ codes "/provision/response" ∷ [];
    outbox =
        p.outbox
        ++ (record { topic = codes "/provision/request"; payload = provision_request identity }
            ∷ []);
  }
  provisioning_event_handler (message topic payload) p = record (take_token (parse payload) p) {
    done = true;
  }
  provisioning_event_handler _ p = p

  unfoldable pub handle_all : List Event → Provisioning → Provisioning
  unfolding provisioning_event_handler
  handle_all [] p = p
  handle_all (e ∷ es) p = handle_all es (provisioning_event_handler e p)

  -- The loop. Each turn is a wait of 200 ms, with the events that come in it; `none` where the
  -- given turns end before the loop does.
  unfoldable pub wait_loop : ℕ → List (List Event) → Provisioning → Option Provisioning
  unfolding handle_all stops
  wait_loop waited_ms [] p = if stops waited_ms p then some p else none
  wait_loop waited_ms (events ∷ turns) p = elim (stops waited_ms p) [
    | true ↦ some p
    | false ↦ wait_loop (waited_ms + 200) turns (handle_all events p)
  ]

  -- `run_provisioning`.
  unfoldable pub run_provisioning : ℕ → List (List Event) → Provisioning → Option (Option Bytes)
  unfolding wait_loop provisioning_result
  run_provisioning out_size turns p = elim (wait_loop 0 turns p) [
    | none ↦ none
    | some q ↦ some (provisioning_result out_size q)
  ]

-- ===== src/Azure/Dps.antt =====
-- The registration with the Device Provisioning Service, esp-idf-azure-dps/main/app_main.c:
-- `dps_mqtt_event_handler` and `run_dps_registration`.
pub mod Loop
pub mod Assignment
use winegrid_internship.Base.{
  ℕ, ◌+◌, Bool, true, false, ◌&&◌, ◌||◌, if◌then◌else◌, leb, ltb, List, [], ◌∷◌, ◌++◌, Option, none,
  some, Bytes, codes, dec, length, take, drop, snprintf, starts_with, str_eq,
}
use winegrid_internship.Json.{CJson}
use winegrid_internship.Mqtt.{
  Message, Event, connected, disconnected, transport_error, other, message,
}
use winegrid_internship.Azure.DirectMethod.{before_slash}

-- The static variables of the registration, with what the client sent.
pub record Dps : Type 0 where
  pub done : Bool
  pub success : Bool
  pub request_id : ℕ
  pub operation_id : Bytes
  pub assigned_hub : Bytes
  pub device_id : Bytes
  pub poll_pending : Bool
  pub outbox : List Message
  pub subscriptions : List Bytes

abbrev pub dps_response_prefix : Bytes
dps_response_prefix = codes "$dps/registrations/res/"

-- `char status_code[8]`, from the topic.
unfoldable pub status_code : Bytes → Bytes
status_code topic =
    if ltb (length dps_response_prefix) (length topic) && starts_with dps_response_prefix topic
    then before_slash 7 (drop (length dps_response_prefix) topic)
    else []

unfoldable pub send : Bytes → Bytes → Dps → Dps
send topic payload d = record d {
  outbox = d.outbox ++ (record { topic = topic; payload = payload } ∷ []);
}

-- The request for the state of the operation, in the loop of `run_dps_registration`.
unfoldable pub poll : Dps → Dps
unfolding send
poll d =
    send
      (snprintf 256 (
        codes "$dps/registrations/GET/iotdps-get-operationstatus/?$rid="
        ++ (dec (d.request_id + 1) ++ (codes "&operationId=" ++ d.operation_id))))
      [] (record d { request_id = d.request_id + 1 })

-- The loop ends: `s_dps_done`, or the timeout of 60000 ms has passed.
unfoldable pub registration_ends : ℕ → Dps → Bool
registration_ends waited_ms d = d.done || leb 60000 waited_ms

module _ (json : CJson) (registration_id : Bytes) where
  open json use {Value, parse, get_object_item, string_of}

  -- `cJSON_GetObjectItem`, which takes NULL, and the string that it finds.
  unfoldable pub item_string : Option Value → Bytes → Option Bytes
  item_string none key = none
  item_string (some root) key = elim (get_object_item root key) [
    | none ↦ none
    | some item ↦ string_of item
  ]

  unfoldable pub keep_operation_id : Option Bytes → Dps → Dps
  keep_operation_id none d = d
  keep_operation_id (some op_id) d = record d { operation_id = take 127 op_id }

  -- The assignment, where both names are strings.
  unfoldable pub assign : Option Bytes → Option Bytes → Dps → Dps
  assign (some hub) (some dev_id) d = record d {
    assigned_hub = take 127 hub;
    device_id = take 127 dev_id;
    success = true;
  }
  assign _ _ d = d

  unfoldable pub is_assigned : Option Bytes → Bool
  is_assigned none = false
  is_assigned (some status) = str_eq status (codes "assigned")

  -- What an answer does, from the test of its `status` on.
  unfoldable pub take_answer : Bytes → Value → Dps → Dps
  unfolding assign item_string is_assigned
  take_answer code root d =
      let reg_state = get_object_item root (codes "registrationState") in
      if is_assigned (item_string (some root) (codes "status"))
      then record (assign (item_string reg_state (codes "assignedHub"))
          (item_string reg_state (codes "deviceId")) d) { done = true }
      else if str_eq code (codes "202")
      then record d { poll_pending = true }
      else record d { done = true }

  unfoldable pub on_response : Bytes → Option Value → Dps → Dps
  unfolding take_answer keep_operation_id status_code
  on_response topic none d = d
  on_response topic (some root) d =
      take_answer (status_code topic) root
        (keep_operation_id (item_string (some root) (codes "operationId")) d)

  -- `dps_mqtt_event_handler`.
  unfoldable pub dps_mqtt_event_handler : Event → Dps → Dps
  unfolding send on_response
  dps_mqtt_event_handler connected d =
      send
        (snprintf 96
          (codes "$dps/registrations/PUT/iotdps-register/?$rid=" ++ dec (d.request_id + 1)))
        (snprintf 96 (codes "{\"registrationId\":\"" ++ (registration_id ++ codes "\"}")))
        (record d {
          subscriptions = d.subscriptions ++ codes "$dps/registrations/res/#" ∷ [];
          request_id = d.request_id + 1;
        })
  dps_mqtt_event_handler (message topic payload) d = on_response topic (parse payload) d
  dps_mqtt_event_handler _ d = d

  unfoldable pub handle_events : List Event → Dps → Dps
  unfolding dps_mqtt_event_handler
  handle_events [] d = d
  handle_events (e ∷ es) d = handle_events es (dps_mqtt_event_handler e d)

  -- One round of the loop: `before` are the events of the two seconds before a poll, which only
  -- pass where a poll is due, and `after` those of the 200 ms at the end.
  unfoldable pub dps_round : List Event → List Event → Dps → Dps
  unfolding handle_events poll
  dps_round before after d = handle_events after (
      if d.poll_pending then poll (handle_events before (record d { poll_pending = false })) else d)

  -- The loop of `run_dps_registration`; `none` where the given rounds end before it does.
  unfoldable pub dps_loop : ℕ → List (List Event × List Event) → Dps → Option Dps
  unfolding dps_round registration_ends
  dps_loop waited_ms [] d = if registration_ends waited_ms d then some d else none
  dps_loop waited_ms (events ∷ turns) d = elim (registration_ends waited_ms d) [
    | true ↦ some d
    | false ↦ dps_loop (waited_ms + 200) turns (dps_round events.0 events.1 d)
  ]

  -- `run_dps_registration`, where the token is what `build_sas_token` gave: whether it succeeded,
  -- and the state that it leaves.
  unfoldable pub run_dps_registration :
      Option Bytes → List (List Event × List Event) → Dps → Option (Bool × Dps)
  unfolding dps_loop
  run_dps_registration none turns d = some (false, d)
  run_dps_registration (some sas_token) turns d = elim (dps_loop 0 turns d) [
    | none ↦ none
    | some after ↦ some (after.done && after.success, after)
  ]

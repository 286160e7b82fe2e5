-- ===== src/Azure/Events/Invariant.antt =====
-- What holds of the hub after any sequence of events and telemetry rounds.
use winegrid_internship.Base.{
  ℕ, ◌≤◌, ◌≡◌, arith, true, Option, none, some, Bytes, codes, ℤ, pos, negsuc,
}
use winegrid_internship.Nvs.{Nvs}
use winegrid_internship.Json.{CJson}
use winegrid_internship.Azure.{Hub, Platform, report_fw_state, report_twin_properties}
use winegrid_internship.Azure.Ota.{trigger_ota}
use winegrid_internship.Azure.DirectMethod.{handle_direct_method_request, call_method}
use winegrid_internship.Azure.Twin.{
  apply_firmware, apply_interval, apply_desired_properties, string_item, number_item,
  min_publish_interval_ms,
}
use winegrid_internship.Azure.Telemetry.{telemetry_round}
use winegrid_internship.Azure.Telemetry.Rounds.{InRamp, next_temperature-InRamp}
use winegrid_internship.Mqtt.{Event, connected, disconnected, transport_error, other, message}
use winegrid_internship.Azure.Events.{on_desired_patch, on_twin_response, hub_mqtt_event_handler}

-- The publish interval is at least a second, and the sensor is within its ramp.
pub record IsValid {S : Type 0} (h : Hub S) : Type 0 where
  pub interval : min_publish_interval_ms ≤ h.publish_interval_ms
  pub ramp : InRamp h.fake_temperature

-- The OTA task that was created with this argument is still running.
pub record IsRunning {S : Type 0} (arg : Option Bytes) (h : Hub S) : Type 0 where
  pub in_progress : h.ota_in_progress ≡ true
  pub argument : h.ota_arg ≡ arg

module _ (nvs : Nvs) (json : CJson) (current : Bytes) where
  open nvs use {Store}

  -- A property that no report, publication, subscription or flag touches.
  trigger_ota-IsValid :
      (url version : Bytes) (h : Hub Store) → IsValid h → IsValid (trigger_ota nvs url version h)
  unfolding trigger_ota report_fw_state
  trigger_ota-IsValid url version h v = ground arith

  trigger_ota-IsRunning :
      (url version : Bytes) (arg : Option Bytes) (h : Hub Store)
      → IsRunning arg h
      → IsRunning arg (trigger_ota nvs url version h)
  unfolding trigger_ota
  trigger_ota-IsRunning url version arg h v = ground arith

  apply_firmware-IsValid :
      (version url : Option Bytes) (h : Hub Store)
      → IsValid h
      → IsValid (apply_firmware nvs json current version url h)
  unfolding apply_firmware
  apply_firmware-IsValid none url h v = v
  apply_firmware-IsValid (some version) none h v = v
  apply_firmware-IsValid (some version) (some url) h v =
      ground (arith, trigger_ota-IsValid url version h v)

  apply_interval-IsValid :
      (platform : Platform) (n : Option ℤ) (h : Hub Store)
      → IsValid h
      → IsValid (apply_interval nvs json current platform n h)
  unfolding apply_interval report_twin_properties
  apply_interval-IsValid platform none h v = v
  apply_interval-IsValid platform (some (negsuc n)) h v = v
  apply_interval-IsValid platform (some (pos n)) h v = ground arith

  apply_firmware-IsRunning :
      (version url arg : Option Bytes) (h : Hub Store)
      → IsRunning arg h
      → IsRunning arg (apply_firmware nvs json current version url h)
  unfolding apply_firmware
  apply_firmware-IsRunning none url arg h v = v
  apply_firmware-IsRunning (some version) none arg h v = v
  apply_firmware-IsRunning (some version) (some url) arg h v =
      ground (arith, trigger_ota-IsRunning url version arg h v)

  apply_interval-IsRunning :
      (platform : Platform) (n : Option ℤ) (arg : Option Bytes) (h : Hub Store)
      → IsRunning arg h
      → IsRunning arg (apply_interval nvs json current platform n h)
  unfolding apply_interval report_twin_properties
  apply_interval-IsRunning platform none arg h v = v
  apply_interval-IsRunning platform (some (negsuc n)) arg h v = v
  apply_interval-IsRunning platform (some (pos n)) arg h v = ground arith

  desired-IsValid :
      (platform : Platform) (d : Option json.Value) (h : Hub Store)
      → IsValid h
      → IsValid (on_desired_patch nvs json current platform d h)
  unfolding on_desired_patch apply_desired_properties
  desired-IsValid platform none h v = v
  desired-IsValid platform (some d) h v =
      apply_interval-IsValid platform
        (number_item nvs json current (json.get_object_item d (codes "publishInterval"))) _
        (apply_firmware-IsValid
          (string_item nvs json current (json.get_object_item d (codes "fw_version")))
          (string_item nvs json current (json.get_object_item d (codes "fw_url"))) h v)

  desired-IsRunning :
      (platform : Platform) (d : Option json.Value) (arg : Option Bytes) (h : Hub Store)
      → IsRunning arg h
      → IsRunning arg (on_desired_patch nvs json current platform d h)
  unfolding on_desired_patch apply_desired_properties
  desired-IsRunning platform none arg h v = v
  desired-IsRunning platform (some d) arg h v =
      apply_interval-IsRunning platform
        (number_item nvs json current (json.get_object_item d (codes "publishInterval"))) arg _
        (apply_firmware-IsRunning
          (string_item nvs json current (json.get_object_item d (codes "fw_version")))
          (string_item nvs json current (json.get_object_item d (codes "fw_url"))) arg h v)

  response-IsValid :
      (platform : Platform) (root : Option json.Value) (h : Hub Store)
      → IsValid h
      → IsValid (on_twin_response nvs json current platform root h)
  unfolding on_twin_response
  response-IsValid platform none h v = v
  response-IsValid platform (some root) h v = desired-IsValid platform _ h v

  response-IsRunning :
      (platform : Platform) (root : Option json.Value) (arg : Option Bytes) (h : Hub Store)
      → IsRunning arg h
      → IsRunning arg (on_twin_response nvs json current platform root h)
  unfolding on_twin_response
  response-IsRunning platform none arg h v = v
  response-IsRunning platform (some root) arg h v = desired-IsRunning platform _ arg h v

  method-IsValid :
      (platform : Platform) (topic : Bytes) (h : Hub Store)
      → IsValid h
      → IsValid (handle_direct_method_request platform topic h)
  unfolding handle_direct_method_request call_method
  method-IsValid platform topic h v = ground arith

  method-IsRunning :
      (platform : Platform) (topic : Bytes) (arg : Option Bytes) (h : Hub Store)
      → IsRunning arg h
      → IsRunning arg (handle_direct_method_request platform topic h)
  unfolding handle_direct_method_request call_method
  method-IsRunning platform topic arg h v = ground arith

  event-IsValid :
      (platform : Platform) (e : Event) (h : Hub Store)
      → IsValid h
      → IsValid (hub_mqtt_event_handler nvs json current platform e h)
  unfolding hub_mqtt_event_handler report_twin_properties
  event-IsValid platform connected h v = ground arith
  event-IsValid platform disconnected h v = ground arith
  event-IsValid platform (message topic payload) h v = ground (
    arith,
    method-IsValid platform topic h v,
    desired-IsValid platform (json.parse payload) h v,
    response-IsValid platform (json.parse payload) h v,
  )
  event-IsValid platform transport_error h v = v
  event-IsValid platform other h v = v

  event-IsRunning :
      (platform : Platform) (e : Event) (arg : Option Bytes) (h : Hub Store)
      → IsRunning arg h
      → IsRunning arg (hub_mqtt_event_handler nvs json current platform e h)
  unfolding hub_mqtt_event_handler report_twin_properties
  event-IsRunning platform connected arg h v = ground arith
  event-IsRunning platform disconnected arg h v = ground arith
  event-IsRunning platform (message topic payload) arg h v = ground (
    arith,
    method-IsRunning platform topic arg h v,
    desired-IsRunning platform (json.parse payload) arg h v,
    response-IsRunning platform (json.parse payload) arg h v,
  )
  event-IsRunning platform transport_error arg h v = v
  event-IsRunning platform other arg h v = v

  round-IsValid :
      (waited_ms : ℕ) (h : Hub Store) → IsValid h → IsValid (telemetry_round waited_ms h).1
  unfolding telemetry_round
  round-IsValid waited_ms h v = ground (arith, next_temperature-InRamp h.fake_temperature)

  round-IsRunning :
      (waited_ms : ℕ) (arg : Option Bytes) (h : Hub Store)
      → IsRunning arg h
      → IsRunning arg (telemetry_round waited_ms h).1
  unfolding telemetry_round
  round-IsRunning waited_ms arg h v = ground arith

  -- What can happen to the hub while no task ends: an MQTT event, or a round of the telemetry task.
  pub data Step (h : Hub Store) : Hub Store → Type 0 where
    event :
        (platform : Platform) (e : Event)
        → Step h (hub_mqtt_event_handler nvs json current platform e h)
    round : (waited_ms : ℕ) → Step h (telemetry_round waited_ms h).1

  pub data Reach (h : Hub Store) : Hub Store → Type 0 where
    here : Reach h h
    next : {t u : Hub Store} → Reach h t → Step t u → Reach h u

  Step-IsValid : {h t : Hub Store} → Step h t → IsValid h → IsValid t
  Step-IsValid {h} (event platform e) v = event-IsValid platform e h v
  Step-IsValid {h} (round waited_ms) v = round-IsValid waited_ms h v

  Step-IsRunning :
      {h t : Hub Store} (arg : Option Bytes) → Step h t → IsRunning arg h → IsRunning arg t
  Step-IsRunning {h} arg (event platform e) v = event-IsRunning platform e arg h v
  Step-IsRunning {h} arg (round waited_ms) v = round-IsRunning waited_ms arg h v

  -- Whatever messages arrive and however they interleave with the rounds of the telemetry task,
  -- the publish interval never falls below a second and the sensor stays within its ramp.
  pub Reach-IsValid : {h t : Hub Store} → IsValid h → Reach h t → IsValid t
  Reach-IsValid v here = v
  Reach-IsValid v (next r s) = Step-IsValid s (Reach-IsValid v r)

  -- While an OTA task runs, no sequence of messages and rounds starts another or changes its
  -- argument: at most one update is in progress.
  pub Reach-IsRunning :
      {h t : Hub Store} (arg : Option Bytes) → IsRunning arg h → Reach h t → IsRunning arg t
  Reach-IsRunning arg v here = v
  Reach-IsRunning arg v (next r s) = Step-IsRunning arg s (Reach-IsRunning arg v r)

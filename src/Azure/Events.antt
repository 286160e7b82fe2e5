-- ===== src/Azure/Events.antt =====
-- `hub_mqtt_event_handler` of esp-idf-azure-dps/main/app_main.c.
pub mod Invariant
use winegrid_internship.Mqtt.{Event, connected, disconnected, transport_error, other, message}
use winegrid_internship.Base.{
  ℕ, suc, Bool, true, false, if◌then◌else◌, [], ◌∷◌, ◌++◌, Option, none, some, Bytes, codes, dec,
  snprintf, starts_with,
}
use winegrid_internship.Nvs.{Nvs}
use winegrid_internship.Json.{CJson}
use winegrid_internship.Azure.{Hub, Platform, publish, subscribe, report_twin_properties}
use winegrid_internship.Azure.DirectMethod.{direct_method_prefix, handle_direct_method_request}
use winegrid_internship.Azure.Twin.{apply_desired_properties}

abbrev pub twin_res_prefix : Bytes
twin_res_prefix = codes "$iothub/twin/res/"

abbrev pub twin_desired_prefix : Bytes
twin_desired_prefix = codes "$iothub/twin/PATCH/properties/desired/"

abbrev pub twin_get_prefix : Bytes
twin_get_prefix = codes "$iothub/twin/GET/?$rid="

module _ (nvs : Nvs) (json : CJson) (current : Bytes) where
  open nvs use {Store}
  open json use {Value, parse, get_object_item}

  unfoldable pub on_connected : Platform → Hub Store → Hub Store
  unfolding subscribe publish
  on_connected platform h =
      let subscribed = subscribe (snprintf 200 (h.c2d_topic_prefix ++ codes "#")) (
        subscribe (twin_desired_prefix ++ codes "#") (
          subscribe (twin_res_prefix ++ codes "#")
            (subscribe (direct_method_prefix ++ codes "#") (record h { hub_connected = true })))) in
      report_twin_properties current platform (
        publish (snprintf 48 (twin_get_prefix ++ dec (suc h.twin_request_id))) []
          (record subscribed { twin_request_id = suc h.twin_request_id }))

  -- A pushed patch: the desired properties are at the root.
  unfoldable pub on_desired_patch : Platform → Option Value → Hub Store → Hub Store
  on_desired_patch platform none h = h
  on_desired_patch platform (some root) h =
      apply_desired_properties nvs json current platform root h

  -- The answer to the twin request: they are under `desired`.
  unfoldable pub on_twin_response : Platform → Option Value → Hub Store → Hub Store
  unfolding on_desired_patch
  on_twin_response platform none h = h
  on_twin_response platform (some root) h =
      on_desired_patch platform (get_object_item root (codes "desired")) h

  unfoldable pub on_message : Platform → Bytes → Bytes → Hub Store → Hub Store
  unfolding on_desired_patch on_twin_response
  on_message platform topic payload h =
      if starts_with direct_method_prefix topic
      then handle_direct_method_request platform topic h
      else if starts_with twin_desired_prefix topic
      then on_desired_patch platform (parse payload) h
      else if starts_with twin_res_prefix topic
      then on_twin_response platform (parse payload) h
      else if starts_with h.c2d_topic_prefix topic
      then record h { c2d_force_telemetry = true }
      else h

  -- `hub_mqtt_event_handler`.
  unfoldable pub hub_mqtt_event_handler : Platform → Event → Hub Store → Hub Store
  unfolding on_connected on_message
  hub_mqtt_event_handler platform connected h = on_connected platform h
  hub_mqtt_event_handler platform disconnected h = record h { hub_connected = false }
  hub_mqtt_event_handler platform (message topic payload) h = on_message platform topic payload h
  hub_mqtt_event_handler platform transport_error h = h
  hub_mqtt_event_handler platform other h = h

-- ===== src/ThingsBoard/Events.antt =====
-- `mqtt_event_handler` of esp-idf-thingsboard/main/app_main.c.
pub mod Safety
pub mod Refinement
use winegrid_internship.Base.{
  ℕ, Bool, true, false, if◌then◌else◌, ◌++◌, Option, none, some, Bytes, codes, snprintf,
  starts_with,
}
use winegrid_internship.Nvs.{Nvs}
use winegrid_internship.Json.{CJson}
use winegrid_internship.Mqtt.{Event, connected, disconnected, transport_error, other, message}
use winegrid_internship.ThingsBoard.{
  Sha256, Client, publish, subscribe, telemetry_topic, send_telemetry_json,
}
use winegrid_internship.ThingsBoard.Firmware.{Answers, handle_fw_chunk_data}
use winegrid_internship.ThingsBoard.Attributes.{handle_attributes_payload}
use winegrid_internship.ThingsBoard.Rpc.{rpc_request_prefix, handle_rpc_request}

module _ (nvs : Nvs) (sha : Sha256) (json : CJson) (current : Bytes) where
  open nvs use {Store}
  open sha use {Context}

  unfoldable pub on_connected : Client Store Context → Client Store Context
  unfolding publish subscribe send_telemetry_json
  on_connected h =
      send_telemetry_json
        (snprintf 128 (
          codes "{\"current_fw_title\":\""
          ++ (codes "esp32-winegrid"
              ++ (codes "\",\"current_fw_version\":\"" ++ (current ++ codes "\"}")))))
        (publish (codes "v1/devices/me/attributes/request/1")
          (codes
            "{\"sharedKeys\":\"publishInterval,fw_title,fw_version,fw_size,fw_checksum,fw_checksum_algorithm\"}")
          (subscribe (codes "v1/devices/me/rpc/request/+") (
            subscribe (codes "v2/fw/response/+/chunk/+") (
              subscribe (codes "v1/devices/me/attributes/response/+") (
                subscribe (codes "v1/devices/me/attributes") (
                  publish telemetry_topic (codes "{\"active\":true}")
                    (record h { mqtt_connected = true })))))))

  -- `mqtt_event_handler`; the number is the free heap, and `none` stands for an abort.
  unfoldable pub mqtt_event_handler :
      Answers → ℕ → Event → Client Store Context → Option (Client Store Context)
  unfolding on_connected
  mqtt_event_handler a free_heap connected h = some (on_connected h)
  mqtt_event_handler a free_heap disconnected h = some (record h { mqtt_connected = false })
  mqtt_event_handler a free_heap (message topic payload) h =
      if starts_with (codes "v2/fw/") topic
      then some (handle_fw_chunk_data nvs sha a payload h)
      else if starts_with rpc_request_prefix topic
      then some (handle_rpc_request json free_heap topic payload h)
      else handle_attributes_payload nvs sha json current a payload h
  mqtt_event_handler a free_heap transport_error h = some h
  mqtt_event_handler a free_heap other h = some h

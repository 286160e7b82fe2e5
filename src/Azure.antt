-- ===== src/Azure.antt =====
-- The Azure IoT Hub client, esp-idf-azure-dps/main/app_main.c: its state, and the reports to the
-- device twin.
pub mod UrlEncode
pub mod SasToken
pub mod Dps
pub mod Connect
pub mod DirectMethod
pub mod Ota
pub mod Twin
pub mod Telemetry
pub mod Events
pub mod Boot
pub mod Start
mod Examples
mod Tests
mod ClientTests
mod RegistrationTests
mod StartTests
use winegrid_internship.Mqtt.{Message}
use winegrid_internship.Base.{
  ℕ, zero, suc, ◌+◌, Bool, true, false, List, [], ◌∷◌, ◌++◌, Option, none, some, Bytes, codes, dec,
  dec_int, ℤ, pos, snprintf,
}

-- The file's static variables, with what the client has done to the world: the messages that it
-- published, its subscriptions, the argument of an OTA task that it created, the image that it made
-- bootable, and whether it called `esp_restart`. `S` is the NVS flash.
pub record Hub (S : Type 0) : Type 0 where
  pub store : S
  pub hub_connected : Bool
  pub c2d_topic_prefix : Bytes
  pub telemetry_topic : Bytes
  pub c2d_force_telemetry : Bool
  pub fake_temperature : ℕ
  pub publish_interval_ms : ℕ
  pub twin_request_id : ℕ
  pub ota_in_progress : Bool
  pub ota_arg : Option Bytes
  pub outbox : List Message
  pub subscriptions : List Bytes
  pub boot_image : Option Bytes
  pub restarting : Bool

-- What the platform answers when the client asks: `esp_wifi_sta_get_ap_info` (`none` where it
-- fails) and `esp_get_free_heap_size`.
pub record Platform : Type 0 where
  pub rssi : Option ℤ
  pub free_heap : ℕ

abbrev pub current_fw_title : Bytes
current_fw_title = codes "azure-dps-example"

abbrev pub twin_reported_prefix : Bytes
twin_reported_prefix = codes "$iothub/twin/PATCH/properties/reported/?$rid="

-- The payload of `report_fw_state`.
abbrev pub fw_state_payload : Bytes → Bytes
fw_state_payload state = snprintf 64 (codes "{\"fw_state\":\"" ++ (state ++ codes "\"}"))

module _ {S : Type 0} where
  unfoldable pub publish : Bytes → Bytes → Hub S → Hub S
  publish topic payload h = record h {
    outbox = h.outbox ++ (record { topic = topic; payload = payload } ∷ []);
  }

  unfoldable pub subscribe : Bytes → Hub S → Hub S
  subscribe topic h = record h { subscriptions = h.subscriptions ++ topic ∷ [] }

  -- `report_fw_state`.
  unfoldable pub report_fw_state : Bytes → Hub S → Hub S
  unfolding publish
  report_fw_state state h =
      publish (snprintf 64 (twin_reported_prefix ++ dec (suc h.twin_request_id)))
        (fw_state_payload state) (record h { twin_request_id = suc h.twin_request_id })

  -- `report_twin_properties`; `current` is CURRENT_FW_VERSION.
  unfoldable pub report_twin_properties : Bytes → Platform → Hub S → Hub S
  unfolding publish
  report_twin_properties current platform h =
      publish (snprintf 64 (twin_reported_prefix ++ dec (suc h.twin_request_id)))
        (snprintf 224 (
          codes "{\"current_fw_title\":\""
          ++ (current_fw_title
              ++ (codes "\",\"current_fw_version\":\""
                  ++ (current
                      ++ (codes "\",\"publishInterval\":"
                          ++ (dec h.publish_interval_ms
                              ++ (codes ",\"wifiRssi\":"
                                  ++ (dec_int (signal platform.rssi)
                                      ++ (codes ",\"freeHeap\":"
                                          ++ (dec platform.free_heap ++ codes "}")))))))))))
        (record h { twin_request_id = suc h.twin_request_id })
    where
      signal : Option ℤ → ℤ
      signal none = pos 0
      signal (some rssi) = rssi

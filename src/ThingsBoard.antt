-- ===== src/ThingsBoard.antt =====
-- The ThingsBoard client of ESP-IDF, esp-idf-thingsboard/main/app_main.c: its state and telemetry.
pub mod Firmware
pub mod Attributes
pub mod Rpc
pub mod Events
pub mod Boot
pub mod Provisioning
pub mod Telemetry
pub mod Start
mod Tests
mod StartTests
use winegrid_internship.Base.{
  ℕ, ◌+◌, ◌<◌, ◌≡◌, Bool, List, [], ◌∷◌, ◌++◌, Option, Bytes, AreBytes, codes, ℤ, length, snprintf,
}
use winegrid_internship.Mqtt.{Message}

-- SHA-256 of mbedTLS: a context, what was fed to it, and its digest of 32 bytes, which is that of
-- everything that was fed.
pub record Sha256 : Type 1 where
  pub Context : Type 0
  pub starts : Context
  pub update : Context → Bytes → Context
  pub finish : Context → Bytes
  pub sha256 : Bytes → Bytes
  pub fed : Context → Bytes
  pub fed-starts : fed starts ≡ []
  pub fed-update : (c : Context) (chunk : Bytes) → fed (update c chunk) ≡ fed c ++ chunk
  pub finish_lem : (c : Context) → finish c ≡ sha256 (fed c)

-- The file's static variables, with what the client has done to the world: the messages that it
-- published, its subscriptions, what it wrote to the partition of the update, the image that it
-- made bootable, and whether it called `esp_restart`. `S` is the NVS flash and `C` the SHA context.
pub record Client (S C : Type 0) : Type 0 where
  pub store : S
  pub mqtt_connected : Bool
  pub publish_interval_ms : ℕ
  pub fake_temperature : ℕ
  pub fw_title : Bytes
  pub fw_version : Bytes
  pub fw_checksum : Bytes
  pub fw_checksum_algorithm : Bytes
  pub fw_size : ℤ
  pub fw_info_known : Bool
  pub fw_update_in_progress : Bool
  pub fw_request_id : ℕ
  pub fw_chunk_index : ℕ
  pub fw_received : ℕ
  pub update_partition : Bytes
  pub sha_ctx : C
  pub outbox : List Message
  pub subscriptions : List Bytes
  pub boot_image : Option Bytes
  pub restarting : Bool

abbrev pub telemetry_topic : Bytes
telemetry_topic = codes "v1/devices/me/telemetry"

module _ {S C : Type 0} where
  unfoldable pub publish : Bytes → Bytes → Client S C → Client S C
  publish topic payload h = record h {
    outbox = h.outbox ++ (record { topic = topic; payload = payload } ∷ []);
  }

  unfoldable pub subscribe : Bytes → Client S C → Client S C
  subscribe topic h = record h { subscriptions = h.subscriptions ++ topic ∷ [] }

  -- `send_telemetry_json`.
  unfoldable pub send_telemetry_json : Bytes → Client S C → Client S C
  unfolding publish
  send_telemetry_json json h = publish telemetry_topic json h

  -- `report_fw_state`.
  unfoldable pub report_fw_state : Bytes → Client S C → Client S C
  unfolding send_telemetry_json
  report_fw_state state h =
      send_telemetry_json (snprintf 64 (codes "{\"fw_state\":\"" ++ (state ++ codes "\"}"))) h

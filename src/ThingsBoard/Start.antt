-- ===== src/ThingsBoard/Start.antt =====
-- `mqtt_app_start` and `app_main` of esp-idf-thingsboard/main/app_main.c.
pub mod Again
pub mod Survives
use winegrid_internship.Base.{
  ℕ, ◌+◌, Bool, true, false, ◌&&◌, not, if◌then◌else◌, List, [], Option, none, some, Bytes, codes,
}
use winegrid_internship.Nvs.{Nvs}
use winegrid_internship.Json.{CJson}
use winegrid_internship.EspIdf.{ImgState, Checked, network_up, marks_valid}
use winegrid_internship.Mqtt.{Event}
use winegrid_internship.ThingsBoard.{telemetry_topic}
use winegrid_internship.ThingsBoard.Firmware.{fw_chunk_size}
use winegrid_internship.ThingsBoard.Boot.{reconcile_pending_ota, load_stored_token, save_token}
use winegrid_internship.ThingsBoard.Provisioning.{Identity, Provisioning, run_provisioning}

-- `esp_mqtt_client_config_t`, as far as it is filled; a keepalive of 0 is the library's default.
pub record MqttAppConfig : Type 0 where
  pub uri : Bytes
  pub username : Bytes
  pub keepalive : ℕ
  pub last_will_topic : Bytes
  pub last_will_msg : Bytes
  pub last_will_qos : ℕ
  pub buffer_size : ℕ

-- What the libraries answer during a start, and the turns of the provisioning.
pub record StartAnswers : Type 0 where
  pub checked : Checked
  pub state_partition : Option ImgState
  pub provisioning_turns : List (List Event)

-- How a start ends: an `ESP_ERROR_CHECK` aborts it, the given turns end during provisioning, it
-- returns since provisioning failed, or it has started the MQTT client and the telemetry task. With
-- it, what the flash then holds, and whether the image was marked valid.
pub data Started (S : Type 0) : Type 0 where
  aborts : S → Bool → Started S
  provisioning : S → Bool → Started S
  unprovisioned : S → Bool → Started S
  serves : S → Bool → MqttAppConfig → Started S

-- `mqtt_app_start`, with CONFIG_BROKER_URL.
unfoldable pub mqtt_app_start : Bytes → Bytes → MqttAppConfig
mqtt_app_start broker_url access_token = record {
  uri = broker_url;
  username = access_token;
  keepalive = 15;
  last_will_topic = telemetry_topic;
  last_will_msg = codes "{\"active\":false}";
  last_will_qos = 1;
  buffer_size = fw_chunk_size + 1024;
}

-- The static variables of the provisioning, before it.
abbrev pub unprovisioned_state : Provisioning
unprovisioned_state = record { done = false; token = []; outbox = []; subscriptions = [] }

module _ (nvs : Nvs) (json : CJson) (identity : Identity) (broker_url current : Bytes) where
  open nvs use {Store}

  -- What follows once `run_provisioning` has returned.
  unfoldable pub save_and_start : Store → Bool → Option (Option Bytes) → Started Store
  unfolding mqtt_app_start
  save_and_start s marked none = provisioning s marked
  save_and_start s marked (some none) = unprovisioned s marked
  save_and_start s marked (some (some access_token)) =
      elim (save_token nvs current s access_token) [
        | none ↦ aborts s marked
        | some t ↦ serves t marked (mqtt_app_start broker_url access_token)
      ]

  -- From `load_stored_token` on.
  unfoldable pub find_token : StartAnswers → Bool → Store → Started Store
  unfolding save_and_start
  find_token a marked s = elim (load_stored_token nvs current s 64) [
    | some access_token ↦ serves s marked (mqtt_app_start broker_url access_token)
    | none ↦
        save_and_start s marked
          (run_provisioning json identity 64 a.provisioning_turns unprovisioned_state)
  ]

  -- `app_main`.
  unfoldable pub app_main : StartAnswers → Store → Started Store
  unfolding find_token network_up marks_valid
  app_main a s =
      if not a.checked.nvs_flash_init
      then aborts s false
      else elim (reconcile_pending_ota nvs current s) [
        | none ↦ aborts s false
        | some t ↦
            if not (network_up a.checked)
            then aborts t false
            else find_token a (marks_valid a.state_partition) t
      ]

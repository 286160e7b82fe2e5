-- ===== src/Azure/Start.antt =====
-- `app_main` of esp-idf-azure-dps/main/app_main.c, with the client that it registers with.
pub mod Reconnect
pub mod Survives
use winegrid_internship.Base.{
  ℕ, Bool, true, false, ◌&&◌, not, if◌then◌else◌, List, [], ◌++◌, Option, none, some, Bytes, codes,
  snprintf, take,
}
use winegrid_internship.Nvs.{Nvs, assigned_hub, device_id, load_nvs_str, save_nvs_str}
use winegrid_internship.Json.{CJson}
use winegrid_internship.EspIdf.{ImgState, Checked, network_up, marks_valid}
use winegrid_internship.Mqtt.{Event}
use winegrid_internship.Azure.{Hub}
use winegrid_internship.Azure.SasToken.{Crypto, build_sas_token}
use winegrid_internship.Azure.Dps.{Dps, run_dps_registration}
use winegrid_internship.Azure.Connect.{MqttConfig, init_effective_symmetric_key, connect_to_hub}
use winegrid_internship.Azure.Boot.{reconcile_pending_ota}

-- The CONFIG_AZURE_DPS_ constants.
pub record DpsSettings : Type 0 where
  pub use_group_enrollment : Bool
  pub symmetric_key : Bytes
  pub registration_id : Bytes
  pub id_scope : Bytes

-- What the libraries answer during a start, with `time(NULL)` when each of the
-- two tokens is built, and the rounds of the registration.
pub record StartAnswers : Type 0 where
  pub checked : Checked
  pub state_partition : Option ImgState
  pub registration_time : ℕ
  pub registration_rounds : List (List Event × List Event)
  pub connection_time : ℕ

-- How a start ends: an `ESP_ERROR_CHECK` aborts it, the given rounds end during the registration,
-- it returns since the registration failed, or it has called `connect_to_hub` with a hub and a
-- device, with what that gave. With it, whether the image was marked valid.
pub data Started (S : Type 0) : Type 0 where
  aborts : Hub S → Bool → Started S
  registering : Hub S → Bool → Started S
  unregistered : Hub S → Bool → Started S
  connects : Bool → Bytes → Bytes → Option MqttConfig × Hub S → Started S

-- The settings of the client of `run_dps_registration`.
unfoldable pub dps_client_config : DpsSettings → Bytes → MqttConfig
dps_client_config c sas_token = record {
  uri = codes "mqtts://global.azure-devices-provisioning.net:8883";
  username = snprintf 192 (
      c.id_scope
      ++ (codes "/registrations/" ++ (c.registration_id ++ codes "/api-version=2019-03-31")));
  client_id = c.registration_id;
  password = sas_token;
}

-- The static variables of the registration, before it.
abbrev pub unregistered_state : Dps
unregistered_state = record {
  done = false;
  success = false;
  request_id = 0;
  operation_id = [];
  assigned_hub = [];
  device_id = [];
  poll_pending = false;
  outbox = [];
  subscriptions = [];
}

abbrev pub both {ℓ κ} : {A : Type ℓ} {B : Type κ} → Option A → Option B → Option (A × B)
both none b = none
both (some a) none = none
both (some a) (some b) = some (a, b)

-- The hub and the device that the flash holds.
unfoldable pub load_assignment : (nvs : Nvs) → nvs.Store → Option (Bytes × Bytes)
load_assignment nvs s =
    both (load_nvs_str nvs s assigned_hub 128) (load_nvs_str nvs s device_id 128)

module _ (crypto : Crypto) (nvs : Nvs) (json : CJson) (c : DpsSettings) (current : Bytes) where
  open nvs use {Store}

  -- `s_effective_symmetric_key`.
  unfoldable pub effective_key : Bytes
  unfolding init_effective_symmetric_key
  effective_key =
      init_effective_symmetric_key crypto c.use_group_enrollment c.symmetric_key c.registration_id

  -- The token with which the device registers.
  unfoldable pub dps_sas_token : ℕ → Option Bytes
  unfolding effective_key build_sas_token
  dps_sas_token now =
      build_sas_token crypto effective_key now
        (snprintf 128 (c.id_scope ++ (codes "/registrations/" ++ c.registration_id)))
        (some (codes "registration")) 256

  -- What follows once `run_dps_registration` has returned.
  unfoldable pub save_and_connect :
      StartAnswers → Bool → Hub Store → Option (Bool × Dps) → Started Store
  unfolding effective_key
  save_and_connect a marked h none = registering h marked
  save_and_connect a marked h (some (false, d)) = unregistered h marked
  save_and_connect a marked h (some (true, d)) =
      let hub = take 127 d.assigned_hub in
      let dev = take 127 d.device_id in
      elim (save_nvs_str nvs h.store assigned_hub hub) [
        | none ↦ aborts h marked
        | some t ↦ elim (save_nvs_str nvs t device_id dev) [
          | none ↦ aborts (record h { store = t }) marked
          | some u ↦ connects marked hub dev (
              connect_to_hub crypto effective_key a.connection_time hub dev
                (record h { store = u }))
        ]
      ]

  -- `app_main` from the hub assignment on.
  unfoldable pub find_hub : StartAnswers → Bool → Hub Store → Started Store
  unfolding load_assignment save_and_connect dps_sas_token
  find_hub a marked h = elim (load_assignment nvs h.store) [
    | some (hub, dev) ↦
        connects marked hub dev (connect_to_hub crypto effective_key a.connection_time hub dev h)
    | none ↦ save_and_connect a marked h (
        run_dps_registration json c.registration_id (dps_sas_token a.registration_time)
          a.registration_rounds unregistered_state)
  ]

  -- `app_main`.
  unfoldable pub app_main : StartAnswers → Hub Store → Started Store
  unfolding find_hub network_up marks_valid
  app_main a h =
      if not a.checked.nvs_flash_init
      then aborts h false
      else elim (reconcile_pending_ota nvs current h.store) [
        | none ↦ aborts h false
        | some t ↦
            let reconciled = record h { store = t } in
            if not (network_up a.checked)
            then aborts reconciled false
            else find_hub a (marks_valid a.state_partition) reconciled
      ]

-- ===== src/Azure/Connect.antt =====
-- The key and the connection of esp-idf-azure-dps/main/app_main.c: `derive_group_device_key`,
-- `init_effective_symmetric_key` and `connect_to_hub`.
pub mod Topics
use winegrid_internship.Base.{
  ℕ, Bool, true, false, if◌then◌else◌, [], ◌++◌, Option, none, some, Bytes, codes, snprintf, take,
}
use winegrid_internship.Azure.{Hub}
use winegrid_internship.Azure.SasToken.{Crypto, build_sas_token}

-- `esp_mqtt_client_config_t`, as far as it is filled.
pub record MqttConfig : Type 0 where
  pub uri : Bytes
  pub username : Bytes
  pub client_id : Bytes
  pub password : Bytes

module _ (crypto : Crypto) where
  -- A key that is no base64 leaves `group_key_len` as it is, 0.
  unfoldable pub group_key : Option Bytes → Bytes
  group_key none = []
  group_key (some key) = key

  -- `derive_group_device_key`.
  unfoldable pub derive_group_device_key : Bytes → Bytes → Bytes
  unfolding group_key
  derive_group_device_key group_key_b64 registration_id =
      crypto.base64_encode
        (crypto.hmac_sha256 (group_key (crypto.base64_decode group_key_b64 64)) registration_id)

  -- `init_effective_symmetric_key`; the first argument is CONFIG_AZURE_DPS_USE_GROUP_ENROLLMENT.
  unfoldable pub init_effective_symmetric_key : Bool → Bytes → Bytes → Bytes
  unfolding derive_group_device_key
  init_effective_symmetric_key use_group_enrollment symmetric_key registration_id =
      if use_group_enrollment
      then derive_group_device_key symmetric_key registration_id
      else take 127 symmetric_key

  -- `connect_to_hub`: the client that it starts, `none` where there is no token, and the state.
  unfoldable pub connect_to_hub :
      {S : Type 0} → Bytes → ℕ → Bytes → Bytes → Hub S → Option MqttConfig × Hub S
  unfolding build_sas_token
  connect_to_hub symmetric_key now hub_hostname device_id h =
      elim (build_sas_token crypto symmetric_key now
        (snprintf 160 (hub_hostname ++ (codes "/devices/" ++ device_id))) none 256) [
          | none ↦ (none, h)
          | some sas_token ↦ (
            some (record {
              uri = snprintf 192 (codes "mqtts://" ++ (hub_hostname ++ codes ":8883"));
              username =
                  snprintf 192 (
                    hub_hostname ++ (codes "/" ++ (device_id ++ codes "/?api-version=2021-04-12")));
              client_id = device_id;
              password = sas_token;
            }),
            record h {
              telemetry_topic = snprintf 192 (
                  codes "devices/"
                  ++ (device_id ++ codes "/messages/events/$.ct=application%2Fjson&$.ce=utf-8"));
              c2d_topic_prefix =
                  snprintf 192 (codes "devices/" ++ (device_id ++ codes "/messages/devicebound/"));
            },
          )
        ]

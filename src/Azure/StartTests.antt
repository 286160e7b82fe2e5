-- ===== src/Azure/StartTests.antt =====
-- Witnesses of the starts of the Azure client.
use winegrid_internship.Base.{◌≡◌, refl, true, false, Option, some, [], ◌∷◌, Bytes, codes, str_eq}
use winegrid_internship.Json.Memory.{Document, null, text, member, find_member, document_json}
use winegrid_internship.Nvs.{assigned_hub, device_id, load_nvs_str, save_nvs_str}
use winegrid_internship.Nvs.Memory.{Map, put, map_nvs, empty_map}
use winegrid_internship.EspIdf.{esp_ota_img_pending_verify, network_up, marks_valid}
use winegrid_internship.Mqtt.{message, disconnected}
use winegrid_internship.Azure.Examples.{good_signal, hub_with, weak_crypto}
use winegrid_internship.Azure.Dps.{run_dps_registration}
use winegrid_internship.Azure.Connect.{connect_to_hub}
use winegrid_internship.Azure.Boot.{reconcile_pending_ota}
use winegrid_internship.Azure.Start.{
  DpsSettings, StartAnswers, connects, effective_key, find_hub, app_main,
}
use winegrid_internship.Azure.Start.Survives.{born, next, restart_connects}
use winegrid_internship.Azure.Events.{hub_mqtt_event_handler}
use winegrid_internship.Azure.Events.Invariant.{event}
use winegrid_internship.Azure.{Hub}

abbrev settings : DpsSettings
settings = record {
  use_group_enrollment = false;
  symmetric_key = codes "a2V5";
  registration_id = codes "vine-7";
  id_scope = codes "0ne1";
}

abbrev assigned : Bytes → Option Document
assigned payload = some (
    member (codes "status") (text (codes "assigned")) (
      member (codes "registrationState")
        (member (codes "assignedHub") (text (codes "hub.net"))
          (member (codes "deviceId") (text (codes "vine-7")) null))
        null))

-- A start in which a registration that is answered at once ends well.
abbrev first_start : StartAnswers
first_start = record {
  checked = record {
    nvs_flash_init = true;
    esp_netif_init = true;
    event_loop_create = true;
    example_connect = true;
  };
  state_partition = some esp_ota_img_pending_verify;
  registration_time = 1000;
  registration_rounds =
      ([], message (codes "$dps/registrations/res/200/?$rid=1") [] ∷ []) ∷ ([], []) ∷ [];
  connection_time = 1002;
}

-- A later one, in which no round of a registration is given.
abbrev later_start : StartAnswers
later_start = record first_start { registration_rounds = []; connection_time = 90000 }

abbrev assigned_map : Map
assigned_map =
    put (put empty_map assigned_hub (some (codes "hub.net"))) device_id (some (codes "vine-7"))

registers :
    app_main weak_crypto map_nvs
      (document_json assigned)
      settings
      (codes "1.0")
      first_start
      (hub_with empty_map)
    ≡ connects true (codes "hub.net") (codes "vine-7") (
        connect_to_hub weak_crypto
          (codes "a2V5")
          1002
          (codes "hub.net")
          (codes "vine-7")
          (hub_with assigned_map))
unfolding app_main find_hub reconcile_pending_ota load_nvs_str save_nvs_str run_dps_registration
    find_member str_eq
registers = refl

-- The hub that the first start has connected.
abbrev connected_hub : Hub Map
connected_hub =
    (connect_to_hub weak_crypto (codes "a2V5") 1002 (codes "hub.net") (codes "vine-7")
      (hub_with assigned_map)).1

restart_connects_example :
    app_main weak_crypto map_nvs
      (document_json assigned)
      settings
      (codes "1.1")
      later_start
      (record connected_hub { hub_connected = false })
    ≡ connects true (codes "hub.net") (codes "vine-7") (
        connect_to_hub weak_crypto
          (effective_key weak_crypto map_nvs (document_json assigned) settings (codes "1.1"))
          90000
          (codes "hub.net")
          (codes "vine-7")
          (record connected_hub { hub_connected = false }))
unfolding reconcile_pending_ota load_nvs_str connect_to_hub hub_mqtt_event_handler network_up
    marks_valid
restart_connects_example =
    restart_connects weak_crypto map_nvs (document_json assigned) settings (codes "1.0")
      (codes "1.1") first_start later_start (hub_with empty_map)
      (record connected_hub { hub_connected = false }) assigned_map true (codes "hub.net")
      (codes "vine-7")
      (connect_to_hub weak_crypto (codes "a2V5") 1002 (codes "hub.net") (codes "vine-7")
        (hub_with assigned_map))
      registers (next born (event good_signal disconnected)) refl refl refl

-- ===== src/ThingsBoard/StartTests.antt =====
-- Witnesses of the starts of the ThingsBoard client of ESP-IDF.
use winegrid_internship.Base.{
  ◌≡◌, refl, true, false, Option, none, some, [], ◌∷◌, Bytes, codes, str_eq,
}
use winegrid_internship.Json.Memory.{Document, null, text, member, find_member, document_json}
use winegrid_internship.Nvs.{access_token, load_nvs_str}
use winegrid_internship.Nvs.Memory.{Map, put, map_nvs, empty_map}
use winegrid_internship.EspIdf.{esp_ota_img_pending_verify, network_up, marks_valid}
use winegrid_internship.Mqtt.{message, disconnected}
use winegrid_internship.ThingsBoard.Boot.{reconcile_pending_ota, load_stored_token, save_token}
use winegrid_internship.ThingsBoard.Provisioning.{Identity, issued_token, run_provisioning}
use winegrid_internship.ThingsBoard.Start.{
  StartAnswers, serves, mqtt_app_start, find_token, app_main,
}
use winegrid_internship.ThingsBoard.Start.Survives.{restart_serves}
use winegrid_internship.ThingsBoard.{Client}
use winegrid_internship.ThingsBoard.Events.{mqtt_event_handler}
use winegrid_internship.ThingsBoard.Events.Safety.{event, here}
use winegrid_internship.ThingsBoard.Tests.{plain_sha, updating, all_well}

abbrev vine : Identity
vine = record {
  provision_key = codes "key";
  provision_secret = codes "secret";
  mac = 1 ∷ 2 ∷ 3 ∷ 4 ∷ 5 ∷ 6 ∷ [];
}

abbrev succeeds : Bytes → Option Document
succeeds payload = some (
    member (codes "status") (text (codes "SUCCESS"))
      (member (codes "credentialsValue") (text (codes "tok3n")) null))

-- A start in which the first turn of the provisioning issues a token.
abbrev first_start : StartAnswers
first_start = record {
  checked = record {
    nvs_flash_init = true;
    esp_netif_init = true;
    event_loop_create = true;
    example_connect = true;
  };
  state_partition = some esp_ota_img_pending_verify;
  provisioning_turns = (message (codes "/provision/response") [] ∷ []) ∷ [] ∷ [];
}

-- A later one, in which no turn of a provisioning is given.
abbrev later_start : StartAnswers
later_start = record first_start { state_partition = none; provisioning_turns = [] }

abbrev token_map : Map
token_map = put empty_map access_token (some (codes "tok3n"))

provisions :
    app_main map_nvs
      (document_json succeeds)
      vine
      (codes "mqtts://tb:8883")
      (codes "1.7")
      first_start
      empty_map
    ≡ serves token_map true (mqtt_app_start (codes "mqtts://tb:8883") (codes "tok3n"))
unfolding app_main find_token reconcile_pending_ota load_nvs_str load_stored_token save_token
    run_provisioning issued_token find_member str_eq
provisions = refl

-- The client that the first start has connected.
abbrev started_client : Client Map Bytes
started_client = record (updating token_map) { fw_update_in_progress = false }

restart_serves_example :
    app_main map_nvs
      (document_json succeeds)
      vine
      (codes "mqtts://tb:8883")
      (codes "1.8")
      later_start
      token_map
    ≡ serves token_map false (mqtt_app_start (codes "mqtts://tb:8883") (codes "tok3n"))
unfolding reconcile_pending_ota load_nvs_str network_up marks_valid mqtt_event_handler
restart_serves_example =
    restart_serves map_nvs plain_sha (document_json succeeds) (codes "1.7") vine
      (codes "mqtts://tb:8883") (codes "1.8") first_start later_start empty_map token_map true
      (mqtt_app_start (codes "mqtts://tb:8883") (codes "tok3n")) started_client
      (record started_client { mqtt_connected = false }) provisions
      (event all_well 50000 disconnected here refl refl) refl refl refl

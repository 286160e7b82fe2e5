-- ===== src/Azure/RegistrationTests.antt =====
-- Witnesses of the Azure client's registration, connection and late crash.
use winegrid_internship.Base.{
  ◌⊎◌, ◌≡◌, refl, arith, true, false, none, some, List, [], ◌∷◌, Option, Bytes, codes, replicate,
  snprintf, str_eq,
}
use winegrid_internship.Json.Memory.{Document, null, text, member, document_json}
use winegrid_internship.Nvs.{pending_fw, load_nvs_str, save_nvs_str, erase_nvs_key}
use winegrid_internship.Nvs.Memory.{Map, put, map_nvs, empty_map}
use winegrid_internship.Mqtt.{Event, message}
use winegrid_internship.Azure.Examples.{hub_with, weak_crypto}
use winegrid_internship.Azure.SasToken.{build_sas_token}
use winegrid_internship.Azure.Dps.{Dps, run_dps_registration}
use winegrid_internship.Azure.Dps.Loop.{AssignedIn, run_dps_registration_lem}
use winegrid_internship.Azure.Ota.{trigger_ota, start_task}
use winegrid_internship.Azure.Boot.{reconcile_pending_ota}
use winegrid_internship.Azure.Boot.LateCrash.{late_crash_retries}

abbrev unregistered : Dps
unregistered = record {
  done = false;
  success = false;
  request_id = 0;
  operation_id = [];
  assigned_hub = [];
  device_id = [];
  poll_pending = false;
  outbox = [];
  subscriptions = [];
}

abbrev assigned : Bytes → Option Document
assigned payload = some (
    member (codes "status") (text (codes "assigned")) (
      member (codes "registrationState")
        (member (codes "assignedHub") (text (codes "hub.net"))
          (member (codes "deviceId") (text (codes "vine-7")) null))
        null))

abbrev answered_rounds : List (List Event × List Event)
answered_rounds =
    ([], message (codes "$dps/registrations/res/200/?$rid=1") [] ∷ []) ∷ replicate 300 ([], [])

run_dps_registration_lem_example :
    (d' : Dps) × ((run_dps_registration
          (document_json assigned)
          (codes "vine-7")
          (some (codes "token"))
          answered_rounds
          unregistered
        ≡ some (false, d'))
      ⊎ ((run_dps_registration
              (document_json assigned)
              (codes "vine-7")
              (some (codes "token"))
              answered_rounds
              unregistered
            ≡ some (true, d'))
          × AssignedIn
              (document_json assigned)
              (codes "vine-7")
              d'.assigned_hub
              d'.device_id
              answered_rounds))
run_dps_registration_lem_example =
    run_dps_registration_lem (document_json assigned) (codes "vine-7") (codes "token")
      answered_rounds unregistered (omega arith) refl

abbrev no_documents : Bytes → Option Document
no_documents payload = none

abbrev hub_token : Option Bytes
hub_token =
    build_sas_token weak_crypto (codes "a2V5") 1000 (snprintf 160 (codes "hub.net/devices/vine-7"))
      none 256

abbrev token_text_at : Option Bytes → Bytes
token_text_at none = []
token_text_at (some t) = t

has_token : hub_token ≡ some (token_text_at hub_token)
unfolding build_sas_token
has_token = refl

abbrev updated_map : Map
updated_map = put empty_map pending_fw (some (codes "1.1"))

abbrev confirmed_map : Map
confirmed_map = put updated_map pending_fw none

confirms : reconcile_pending_ota map_nvs (codes "1.1") updated_map ≡ some confirmed_map
unfolding reconcile_pending_ota load_nvs_str save_nvs_str erase_nvs_key str_eq
confirms = refl

late_crash_retries_example :
    (reconcile_pending_ota map_nvs (codes "1.0") confirmed_map ≡ some confirmed_map)
    × (trigger_ota map_nvs (codes "http://srv/fw.bin") (codes "1.1") (hub_with confirmed_map)
        ≡ start_task map_nvs (codes "http://srv/fw.bin") (codes "1.1") (hub_with confirmed_map))
late_crash_retries_example =
    late_crash_retries map_nvs (codes "1.0") (codes "1.1") (codes "http://srv/fw.bin") updated_map
      confirmed_map (hub_with confirmed_map) (omega arith) refl refl refl refl confirms refl refl

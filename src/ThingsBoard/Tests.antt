-- ===== src/ThingsBoard/Tests.antt =====
-- Witnesses and tests of the ThingsBoard client, over a store and documents in memory.
use winegrid_internship.Base.{
  ◌⊎◌, ◌<◌, ◌≤◌, ◌≡◌, refl, arith, true, false, if◌then◌else◌, some, none, List, [], ◌∷◌, ◌++◌,
  Option, Bytes, codes, replicate, length, pos, str_eq, ne_of_str_eq, inr, hex_bytes, starts_with,
}
use winegrid_internship.Json.Memory.{Document, null, text, member, document_json, find_member}
use winegrid_internship.Nvs.{
  access_token, pending_fw, failed_fw, load_nvs_str, save_nvs_str, erase_nvs_key,
}
use winegrid_internship.Nvs.Memory.{Map, put, map_nvs, empty_map}
use winegrid_internship.Mqtt.{Event, connected, message}
use winegrid_internship.ThingsBoard.{Sha256, Client, report_fw_state, send_telemetry_json}
use winegrid_internship.ThingsBoard.Firmware.{
  Answers, checksum_ok, refusal, start_fw_update, handle_fw_chunk_data, finish_fw_update, case_eq,
  to_lower,
}
use winegrid_internship.ThingsBoard.Firmware.Verified.{IsSafe}
use winegrid_internship.ThingsBoard.Firmware.Download.{last, more, deliver, deliver_installs}
use winegrid_internship.ThingsBoard.Events.{mqtt_event_handler}
use winegrid_internship.ThingsBoard.Firmware.Machine.{receiving, chunk, update_state, announced}
use winegrid_internship.ThingsBoard.Events.Refinement.{input_of, inputs, UpdateRun, Reach-UpdateRun}
use winegrid_internship.ThingsBoard.Events.Safety.{here, event, Reach-IsSafe}
use winegrid_internship.ThingsBoard.Boot.{reconcile_pending_ota}
use winegrid_internship.ThingsBoard.Boot.Refusal.{version_refused, failed_download_refused}
use winegrid_internship.ThingsBoard.Rpc.{rpc_request_prefix, method_of, handle_rpc_request}
use winegrid_internship.ThingsBoard.Rpc.Answer.{rpc_answer, rpc_answered}
use winegrid_internship.ThingsBoard.Provisioning.{
  Provisioning, Identity, issued_token, run_provisioning,
}
use winegrid_internship.ThingsBoard.Provisioning.Outcome.{IssuedIn, run_provisioning_lem}
use winegrid_internship.ThingsBoard.Provisioning.Success.{run_provisioning_succeeds}

-- A digest that keeps everything, in place of SHA-256.
abbrev pub plain_sha : Sha256
plain_sha = record {
  Context = Bytes;
  starts = [];
  update = λ c chunk. c ++ chunk;
  finish = λ c. c;
  sha256 = λ m. m;
  fed = λ c. c;
  fed-starts = refl;
  fed-update = λ c chunk. refl;
  finish_lem = λ c. refl;
}

-- An update to 1.8, of three bytes, is in progress.
abbrev pub updating : Map → Client Map Bytes
updating m = record {
  store = m;
  mqtt_connected = true;
  publish_interval_ms = 10000;
  fake_temperature = 20;
  fw_title = codes "esp32-winegrid";
  fw_version = codes "1.8";
  fw_checksum = codes "010AFF";
  fw_checksum_algorithm = codes "sha256";
  fw_size = pos 3;
  fw_info_known = true;
  fw_update_in_progress = true;
  fw_request_id = 1;
  fw_chunk_index = 0;
  fw_received = 0;
  update_partition = [];
  sha_ctx = [];
  outbox = [];
  subscriptions = [];
  boot_image = none;
  restarting = false;
}

abbrev image : Bytes
image = 1 ∷ 10 ∷ 255 ∷ []

abbrev pub all_well : Answers
all_well = record {
  next_partition = true;
  ota_begin = true;
  ota_write = true;
  ota_end = true;
  set_boot_partition = true;
}

abbrev write_fails : Answers
write_fails = record all_well { ota_write = false }

checksum_holds : checksum_ok (codes "sha256") (codes "010AFF") image ≡ true
unfolding checksum_ok case_eq to_lower hex_bytes
checksum_holds = refl

deliver_installs_example :
    (deliver map_nvs plain_sha all_well
        (record { ota_write = refl; ota_end = refl; set_boot_partition = refl })
        ((1 ∷ 10 ∷ []) ∷ (255 ∷ []) ∷ [])
        (updating empty_map)).boot_image
      ≡ some image
    × (deliver map_nvs plain_sha all_well
        (record { ota_write = refl; ota_end = refl; set_boot_partition = refl })
        ((1 ∷ 10 ∷ []) ∷ (255 ∷ []) ∷ [])
        (updating empty_map)).restarting
      ≡ true
deliver_installs_example =
    deliver_installs map_nvs plain_sha all_well
      (record { ota_write = refl; ota_end = refl; set_boot_partition = refl })
      ((1 ∷ 10 ∷ []) ∷ (255 ∷ []) ∷ []) image (updating empty_map)
      (more (1 ∷ 10 ∷ []) (omega arith) (last (255 ∷ []) (omega arith))) refl
      (record { fed_all = refl; counted = refl }) refl refl checksum_holds

abbrev no_documents : Bytes → Option Document
no_documents payload = none

abbrev chunk_topic : Bytes
chunk_topic = codes "v2/fw/response/1/chunk/0"

abbrev after_chunk : Client Map Bytes
after_chunk = handle_fw_chunk_data map_nvs plain_sha all_well image (updating empty_map)

chunk_arrives :
    mqtt_event_handler map_nvs plain_sha
      (document_json no_documents)
      (codes "1.7")
      all_well
      50000
      (message chunk_topic image)
      (updating empty_map)
    ≡ some after_chunk
unfolding mqtt_event_handler starts_with
chunk_arrives = refl

Reach-IsSafe_example : IsSafe map_nvs plain_sha after_chunk
Reach-IsSafe_example =
    Reach-IsSafe map_nvs plain_sha (document_json no_documents) (codes "1.7")
      (record { tracked = inr (record { fed_all = refl; counted = refl }); unbooted = refl })
      (event all_well 50000 (message chunk_topic image) here refl chunk_arrives)

Reach-UpdateRun_example :
    UpdateRun map_nvs plain_sha
      (document_json no_documents)
      (codes "1.7")
      (record { size = pos 3; algorithm = codes "sha256"; checksum = codes "010AFF" })
      (receiving [])
      (chunk image ∷ [])
      (announced map_nvs plain_sha after_chunk)
      (update_state map_nvs plain_sha after_chunk)
unfolding inputs input_of starts_with
Reach-UpdateRun_example =
    Reach-UpdateRun map_nvs plain_sha (document_json no_documents) (codes "1.7")
      (record { tracked = inr (record { fed_all = refl; counted = refl }); unbooted = refl })
      (event all_well 50000 (message chunk_topic image) here refl chunk_arrives)

abbrev pending : Map
pending = put empty_map pending_fw (some (codes "1.8"))

abbrev rolled_back : Map
rolled_back = put (put pending failed_fw (some (codes "1.8"))) pending_fw none

rolls_back : reconcile_pending_ota map_nvs (codes "1.7") pending ≡ some rolled_back
unfolding reconcile_pending_ota load_nvs_str save_nvs_str erase_nvs_key str_eq
rolls_back = refl

version_refused_example :
    start_fw_update map_nvs plain_sha all_well (updating rolled_back)
    ≡ some (send_telemetry_json (refusal map_nvs plain_sha (codes "1.8")) (updating rolled_back))
unfolding str_eq
version_refused_example =
    version_refused map_nvs plain_sha (codes "1.7") pending rolled_back all_well
      (updating rolled_back) (omega arith) refl (ne_of_str_eq _ _ refl) refl rolls_back refl

failed_write_rolls_back :
    reconcile_pending_ota map_nvs
      (codes "1.7")
      (handle_fw_chunk_data map_nvs plain_sha write_fails image (updating pending)).store
    ≡ some rolled_back
unfolding reconcile_pending_ota load_nvs_str save_nvs_str erase_nvs_key str_eq handle_fw_chunk_data
    finish_fw_update report_fw_state
failed_write_rolls_back = refl

failed_download_refused_example :
    start_fw_update map_nvs plain_sha all_well (updating rolled_back)
    ≡ some (send_telemetry_json (refusal map_nvs plain_sha (codes "1.8")) (updating rolled_back))
unfolding str_eq
failed_download_refused_example =
    failed_download_refused map_nvs plain_sha (codes "1.7") image write_fails all_well
      (updating pending) (updating rolled_back) rolled_back refl refl (omega arith) refl
      (ne_of_str_eq _ _ refl) refl failed_write_rolls_back refl

abbrev with_token : Map
with_token = put empty_map access_token (some (codes "tok3n"))

abbrev asks_status : Bytes → Option Document
asks_status payload = some (member (codes "method") (text (codes "getStatus")) null)

abbrev rpc_handled : Client Map Bytes
rpc_handled =
    handle_rpc_request (document_json asks_status) 50000 (rpc_request_prefix ++ codes "12") []
      (updating empty_map)

rpc_answered_example :
    ((method_of (document_json asks_status) [] ≡ none) × (rpc_handled ≡ updating empty_map))
    ⊎ ((method : Bytes) × (method_of (document_json asks_status) [] ≡ some method)
        × (rpc_handled.outbox
            ≡ record {
              topic = codes "v1/devices/me/rpc/response/12";
              payload = rpc_answer method 20 50000;
            }
              ∷ [])
        × (rpc_handled.restarting ≡ (if str_eq method (codes "reboot") then true else false)))
rpc_answered_example =
    rpc_answered (document_json asks_status) 50000 (codes "12") [] (updating empty_map)
      (omega arith)

abbrev vine : Identity
vine = record {
  provision_key = codes "key";
  provision_secret = codes "secret";
  mac = 1 ∷ 2 ∷ 3 ∷ 4 ∷ 5 ∷ 6 ∷ [];
}

abbrev unprovisioned : Provisioning
unprovisioned = record { done = false; token = []; outbox = []; subscriptions = [] }

abbrev success : Document
success =
    member (codes "status") (text (codes "SUCCESS"))
      (member (codes "credentialsValue") (text (codes "tok3n")) null)

abbrev succeeds : Bytes → Option Document
succeeds payload = some success

abbrev answered_turns : List (List Event)
answered_turns = (message (codes "/provision/response") [] ∷ []) ∷ replicate 75 []

run_provisioning_lem_example :
    (run_provisioning (document_json succeeds) vine 64 answered_turns unprovisioned ≡ some none)
    ⊎ ((token : Bytes) × (run_provisioning
            (document_json succeeds)
            vine
            64
            answered_turns
            unprovisioned
          ≡ some (some token))
        × (0 < length token)
        × (length token ≤ 63)
        × IssuedIn (document_json succeeds) vine token answered_turns)
run_provisioning_lem_example =
    run_provisioning_lem (document_json succeeds) vine answered_turns unprovisioned (omega arith)
      refl

run_provisioning_succeeds_example :
    run_provisioning
      (document_json succeeds)
      vine
      64
      (((connected ∷ []) ∷ [] ∷ []) ++ ((message (codes "/provision/response") [] ∷ []) ∷ []))
      unprovisioned
    ≡ some (some (codes "tok3n"))
unfolding issued_token find_member str_eq
run_provisioning_succeeds_example =
    run_provisioning_succeeds (document_json succeeds) vine ((connected ∷ []) ∷ [] ∷ []) [] []
      unprovisioned (codes "/provision/response") [] success (codes "tok3n") ((tt, tt), (tt, tt))
      (omega arith) refl refl refl (omega arith)

-- ===== src/ThingsBoardZephyr/RunTests.antt =====
-- Witnesses of the runs of the ThingsBoard client of Zephyr.
use winegrid_internship.Base.{
  negsuc, ℕ, ◌+◌, ◌≤◌, ◌≡◌, refl, arith, true, false, List, [], ◌∷◌, ◌++◌, none, some, pos, Bytes,
  codes, length, inl, inr, ◌⊎◌, ◌<◌,
}
use winegrid_internship.ThingsBoardZephyr.{
  Client, PublishParam, mqtt_evt_connack, mqtt_evt_publish, pattern, json_extract_string,
  rpc_request_prefix, handle_rpc_request, fill_payload_buf,
}
use winegrid_internship.ThingsBoardZephyr.Tests.{client}
use winegrid_internship.ThingsBoardZephyr.Search.{after_first, value_of, json_extract_string-first}
use winegrid_internship.ThingsBoardZephyr.Provisioning.{
  Settings, Turn, turn_events, provision_text, provisioning_evt_handler, run_provisioning,
}
use winegrid_internship.ThingsBoardZephyr.Provisioning.Bounds.{request_sent_whole}
use winegrid_internship.ThingsBoardZephyr.Provisioning.Outcome.{
  IssuedIn, zephyr_provisioning_returns,
}
use winegrid_internship.ThingsBoardZephyr.Main.{
  MainTurn, RunAnswers, main_evt_handler, main_loop, thingsboard_run,
}
use winegrid_internship.ThingsBoardZephyr.Main.Requests.{late_request_repeats}
use winegrid_internship.ThingsBoardZephyr.Main.Telemetry.{
  Spaced, Recent, sent_count, telemetry_count, telemetry_on_time,
}
use winegrid_internship.ThingsBoardZephyr.Main.Run.{Stands, thingsboard_run_connects}
use winegrid_internship.ZephyrNet.{NetAnswers}

json_extract_string-first_example :
    json_extract_string (codes "{\"method\":\"reboot\"}") (codes "method") 32
    ≡ value_of 32 (after_first (pattern (codes "method")) (codes "{\"method\":\"reboot\"}"))
json_extract_string-first_example =
    json_extract_string-first (codes "{\"method\":\"reboot\"}") (codes "method") 32 (omega arith)

abbrev settings : Settings
settings = record {
  broker_hostname = codes "mqtt.thingsboard.cloud";
  provision_key = codes "k1";
  provision_secret = codes "s1";
  link_addr = some (1 ∷ 2 ∷ 3 ∷ 4 ∷ 5 ∷ 6 ∷ []);
}

request_sent_whole_example :
    let h' = provisioning_evt_handler settings (mqtt_evt_connack (pos 0)) client in
    (h'.over_read ≡ false)
    × (h'.outbox
        ≡ record { topic = codes "/provision/request"; payload = provision_text settings } ∷ [])
    × (h'.subscriptions ≡ codes "/provision/response" ∷ [])
request_sent_whole_example = request_sent_whole settings client (omega arith)

abbrev credentials : PublishParam
credentials = record {
  topic = codes "/provision/response";
  payload = codes "{\"status\":\"SUCCESS\",\"credentialsValue\":\"A1\"}";
  arrived = 100;
}

abbrev provisioning_turns : List Turn
provisioning_turns =
    record { uptime = 10; readable = true; input = mqtt_evt_connack (pos 0) ∷ []; live = [] }
    ∷ record { uptime = 510; readable = true; input = mqtt_evt_publish credentials ∷ []; live = [] }
    ∷ record { uptime = 15010; readable = false; input = []; live = [] }
    ∷ []

abbrev unprovisioned : Client
unprovisioned = record client { provisioned_token = []; provisioning_done = false }

zephyr_provisioning_returns_example :
    (q : Client) × ((run_provisioning settings (pos 0) 10 provisioning_turns 64 unprovisioned
        ≡ some (none, q))
      ⊎ ((token : Bytes) × (run_provisioning settings (pos 0) 10 provisioning_turns 64 unprovisioned
            ≡ some (some token, q))
          × (0 < length token)
          × (length token ≤ 63)
          × IssuedIn token provisioning_turns))
unfolding turn_events
zephyr_provisioning_returns_example =
    zephyr_provisioning_returns settings 10 provisioning_turns unprovisioned
      (inr (inr (inl (omega arith))))
      ((tt, tt), ((record { arrives = omega arith; fits = omega arith }, tt), (tt, tt))) refl

abbrev reboot_request : PublishParam
reboot_request = record {
  topic = rpc_request_prefix ++ codes "1";
  payload = codes "{\"method\":\"reboot\"}";
  arrived = 19;
}

abbrev late_request : PublishParam
late_request = record {
  topic = rpc_request_prefix ++ codes "2";
  payload = codes "{\"method\":\"status\"}";
  arrived = 0;
}

late_request_repeats_example :
    let first = main_evt_handler 5000 (mqtt_evt_publish reboot_request) client in
    (first
      ≡ handle_rpc_request 5000 reboot_request.topic reboot_request.payload
          (record client { payload_buf = fill_payload_buf reboot_request client.payload_buf }))
    × (main_evt_handler 6000 (mqtt_evt_publish late_request) first
        ≡ handle_rpc_request 6000 late_request.topic reboot_request.payload
            (record first { payload_buf = fill_payload_buf late_request first.payload_buf }))
late_request_repeats_example =
    late_request_repeats 5000 6000 (codes "1") (codes "2") reboot_request late_request client refl
      refl (record { arrives = omega arith; fits = omega arith }) refl refl

abbrev quiet : ℕ → MainTurn
quiet t = record {
  readable = false;
  input = [];
  live = [];
  checked = t;
  publish_err = pos 0;
  published = t + 5;
}

abbrev main_turns : List MainTurn
main_turns = quiet 1000 ∷ quiet 2000 ∷ quiet 11500 ∷ []

telemetry_on_time_example :
    let l = main_loop main_turns (record { client = client; next_telemetry = 0; tries = [] }) in
    Spaced 10000 (10000 + 5 + 10000) l.tries
    × ((l.client.rebooting ≡ true) ⊎ Recent (10000 + 5) 11500 l.tries)
    × (telemetry_count l.client.outbox ≡ 0 + sent_count l.tries)
telemetry_on_time_example =
    telemetry_on_time 10000 5 0 (quiet 1000) (quiet 2000 ∷ quiet 11500 ∷ []) client (omega arith)

abbrev answers : RunAnswers
answers = record {
  tls_credential_add = pos 0;
  getaddrinfo_err = pos 0;
  getaddrinfo_result = some (record { sin_addr = 1; sin_port = 8883 });
  provisioning_connect = pos 0;
  provisioning_uptime = 10;
  provisioning_turns = provisioning_turns;
  main_connect = pos 0;
  main_uptime = 600;
  main_turns = main_turns;
}

thingsboard_run_connects_example : Stands settings (thingsboard_run settings answers unprovisioned)
thingsboard_run_connects_example = thingsboard_run_connects settings answers unprovisioned refl

abbrev net : NetAnswers
net = record {
  wifi = true;
  wifi_ssid = codes "vine";
  wifi_psk = codes "secret";
  net_if_up = pos 0;
  net_mgmt = pos 0;
  conn_mgr_if_connect = negsuc 0;
}

-- ===== src/Lwm2m/Tests.antt =====
-- Witnesses of the LwM2M client and its firmware update.
use winegrid_internship.Base.{
  ◌≡◌, refl, true, false, none, some, List, [], ◌∷◌, codes, pos, negsuc, is_zero,
}
use winegrid_internship.Lwm2m.{Dfu, Answers, engine_state, engine_result, result_success}
use winegrid_internship.Lwm2m.Calls.{
  block, update, cancel, run, nothing, updated, cancels, no_more, written,
}
use winegrid_internship.Lwm2m.Update.{stopped_download_refused, download_upgrades}
use winegrid_internship.ZephyrNet.{
  net_event_l4_connected, net_event_l4_disconnected, wait_for_network, if_up_fails,
}
use winegrid_internship.Lwm2m.Client.{
  Client, ClientAnswers, Event, net, rd, event_network_error, is_network_error, engine_resume,
  rd_client_start, handle_all, sem_take, main,
}
use winegrid_internship.Lwm2m.Client.Network.{pause_is_last, start_is_last, client_follows_network}

abbrev idle : Dfu
idle = record {
  dfu_started = false;
  flash = [];
  buffered = [];
  update_state = engine_state 0;
  update_result = engine_result 0;
  upgrade = none;
  rebooting = false;
}

abbrev downloading : Dfu
downloading = record idle { dfu_started = true; flash = 1 ∷ 2 ∷ [] }

abbrev fine : Answers
fine = record { img_init = none; buffered_write = none; filled = 1; request_upgrade = none }

stopped_download_refused_example :
    ((run (cancel ∷ update fine ∷ []) downloading).upgrade ≡ none)
    × ((run (cancel ∷ update fine ∷ []) downloading).rebooting ≡ false)
stopped_download_refused_example =
    stopped_download_refused cancel (update fine ∷ []) downloading cancels (updated fine nothing)

download_upgrades_example :
    let d' =
      run (block fine (1 ∷ 2 ∷ []) false 0 ∷ block fine (3 ∷ []) true 2 ∷ update fine ∷ []) idle in
    (d'.upgrade ≡ some (1 ∷ 2 ∷ 3 ∷ []))
    × (d'.rebooting ≡ true)
    × (d'.update_result ≡ result_success)
    × (d'.dfu_started ≡ false)
download_upgrades_example =
    download_upgrades fine fine (1 ∷ 2 ∷ []) (3 ∷ []) false (block fine (3 ∷ []) true 2 ∷ []) idle
      refl refl (written fine (3 ∷ []) 2 refl refl no_more) refl

-- A Wi-Fi network whose connection is begun, and resources that can be set up.
abbrev connects_wifi : ClientAnswers
connects_wifi = record {
  connection_manager = true;
  network = record {
    wifi = true;
    wifi_ssid = codes "field";
    wifi_psk = codes "secret";
    net_if_up = pos 0;
    net_mgmt = pos 0;
    conn_mgr_if_connect = negsuc 0;
  };
  setup = pos 0;
}

-- What comes after IP is up: an error of the network, and IP going down and up again.
abbrev outage : List Event
outage = rd event_network_error ∷ net net_event_l4_disconnected ∷ net net_event_l4_connected ∷ []

-- The client that IP coming up lets `main` start.
abbrev started : Client
started = record {
  network_connected_sem = 0;
  callbacks_added = true;
  calls = rd_client_start ∷ engine_resume ∷ [];
}

client_follows_network_example :
    (pause_is_last (handle_all outage started).calls ≡ false)
    × (start_is_last (handle_all outage started).calls ≡ false)
unfolding main sem_take handle_all wait_for_network if_up_fails is_network_error is_zero
client_follows_network_example =
    client_follows_network connects_wifi [] (net net_event_l4_connected ∷ outage) started outage
      refl refl

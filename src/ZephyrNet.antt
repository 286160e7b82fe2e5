-- ===== src/ZephyrNet.antt =====
-- The network start of zephyr-thingsboard/src/main.c: the Wi-Fi request, and the semaphore that says
-- that IP is up.
pub mod Wait
use winegrid_internship.Base.{
  ℕ, zero, suc, ◌+◌, Bool, true, false, ◌&&◌, ◌||◌, not, if◌then◌else◌, ◌==◌, List, [], ◌∷◌, Option,
  none, some, Bytes, ℤ, pos, negsuc, length, is_zero,
}

-- The events of the network management that the programs tell apart.
pub data NetEvent : Type 0 where
  net_event_l4_connected net_event_l4_disconnected net_event_conn_if_fatal_error net_event_other :
      NetEvent

-- `struct wifi_connect_req_params`, as far as the configuration decides it.
pub record WifiParams : Type 0 where
  pub ssid : Bytes
  pub ssid_length : ℕ
  pub psk : Bytes
  pub psk_length : ℕ

-- CONFIG_WIFI, CONFIG_APP_WIFI_SSID and CONFIG_APP_WIFI_PSK, and what the library answers to each
-- of the three calls.
pub record NetAnswers : Type 0 where
  pub wifi : Bool
  pub wifi_ssid : Bytes
  pub wifi_psk : Bytes
  pub net_if_up : ℤ
  pub net_mgmt : ℤ
  pub conn_mgr_if_connect : ℤ

-- `wifi_auto_connect`: what it returns, and the request that it makes.
unfoldable pub wifi_auto_connect : NetAnswers → ℤ × Option WifiParams
wifi_auto_connect n = if length n.wifi_ssid == 0 then (negsuc 1, none) else (
  n.net_mgmt,
  some (record {
    ssid = n.wifi_ssid;
    ssid_length = length n.wifi_ssid;
    psk = n.wifi_psk;
    psk_length = length n.wifi_psk;
  }),
)

-- `ret < 0 && ret != -EALREADY`, where EALREADY is 120.
unfoldable pub if_up_fails : ℤ → Bool
if_up_fails (pos n) = false
if_up_fails (negsuc n) = not (n == 119)

-- `wait_for_network`.
unfoldable pub wait_for_network : NetAnswers → Bool
unfolding wifi_auto_connect
wait_for_network n = (n.wifi && is_zero (wifi_auto_connect n).0) || is_zero n.conn_mgr_if_connect

-- `l4_event_handler`, on the count of `network_connected_sem`, whose limit is 1.
unfoldable pub l4_event_handler : NetEvent → ℕ → ℕ
l4_event_handler net_event_l4_connected count = 1
l4_event_handler _ count = count

unfoldable pub l4_events : List NetEvent → ℕ → ℕ
unfolding l4_event_handler
l4_events [] count = count
l4_events (e ∷ es) count = l4_events es (l4_event_handler e count)

-- `k_sem_take(&network_connected_sem, K_FOREVER)`, while the events come: whether it has returned.
unfoldable pub sem_taken : List NetEvent → ℕ → Bool
unfolding l4_event_handler
sem_taken es (suc count) = true
sem_taken [] zero = false
sem_taken (e ∷ es) zero = sem_taken es (l4_event_handler e zero)

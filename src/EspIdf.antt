-- ===== src/EspIdf.antt =====
-- What the starts of the two ESP-IDF clients, esp-idf-azure-dps/main/app_main.c and
-- esp-idf-thingsboard/main/app_main.c, have in common: the state of the image that runs.
use winegrid_internship.Base.{Bool, true, false, ◌&&◌, Option, none, some}

-- `esp_ota_img_states_t`, as far as it is told apart.
pub data ImgState : Type 0 where
  esp_ota_img_pending_verify esp_ota_img_other : ImgState

-- What the calls that `ESP_ERROR_CHECK` guards answer, `true` for ESP_OK.
pub record Checked : Type 0 where
  pub nvs_flash_init : Bool
  pub esp_netif_init : Bool
  pub event_loop_create : Bool
  pub example_connect : Bool

-- All calls after that of `nvs_flash_init`.
unfoldable pub network_up : Checked → Bool
network_up c = c.esp_netif_init && c.event_loop_create && c.example_connect

-- Whether `esp_ota_mark_app_valid_cancel_rollback` is called, on what
-- `esp_ota_get_state_partition` gives (`none` where it fails).
unfoldable pub marks_valid : Option ImgState → Bool
marks_valid none = false
marks_valid (some esp_ota_img_pending_verify) = true
marks_valid (some esp_ota_img_other) = false

-- ===== src/ThingsBoard/Boot.antt =====
-- Start-up of the client of esp-idf-thingsboard/main/app_main.c: `reconcile_pending_ota`,
-- `load_stored_token` and `save_token`.
pub mod Refusal
pub mod Token
use winegrid_internship.Base.{ℕ, true, false, if◌then◌else◌, Option, none, some, Bytes, str_eq}
use winegrid_internship.Nvs.{
  Nvs, access_token, pending_fw, failed_fw, load_nvs_str, save_nvs_str, erase_nvs_key,
}

module _ (nvs : Nvs) (current : Bytes) where
  open nvs use {Store, opens_ro, opens_rw, get_str, set_str}

  -- `reconcile_pending_ota` in the image whose CURRENT_FW_VERSION is `current`; `none` where an
  -- `ESP_ERROR_CHECK` aborts.
  unfoldable pub reconcile_pending_ota : Store → Option Store
  reconcile_pending_ota s = elim (load_nvs_str nvs s pending_fw 32) [
    | none ↦ some s
    | some pending ↦ elim (str_eq pending current) [
      | true ↦ some (erase_nvs_key nvs s pending_fw)
      | false ↦ elim (save_nvs_str nvs s failed_fw pending) [
        | none ↦ none
        | some t ↦ some (erase_nvs_key nvs t pending_fw)
      ]
    ]
  ]

  -- `load_stored_token`, into a buffer of the given size.
  unfoldable pub load_stored_token : Store → ℕ → Option Bytes
  load_stored_token s out_size = if opens_ro s then get_str s access_token out_size else none

  -- `save_token`; `none` where an `ESP_ERROR_CHECK` aborts.
  unfoldable pub save_token : Store → Bytes → Option Store
  save_token s token = if opens_rw s then set_str s access_token token else none

-- ===== src/Azure/Boot.antt =====
-- Start-up of the Azure client: `reconcile_pending_ota` of esp-idf-azure-dps/main/app_main.c.
pub mod Rollback
pub mod LateCrash
pub mod Kept
use winegrid_internship.Base.{Option, none, some, Bytes, str_eq, true, false}
use winegrid_internship.Nvs.{Nvs, pending_fw, failed_fw, load_nvs_str, save_nvs_str, erase_nvs_key}

module _ (nvs : Nvs) (current : Bytes) where
  open nvs use {Store}

  -- `reconcile_pending_ota` in the image whose CURRENT_FW_VERSION is `current`; `none` where an
  -- `ESP_ERROR_CHECK` aborts.
  unfoldable pub reconcile_pending_ota : Store → Option Store
  reconcile_pending_ota s = elim (load_nvs_str nvs s pending_fw 32) [
    | none ↦ some s
    | some pending ↦ elim (str_eq pending current) [
      | true ↦ some (erase_nvs_key nvs s pending_fw)
      | false ↦ elim (save_nvs_str nvs s failed_fw pending) [
        | none ↦ none
        | some t ↦ some (erase_nvs_key nvs t pending_fw)
      ]
    ]
  ]

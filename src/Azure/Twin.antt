-- ===== src/Azure/Twin.antt =====
-- `apply_desired_properties` of esp-idf-azure-dps/main/app_main.c.
use winegrid_internship.Base.{
  ℕ, not, if◌then◌else◌, ltb, Option, none, some, Bytes, codes, ℤ, pos, negsuc, str_eq,
}
use winegrid_internship.Nvs.{Nvs}
use winegrid_internship.Json.{CJson}
use winegrid_internship.Azure.{Hub, Platform, report_twin_properties}
use winegrid_internship.Azure.Ota.{trigger_ota}

-- `MIN_PUBLISH_INTERVAL_MS`.
abbrev pub min_publish_interval_ms : ℕ
min_publish_interval_ms = 1000

module _ (nvs : Nvs) (json : CJson) (current : Bytes) where
  open nvs use {Store}
  open json use {Value, get_object_item, string_of, number_of}

  -- `cJSON_IsString(item)` with its `valuestring`, where the item may be NULL.
  abbrev pub string_item : Option Value → Option Bytes
  string_item none = none
  string_item (some v) = string_of v

  abbrev pub number_item : Option Value → Option ℤ
  number_item none = none
  number_item (some v) = number_of v

  -- The firmware keys.
  unfoldable pub apply_firmware : Option Bytes → Option Bytes → Hub Store → Hub Store
  apply_firmware (some fw_version) (some fw_url) h =
      if not (str_eq fw_version current) then trigger_ota nvs fw_url fw_version h else h
  apply_firmware _ _ h = h

  -- The publish interval.
  unfoldable pub apply_interval : Platform → Option ℤ → Hub Store → Hub Store
  apply_interval platform none h = h
  apply_interval platform (some (negsuc n)) h = h
  apply_interval platform (some (pos new_interval)) h =
      if ltb new_interval min_publish_interval_ms
      then h
      else report_twin_properties current platform (record h { publish_interval_ms = new_interval })

  -- `apply_desired_properties`.
  unfoldable pub apply_desired_properties : Platform → Value → Hub Store → Hub Store
  unfolding apply_firmware apply_interval
  apply_desired_properties platform desired h =
      apply_interval platform (number_item (get_object_item desired (codes "publishInterval"))) (
        apply_firmware (string_item (get_object_item desired (codes "fw_version")))
          (string_item (get_object_item desired (codes "fw_url"))) h)

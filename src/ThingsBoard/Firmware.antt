-- ===== src/ThingsBoard/Firmware.antt =====
-- The firmware update in chunks of esp-idf-thingsboard/main/app_main.c: `start_fw_update`,
-- `handle_fw_chunk_data`, `finish_fw_update` and `request_fw_chunk`.
pub mod Verified
pub mod Download
pub mod Machine
use winegrid_internship.Base.{
  ℕ, zero, ◌+◌, Bool, true, false, ◌&&◌, ◌||◌, not, if◌then◌else◌, leb, ltb, ◌==◌, List, [], ◌∷◌,
  ◌++◌, Option, none, some, Bytes, codes, dec, ℤ, pos, negsuc, length, snprintf, str_eq, hex_bytes,
}
use winegrid_internship.Nvs.{Nvs, pending_fw, failed_fw, load_nvs_str, save_nvs_str}
use winegrid_internship.ThingsBoard.{Sha256, Client, publish, send_telemetry_json, report_fw_state}

-- What the OTA library answers during one call, `true` for success.
pub record Answers : Type 0 where
  pub next_partition : Bool
  pub ota_begin : Bool
  pub ota_write : Bool
  pub ota_end : Bool
  pub set_boot_partition : Bool

-- `TB_FW_CHUNK_SIZE`.
abbrev pub fw_chunk_size : ℕ
fw_chunk_size = 4096

unfoldable pub to_lower : ℕ → ℕ
to_lower c = if leb b'A' c && leb c b'Z' then c + 32 else c

-- `strcasecmp(a, b) == 0`.
unfoldable pub case_eq : Bytes → Bytes → Bool
case_eq [] [] = true
case_eq (a ∷ xs) (b ∷ ys) = let rest = case_eq xs ys in to_lower a == to_lower b && rest
case_eq _ _ = false

-- `s_fw_received >= s_fw_size` and `s_fw_received == s_fw_size`.
unfoldable pub size_reached : ℕ → ℤ → Bool
size_reached received (pos size) = leb size received
size_reached received (negsuc n) = true

unfoldable pub size_equal : ℕ → ℤ → Bool
size_equal received (pos size) = received == size
size_equal received (negsuc n) = false

unfoldable pub checksum_ok : Bytes → Bytes → Bytes → Bool
checksum_ok algorithm checksum digest =
    case_eq algorithm (codes "SHA256") && case_eq (hex_bytes digest) checksum

module _ (nvs : Nvs) (sha : Sha256) where
  open nvs use {Store}
  open sha use {Context, starts, update, finish}

  -- `request_fw_chunk`.
  unfoldable pub request_fw_chunk : Client Store Context → Client Store Context
  unfolding publish
  request_fw_chunk h =
      publish
        (snprintf 64 (
          codes "v2/fw/request/"
          ++ (dec h.fw_request_id ++ (codes "/chunk/" ++ dec h.fw_chunk_index))))
        (snprintf 16 (dec fw_chunk_size)) h

  unfoldable pub refusal : Bytes → Bytes
  refusal version = snprintf 192 (
      codes "{\"fw_state\":\"FAILED\",\"fw_error\":\"Version "
      ++ (version ++ codes " previously failed - refusing automatic retry\"}"))

  -- From the check of the failed version on; `none` where an `ESP_ERROR_CHECK` aborts.
  unfoldable pub begin_fw_update : Answers → Client Store Context → Option (Client Store Context)
  begin_fw_update a h =
      if not (a.next_partition && a.ota_begin)
      then some (report_fw_state (codes "FAILED") h)
      else elim (save_nvs_str nvs h.store pending_fw h.fw_version) [
        | none ↦ none
        | some s ↦ some (
            request_fw_chunk (
              report_fw_state (codes "DOWNLOADING") (record h {
                store = s;
                update_partition = [];
                sha_ctx = starts;
                fw_update_in_progress = true;
                fw_received = 0;
                fw_chunk_index = 0;
                fw_request_id = h.fw_request_id + 1;
              })))
      ]

  -- `start_fw_update`.
  unfoldable pub start_fw_update : Answers → Client Store Context → Option (Client Store Context)
  unfolding begin_fw_update
  start_fw_update a h = elim (load_nvs_str nvs h.store failed_fw 32) [
    | none ↦ begin_fw_update a h
    | some failed_version ↦
        if str_eq failed_version h.fw_version
        then some (send_telemetry_json (refusal h.fw_version) h)
        else begin_fw_update a h
  ]

  abbrev pub fail_update : Client Store Context → Client Store Context
  fail_update h = record (report_fw_state (codes "FAILED") h) { fw_update_in_progress = false }

  unfoldable pub updated_payload : Client Store Context → Bytes
  updated_payload h = snprintf 256 (
      codes "{\"current_fw_title\":\""
      ++ (h.fw_title
          ++ (codes "\",\"current_fw_version\":\""
              ++ (h.fw_version ++ codes "\",\"fw_state\":\"UPDATED\"}"))))

  -- `finish_fw_update`.
  unfoldable pub finish_fw_update : Answers → Bool → Client Store Context → Client Store Context
  finish_fw_update a false h = fail_update h
  finish_fw_update a true h =
      let downloaded = report_fw_state (codes "DOWNLOADED") h in
      if not (checksum_ok h.fw_checksum_algorithm h.fw_checksum (finish h.sha_ctx))
      then fail_update downloaded
      else let verified = report_fw_state (codes "VERIFIED") downloaded in
        if not a.ota_end
        then fail_update verified
        else let updating = report_fw_state (codes "UPDATING") verified in
          if not a.set_boot_partition
          then fail_update updating
          else record (send_telemetry_json (updated_payload h) updating) {
            boot_image = some h.update_partition;
            restarting = true;
          }

  -- What a chunk that was written leaves.
  abbrev pub accept_chunk : Bytes → Client Store Context → Client Store Context
  accept_chunk chunk h = record h {
    update_partition = h.update_partition ++ chunk;
    sha_ctx = update h.sha_ctx chunk;
    fw_received = h.fw_received + length chunk;
  }

  -- `handle_fw_chunk_data`.
  unfoldable pub handle_fw_chunk_data :
      Answers → Bytes → Client Store Context → Client Store Context
  unfolding finish_fw_update request_fw_chunk
  handle_fw_chunk_data a chunk h =
      if not h.fw_update_in_progress
      then h
      else if not a.ota_write
      then finish_fw_update a false h
      else let accepted = accept_chunk chunk h in
        if length chunk == 0 || size_reached accepted.fw_received h.fw_size
        then finish_fw_update a (size_equal accepted.fw_received h.fw_size) accepted
        else request_fw_chunk (record accepted { fw_chunk_index = h.fw_chunk_index + 1 })

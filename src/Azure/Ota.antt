-- ===== src/Azure/Ota.antt =====
-- The OTA block of esp-idf-azure-dps/main/app_main.c: `trigger_ota` and `ota_task`.
pub mod Task
use winegrid_internship.Base.{
  ℕ, Bool, true, false, ◌&&◌, not, if◌then◌else◌, List, [], ◌∷◌, ◌++◌, Option, none, some, Bytes,
  codes, take, str_eq, ◌==◌,
}
use winegrid_internship.Nvs.{Nvs, pending_fw, failed_fw, load_nvs_str, save_nvs_str, erase_nvs_key}
use winegrid_internship.Azure.{Hub, report_fw_state}

-- What `esp_http_client_read` answers, and for data what `esp_ota_write` then answers. At a read of
-- no bytes, whether `esp_http_client_is_complete_data_received` holds.
pub data Read : Type 0 where
  read_failed : Read
  received : Bytes → Bool → Read
  closed : Bool → Read

-- What the HTTP client and the OTA library answer during one task, `true` for success.
pub record Answers : Type 0 where
  pub http_open : Bool
  pub ota_begin : Bool
  pub reads : List Read
  pub ota_end : Bool
  pub set_boot_partition : Bool

-- How a task ended. `waits`: the given reads ended first. `aborts`: an `ESP_ERROR_CHECK` failed.
pub data Outcome (S : Type 0) : Type 0 where
  waits : Outcome S
  aborts : Hub S → Outcome S
  ends : Hub S → Outcome S

-- `strchr(url, '\n')` takes the argument apart.
unfoldable pub before_newline : Bytes → Bytes
before_newline [] = []
before_newline (c ∷ cs) = if c == b'\n' then [] else c ∷ before_newline cs

unfoldable pub after_newline : Bytes → Bytes
after_newline [] = []
after_newline (c ∷ cs) = if c == b'\n' then cs else after_newline cs

-- `char new_version[32]`, filled by `strncpy`.
unfoldable pub task_version : Bytes → Bytes
unfolding after_newline
task_version arg = take 31 (after_newline arg)

-- The loop of `ota_task`: whether the download was good, and what was written.
unfoldable pub download : List Read → Bytes → Option (Bool × Bytes)
download [] image = none
download (read_failed ∷ rs) image = some (false, image)
download (received chunk false ∷ rs) image = some (false, image)
download (received chunk true ∷ rs) image = download rs (image ++ chunk)
download (closed complete ∷ rs) image = some (complete, image)

module _ (nvs : Nvs) where
  open nvs use {Store}

  -- At the label `done`.
  abbrev pub task_done : Hub Store → Outcome Store
  task_done h = ends (record h { ota_in_progress = false })

  abbrev pub erase_pending : Hub Store → Hub Store
  erase_pending h = record h { store = erase_nvs_key nvs h.store pending_fw }

  -- From the end of the download on.
  unfoldable pub install : Answers → Option (Bool × Bytes) → Hub Store → Outcome Store
  install a none h = waits
  install a (some (false, image)) h = task_done (erase_pending (report_fw_state (codes "FAILED") h))
  install a (some (true, image)) h =
      let verified = report_fw_state (codes "VERIFIED") h in
      if not (a.ota_end && a.set_boot_partition)
      then task_done (erase_pending (report_fw_state (codes "FAILED") verified))
      else ends (record (report_fw_state (codes "UPDATED") verified) {
        boot_image = some image;
        restarting = true;
      })

  -- `ota_task`.
  unfoldable pub ota_task : Bytes → Answers → Hub Store → Outcome Store
  unfolding install download task_version
  ota_task arg a h =
      if not a.http_open
      then task_done (report_fw_state (codes "FAILED") h)
      else if not a.ota_begin
      then task_done (report_fw_state (codes "FAILED") h)
      else elim (save_nvs_str nvs h.store pending_fw (task_version arg)) [
        | none ↦ aborts h
        | some s ↦
            install a (download a.reads [])
              (report_fw_state (codes "DOWNLOADING") (record h { store = s }))
      ]

  -- The end of `trigger_ota`, where the task is created.
  abbrev pub start_task : Bytes → Bytes → Hub Store → Hub Store
  start_task url new_version h = record h {
    ota_in_progress = true;
    ota_arg = some (url ++ b'\n' ∷ new_version);
  }

  -- `trigger_ota`; the buffer for the failed version has 32 bytes.
  unfoldable pub trigger_ota : Bytes → Bytes → Hub Store → Hub Store
  trigger_ota url new_version h =
      if h.ota_in_progress then h else elim (load_nvs_str nvs h.store failed_fw 32) [
        | none ↦ start_task url new_version h
        | some failed_version ↦
            if str_eq failed_version new_version
            then report_fw_state (codes "FAILED") h
            else start_task url new_version h
      ]

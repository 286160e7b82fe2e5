-- ===== src/ThingsBoard/Boot/Refusal.antt =====
-- What the next boot makes of an update that was begun, and what a start of the same update then does.
use winegrid_internship.Base.{
  true, false, some, Bytes, length, ◌<◌, ◌≡◌, ◌≢◌, refl, sym, ap, ◌∙◌, str_eq_refl, str_eq_ne,
  lt→ltb,
}
use winegrid_internship.Nvs.{Nvs, pending_fw, failed_fw, load_nvs_str}
use winegrid_internship.Nvs.Laws.{load-stored}
use winegrid_internship.ThingsBoard.{Sha256, Client, publish, send_telemetry_json, report_fw_state}
use winegrid_internship.ThingsBoard.Firmware.{
  Answers, refusal, start_fw_update, finish_fw_update, handle_fw_chunk_data,
}
use winegrid_internship.ThingsBoard.Boot.{reconcile_pending_ota}
use winegrid_internship.Azure.Boot
use winegrid_internship.Azure.Boot.Rollback.{reconcile_lem}

-- Both clients reconcile alike.
pub reconcile_alike :
    (nvs : Nvs) (current : Bytes) (s : nvs.Store)
    → Boot.reconcile_pending_ota nvs current s ≡ reconcile_pending_ota nvs current s
unfolding Boot.reconcile_pending_ota reconcile_pending_ota
reconcile_alike nvs current s = refl

module _ (nvs : Nvs) (sha : Sha256) where
  open nvs use {Store, stored}
  open sha use {Context}

  load_failed :
      (s : Store) (v : Bytes)
      → stored s failed_fw ≡ some v
      → length v < 32
      → load_nvs_str nvs s failed_fw 32 ≡ some v
  load_failed s v e h = load-stored nvs s failed_fw 32 ∙ rw e (rw (lt→ltb (length v) 32 h))

  -- The whole cycle. The image that boots is not of the version, of at most 31 bytes, that the last
  -- update recorded, and the flash can be opened for writing. From then on, as long as the flash keeps the failed version on record, a start
  -- of this version is refused whatever the OTA library would answer: the server is told, and
  -- nothing else happens.
  pub version_refused :
      (current : Bytes) (s t : Store) (a : Answers) (h : Client Store Context)
      → length h.fw_version < 32
      → stored s pending_fw ≡ some h.fw_version
      → h.fw_version ≢ current
      → nvs.opens_rw s ≡ true
      → reconcile_pending_ota nvs current s ≡ some t
      → stored h.store failed_fw ≡ stored t failed_fw
      → start_fw_update nvs sha a h ≡ some (send_telemetry_json (refusal nvs sha h.fw_version) h)
  unfolding start_fw_update
  version_refused current s t a h l p ne o e kept =
      let marked : stored h.store failed_fw ≡ some h.fw_version =
        kept
        ∙ (reconcile_lem nvs current h.fw_version s t p l o (reconcile_alike nvs current s ∙ e)).1
        ∙ rw (str_eq_ne h.fw_version current ne) in
      rw (load_failed h.store h.fw_version marked l, start_fw_update, str_eq_refl h.fw_version)

  failed_store :
      (a : Answers) (chunk : Bytes) (h : Client Store Context)
      → h.fw_update_in_progress ≡ true
      → a.ota_write ≡ false
      → (handle_fw_chunk_data nvs sha a chunk h).store ≡ h.store
  unfolding handle_fw_chunk_data finish_fw_update report_fw_state send_telemetry_json publish
  failed_store a chunk h running failed = simp (running, failed)

  -- A download that fails is held against the version, although its image was never complete: if a
  -- chunk of an update in progress cannot be written, and the device later boots the image that it
  -- had and can open the flash for writing, then every start of the same version, of at most 31 bytes, is refused from then on, as long
  -- as the flash keeps the version on record as the failed one.
  pub failed_download_refused :
      (current chunk : Bytes) (a b : Answers) (h k : Client Store Context) (t : Store)
      → h.fw_update_in_progress ≡ true
      → a.ota_write ≡ false
      → length k.fw_version < 32
      → stored h.store pending_fw ≡ some k.fw_version
      → k.fw_version ≢ current
      → nvs.opens_rw h.store ≡ true
      → reconcile_pending_ota nvs current (handle_fw_chunk_data nvs sha a chunk h).store ≡ some t
      → stored k.store failed_fw ≡ stored t failed_fw
      → start_fw_update nvs sha b k ≡ some (send_telemetry_json (refusal nvs sha k.fw_version) k)
  failed_download_refused current chunk a b h k t running failed l p ne o e kept =
      version_refused current h.store t b k l p ne o
        (ap (λ s. reconcile_pending_ota nvs current s) (sym (failed_store a chunk h running failed))
          ∙ e)
        kept

-- ===== src/Azure/Boot/LateCrash.antt =====
-- An image that crashes after `reconcile_pending_ota`, before it is marked valid.
use winegrid_internship.Base.{
  true, false, none, some, Bytes, length, ◌<◌, ◌≡◌, refl, ap, ◌∙◌, str_eq_refl,
}
use winegrid_internship.Nvs.{Nvs, Key, pending_fw, failed_fw, load_nvs_str}
use winegrid_internship.Nvs.Laws.{load-stored}
use winegrid_internship.Azure.{Hub}
use winegrid_internship.Azure.Ota.{trigger_ota, start_task}
use winegrid_internship.Azure.Boot.{reconcile_pending_ota}
use winegrid_internship.Azure.Boot.Rollback.{reconcile_lem}

module _ (nvs : Nvs) where
  open nvs use {Store, stored}

  load_nothing : (s : Store) (k : Key) → stored s k ≡ none → load_nvs_str nvs s k 32 ≡ none
  load_nothing s k n = rw (load-stored nvs s k 32, n) refl

  nothing_pending :
      (current : Bytes) (t : Store)
      → stored t pending_fw ≡ none
      → reconcile_pending_ota nvs current t ≡ some t
  unfolding reconcile_pending_ota
  nothing_pending current t p = rw (load_nothing t pending_fw p, reconcile_pending_ota) refl

  trigger_unfailed :
      (url version : Bytes) (h : Hub Store)
      → stored h.store failed_fw ≡ none
      → h.ota_in_progress ≡ false
      → trigger_ota nvs url version h ≡ start_task nvs url version h
  unfolding trigger_ota
  trigger_unfailed url version h f free = simp (free, load_nothing h.store failed_fw f)

  -- The protection misses an image that crashes late. The new image boots, finds its own version, of
  -- at most 31 bytes, pending and takes the update as confirmed: it opens the flash for writing and
  -- erases the key, which both succeed. If it is rolled back after that, the old image finds nothing pending and changes nothing, and where no version was on record as
  -- failed before, `trigger_ota` starts the same update again.
  pub late_crash_retries :
      (old version url : Bytes) (s t : Store) (h : Hub Store)
      → length version < 32
      → stored s pending_fw ≡ some version
      → stored s failed_fw ≡ none
      → nvs.opens_rw s ≡ true
      → nvs.erases s pending_fw ≡ true
      → reconcile_pending_ota nvs version s ≡ some t
      → h.store ≡ t
      → h.ota_in_progress ≡ false
      → (reconcile_pending_ota nvs old t ≡ some t)
        × (trigger_ota nvs url version h ≡ start_task nvs url version h)
  late_crash_retries old version url s t h l p f o can e at free =
      let confirmed = reconcile_lem nvs version version s t p l o e in
      (
        nothing_pending old t (confirmed.0 (str_eq_refl version) ∙ rw can refl),
        trigger_unfailed url version h
            (ap (λ x. stored x failed_fw) at ∙ confirmed.1 ∙ rw (str_eq_refl version) f) free,
      )

-- ===== src/Azure/Boot/Kept.antt =====
-- What `reconcile_pending_ota` leaves in the flash as it was.
use winegrid_internship.Base.{
  false, some, Bytes, ◌≡◌, refl, ap, ◌∙◌, str_eq, Bool-cases, Option-cases, none-ne-some, inl, inr,
}
use mathlib.Core.Option.{some-injective}
use winegrid_internship.Nvs.{
  Nvs, Key, key_eq, pending_fw, failed_fw, load_nvs_str, save_nvs_str, erase_nvs_key,
}
use winegrid_internship.Nvs.Laws.{stored-save, stored-erase_nvs}
use winegrid_internship.Azure.Boot.{reconcile_pending_ota}

module _ (nvs : Nvs) where
  open nvs use {Store, stored}

  closed_erase : (s : Store) (k : Key) → nvs.opens_rw s ≡ false → erase_nvs_key nvs s k ≡ s
  unfolding erase_nvs_key
  closed_erase s k closed = rw closed refl

  pub erase_kept :
      (s : Store) (k j : Key) → key_eq k j ≡ false → stored (erase_nvs_key nvs s k) j ≡ stored s j
  erase_kept s k j other = elim (Bool-cases (nvs.opens_rw s)) [
    | inl opens ↦ stored-erase_nvs nvs s k j opens ∙ rw other refl
    | inr closed ↦ ap (λ t. stored t j) (closed_erase s k closed)
  ]

  -- It changes no key but those of the pending and of the failed version.
  pub reconcile_kept :
      (current : Bytes) (s t : Store) (j : Key)
      → key_eq pending_fw j ≡ false
      → key_eq failed_fw j ≡ false
      → reconcile_pending_ota nvs current s ≡ some t
      → stored t j ≡ stored s j
  unfolding reconcile_pending_ota
  reconcile_kept current s t j p f e = elim (Option-cases (load_nvs_str nvs s pending_fw 32)) [
    | inl nothing ↦ rw (← some-injective _ _ (rw (nothing, reconcile_pending_ota) at e)) refl
    | inr (pending, loaded) ↦ elim (Bool-cases (str_eq pending current)) [
      | inl same ↦
          rw (← some-injective _ _ (rw (loaded, reconcile_pending_ota, same) at e))
            (erase_kept s pending_fw j p)
      | inr other ↦ elim (Option-cases (save_nvs_str nvs s failed_fw pending)) [
        | inl lost ↦ absurd (none-ne-some (rw (loaded, reconcile_pending_ota, other, lost) at e))
        | inr (u, saved) ↦
            rw (← some-injective _ _ (rw (loaded, reconcile_pending_ota, other, saved) at e)) (
              erase_kept u pending_fw j p
              ∙ (stored-save nvs s u failed_fw j pending saved ∙ rw f refl))
      ]
    ]
  ]

-- ===== src/ThingsBoard/Boot/Token.antt =====
-- The access token across boots.
use winegrid_internship.Base.{some, Bytes, length, ◌≤◌, ◌≡◌, refl, ◌∙◌, arith, lt→ltb}
use winegrid_internship.Nvs.{Nvs, access_token, pending_fw, failed_fw, load_nvs_str, save_nvs_str}
use winegrid_internship.Nvs.Laws.{load-save}
use winegrid_internship.ThingsBoard.Boot.{load_stored_token, save_token}

module _ (nvs : Nvs) (current : Bytes) where
  open nvs use {Store}

  -- A token of at most 63 bytes that was saved is the one that later boots load into their buffer
  -- of 64 bytes; neither the pending nor the failed version that they load is touched.
  pub load_stored_token-save_token :
      (s t : Store) (token : Bytes)
      → length token ≤ 63
      → save_token nvs current s token ≡ some t
      → (load_stored_token nvs current t 64 ≡ some token)
        × (load_nvs_str nvs t pending_fw 32 ≡ load_nvs_str nvs s pending_fw 32)
        × (load_nvs_str nvs t failed_fw 32 ≡ load_nvs_str nvs s failed_fw 32)
  unfolding load_stored_token save_token load_nvs_str save_nvs_str
  load_stored_token-save_token s t token l e = (
    (load-save nvs s t access_token access_token token 64 e).0
        ∙ rw (lt→ltb (length token) 64 (omega arith)) refl,
    (load-save nvs s t access_token pending_fw token 32 e).0,
    (load-save nvs s t access_token failed_fw token 32 e).0,
  )

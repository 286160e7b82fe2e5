-- ===== src/ThingsBoard/Firmware/Download.antt =====
-- A download whose chunks all arrive and are written.
use winegrid_internship.Base.{
  ℕ, ◌+◌, ◌<◌, ◌≡◌, refl, ap, ◌∙◌, arith, true, false, List, [], ◌∷◌, ◌++◌, some, Bytes, pos,
  length, length-append, append_assoc,
}
use winegrid_internship.Nvs.{Nvs}
use winegrid_internship.ThingsBoard.{Sha256, Client, publish}
use winegrid_internship.ThingsBoard.Firmware.{
  Answers, size_reached, size_equal, checksum_ok, request_fw_chunk, accept_chunk, finish_fw_update,
  handle_fw_chunk_data,
}
use winegrid_internship.ThingsBoard.Firmware.Verified.{
  IsTracked, accept-IsTracked, is_last, last_chunk, next_chunk,
}

-- Every OTA call succeeds.
pub record AllWell (a : Answers) : Type 0 where
  pub ota_write : a.ota_write ≡ true
  pub ota_end : a.ota_end ≡ true
  pub set_boot_partition : a.set_boot_partition ≡ true

-- Chunks of at least a byte, and at least one of them, with all their bytes in order.
pub data Chunks : List Bytes → Bytes → Type 0 where
  last : (chunk : Bytes) → 0 < length chunk → Chunks (chunk ∷ []) chunk
  more :
      {chunks : List Bytes} {rest : Bytes} (chunk : Bytes)
      → 0 < length chunk
      → Chunks chunks rest
      → Chunks (chunk ∷ chunks) (chunk ++ rest)

Chunks-pos : {chunks : List Bytes} {image : Bytes} → Chunks chunks image → 0 < length image
Chunks-pos (last chunk p) = p
Chunks-pos (more {rest} chunk p c) = omega (arith, length-append chunk rest, Chunks-pos c)

module _ (nvs : Nvs) (sha : Sha256) (a : Answers) (well : AllWell a) where
  open nvs use {Store}
  open sha use {Context, sha256}

  -- The chunks arrive one after the other.
  unfoldable pub deliver : List Bytes → Client Store Context → Client Store Context
  deliver [] h = h
  deliver (chunk ∷ chunks) h = deliver chunks (handle_fw_chunk_data nvs sha a chunk h)

  -- The device restarts into `image`.
  abbrev pub RestartsInto : Bytes → Client Store Context → Type 0
  RestartsInto image h = (h.boot_image ≡ some image) × (h.restarting ≡ true)

  finish_boots :
      (h : Client Store Context)
      → IsTracked nvs sha h
      → checksum_ok h.fw_checksum_algorithm h.fw_checksum (sha256 h.update_partition) ≡ true
      → RestartsInto h.update_partition (finish_fw_update nvs sha a true h)
  unfolding finish_fw_update
  finish_boots h t c =
      let good : checksum_ok h.fw_checksum_algorithm h.fw_checksum (sha.finish h.sha_ctx) ≡ true =
        ap (λ digest. checksum_ok h.fw_checksum_algorithm h.fw_checksum digest)
          (sha.finish_lem h.sha_ctx ∙ ap sha256 t.fed_all)
        ∙ c in
      simp (good, well.ota_end, well.set_boot_partition) (refl, refl)

  last_boots :
      (chunk : Bytes) (h : Client Store Context)
      → h.fw_update_in_progress ≡ true
      → IsTracked nvs sha h
      → h.fw_size ≡ pos (length h.update_partition + length chunk)
      → checksum_ok h.fw_checksum_algorithm h.fw_checksum (sha256 (h.update_partition ++ chunk))
        ≡ true
      → RestartsInto (h.update_partition ++ chunk) (handle_fw_chunk_data nvs sha a chunk h)
  unfolding size_reached size_equal
  last_boots chunk h running t size c =
      let ends : is_last nvs sha chunk h ≡ true = rw size (ground (arith, t.counted)) in
      let whole : size_equal (h.fw_received + length chunk) h.fw_size ≡ true =
        rw size (ground (arith, t.counted)) in
      rw (last_chunk nvs sha a chunk h running well.ota_write ends, whole)
        (finish_boots (accept_chunk nvs sha chunk h) (accept-IsTracked nvs sha chunk h t) c)

  not_last :
      (chunk rest : Bytes) (h : Client Store Context)
      → IsTracked nvs sha h
      → h.fw_size ≡ pos (length h.update_partition + length (chunk ++ rest))
      → 0 < length chunk
      → 0 < length rest
      → is_last nvs sha chunk h ≡ false
  unfolding size_reached
  not_last chunk rest h t size p q = rw size (ground (arith, t.counted, length-append chunk rest))

  deliver_one :
      (chunk : Bytes) (h : Client Store Context)
      → deliver (chunk ∷ []) h ≡ handle_fw_chunk_data nvs sha a chunk h
  unfolding deliver
  deliver_one chunk h = refl

  deliver_step :
      (chunk : Bytes) (chunks : List Bytes) (h k : Client Store Context)
      → handle_fw_chunk_data nvs sha a chunk h ≡ k
      → deliver (chunk ∷ chunks) h ≡ deliver chunks k
  unfolding deliver
  deliver_step chunk chunks h k e = ap (deliver chunks) e

  deliver_boots :
      {chunks : List Bytes} {image : Bytes} (h : Client Store Context)
      → Chunks chunks image
      → h.fw_update_in_progress ≡ true
      → IsTracked nvs sha h
      → h.fw_size ≡ pos (length h.update_partition + length image)
      → checksum_ok h.fw_checksum_algorithm h.fw_checksum (sha256 (h.update_partition ++ image))
        ≡ true
      → RestartsInto (h.update_partition ++ image) (deliver chunks h)
  unfolding request_fw_chunk publish
  deliver_boots h (last chunk p) running t size c =
      rw (deliver_one chunk h) (last_boots chunk h running t size c)
  deliver_boots h (more {chunks} {rest} chunk p cs) running t size c =
      let after =
        request_fw_chunk nvs sha
          (record (accept_chunk nvs sha chunk h) { fw_chunk_index = h.fw_chunk_index + 1 }) in
      let tracked = accept-IsTracked nvs sha chunk h t in
      let joined = append_assoc h.update_partition chunk rest in
      rw
        (
          deliver_step chunk chunks h after (
              next_chunk nvs sha a chunk h running well.ota_write
                (not_last chunk rest h t size p (Chunks-pos cs))),
          ← joined,
        )
        (deliver_boots {chunks = chunks} after cs running
          (record { fed_all = tracked.fed_all; counted = tracked.counted })
          (size
            ∙ ap pos
                (omega (arith, length-append h.update_partition chunk, length-append chunk rest)))
          (rw joined c))

  -- While an update is in progress and nothing of it has arrived, let the image arrive in chunks of
  -- at least a byte, whatever their sizes, and let every OTA call succeed. If the image has the
  -- announced size and its SHA-256 is the announced checksum, then the device restarts, and into
  -- this image.
  pub deliver_installs :
      (chunks : List Bytes) (image : Bytes) (h : Client Store Context)
      → Chunks chunks image
      → h.fw_update_in_progress ≡ true
      → IsTracked nvs sha h
      → h.update_partition ≡ []
      → h.fw_size ≡ pos (length image)
      → checksum_ok h.fw_checksum_algorithm h.fw_checksum (sha256 image) ≡ true
      → (deliver chunks h).boot_image ≡ some image × (deliver chunks h).restarting ≡ true
  deliver_installs chunks image h cs running t empty size c =
      let whole : h.update_partition ++ image ≡ image = ap (λ written. written ++ image) empty in
      rw whole at (
        deliver_boots {chunks = chunks} h cs running t
          (size ∙ ap pos (omega (arith, ap (length {A = ℕ}) empty))) (rw whole c))

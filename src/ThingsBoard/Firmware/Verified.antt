-- ===== src/ThingsBoard/Firmware/Verified.antt =====
-- What the steps of the update keep: the client knows what it wrote, and boots nothing unverified.
use winegrid_internship.Base.{
  ℕ, ◌⊎◌, ◌+◌, ◌≡◌, refl, sym, ap, ◌∙◌, arith, Bool, true, false, not, ◌&&◌, ◌||◌, ◌==◌, ◌++◌, none,
  some, Bytes, length, length-append, Bool-cases, Option-cases, none-ne-some, inl, inr, str_eq,
}
use mathlib.Core.Option.{some-injective}
use winegrid_internship.Nvs.{Nvs, pending_fw, failed_fw, load_nvs_str, save_nvs_str}
use winegrid_internship.ThingsBoard.{Sha256, Client, publish, send_telemetry_json, report_fw_state}
use winegrid_internship.ThingsBoard.Firmware.{
  Answers, size_reached, size_equal, checksum_ok, request_fw_chunk, begin_fw_update,
  start_fw_update, accept_chunk, finish_fw_update, handle_fw_chunk_data,
}

module _ (nvs : Nvs) (sha : Sha256) where
  open nvs use {Store}
  open sha use {Context, fed, sha256}

  -- The SHA context was fed what the partition holds, and its length is counted.
  pub record IsTracked (h : Client Store Context) : Type 0 where
    pub fed_all : fed h.sha_ctx ≡ h.update_partition
    pub counted : h.fw_received ≡ length h.update_partition

  -- No image was made bootable, and an update in progress is tracked.
  pub record IsReady (h : Client Store Context) : Type 0 where
    pub tracked : (h.fw_update_in_progress ≡ false) ⊎ IsTracked h
    pub unbooted : h.boot_image ≡ none

  -- The bootable image has the announced size and checksum, and the device restarts into it.
  pub record Boots (image : Bytes) (h : Client Store Context) : Type 0 where
    pub bootable : h.boot_image ≡ some image
    pub sized : size_equal (length image) h.fw_size ≡ true
    pub checked : checksum_ok h.fw_checksum_algorithm h.fw_checksum (sha256 image) ≡ true
    pub restarts : h.restarting ≡ true

  abbrev pub IsSafe : Client Store Context → Type 0
  IsSafe h = IsReady h ⊎ ((image : Bytes) × Boots image h)

  pub accept-IsTracked :
      (chunk : Bytes) (h : Client Store Context)
      → IsTracked h
      → IsTracked (accept_chunk nvs sha chunk h)
  accept-IsTracked chunk h t = record {
    fed_all = sha.fed-update h.sha_ctx chunk ∙ ap (λ written. written ++ chunk) t.fed_all;
    counted = omega (arith, t.counted, length-append h.update_partition chunk);
  }

  checked_image :
      (h : Client Store Context)
      → IsTracked h
      → checksum_ok h.fw_checksum_algorithm h.fw_checksum (sha.finish h.sha_ctx) ≡ true
      → checksum_ok h.fw_checksum_algorithm h.fw_checksum (sha256 h.update_partition) ≡ true
  checked_image h t c =
      ap (λ digest. checksum_ok h.fw_checksum_algorithm h.fw_checksum digest)
        (sym (sha.finish_lem h.sha_ctx ∙ ap sha256 t.fed_all))
      ∙ c

  pub finish-IsSafe :
      (a : Answers) (complete : Bool) (h : Client Store Context)
      → IsTracked h
      → h.boot_image ≡ none
      → size_equal h.fw_received h.fw_size ≡ complete
      → IsSafe (finish_fw_update nvs sha a complete h)
  unfolding finish_fw_update report_fw_state send_telemetry_json publish
  finish-IsSafe a false h t u s = inl (record { tracked = inl refl; unbooted = u })
  finish-IsSafe a true h t u s =
      elim (Bool-cases (checksum_ok h.fw_checksum_algorithm h.fw_checksum (sha.finish h.sha_ctx))) [
        | inr bad ↦ rw bad (inl (record { tracked = inl refl; unbooted = u }))
        | inl good ↦ elim (Bool-cases a.ota_end) [
          | inr bad ↦ simp (good, bad) (inl (record { tracked = inl refl; unbooted = u }))
          | inl ended ↦ elim (Bool-cases a.set_boot_partition) [
            | inr bad ↦ simp (good, ended, bad) (inl (record { tracked = inl refl; unbooted = u }))
            | inl set ↦
                simp (good, ended, set)
                  (inr (
                    h.update_partition,
                    record {
                      bootable = refl;
                      sized = ap (λ n. size_equal n h.fw_size) (sym t.counted) ∙ s;
                      checked = checked_image h t good;
                      restarts = refl;
                    },
                  ))
          ]
        ]
      ]

  -- A client that differs in no field of the update is as ready.
  pub same-IsReady :
      (h k : Client Store Context)
      → k.fw_update_in_progress ≡ h.fw_update_in_progress
      → k.sha_ctx ≡ h.sha_ctx
      → k.update_partition ≡ h.update_partition
      → k.fw_received ≡ h.fw_received
      → k.boot_image ≡ h.boot_image
      → IsReady h
      → IsReady k
  same-IsReady h k progress ctx partition received boot r = elim r.tracked [
    | inl idle ↦ record { tracked = inl (progress ∙ idle); unbooted = boot ∙ r.unbooted }
    | inr t ↦ record {
      tracked = inr (record {
        fed_all = ap fed ctx ∙ t.fed_all ∙ sym partition;
        counted = received ∙ t.counted ∙ ap (length {A = ℕ}) (sym partition);
      });
      unbooted = boot ∙ r.unbooted;
    }
  ]

  -- The chunk after which the download ends.
  abbrev pub is_last : Bytes → Client Store Context → Bool
  is_last chunk h = length chunk == 0 || size_reached (h.fw_received + length chunk) h.fw_size

  module _ (a : Answers) (chunk : Bytes) (h : Client Store Context)
      (running : h.fw_update_in_progress ≡ true) (written : a.ota_write ≡ true) where
    pub last_chunk :
        is_last chunk h ≡ true
        → handle_fw_chunk_data nvs sha a chunk h
          ≡ finish_fw_update nvs sha a
              (size_equal (h.fw_received + length chunk) h.fw_size)
              (accept_chunk nvs sha chunk h)
    unfolding handle_fw_chunk_data
    last_chunk last = simp (running, written, last) refl

    pub next_chunk :
        is_last chunk h ≡ false
        → handle_fw_chunk_data nvs sha a chunk h
          ≡ request_fw_chunk nvs sha
              (record (accept_chunk nvs sha chunk h) { fw_chunk_index = h.fw_chunk_index + 1 })
    unfolding handle_fw_chunk_data
    next_chunk more = simp (running, written, more) refl

    accepted-IsSafe :
        IsTracked h → h.boot_image ≡ none → IsSafe (handle_fw_chunk_data nvs sha a chunk h)
    unfolding request_fw_chunk publish
    accepted-IsSafe t u =
        let after = accept_chunk nvs sha chunk h in
        let accepted = accept-IsTracked chunk h t in
        elim (Bool-cases (is_last chunk h)) [
          | inl last ↦
              rw (last_chunk last)
                (finish-IsSafe a (size_equal after.fw_received h.fw_size) after accepted u refl)
          | inr more ↦ rw (next_chunk more) (
              inl (
                same-IsReady after _ refl refl refl refl refl
                  (record { tracked = inr accepted; unbooted = u })))
        ]

  -- A chunk that arrives while no image is bootable leaves none bootable, or a verified one.
  pub chunk-IsSafe :
      (a : Answers) (chunk : Bytes) (h : Client Store Context)
      → IsReady h
      → IsSafe (handle_fw_chunk_data nvs sha a chunk h)
  unfolding handle_fw_chunk_data finish_fw_update report_fw_state send_telemetry_json publish
  chunk-IsSafe a chunk h r = elim (Bool-cases h.fw_update_in_progress) [
    | inr idle ↦ simp idle (inl r)
    | inl running ↦ elim (Bool-cases a.ota_write) [
      | inr failed ↦
          simp (running, failed) (inl (record { tracked = inl refl; unbooted = r.unbooted }))
      | inl written ↦ elim r.tracked [
        | inl idle ↦ absurd (false-ne-true (sym idle ∙ running))
        | inr t ↦ accepted-IsSafe a chunk h running written t r.unbooted
      ]
    ]
  ]
    where
      false-ne-true : false ≡ true → ⊥
      false-ne-true e = cc

  begin-IsReady :
      (a : Answers) (h t : Client Store Context)
      → IsReady h
      → begin_fw_update nvs sha a h ≡ some t
      → IsReady t
  unfolding begin_fw_update request_fw_chunk report_fw_state send_telemetry_json publish
  begin-IsReady a h t r e = elim (Bool-cases (not (a.next_partition && a.ota_begin))) [
    | inl refused ↦
        rw (← some-injective _ _ (rw refused at e)) (same-IsReady h _ refl refl refl refl refl r)
    | inr begun ↦ elim (Option-cases (save_nvs_str nvs h.store pending_fw h.fw_version)) [
      | inl lost ↦ absurd (none-ne-some (rw (begun, lost) at e))
      | inr (s, saved) ↦ rw (← some-injective _ _ (rw (begun, saved) at e)) (record {
        tracked = inr (record { fed_all = sha.fed-starts; counted = refl });
        unbooted = r.unbooted;
      })
    ]
  ]

  -- The start of an update, or its refusal, leaves no image bootable.
  pub start-IsReady :
      (a : Answers) (h t : Client Store Context)
      → IsReady h
      → start_fw_update nvs sha a h ≡ some t
      → IsReady t
  unfolding start_fw_update send_telemetry_json publish
  start-IsReady a h t r e = elim (Option-cases (load_nvs_str nvs h.store failed_fw 32)) [
    | inl none_failed ↦ begin-IsReady a h t r (rw (none_failed, start_fw_update) at e)
    | inr (failed_version, failed) ↦ elim (Bool-cases (str_eq failed_version h.fw_version)) [
      | inl same ↦
          rw (← some-injective _ _ (rw (failed, start_fw_update, same) at e))
            (same-IsReady h _ refl refl refl refl refl r)
      | inr other ↦ begin-IsReady a h t r (rw (failed, start_fw_update, other) at e)
    ]
  ]

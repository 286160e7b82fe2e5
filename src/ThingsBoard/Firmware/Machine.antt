-- ===== src/ThingsBoard/Firmware/Machine.antt =====
-- The firmware update as a machine of three states, which is given the chunks and the announcements
-- that arrive, and the steps that a chunk and the start of an update are.
use winegrid_internship.Base.{
  ◌+◌, length-append, arith, ◌⊎◌, ◌≡◌, refl, sym, ap, ◌∙◌, Bool, true, false, not, ◌&&◌, [], ◌++◌,
  Option, none, some, Bytes, ℤ, length, str_eq, Bool-cases, Option-cases, none-ne-some, inl, inr,
}
use mathlib.Core.Option.{some-injective}
use winegrid_internship.Nvs.{Nvs, pending_fw, failed_fw, load_nvs_str, save_nvs_str}
use winegrid_internship.ThingsBoard.{Sha256, Client, publish, send_telemetry_json, report_fw_state}
use winegrid_internship.ThingsBoard.Firmware.{
  Answers, size_equal, size_reached, checksum_ok, request_fw_chunk, begin_fw_update,
  start_fw_update, accept_chunk, finish_fw_update, handle_fw_chunk_data,
}
use winegrid_internship.ThingsBoard.Firmware.Verified.{
  IsReady, IsTracked, is_last, last_chunk, next_chunk, accept-IsTracked,
}

-- No update, one that has received the bytes, or an image that the next boot starts.
pub data DownloadState : Type 0 where
  idle : DownloadState
  receiving : Bytes → DownloadState
  installed : Bytes → DownloadState

-- The announced size, checksum algorithm and checksum.
pub record Announced : Type 0 where
  pub size : ℤ
  pub algorithm : Bytes
  pub checksum : Bytes

-- What the machine is given: a message that is none of the update's business, one with attributes,
-- which says how the announcement changes, or a chunk.
pub data Input : Type 0 where
  quiet : Input
  attributes : (Announced → Announced) → Input
  chunk : Bytes → Input

module _ (nvs : Nvs) (sha : Sha256) where
  open nvs use {Store}
  open sha use {Context, sha256}

  pub record IsVerified (a : Announced) (image : Bytes) : Type 0 where
    pub sized : size_equal (length image) a.size ≡ true
    pub checked : checksum_ok a.algorithm a.checksum (sha256 image) ≡ true

  -- What a message may do to an update and to what is announced of it.
  pub data UpdateStep : Input → Announced → DownloadState → Announced → DownloadState → Type 0 where
    stay : {a : Announced} {u : DownloadState} → UpdateStep quiet a u a u
    tell :
        {a : Announced} {u : DownloadState} (f : Announced → Announced)
        → UpdateStep (attributes f) a u (f a) u
    begin :
        {a : Announced} (f : Announced → Announced)
        → UpdateStep (attributes f) a idle (f a) (receiving [])
    ignore : {a : Announced} (bytes : Bytes) → UpdateStep (chunk bytes) a idle a idle
    receive :
        {a : Announced} {got : Bytes} (bytes : Bytes)
        → size_reached (length (got ++ bytes)) a.size ≡ false
        → UpdateStep (chunk bytes) a (receiving got) a (receiving (got ++ bytes))
    abandon :
        {a : Announced} {got : Bytes} (bytes : Bytes)
        → UpdateStep (chunk bytes) a (receiving got) a idle
    finalize :
        {a : Announced} {got : Bytes} (bytes : Bytes)
        → IsVerified a (got ++ bytes)
        → UpdateStep (chunk bytes) a (receiving got) a (installed (got ++ bytes))

  abbrev pub state_of : Bool → Bytes → Option Bytes → DownloadState
  state_of in_progress partition (some image) = installed image
  state_of true partition none = receiving partition
  state_of false partition none = idle

  -- The state that a client stands for.
  abbrev pub update_state : Client Store Context → DownloadState
  update_state h = state_of h.fw_update_in_progress h.update_partition h.boot_image

  abbrev pub announced : Client Store Context → Announced
  announced h = record {
    size = h.fw_size;
    algorithm = h.fw_checksum_algorithm;
    checksum = h.fw_checksum;
  }

  checked_image :
      (h : Client Store Context)
      → IsTracked nvs sha h
      → size_equal h.fw_received h.fw_size ≡ true
      → checksum_ok h.fw_checksum_algorithm h.fw_checksum (sha.finish h.sha_ctx) ≡ true
      → IsVerified (announced h) h.update_partition
  checked_image h t s c = record {
    sized = ap (λ n. size_equal n h.fw_size) (sym t.counted) ∙ s;
    checked =
        ap (λ digest. checksum_ok h.fw_checksum_algorithm h.fw_checksum digest)
          (sym (sha.finish_lem h.sha_ctx ∙ ap sha256 t.fed_all))
        ∙ c;
  }

  finish_state :
      (a : Answers) (complete : Bool) (h : Client Store Context)
      → IsTracked nvs sha h
      → h.boot_image ≡ none
      → size_equal h.fw_received h.fw_size ≡ complete
      → (update_state (finish_fw_update nvs sha a complete h) ≡ idle)
        ⊎ ((update_state (finish_fw_update nvs sha a complete h) ≡ installed h.update_partition)
            × IsVerified (announced h) h.update_partition)
  unfolding finish_fw_update report_fw_state send_telemetry_json publish
  finish_state a false h t u s = inl (simp u)
  finish_state a true h t u s =
      elim (Bool-cases (checksum_ok h.fw_checksum_algorithm h.fw_checksum (sha.finish h.sha_ctx))) [
        | inr bad ↦ inl (simp (bad, u))
        | inl good ↦ elim (Bool-cases a.ota_end) [
          | inr bad ↦ inl (simp (good, bad, u))
          | inl ended ↦ elim (Bool-cases a.set_boot_partition) [
            | inr bad ↦ inl (simp (good, ended, bad, u))
            | inl set ↦ inr (simp (good, ended, set), checked_image h t s good)
          ]
        ]
      ]

  finish_announced :
      (a : Answers) (complete : Bool) (h : Client Store Context)
      → announced (finish_fw_update nvs sha a complete h) ≡ announced h
  unfolding finish_fw_update report_fw_state send_telemetry_json publish
  finish_announced a false h = refl
  finish_announced a true h =
      elim (Bool-cases (checksum_ok h.fw_checksum_algorithm h.fw_checksum (sha.finish h.sha_ctx))) [
        | inr bad ↦ simp bad refl
        | inl good ↦ elim (Bool-cases a.ota_end) [
          | inr bad ↦ simp (good, bad) refl
          | inl ended ↦ elim (Bool-cases a.set_boot_partition) [
            | inr bad ↦ simp (good, ended, bad) refl
            | inl set ↦ simp (good, ended, set) refl
          ]
        ]
      ]

  module _ (i : Input) (a b : Announced) {c : Announced} {u v x y : DownloadState} where
    step_between : c ≡ b → u ≡ x → v ≡ y → UpdateStep i a x b y → UpdateStep i a u c v
    step_between e p q s = rw (e, p, q) s

  chunk_announced :
      (a : Answers) (bytes : Bytes) (h : Client Store Context)
      → announced (handle_fw_chunk_data nvs sha a bytes h) ≡ announced h
  unfolding handle_fw_chunk_data report_fw_state send_telemetry_json publish request_fw_chunk
  chunk_announced a bytes h =
      let after = accept_chunk nvs sha bytes h in
      elim (Bool-cases h.fw_update_in_progress) [
        | inr off ↦ simp off refl
        | inl running ↦ elim (Bool-cases a.ota_write) [
          | inr failed ↦ simp (running, failed) (finish_announced a false h)
          | inl written ↦ elim (Bool-cases (is_last nvs sha bytes h)) [
            | inl last ↦
                ap announced (last_chunk nvs sha a bytes h running written last)
                ∙ finish_announced a (size_equal after.fw_received h.fw_size) after
            | inr more ↦ ap announced (next_chunk nvs sha a bytes h running written more)
          ]
        ]
      ]

  still_open :
      (bytes : Bytes) (h : Client Store Context)
      → IsTracked nvs sha h
      → is_last nvs sha bytes h ≡ false
      → size_reached (length (h.update_partition ++ bytes)) h.fw_size ≡ false
  still_open bytes h t more =
      let open_ : size_reached (h.fw_received + length bytes) h.fw_size ≡ false = ground arith in
      let total : length (h.update_partition ++ bytes) ≡ h.fw_received + length bytes =
        omega (arith, t.counted, length-append h.update_partition bytes) in
      rw total open_

  -- A chunk that arrives while no image is bootable.
  pub chunk_step :
      (a : Answers) (bytes : Bytes) (h : Client Store Context)
      → IsReady nvs sha h
      → let t = handle_fw_chunk_data nvs sha a bytes h in
        UpdateStep (chunk bytes) (announced h) (update_state h) (announced t) (update_state t)
  unfolding handle_fw_chunk_data finish_fw_update report_fw_state send_telemetry_json publish
      request_fw_chunk
  chunk_step a bytes h r =
      let an = announced h in
      let same = chunk_announced a bytes h in
      elim (Bool-cases h.fw_update_in_progress) [
        | inr off ↦
            let rests : update_state h ≡ idle = simp (off, r.unbooted) in
            step_between (chunk bytes) an an same rests (simp (off, r.unbooted)) (ignore bytes)
        | inl running ↦
            let before : update_state h ≡ receiving h.update_partition =
              simp (running, r.unbooted) in
            elim (Bool-cases a.ota_write) [
              | inr failed ↦
                  step_between (chunk bytes) an an same before (simp (running, failed, r.unbooted))
                    (abandon bytes)
              | inl written ↦ elim r.tracked [
                | inl off ↦ absurd (false-ne-true (sym off ∙ running))
                | inr tracked ↦
                    let after = accept_chunk nvs sha bytes h in
                    elim (Bool-cases (is_last nvs sha bytes h)) [
                      | inr more ↦
                          step_between (chunk bytes) an an same before
                            (ap update_state (next_chunk nvs sha a bytes h running written more)
                              ∙ simp (running, r.unbooted))
                            (receive bytes (still_open bytes h tracked more))
                      | inl last ↦
                          let ended =
                            ap update_state (last_chunk nvs sha a bytes h running written last) in
                          elim (finish_state a (size_equal after.fw_received h.fw_size) after
                            (accept-IsTracked nvs sha bytes h tracked) r.unbooted refl) [
                              | inl failed ↦
                                  step_between (chunk bytes) an an same before (ended ∙ failed)
                                    (abandon bytes)
                              | inr (set, verified) ↦
                                  step_between (chunk bytes) an an same before (ended ∙ set)
                                    (finalize bytes verified)
                            ]
                    ]
              ]
            ]
      ]
    where
      false-ne-true : false ≡ true → ⊥
      false-ne-true e = cc

  -- What the start of an update leaves: nothing, or an update that begins; the announcement stays.
  abbrev Starts : Client Store Context → Client Store Context → Type 0
  Starts h t =
      (announced t ≡ announced h)
      × ((update_state t ≡ update_state h) ⊎ (update_state t ≡ receiving []))

  begin_step :
      (a : Answers) (h t : Client Store Context)
      → h.boot_image ≡ none
      → begin_fw_update nvs sha a h ≡ some t
      → Starts h t
  unfolding begin_fw_update request_fw_chunk report_fw_state send_telemetry_json publish
  begin_step a h t b e = elim (Bool-cases (not (a.next_partition && a.ota_begin))) [
    | inl refused ↦ rw (← some-injective _ _ (rw refused at e)) (refl, inl refl)
    | inr begun ↦ elim (Option-cases (save_nvs_str nvs h.store pending_fw h.fw_version)) [
      | inl lost ↦ absurd (none-ne-some (rw (begun, lost) at e))
      | inr (s, saved) ↦ rw (← some-injective _ _ (rw (begun, saved) at e)) (refl, inr (simp b))
    ]
  ]

  start_Starts :
      (a : Answers) (h t : Client Store Context)
      → h.boot_image ≡ none
      → start_fw_update nvs sha a h ≡ some t
      → Starts h t
  unfolding start_fw_update send_telemetry_json publish
  start_Starts a h t b e = elim (Option-cases (load_nvs_str nvs h.store failed_fw 32)) [
    | inl none_failed ↦ begin_step a h t b (rw (none_failed, start_fw_update) at e)
    | inr (failed_version, failed) ↦ elim (Bool-cases (str_eq failed_version h.fw_version)) [
      | inl same ↦
          rw (← some-injective _ _ (rw (failed, start_fw_update, same) at e)) (refl, inl refl)
      | inr other_version ↦ begin_step a h t b (rw (failed, start_fw_update, other_version) at e)
    ]
  ]

  -- The start of an update after attributes that changed the announcement.
  pub start_step :
      (a : Answers) (f : Announced → Announced) (an : Announced) (h t : Client Store Context)
      → announced h ≡ f an
      → update_state h ≡ idle
      → h.boot_image ≡ none
      → start_fw_update nvs sha a h ≡ some t
      → UpdateStep (attributes f) an idle (announced t) (update_state t)
  start_step a f an h t told rests b e =
      let (same, outcome) = start_Starts a h t b e in
      elim outcome [
        | inl kept ↦
            step_between (attributes f) an (f an) (same ∙ told) refl (kept ∙ rests) (tell f)
        | inr begun ↦ step_between (attributes f) an (f an) (same ∙ told) refl begun (begin f)
      ]

-- ===== src/Azure/Boot/Rollback.antt =====
-- The protection against an update loop: what the next boot makes of a pending version, and what
-- `trigger_ota` then does with the same version.
use mathlib.Core.Option.{some-injective}
use winegrid_internship.Base.{
  none-ne-some, Option-cases, ℕ, true, false, if◌then◌else◌, none, some, Bytes, codes, length, take,
  ◌<◌, ◌≡◌, ◌≢◌, sym, ap, ◌∙◌, arith, str_eq, str_eq_refl, str_eq_ne, lt→ltb, length-take,
  Bool-cases, inl, inr, refl, [], ◌∷◌, ◌++◌, ◌==◌, subst,
}
use winegrid_internship.Nvs.{
  Nvs, Key, pending_fw, failed_fw, load_nvs_str, save_nvs_str, erase_nvs_key,
}
use winegrid_internship.Nvs.Laws.{load-stored, stored-save, stored-erase_nvs, opens_rw-save}
use winegrid_internship.Azure.{Hub, report_fw_state}
use winegrid_internship.Azure.Ota.{
  Answers, ends, after_newline, task_version, ota_task, trigger_ota, start_task,
}
use winegrid_internship.Azure.Ota.Task.{TaskResult, ota_task-result}
use winegrid_internship.Azure.Boot.{reconcile_pending_ota}

-- A text without a line feed.
abbrev pub NoNewline : Bytes → Type 0
NoNewline [] = Unit
NoNewline (c ∷ cs) = (c ≢ b'\n') × NoNewline cs

==-false : (m n : ℕ) → m ≢ n → (m == n) ≡ false
==-false m n ne = ground arith

false-ne-true : false ≡ true → ⊥
false-ne-true e = cc

module _ (nvs : Nvs) where
  open nvs use {Store, stored}

  load_short :
      (s : Store) (k : Key) (v : Bytes)
      → stored s k ≡ some v
      → length v < 32
      → load_nvs_str nvs s k 32 ≡ some v
  load_short s k v e h = load-stored nvs s k 32 ∙ rw e (rw (lt→ltb (length v) 32 h))

  module _ (current version : Bytes) (s : Store) (p : stored s pending_fw ≡ some version)
      (l : length version < 32) where
    reconcile_same :
        str_eq version current ≡ true
        → reconcile_pending_ota nvs current s ≡ some (erase_nvs_key nvs s pending_fw)
    unfolding reconcile_pending_ota
    reconcile_same same = rw (load_short s pending_fw version p l, reconcile_pending_ota, same)

    reconcile_other :
        (u : Store)
        → str_eq version current ≡ false
        → save_nvs_str nvs s failed_fw version ≡ some u
        → reconcile_pending_ota nvs current s ≡ some (erase_nvs_key nvs u pending_fw)
    unfolding reconcile_pending_ota
    reconcile_other u other saved =
        rw (load_short s pending_fw version p l, reconcile_pending_ota, other, saved)

    reconcile_aborts :
        str_eq version current ≡ false
        → save_nvs_str nvs s failed_fw version ≡ none
        → reconcile_pending_ota nvs current s ≡ none
    unfolding reconcile_pending_ota
    reconcile_aborts other saved =
        rw (load_short s pending_fw version p l, reconcile_pending_ota, other, saved)

  -- A boot of an image whose version is not the pending one marks the pending version as failed.
  -- A boot of the pending version keeps the failed one as it was,
  -- and has none pending either, unless its key cannot be erased.
  pub reconcile_lem :
      (current version : Bytes) (s t : Store)
      → stored s pending_fw ≡ some version
      → length version < 32
      → nvs.opens_rw s ≡ true
      → reconcile_pending_ota nvs current s ≡ some t
      → (str_eq version current ≡ true
          → stored t pending_fw ≡ (if nvs.erases s pending_fw then none else some version))
        × (stored t failed_fw
            ≡ (if str_eq version current then stored s failed_fw else some version))
  reconcile_lem current version s t p l o e = elim (Bool-cases (str_eq version current)) [
    | inl same ↦
        let at : erase_nvs_key nvs s pending_fw ≡ t =
          some-injective _ _ (sym (reconcile_same current version s p l same) ∙ e) in
        rw (← at, same)
          (
            λ _.
                stored-erase_nvs nvs s pending_fw pending_fw o
                ∙ ap (λ v. if nvs.erases s pending_fw then none else v) p,
            stored-erase_nvs nvs s pending_fw failed_fw o,
          )
    | inr other ↦ elim (Option-cases (save_nvs_str nvs s failed_fw version)) [
      | inl lost ↦
          absurd (none-ne-some (sym (reconcile_aborts current version s p l other lost) ∙ e))
      | inr (u, saved) ↦
          let at : erase_nvs_key nvs u pending_fw ≡ t =
            some-injective _ _ (sym (reconcile_other current version s p l u other saved) ∙ e) in
          let opens = opens_rw-save nvs s u failed_fw version saved in
          rw (← at, other)
            (
              λ same. absurd (false-ne-true same),
              stored-erase_nvs nvs u pending_fw failed_fw opens
                  ∙ stored-save nvs s u failed_fw failed_fw version saved,
            )
    ]
  ]

  -- The whole cycle. A task for `version`, of at most 31 bytes, restarted and left `s`, where
  -- the flash can be opened for writing. The next boot runs an image of another version, so the
  -- update was rolled back, and leaves `t`. From then on, whatever the URL and as long as the flash keeps the failed version on record, `trigger_ota`
  -- refuses that version: it reports FAILED and does nothing else, or, while another task is running,
  -- does nothing at all.
  pub rollback_refused :
      (current version url : Bytes) (s t : Store) (h : Hub Store)
      → length version < 32
      → stored s pending_fw ≡ some version
      → version ≢ current
      → nvs.opens_rw s ≡ true
      → reconcile_pending_ota nvs current s ≡ some t
      → stored h.store failed_fw ≡ stored t failed_fw
      → trigger_ota nvs url version h
        ≡ (if h.ota_in_progress then h else report_fw_state (codes "FAILED") h)
  unfolding trigger_ota
  rollback_refused current version url s t h l p ne o e kept =
      let marked : stored h.store failed_fw ≡ some version =
        kept ∙ (reconcile_lem current version s t p l o e).1 ∙ rw (str_eq_ne version current ne) in
      rw (load_short h.store failed_fw version marked l, trigger_ota, str_eq_refl version) refl

  after_newline_lem :
      (url version : Bytes) → NoNewline url → after_newline (url ++ b'\n' ∷ version) ≡ version
  unfolding after_newline
  after_newline_lem [] version n = refl
  after_newline_lem (c ∷ url) version n =
      rw (==-false c b'\n' n.0, after_newline) (after_newline_lem url version n.1)

  task_version_lem :
      (url version : Bytes)
      → NoNewline url
      → task_version (url ++ b'\n' ∷ version) ≡ take 31 version
  unfolding task_version
  task_version_lem url version n = ap (take 31) (after_newline_lem url version n)

  pending_after :
      (arg : Bytes) (a : Answers) (h h' : Hub Store)
      → ota_task nvs arg a h ≡ ends h'
      → h.restarting ≡ false
      → h'.restarting ≡ true
      → stored h'.store pending_fw ≡ some (task_version arg)
  pending_after arg a h h' e before after =
      elim (subst (TaskResult nvs arg a h) e (ota_task-result nvs arg a h)) [
        | inl installed ↦ installed.4
        | inr failed ↦ absurd (false-ne-true (sym before ∙ sym failed.1 ∙ after))
      ]

  -- A version of more than 31 bytes is not protected. The task that `trigger_ota` starts for it, from
  -- a URL without a line feed, ends in a restart; the next boot can open the flash for writing and
  -- runs an image whose version is not the first 31 bytes of it, so the update was rolled back. As long as the flash keeps what this
  -- boot marked as failed, `trigger_ota` starts the same update again, unless a task is running.
  pub rollback_retries_long :
      (current version url : Bytes) (a : Answers) (h h' k : Hub Store) (t : Store)
      → 31 < length version
      → NoNewline url
      → ota_task nvs (url ++ b'\n' ∷ version) a h ≡ ends h'
      → h.restarting ≡ false
      → h'.restarting ≡ true
      → take 31 version ≢ current
      → nvs.opens_rw h'.store ≡ true
      → reconcile_pending_ota nvs current h'.store ≡ some t
      → stored k.store failed_fw ≡ stored t failed_fw
      → trigger_ota nvs url version k
        ≡ (if k.ota_in_progress then k else start_task nvs url version k)
  unfolding trigger_ota
  rollback_retries_long current version url a h h' k t long n ends_ before after ne o e kept =
      let p : stored h'.store pending_fw ≡ some (take 31 version) =
        pending_after (url ++ b'\n' ∷ version) a h h' ends_ before after
        ∙ ap some (task_version_lem url version n) in
      let short : length (take 31 version) < 32 = omega (arith, length-take 31 version) in
      let marked : stored k.store failed_fw ≡ some (take 31 version) =
        kept
        ∙ (reconcile_lem current (take 31 version) h'.store t p short o e).1
        ∙ rw (str_eq_ne (take 31 version) current ne) in
      let cut : take 31 version ≢ version =
        λ same. absurd (omega (arith, ap (length {A = ℕ}) same, length-take 31 version)) in
      rw
        (
          load_short k.store failed_fw (take 31 version) marked short,
          trigger_ota,
          str_eq_ne _ _ cut,
        )
        refl

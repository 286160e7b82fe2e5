-- ===== src/Azure/Ota/Task.antt =====
-- What a task of `ota_task` has done when it ends.
use mathlib.Core.List.{map-append}
use winegrid_internship.Base.{
  Bool, true, false, ◌&&◌, if◌then◌else◌, List, [], ◌∷◌, ◌++◌, map, Option, none, some, Bytes,
  codes, ◌≡◌, refl, sym, ap, subst, ◌∙◌, append_assoc, append-nil, Bool-cases, Option-cases, inl,
  inr, ◌⊎◌,
}
use winegrid_internship.Nvs.{Nvs, pending_fw, save_nvs_str, erase_nvs_key}
use winegrid_internship.Nvs.Laws.{stored-save, stored-erase_nvs, opens_rw-save}
use winegrid_internship.Azure.{Hub, report_fw_state, fw_state_payload}
use winegrid_internship.Azure.Ota.{
  Read, read_failed, received, closed, Answers, Outcome, waits, aborts, ends, task_version,
  download, install, ota_task,
}

-- The server sent `image` whole: every chunk came and was written, and then the end.
pub data Delivered : List Read → Bytes → Type 0 where
  complete : {rs : List Read} → Delivered (closed true ∷ rs) []
  chunk :
      {rs : List Read} {rest : Bytes} (part : Bytes)
      → Delivered rs rest
      → Delivered (received part true ∷ rs) (part ++ rest)

pub download-Delivered :
    {rs : List Read} {image : Bytes} (written : Bytes)
    → Delivered rs image
    → download rs written ≡ some (true, written ++ image)
unfolding download
download-Delivered written complete = rw append-nil
download-Delivered written (chunk part rest) =
    download-Delivered (written ++ part) rest ∙ rw append_assoc

Delivered-download :
    (rs : List Read) (written image : Bytes)
    → download rs written ≡ some (true, image)
    → (rest : Bytes) × Delivered rs rest × (image ≡ written ++ rest)
unfolding download
Delivered-download [] written image e = absurd (cc)
Delivered-download (read_failed ∷ rs) written image e = absurd (cc)
Delivered-download (received part false ∷ rs) written image e = absurd (cc)
Delivered-download (received part true ∷ rs) written image e =
    let (rest, d, p) = Delivered-download rs (written ++ part) image e in
    (part ++ rest, chunk part d, p ∙ append_assoc written part rest)
Delivered-download (closed false ∷ rs) written image e = absurd (cc)
Delivered-download (closed true ∷ rs) written image e =
    ([], complete, rw append-nil (ap (λ o. get o) (sym e)))
  where
    get : Option (Bool × Bytes) → Bytes
    get none = []
    get (some (b, x)) = x

abbrev pub payloads : {S : Type 0} → Hub S → List Bytes
payloads h = map (λ m. m.payload) h.outbox

-- The states that were reported between `h` and `h'`, in order; nothing else was published.
abbrev pub Reported : {S : Type 0} → List Bytes → Hub S → Hub S → Type 0
Reported states h h' = payloads h' ≡ payloads h ++ map fw_state_payload states

pub report-payloads :
    {S : Type 0} (state : Bytes) (h : Hub S)
    → payloads (report_fw_state state h) ≡ payloads h ++ fw_state_payload state ∷ []
unfolding report_fw_state
report-payloads state h = map-append (λ m. m.payload) h.outbox _

pub Reported-step :
    {S : Type 0} (states : List Bytes) (state : Bytes) (h h' : Hub S)
    → Reported states h h'
    → Reported (states ++ state ∷ []) h (report_fw_state state h')
Reported-step states state h h' r =
    report-payloads state h' ∙ rw (r, map-append fw_state_payload states (state ∷ []), append_assoc)

-- The task made the whole image bootable and restarts, with its version on record as pending.
abbrev pub Installed : (nvs : Nvs) → Bytes → Answers → Hub nvs.Store → Hub nvs.Store → Type 0
Installed nvs arg a h h' =
    (image : Bytes) × Delivered a.reads image
    × (h'.boot_image ≡ some image)
    × (h'.restarting ≡ true)
    × (nvs.stored h'.store pending_fw ≡ some (task_version arg))
    × Reported (codes "DOWNLOADING" ∷ codes "VERIFIED" ∷ codes "UPDATED" ∷ []) h h'

-- The flash of a task that failed: as before if the task did not begin to write, and else with no
-- version pending, or with the task's version still pending where it cannot be erased.
abbrev pub FailedStore : (nvs : Nvs) → Bytes → nvs.Store → nvs.Store → Type 0
FailedStore nvs arg before after =
    (after ≡ before)
    ⊎ ((s : nvs.Store) × (save_nvs_str nvs before pending_fw (task_version arg) ≡ some s)
        × (nvs.stored after pending_fw
            ≡ (if nvs.erases s pending_fw then none else some (task_version arg))))

-- The task left the boot image alone, another task may start, and the last state that it reported
-- is FAILED.
abbrev pub Failed : (nvs : Nvs) → Bytes → Hub nvs.Store → Hub nvs.Store → Type 0
Failed nvs arg h h' =
    (h'.boot_image ≡ h.boot_image)
    × (h'.restarting ≡ h.restarting)
    × (h'.ota_in_progress ≡ false)
    × FailedStore nvs arg h.store h'.store
    × ((states : List Bytes) × Reported (states ++ codes "FAILED" ∷ []) h h')

abbrev pub TaskResult : (nvs : Nvs) → Bytes → Answers → Hub nvs.Store → Outcome nvs.Store → Type 0
TaskResult nvs arg a h waits = Unit
TaskResult nvs arg a h (aborts h') = h' ≡ h
TaskResult nvs arg a h (ends h') = Installed nvs arg a h h' ⊎ Failed nvs arg h h'

module _ (nvs : Nvs) (arg : Bytes) (a : Answers) (h : Hub nvs.Store) where
  abbrev downloading : nvs.Store → Hub nvs.Store
  downloading s = report_fw_state (codes "DOWNLOADING") (record h { store = s })

  started : (s : nvs.Store) → Reported (codes "DOWNLOADING" ∷ []) h (downloading s)
  started s =
      Reported-step [] (codes "DOWNLOADING") h (record h { store = s })
        (sym (append-nil (payloads h)))

  verified :
      (s : nvs.Store)
      → Reported
          (codes "DOWNLOADING" ∷ codes "VERIFIED" ∷ [])
          h
          (report_fw_state (codes "VERIFIED") (downloading s))
  verified s =
      Reported-step (codes "DOWNLOADING" ∷ []) (codes "VERIFIED") h (downloading s) (started s)

  erased :
      (s : nvs.Store)
      → save_nvs_str nvs h.store pending_fw (task_version arg) ≡ some s
      → FailedStore nvs arg h.store (erase_nvs_key nvs s pending_fw)
  erased s saved = inr (
    s,
    saved,
    stored-erase_nvs nvs s pending_fw pending_fw
          (opens_rw-save nvs h.store s pending_fw (task_version arg) saved)
        ∙ ap (λ v. if nvs.erases s pending_fw then none else v)
            (stored-save nvs h.store s pending_fw pending_fw (task_version arg) saved),
  )

  whole : (image : Bytes) → download a.reads [] ≡ some (true, image) → Delivered a.reads image
  whole image e =
      let (rest, d, p) = Delivered-download a.reads [] image e in
      subst (λ t. Delivered a.reads t) (sym p) d

  install-result :
      (r : Option (Bool × Bytes)) (s : nvs.Store)
      → download a.reads [] ≡ r
      → save_nvs_str nvs h.store pending_fw (task_version arg) ≡ some s
      → TaskResult nvs arg a h
          (install nvs a r (report_fw_state (codes "DOWNLOADING") (record h { store = s })))
  unfolding install report_fw_state
  install-result none s e saved = tt
  install-result (some (false, image)) s e saved = inr (
    refl,
    refl,
    refl,
    erased s saved,
    (
      codes "DOWNLOADING" ∷ [],
      Reported-step (codes "DOWNLOADING" ∷ []) (codes "FAILED") h (downloading s) (started s),
    ),
  )
  install-result (some (true, image)) s e saved =
      elim (Bool-cases (a.ota_end && a.set_boot_partition)) [
        | inl good ↦ rw good (
            inl (
              image,
              whole image e,
              refl,
              refl,
              stored-save nvs h.store s pending_fw pending_fw (task_version arg) saved,
              Reported-step (codes "DOWNLOADING" ∷ codes "VERIFIED" ∷ []) (codes "UPDATED") h
                  (report_fw_state (codes "VERIFIED") (downloading s)) (verified s),
            ))
        | inr bad ↦ rw bad (
            inr (
              refl,
              refl,
              refl,
              erased s saved,
              (
                codes "DOWNLOADING" ∷ codes "VERIFIED" ∷ [],
                Reported-step (codes "DOWNLOADING" ∷ codes "VERIFIED" ∷ []) (codes "FAILED") h
                    (report_fw_state (codes "VERIFIED") (downloading s)) (verified s),
              ),
            ))
      ]

  pub ota_task-result : TaskResult nvs arg a h (ota_task nvs arg a h)
  unfolding ota_task report_fw_state
  ota_task-result = elim (Bool-cases a.http_open) [
    | inr closed_ ↦ rw closed_ (inr at_once)
    | inl open_ ↦ elim (Bool-cases a.ota_begin) [
      | inr refused ↦ rw (open_, refused) (inr at_once)
      | inl begun ↦ elim (Option-cases (save_nvs_str nvs h.store pending_fw (task_version arg))) [
        | inl failed ↦ rw (open_, begun, failed) refl
        | inr (s, saved) ↦
            rw (open_, begun, saved) (install-result (download a.reads []) s refl saved)
      ]
    ]
  ]
    where
      at_once :
          Failed nvs arg h (record (report_fw_state (codes "FAILED") h) { ota_in_progress = false })
      at_once = (
        refl,
        refl,
        refl,
        inl refl,
        ([], Reported-step [] (codes "FAILED") h h (sym (append-nil (payloads h)))),
      )

-- Every step of the update succeeds.
pub record AllWell (a : Answers) : Type 0 where
  pub http_open : a.http_open ≡ true
  pub ota_begin : a.ota_begin ≡ true
  pub ota_end : a.ota_end ≡ true
  pub set_boot_partition : a.set_boot_partition ≡ true

-- Where the server sends an image whole and every step succeeds, the task does end, in a restart
-- into that image.
pub ota_task_installs :
    (nvs : Nvs) (arg : Bytes) (a : Answers) (h : Hub nvs.Store) (image : Bytes) (s : nvs.Store)
    → AllWell a
    → Delivered a.reads image
    → save_nvs_str nvs h.store pending_fw (task_version arg) ≡ some s
    → (h' : Hub nvs.Store) × (ota_task nvs arg a h ≡ ends h')
      × (h'.restarting ≡ true)
      × (h'.boot_image ≡ some image)
      × (h'.store ≡ s)
unfolding ota_task report_fw_state
ota_task_installs nvs arg a h image s w d saved = (
  record (report_fw_state (codes "UPDATED") (
      report_fw_state (codes "VERIFIED")
        (report_fw_state (codes "DOWNLOADING") (record h { store = s })))) {
          boot_image = some image;
          restarting = true;
        },
  rw (w.http_open, w.ota_begin, saved, download-Delivered [] d, w.ota_end, w.set_boot_partition),
  refl,
  refl,
  refl,
)

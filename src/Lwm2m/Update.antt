-- ===== src/Lwm2m/Update.antt =====
-- What a sequence of calls of the three callbacks leads to.
use winegrid_internship.Base.{
  Bool, ◌≡◌, refl, sym, ap, ◌∙◌, true, false, List, [], ◌∷◌, ◌++◌, none, some, Bytes, append_assoc,
  append-nil,
}
use winegrid_internship.Lwm2m.{Dfu, Answers, result_success, result_update_failed, write_block}
use winegrid_internship.Lwm2m.Calls.{
  Call, step, run, Unstarted, Stops, Written, Untouched, step_later, step_init_failed, step_first,
  step_update_refused, write_stopped, write_failed, write-IsWritten, received, cancel_stops,
  cancel-Untouched, accepted, run_from, block, update, cancel, nothing, later_block, failed_init,
  cancelled, updated, cancels, fails, no_more, written,
}

-- What follows a call that left `k`.
pub Untouched-from :
    (c : Call) (cs : List Call) (d k : Dfu)
    → step c d ≡ k
    → Untouched d k
    → Untouched k (run cs k)
    → Untouched d (run (c ∷ cs) d)
Untouched-from c cs d k e first rest = rw (run_from c cs d k e) (rest.0 ∙ first.0, rest.1 ∙ first.1)

run_nothing : (d : Dfu) → Untouched d (run [] d)
unfolding run
run_nothing d = (refl, refl)

Unstarted-run :
    {cs : List Call} (d : Dfu) → Unstarted cs → d.dfu_started ≡ false → Untouched d (run cs d)
Unstarted-run d nothing s = run_nothing d
Unstarted-run d (later_block {cs} a b last offset o u) s =
    let k = (write_block a b last d).0 in
    let stopped = write_stopped a b last d s in
    Untouched-from (block a b last offset) cs d k (step_later a b last offset d o) stopped.1
      (Unstarted-run {cs = cs} k u stopped.0)
Unstarted-run d (failed_init {cs} a b last code i u) s =
    Untouched-from (block a b last 0) cs d d (step_init_failed a b last code d i) (refl, refl)
      (Unstarted-run {cs = cs} d u s)
Unstarted-run d (cancelled {cs} u) s =
    Untouched-from cancel cs d (step cancel d) refl (cancel-Untouched d)
      (Unstarted-run {cs = cs} (step cancel d) u (cancel_stops d))
Unstarted-run d (updated {cs} a u) s =
    Untouched-from (update a) cs d (record d { update_result = result_update_failed })
      (step_update_refused a d s) (refl, refl)
      (Unstarted-run {cs = cs} (record d { update_result = result_update_failed }) u s)

-- Once a download was cancelled, or one of its blocks after the first could not be written, nothing
-- that the engine calls, not the execution of the update either, asks for an upgrade or a reboot,
-- until a download begins again at offset 0.
pub stopped_download_refused :
    (c : Call) (cs : List Call) (d : Dfu)
    → Stops c
    → Unstarted cs
    → ((run (c ∷ cs) d).upgrade ≡ d.upgrade) × ((run (c ∷ cs) d).rebooting ≡ d.rebooting)
stopped_download_refused cancel cs d cancels u =
    Untouched-from cancel cs d (step cancel d) refl (cancel-Untouched d)
      (Unstarted-run {cs = cs} (step cancel d) u (cancel_stops d))
stopped_download_refused c cs d (fails a b last offset code o f) u =
    let k = record d { dfu_started = false } in
    Untouched-from (block a b last offset) cs d k
      (step_later a b last offset d o ∙ write_failed a b last code d f) (refl, refl)
      (Unstarted-run {cs = cs} k u refl)

-- What the blocks leave, when the last of them is written.
Written-run :
    {before : Bool} {cs : List Call} {rest : Bytes} (last : List Call) (d : Dfu)
    → Written before cs rest
    → (before ≡ true → d.buffered ≡ [])
    → d.dfu_started ≡ true
    → (d' : Dfu) × (run (cs ++ last) d ≡ run last d')
      × (d'.flash ≡ received d ++ rest)
      × (d'.dfu_started ≡ true)
Written-run last d no_more flushed s = (
  d,
  refl,
  sym (append-nil d.flash)
      ∙ ap (λ b. d.flash ++ b) (sym (flushed refl))
      ∙ sym (append-nil (received d)),
  s,
)
Written-run last d (written {last = is_last} {cs} {rest} a b offset w o more) flushed s =
    let k = (write_block a b is_last d).0 in
    let done = write-IsWritten a b is_last d w in
    let (d', r, bytes, on) =
      Written-run {cs = cs} last k more done.flushed (done.still_started ∙ s) in
    (
      d',
      run_from (block a b is_last offset) (cs ++ last) d k (step_later a b is_last offset d o) ∙ r,
      bytes ∙ ap (λ got. got ++ rest) done.bytes ∙ append_assoc (received d) b rest,
      on,
    )

-- Where the flash can be set up, every block is written and MCUboot accepts the request, a whole
-- download, from the block at offset 0 on to one that is marked as the last, followed by the
-- execution of the update asks for a permanent upgrade to exactly the bytes of the blocks in order,
-- reports success and reboots, whatever state came before and however the library's buffer fills up.
pub download_upgrades :
    (a u : Answers) (first rest : Bytes) (last : Bool) (cs : List Call) (d : Dfu)
    → a.img_init ≡ none
    → a.buffered_write ≡ none
    → Written last cs rest
    → u.request_upgrade ≡ none
    → let d' = run (block a first last 0 ∷ cs ++ update u ∷ []) d in
      (d'.upgrade ≡ some (first ++ rest))
      × (d'.rebooting ≡ true)
      × (d'.update_result ≡ result_success)
      × (d'.dfu_started ≡ false)
download_upgrades a u first rest last cs d i w more r =
    let begun = record d { dfu_started = true; flash = []; buffered = [] } in
    let k = (write_block a first last begun).0 in
    let done = write-IsWritten a first last begun w in
    let (d', ran, bytes, on) =
      Written-run {cs = cs} (update u ∷ []) k more done.flushed done.still_started in
    let (upgrade, rebooting, result, stopped) = accepted u d' on r in
    rw
      (run_from (block a first last 0) (cs ++ update u ∷ []) d k (step_first a first last d i), ran)
      (upgrade ∙ ap some (bytes ∙ ap (λ got. got ++ rest) done.bytes), rebooting, result, stopped)

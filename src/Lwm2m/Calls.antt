-- ===== src/Lwm2m/Calls.antt =====
-- Sequences of calls of the three callbacks, as the engine of the LwM2M library makes them.
use winegrid_internship.Base.{
  ℕ, arith, zero, suc, ◌≡◌, refl, sym, ap, ◌∙◌, take, drop, append_assoc, append-nil, Bool, true,
  false, not, if◌then◌else◌, ◌==◌, List, [], ◌∷◌, ◌++◌, none, some, Bytes, Status, err, einval,
}
use winegrid_internship.Lwm2m.{
  buffer_write, Dfu, Answers, result_success, result_update_failed, request, write_block,
  first_block, firmware_update_cb, firmware_block_received_cb, firmware_cancel_cb,
}

-- A call of the engine: a block, whether it is the last one, and its offset, the execution of the update, or a cancellation.
pub data Call : Type 0 where
  block : Answers → Bytes → Bool → ℕ → Call
  update : Answers → Call
  cancel : Call

unfoldable pub step : Call → Dfu → Dfu
step (block a b last offset) d = (firmware_block_received_cb a b last offset d).0
step (update a) d = (firmware_update_cb a d).0
step cancel d = (firmware_cancel_cb d).0

unfoldable pub run : List Call → Dfu → Dfu
unfolding step
run [] d = d
run (c ∷ cs) d = run cs (step c d)

-- No call begins a download: a block at offset 0 finds that the flash cannot be set up.
pub data Unstarted : List Call → Type 0 where
  nothing : Unstarted []
  later_block :
      {cs : List Call} (a : Answers) (b : Bytes) (last : Bool) (offset : ℕ)
      → (offset == 0) ≡ false
      → Unstarted cs
      → Unstarted (block a b last offset ∷ cs)
  failed_init :
      {cs : List Call} (a : Answers) (b : Bytes) (last : Bool) (code : ℕ)
      → a.img_init ≡ some code
      → Unstarted cs
      → Unstarted (block a b last 0 ∷ cs)
  cancelled : {cs : List Call} → Unstarted cs → Unstarted (cancel ∷ cs)
  updated : {cs : List Call} (a : Answers) → Unstarted cs → Unstarted (update a ∷ cs)

-- A call that ends a download: a cancellation, or a block that cannot be written.
pub data Stops : Call → Type 0 where
  cancels : Stops cancel
  fails :
      (a : Answers) (b : Bytes) (last : Bool) (offset code : ℕ)
      → (offset == 0) ≡ false
      → a.buffered_write ≡ some code
      → Stops (block a b last offset)

-- The blocks that come after one whose `last_block` is given, all written, with their bytes in
-- order. The last of all the blocks is the one that says so.
pub data Written : Bool → List Call → Bytes → Type 0 where
  no_more : Written true [] []
  written :
      {before last : Bool} {cs : List Call} {rest : Bytes} (a : Answers) (b : Bytes) (offset : ℕ)
      → a.buffered_write ≡ none
      → (offset == 0) ≡ false
      → Written last cs rest
      → Written before (block a b last offset ∷ cs) (b ++ rest)

-- Neither an upgrade nor a reboot was asked for.
abbrev pub Untouched : Dfu → Dfu → Type 0
Untouched d d' = (d'.upgrade ≡ d.upgrade) × (d'.rebooting ≡ d.rebooting)

pub block_later :
    (a : Answers) (b : Bytes) (last : Bool) (offset : ℕ) (d : Dfu)
    → (offset == 0) ≡ false
    → firmware_block_received_cb a b last offset d ≡ write_block a b last d
unfolding firmware_block_received_cb
block_later a b last offset d o = rw (o, firmware_block_received_cb) refl

pub step_later :
    (a : Answers) (b : Bytes) (last : Bool) (offset : ℕ) (d : Dfu)
    → (offset == 0) ≡ false
    → step (block a b last offset) d ≡ (write_block a b last d).0
unfolding step
step_later a b last offset d o = ap (λ (x : Dfu × Status). x.0) (block_later a b last offset d o)

pub step_init_failed :
    (a : Answers) (b : Bytes) (last : Bool) (code : ℕ) (d : Dfu)
    → a.img_init ≡ some code
    → step (block a b last 0) d ≡ d
unfolding step firmware_block_received_cb
step_init_failed a b last code d i = rw (i, first_block) refl

pub step_first :
    (a : Answers) (b : Bytes) (last : Bool) (d : Dfu)
    → a.img_init ≡ none
    → step (block a b last 0) d
      ≡ (write_block a b last (record d { dfu_started = true; flash = []; buffered = [] })).0
unfolding step firmware_block_received_cb
step_first a b last d i = rw (i, first_block) refl

pub step_update_refused :
    (a : Answers) (d : Dfu)
    → d.dfu_started ≡ false
    → step (update a) d ≡ record d { update_result = result_update_failed }
unfolding step firmware_update_cb
step_update_refused a d s =
    ap
      (λ (started : Bool).
        (if not started
          then (record d { update_result = result_update_failed }, err einval)
          else request a.request_upgrade d).0)
      s

pub step_update :
    (a : Answers) (d : Dfu)
    → d.dfu_started ≡ true
    → a.request_upgrade ≡ none
    → step (update a) d ≡ (request none d).0
unfolding step firmware_update_cb
step_update a d s r =
    ap
      (λ (started : Bool).
        (if not started
          then (record d { update_result = result_update_failed }, err einval)
          else request a.request_upgrade d).0)
      s
    ∙ ap (λ answer. (request answer d).0) r

pub write_stopped :
    (a : Answers) (b : Bytes) (last : Bool) (d : Dfu)
    → d.dfu_started ≡ false
    → ((write_block a b last d).0.dfu_started ≡ false) × Untouched d (write_block a b last d).0
unfolding write_block buffer_write
write_stopped a b true d s = ground arith
write_stopped a b false d s = ground arith

pub write_failed :
    (a : Answers) (b : Bytes) (last : Bool) (code : ℕ) (d : Dfu)
    → a.buffered_write ≡ some code
    → (write_block a b last d).0 ≡ record d { dfu_started = false }
unfolding write_block
write_failed a b last code d f = rw (f, write_block) refl

-- What is on the flash or in the buffer.
abbrev pub received : Dfu → Bytes
received d = d.flash ++ d.buffered

-- After a block that was written: its bytes were received, and a last block leaves nothing in the
-- buffer.
pub record IsWritten (b : Bytes) (last : Bool) (d d' : Dfu) : Type 0 where
  pub bytes : received d' ≡ received d ++ b
  pub flushed : last ≡ true → d'.buffered ≡ []
  pub still_started : d'.dfu_started ≡ d.dfu_started

take-drop : (n : ℕ) (xs : Bytes) → take n xs ++ drop n xs ≡ xs
take-drop zero xs = refl
take-drop (suc n) [] = refl
take-drop (suc n) (x ∷ xs) = ap (λ r. x ∷ r) (take-drop n xs)

pub write-IsWritten :
    (a : Answers) (b : Bytes) (last : Bool) (d : Dfu)
    → a.buffered_write ≡ none
    → IsWritten b last d (write_block a b last d).0
unfolding write_block buffer_write
write-IsWritten a b true d f =
    rw (f, write_block)
      (record {
        bytes = append-nil (d.flash ++ (d.buffered ++ b)) ∙ sym (append_assoc d.flash d.buffered b);
        flushed = λ e. refl;
        still_started = refl;
      })
write-IsWritten a b false d f =
    rw (f, write_block)
      (record {
        bytes =
            append_assoc d.flash (take a.filled (d.buffered ++ b)) (drop a.filled (d.buffered ++ b))
            ∙ ap (λ r. d.flash ++ r) (take-drop a.filled (d.buffered ++ b))
            ∙ sym (append_assoc d.flash d.buffered b);
        flushed = λ e. absurd (false-ne-true e);
        still_started = refl;
      })
  where
    false-ne-true : false ≡ true → ⊥
    false-ne-true e = cc

pub cancel_stops : (d : Dfu) → (step cancel d).dfu_started ≡ false
unfolding step firmware_cancel_cb
cancel_stops d = refl

pub cancel-Untouched : (d : Dfu) → Untouched d (step cancel d)
unfolding step firmware_cancel_cb
cancel-Untouched d = (refl, refl)

pub accepted :
    (u : Answers) (d : Dfu)
    → d.dfu_started ≡ true
    → u.request_upgrade ≡ none
    → ((run (update u ∷ []) d).upgrade ≡ some d.flash)
      × ((run (update u ∷ []) d).rebooting ≡ true)
      × ((run (update u ∷ []) d).update_result ≡ result_success)
      × ((run (update u ∷ []) d).dfu_started ≡ false)
unfolding run request
accepted u d s r =
    let e = step_update u d s r in
    (
      ap (λ (x : Dfu). x.upgrade) e,
      ap (λ (x : Dfu). x.rebooting) e,
      ap (λ (x : Dfu). x.update_result) e,
      ap (λ (x : Dfu). x.dfu_started) e,
    )

pub run_from : (c : Call) (cs : List Call) (d k : Dfu) → step c d ≡ k → run (c ∷ cs) d ≡ run cs k
unfolding run
run_from c cs d k e = ap (run cs) e

-- ===== src/Lwm2m.antt =====
-- The firmware update object of the LwM2M client, lwm2m/src/firmware_update.c.
pub mod Calls
pub mod Update
pub mod Client
mod Tests
use winegrid_internship.Base.{
  ℕ, Bool, true, false, not, if◌then◌else◌, ◌==◌, [], ◌++◌, take, drop, Option, none, some, Bytes,
  Status, ok, err, extern, einval, enospc,
}

-- The values of the resources 5/0/3 and 5/0/5 that the file sets; the rest are the engine's.
pub data UpdateState : Type 0 where
  state_idle : UpdateState
  engine_state : ℕ → UpdateState

pub data UpdateResult : Type 0 where
  result_success result_update_failed : UpdateResult
  engine_result : ℕ → UpdateResult

-- `dfu_started`, with what `dfu_ctx` has written to the flash and what it still buffers, the resources, and what the file asked of
-- MCUboot and of the kernel: the image to upgrade to permanently, and a reboot.
pub record Dfu : Type 0 where
  pub dfu_started : Bool
  pub flash : Bytes
  pub buffered : Bytes
  pub update_state : UpdateState
  pub update_result : UpdateResult
  pub upgrade : Option Bytes
  pub rebooting : Bool

-- What `flash_img_init`, `flash_img_buffered_write` and `boot_request_upgrade` answer; `some c` is
-- the error code `c`. Of the bytes that are in the buffer after a write that is not flushed, the
-- library writes the first `filled`, as its buffer fills up.
pub record Answers : Type 0 where
  pub img_init : Option ℕ
  pub buffered_write : Option ℕ
  pub filled : ℕ
  pub request_upgrade : Option ℕ

-- From the check of `dfu_started` on.
unfoldable pub request : Option ℕ → Dfu → Dfu × Status
request (some code) d =
    (record d { dfu_started = false; update_result = result_update_failed }, err (extern code))
request none d = (
  record d {
    dfu_started = false;
    update_state = state_idle;
    update_result = result_success;
    upgrade = some d.flash;
    rebooting = true;
  },
  ok tt,
)

-- `firmware_update_cb`.
unfoldable pub firmware_update_cb : Answers → Dfu → Dfu × Status
unfolding request
firmware_update_cb a d =
    if not d.dfu_started
    then (record d { update_result = result_update_failed }, err einval)
    else request a.request_upgrade d

-- What `flash_img_buffered_write` does with the bytes in its buffer: all are written if `flush` is
-- set.
unfoldable pub buffer_write : Bool → ℕ → Bytes → Dfu → Dfu
buffer_write flush filled held d =
    if flush
    then record d { flash = d.flash ++ held; buffered = [] }
    else record d { flash = d.flash ++ take filled held; buffered = drop filled held }

-- The write of a block, which is flushed if it is the last one.
unfoldable pub write_block : Answers → Bytes → Bool → Dfu → Dfu × Status
unfolding buffer_write
write_block a block last_block d = elim a.buffered_write [
  | some code ↦ (record d { dfu_started = false }, err enospc)
  | none ↦ (buffer_write last_block a.filled (d.buffered ++ block) d, ok tt)
]

-- The first block.
unfoldable pub first_block : Answers → Bytes → Bool → Dfu → Dfu × Status
unfolding write_block
first_block a block last_block d = elim a.img_init [
  | some code ↦ (d, err (extern code))
  | none ↦
      write_block a block last_block (record d { dfu_started = true; flash = []; buffered = [] })
]

-- `firmware_block_received_cb`, for the block at the given offset; the Boolean is `last_block`.
unfoldable pub firmware_block_received_cb : Answers → Bytes → Bool → ℕ → Dfu → Dfu × Status
unfolding first_block write_block
firmware_block_received_cb a block last_block offset d =
    if offset == 0 then first_block a block last_block d else write_block a block last_block d

-- `firmware_cancel_cb`.
unfoldable pub firmware_cancel_cb : Dfu → Dfu × Status
firmware_cancel_cb d = (record d { dfu_started = false }, ok tt)

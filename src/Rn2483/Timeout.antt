-- ===== src/Rn2483/Timeout.antt =====
-- `rn2483_read_line` returns: it never waits past its deadline.
use winegrid_internship.Base.{
  ℕ, ◌+◌, ◌≤◌, ◌<◌, if◌then◌else◌, List, [], ◌∷◌, Option, none, some, Result, ok, err, etimedout,
  set, length, ◌≡◌, refl, ◌∙◌, arith, length-set,
}
use winegrid_internship.Rn2483.{Poll, Device, resp_buf_size, is_kept, read_loop, read_line}
use winegrid_internship.Rn2483.Loop.{loop_cases}

-- The time that passes by itself in a list of turns.
abbrev pub total_elapsed : List Poll → ℕ
total_elapsed [] = 0
total_elapsed (p ∷ ps) = p.elapsed + total_elapsed ps

-- The call returned: a length below the buffer's size, or a timeout not before the deadline. The
-- buffer keeps its size and nothing was sent.
abbrev pub Returns : ℕ → Device → Option (Device × Result ℕ) → Type 0
Returns deadline d none = ⊥
Returns deadline d (some (d', ok n)) =
    (n < resp_buf_size) × (length d'.resp_buf ≡ length d.resp_buf) × (d'.sent ≡ d.sent)
Returns deadline d (some (d', err e)) =
    (e ≡ etimedout)
    × (deadline ≤ d'.uptime)
    × (length d'.resp_buf ≡ length d.resp_buf)
    × (d'.sent ≡ d.sent)

loop-Returns :
    (deadline : ℕ) (ps : List Poll) (start pos : ℕ) (d origin : Device)
    → start ≤ d.uptime
    → start < deadline
    → deadline ≤ start + total_elapsed ps
    → pos < resp_buf_size
    → length d.resp_buf ≡ length origin.resp_buf
    → d.sent ≡ origin.sent
    → Returns deadline origin (read_loop deadline ps pos d)
unfolding read_loop
loop-Returns deadline [] start pos d origin s b t l n q = absurd (omega arith)
loop-Returns deadline (p ∷ ps) start pos d origin s b t l n q =
    loop_cases deadline pos p ps d (Returns deadline origin) (λ late. (refl, late, n, q))
      (λ before.
        loop-Returns deadline ps (start + p.elapsed) pos
          (record d { uptime = d.uptime + p.elapsed + 2; polls = ps }) origin (omega arith)
          (omega arith) (omega arith) l n q)
      (λ c before.
        loop-Returns deadline ps (start + p.elapsed) (if is_kept c pos then pos + 1 else pos)
          (record d {
            resp_buf = if is_kept c pos then set d.resp_buf pos c else d.resp_buf;
            uptime = d.uptime + p.elapsed;
            polls = ps;
          })
          origin (omega arith) (omega arith) (omega arith) (ground arith)
          (ground (arith, length-set d.resp_buf pos c)) q)
      (λ before. (l, length-set d.resp_buf pos 0 ∙ n, q))

-- Whenever the time that passes reaches the timeout, the call returns: a length below the buffer's
-- size, or a timeout not before the deadline. The buffer keeps its size and nothing is sent.
pub read_line-Returns :
    (timeout_ms : ℕ) (d : Device)
    → 0 < timeout_ms
    → timeout_ms ≤ total_elapsed d.polls
    → Returns (d.uptime + timeout_ms) d (read_line timeout_ms d)
unfolding read_line
read_line-Returns timeout_ms d h t =
    loop-Returns (d.uptime + timeout_ms) d.polls d.uptime 0 d d (omega arith) (omega arith)
      (omega arith) (omega arith) refl refl

-- ===== src/Rn2483/Exchange.antt =====
-- One command and its answer: what `rn2483_cmd_expect_ok` sends, whatever comes back, and what it
-- returns when a line arrives in time.
use winegrid_internship.Base.{
  ℕ, ◌+◌, true, false, if◌then◌else◌, List, [], ◌∷◌, ◌++◌, Option, none, some, Result, ok, err,
  Status, eio, Bytes, codes, length, take, ◌≡◌, ap, ◌∙◌, arith, append_assoc, append-nil, str_eq,
  Errno, sym, subst, set,
}
use winegrid_internship.Rn2483.{
  Poll, Device, M, ◌>>=◌, ◌>>◌, resp_buf_size, cmd_timeout_ms, write_line, read_loop, read_line,
  cstr, expect_response, cmd_expect_ok, is_kept,
}
use winegrid_internship.Rn2483.Line.{Delivers, strip_cr, read_line_delivered}
use winegrid_internship.Rn2483.Loop.{loop_cases}

pub write_line_lem :
    (cmd : Bytes) (d : Device) → write_line cmd d ≡ record d { sent = d.sent ++ cmd }
unfolding write_line
write_line_lem [] d = rw append-nil
write_line_lem (c ∷ cs) d =
    write_line_lem cs (record d { sent = d.sent ++ c ∷ [] }) ∙ rw append_assoc

-- However the call ended, exactly `cmd` was sent.
abbrev pub Sends {ℓ} : {A : Type ℓ} → Bytes → Device → Option (Device × Result A) → Type 0
Sends cmd d none = Unit
Sends cmd d (some (d', r)) = d'.sent ≡ d.sent ++ cmd

loop-Sends :
    (deadline : ℕ) (ps : List Poll) (pos : ℕ) (d origin : Device)
    → d.sent ≡ origin.sent ++ []
    → Sends [] origin (read_loop deadline ps pos d)
unfolding read_loop
loop-Sends deadline [] pos d origin e = tt
loop-Sends deadline (p ∷ ps) pos d origin e =
    loop_cases deadline pos p ps d (Sends [] origin) (λ late. e)
      (λ before.
        loop-Sends deadline ps pos (record d { uptime = d.uptime + p.elapsed + 2; polls = ps })
          origin e)
      (λ c before.
        loop-Sends deadline ps (if is_kept c pos then pos + 1 else pos)
          (record d {
            resp_buf = if is_kept c pos then set d.resp_buf pos c else d.resp_buf;
            uptime = d.uptime + p.elapsed;
            polls = ps;
          })
          origin e)
      (λ before. e)

pub read_line-Sends : (timeout_ms : ℕ) (d : Device) → Sends [] d (read_line timeout_ms d)
unfolding read_line
read_line-Sends timeout_ms d =
    loop-Sends (d.uptime + timeout_ms) d.polls 0 d d (sym (append-nil d.sent))

Sends-trans {ℓ} :
    {A : Type ℓ} (a b : Bytes) (d d' : Device) (r : Option (Device × Result A))
    → d'.sent ≡ d.sent ++ a
    → Sends b d' r
    → Sends (a ++ b) d r
Sends-trans a b d d' none e h = tt
Sends-trans a b d d' (some (d'', r)) e h = h ∙ rw (e, append_assoc)

-- What follows sends nothing.
pub bind-Sends {ℓ κ} :
    {A : Type ℓ} {B : Type κ} (r : Option (Device × Result A)) (f : A → M B) (a : Bytes)
    (d : Device)
    → Sends a d r
    → ((x : A) (d' : Device) → Sends [] d' (f x d'))
    → Sends a d (◌>>=◌ (λ _. r) f d)
bind-Sends none f a d h k = tt
bind-Sends (some (d', err e)) f a d h k = h
bind-Sends (some (d', ok x)) f a d h k =
    subst (λ t. Sends t d (f x d')) (append-nil a) (Sends-trans a [] d d' (f x d') h (k x d'))

pub expect_response-Sends : (text : Bytes) (d : Device) → Sends [] d (expect_response text d)
unfolding expect_response
expect_response-Sends text d = ground (arith, append-nil d.sent)

-- However the call ended, the command was sent, and nothing else.
pub cmd_expect_ok-Sends : (cmd : Bytes) (d : Device) → Sends cmd d (cmd_expect_ok cmd d)
unfolding cmd_expect_ok
cmd_expect_ok-Sends cmd d =
    subst (λ t. Sends t d (cmd_expect_ok cmd d)) (append-nil cmd)
      (Sends-trans cmd [] d (write_line cmd d) (cmd_expect_ok cmd d)
        (ap (λ (t : Device). t.sent) (write_line_lem cmd d))
        (bind-Sends (read_line cmd_timeout_ms (write_line cmd d))
          (λ _. expect_response (codes "ok")) [] (write_line cmd d)
          (read_line-Sends cmd_timeout_ms (write_line cmd d))
          (λ _ d'. expect_response-Sends (codes "ok") d')))

-- A step that succeeded is followed by the next.
pub bind-ok {ℓ κ} :
    {A : Type ℓ} {B : Type κ} (m : M A) (f : A → M B) (d d' : Device) (a : A)
    → m d ≡ some (d', ok a)
    → ◌>>=◌ m f d ≡ f a d'
bind-ok m f d d' a e = rw (e, ◌>>=◌)

-- A step that failed ends the call.
pub bind-err {ℓ κ} :
    {A : Type ℓ} {B : Type κ} (m : M A) (f : A → M B) (d d' : Device) (e : Errno)
    → m d ≡ some (d', err e)
    → ◌>>=◌ m f d ≡ some (d', err e)
bind-err m f d d' e h = rw (h, ◌>>=◌)

-- What `expect_response` makes of a text.
unfoldable pub answer : Bytes → Bytes → Status
answer text expected = if str_eq text expected then ok tt else err eio

pub answer_ready :
    (text expected : Bytes) → str_eq text expected ≡ true → answer text expected ≡ ok tt
unfolding answer
answer_ready text expected h = rw h

pub answer_other :
    (text expected : Bytes) → str_eq text expected ≡ false → answer text expected ≡ err eio
unfolding answer
answer_other text expected h = rw h

-- The text of a line as the driver compares it.
abbrev pub line_text : Bytes → Bytes
line_text line = cstr (take 63 (strip_cr line))

pub read_and_expect :
    (timeout_ms later : ℕ) (after : List Poll) (d : Device) (line expected : Bytes)
    → length d.resp_buf ≡ resp_buf_size
    → Delivers (d.uptime + timeout_ms) later after d.uptime d.polls line
    → (d' : Device) × ((do read_line timeout_ms; expect_response expected) d
        ≡ some (d', answer (line_text line) expected))
      × (length d'.resp_buf ≡ resp_buf_size)
      × (d'.sent ≡ d.sent)
      × (d'.uptime ≡ later)
      × (d'.polls ≡ after)
unfolding expect_response answer
read_and_expect timeout_ms later after d line expected n arrives =
    let (d', r, text, size, sent, at, left) =
      read_line_delivered timeout_ms later after d line n arrives in
    (
      d',
      bind-ok (read_line timeout_ms) (λ _. expect_response expected) d d' _ r ∙ answered d' text,
      size,
      sent,
      at,
      left,
    )
  where
    answered :
        (d' : Device)
        → cstr d'.resp_buf ≡ line_text line
        → expect_response expected d' ≡ some (d', answer (line_text line) expected)
    answered d' text = ground arith

-- A command whose answer line arrives within two seconds: it was sent, and the call succeeds
-- exactly if the line reads `ok`, and fails with EIO otherwise.
pub cmd_expect_ok_answered :
    (cmd : Bytes) (later : ℕ) (after : List Poll) (d : Device) (line : Bytes)
    → length d.resp_buf ≡ resp_buf_size
    → Delivers (d.uptime + cmd_timeout_ms) later after d.uptime d.polls line
    → (d' : Device) × (cmd_expect_ok cmd d ≡ some (d', answer (line_text line) (codes "ok")))
      × (length d'.resp_buf ≡ resp_buf_size)
      × (d'.sent ≡ d.sent ++ cmd)
      × (d'.uptime ≡ later)
      × (d'.polls ≡ after)
unfolding cmd_expect_ok
cmd_expect_ok_answered cmd later after d line n arrives = rw (write_line_lem cmd d) (
    read_and_expect cmd_timeout_ms later after (record d { sent = d.sent ++ cmd }) line (codes "ok")
      n arrives)

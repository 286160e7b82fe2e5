-- ===== src/Rn2483/Line.antt =====
-- What `rn2483_read_line` returns and leaves in `resp_buf`, against an independent description of
-- the bytes that arrive before the deadline.
use winegrid_internship.Base.{
  ℕ, zero, suc, ◌+◌, ◌-◌, ◌≤◌, ◌<◌, true, false, if◌then◌else◌, ◌==◌, List, [], ◌∷◌, ◌++◌, Option,
  none, some, Result, ok, Bytes, set, length, take, ◌≡◌, ◌≢◌, refl, sym, ap, ◌∙◌, arith,
  append_assoc, append-nil, length-append, length-set, inl, inr, Bool-cases,
}
use winegrid_internship.Rn2483.{Poll, Device, resp_buf_size, is_kept, read_loop, read_line, cstr}
use winegrid_internship.Rn2483.Loop.{loop_idle, loop_arrival, loop_newline}

-- `line` arrives, and then `\n`, each byte at a turn that begins before the deadline. A turn that
-- finds no byte sleeps two milliseconds more. The `\n` is read at the time `later`, with the turns
-- `after` to come.
pub data Delivers (deadline later : ℕ) (after : List Poll) : ℕ → List Poll → Bytes → Type 0 where
  idle :
      {now : ℕ} {p : Poll} {ps : List Poll} {line : Bytes}
      → p.byte ≡ none
      → now + p.elapsed < deadline
      → Delivers deadline later after (now + p.elapsed + 2) ps line
      → Delivers deadline later after now (p ∷ ps) line
  arrival :
      {now c : ℕ} {p : Poll} {ps : List Poll} {line : Bytes}
      → p.byte ≡ some c
      → c ≢ b'\n'
      → now + p.elapsed < deadline
      → Delivers deadline later after (now + p.elapsed) ps line
      → Delivers deadline later after now (p ∷ ps) (c ∷ line)
  newline :
      {now : ℕ} {p : Poll} {ps : List Poll}
      → p.byte ≡ some b'\n'
      → now + p.elapsed < deadline
      → now + p.elapsed ≡ later
      → ps ≡ after
      → Delivers deadline later after now (p ∷ ps) []

-- The line without its carriage returns.
unfoldable pub strip_cr : Bytes → Bytes
strip_cr [] = []
strip_cr (c ∷ cs) = if c == b'\r' then strip_cr cs else c ∷ strip_cr cs

-- The call returned the length of `text`, and the buffer holds `text` and a NUL within its size.
abbrev pub Gives : Option (Device × Result ℕ) → Device → Bytes → ℕ → List Poll → Type 0
Gives r d text later after =
    (d' : Device) × (tail : Bytes) × (r ≡ some (d', ok (length text)))
    × (d'.resp_buf ≡ text ++ 0 ∷ tail)
    × (length d'.resp_buf ≡ resp_buf_size)
    × (d'.sent ≡ d.sent)
    × (d'.uptime ≡ later)
    × (d'.polls ≡ after)

set-append :
    (w : Bytes) (t : ℕ) (tail : Bytes) (c : ℕ) → set (w ++ t ∷ tail) (length w) c ≡ w ++ c ∷ tail
set-append [] t tail c = refl
set-append (x ∷ w) t tail c = ap (λ r. x ∷ r) (set-append w t tail c)

take-nil : (n : ℕ) → take n (let none_left : Bytes = [] in none_left) ≡ []
take-nil zero = refl
take-nil (suc n) = refl

take_none : (xs : Bytes) (n : ℕ) → 63 ≤ n → take (63 - n) xs ≡ []
take_none xs n h = let z : 63 - n ≡ 0 = omega arith in rw z

take_cons :
    (c : ℕ) (xs : Bytes) (n : ℕ) → n < 63 → take (63 - n) (c ∷ xs) ≡ c ∷ take (63 - (n + 1)) xs
take_cons c xs n h = let z : 63 - n ≡ suc (63 - (n + 1)) = omega arith in rw z

kept-lt : (c pos : ℕ) → is_kept c pos ≡ true → pos < 63
kept-lt c pos k = ground arith

skipped_text :
    (c pos : ℕ) (line : Bytes)
    → is_kept c pos ≡ false
    → take (63 - pos) (strip_cr (c ∷ line)) ≡ take (63 - pos) (strip_cr line)
unfolding strip_cr
skipped_text c pos line k = elim (Bool-cases (c == b'\r')) [
  | inl cr ↦ rw cr
  | inr other ↦
      take_none (strip_cr (c ∷ line)) pos (ground arith)
      ∙ sym (take_none (strip_cr line) pos (ground arith))
]

kept_text :
    (c pos : ℕ) (line : Bytes)
    → is_kept c pos ≡ true
    → take (63 - pos) (strip_cr (c ∷ line)) ≡ c ∷ take (63 - (pos + 1)) (strip_cr line)
unfolding strip_cr
kept_text c pos line k =
    let other : (c == b'\r') ≡ false = ground arith in
    rw other (take_cons c (strip_cr line) pos (kept-lt c pos k))

loop-Gives :
    (deadline later : ℕ) (after : List Poll) {now : ℕ} {ps : List Poll} {line : Bytes}
    → Delivers deadline later after now ps line
    → (pos : ℕ) (d : Device) (w : Bytes) (t : ℕ) (tail text : Bytes) → d.uptime ≡ now
    → d.resp_buf ≡ w ++ t ∷ tail
    → length w + suc (length tail) ≡ resp_buf_size
    → pos ≡ length w
    → text ≡ w ++ take (63 - pos) (strip_cr line)
    → Gives (read_loop deadline ps pos d) d text later after
unfolding strip_cr
loop-Gives deadline later after (idle {p = p} {ps = ps} quiet before rest) pos d w t tail text e b n
      l x =
    rw (loop_idle deadline pos p ps d quiet (omega arith))
      (loop-Gives deadline later after rest pos _ w t tail text (omega arith) b n l x)
loop-Gives deadline later after (arrival {c = c} {p = p} {ps = ps} {line = line} came h before rest)
      pos d w t [] text e b n l x =
    rw (loop_arrival deadline pos p ps d c came h (omega arith))
      (elim (Bool-cases (is_kept c pos)) [
        | inl k ↦ absurd (omega (arith, kept-lt c pos k))
        | inr k ↦ rw k (
            loop-Gives deadline later after rest pos _ w t [] text (omega arith) b n l
              (x ∙ ap (λ r. w ++ r) (skipped_text c pos line k)))
      ])
loop-Gives deadline later after (arrival {c = c} {p = p} {ps = ps} {line = line} came h before rest)
      pos d w t (u ∷ us) text e b n l x =
    rw (loop_arrival deadline pos p ps d c came h (omega arith))
      (elim (Bool-cases (is_kept c pos)) [
        | inl k ↦ rw k (
            loop-Gives deadline later after rest (pos + 1)
              (record d {
                resp_buf = set d.resp_buf pos c;
                uptime = d.uptime + p.elapsed;
                polls = ps;
              })
              (w ++ c ∷ []) u us text (omega arith)
              (rw (b, l) (set-append w t (u ∷ us) c ∙ sym (append_assoc w (c ∷ []) (u ∷ us))))
              (omega (arith, length-append w (c ∷ []))) (omega (arith, length-append w (c ∷ [])))
              (x ∙ rw (kept_text c pos line k, append_assoc)))
        | inr k ↦ rw k (
            loop-Gives deadline later after rest pos _ w t (u ∷ us) text (omega arith) b n l
              (x ∙ ap (λ r. w ++ r) (skipped_text c pos line k)))
      ])
loop-Gives deadline later after (newline {p = p} {ps = ps} came before at same) pos d w t tail text
      e b n l x =
    let done : text ≡ w = x ∙ rw (take-nil (63 - pos), append-nil) in
    (
      record d { resp_buf = set d.resp_buf pos 0; uptime = d.uptime + p.elapsed; polls = ps },
      tail,
      rw (loop_newline deadline pos p ps d came (omega arith), done, l),
      rw (done, l, b) (set-append w t tail 0),
      length-set d.resp_buf pos 0 ∙ (rw (b, length-append) n),
      refl,
      omega arith,
      same,
    )

cstr-append : (text tail : Bytes) → cstr (text ++ 0 ∷ tail) ≡ cstr text
unfolding cstr
cstr-append [] tail = refl
cstr-append (c ∷ text) tail = ground (arith, cstr-append text tail)

uncons :
    (buf : Bytes)
    → length buf ≡ resp_buf_size
    → (t : ℕ) × (tail : Bytes) × (buf ≡ t ∷ tail) × (suc (length tail) ≡ resp_buf_size)
uncons [] n = absurd (omega arith)
uncons (t ∷ tail) n = (t, tail, refl, n)

-- Whenever a line and its `\n` arrive before the deadline, the call returns the length of the line
-- without its carriage returns, cut at 63 bytes, and the buffer then holds that text as a C string
-- within its 64 bytes. It returns at the time of the `\n`, leaves what comes after it unread, and
-- sends nothing.
pub read_line_delivered :
    (timeout_ms later : ℕ) (after : List Poll) (d : Device) (line : Bytes)
    → length d.resp_buf ≡ resp_buf_size
    → Delivers (d.uptime + timeout_ms) later after d.uptime d.polls line
    → (d' : Device) × (read_line timeout_ms d ≡ some (d', ok (length (take 63 (strip_cr line)))))
      × (cstr d'.resp_buf ≡ cstr (take 63 (strip_cr line)))
      × (length d'.resp_buf ≡ resp_buf_size)
      × (d'.sent ≡ d.sent)
      × (d'.uptime ≡ later)
      × (d'.polls ≡ after)
unfolding read_line
read_line_delivered timeout_ms later after d line n arrives =
    let (t, tail, e, m) = uncons d.resp_buf n in
    let (d', behind, r, b, size, sent, at, left) =
      loop-Gives (d.uptime + timeout_ms) later after arrives 0 d [] t tail (take 63 (strip_cr line))
        refl e (omega arith) refl refl in
    (d', r, rw b (cstr-append (take 63 (strip_cr line)) behind), size, sent, at, left)

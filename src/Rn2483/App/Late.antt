-- ===== src/Rn2483/App/Late.antt =====
-- What the application makes of an answer that comes after its command was given up.
use winegrid_internship.Base.{
  ℕ, suc, ◌+◌, ◌≡◌, ap, ◌∙◌, arith, true, false, List, ◌∷◌, some, ok, err, Status, eio, Bytes,
  codes, length, replicate, str_eq, refl,
}
use winegrid_internship.Rn2483.{Poll, Device, resp_buf_size, cmd_timeout_ms, tx_timeout_ms}
use winegrid_internship.Rn2483.Line.{Delivers}
use winegrid_internship.Rn2483.Exchange.{answer_ready, line_text}
use winegrid_internship.Rn2483.Command.{send}
use winegrid_internship.Rn2483.Command.Send.{send_refused, send_answered}
use winegrid_internship.Rn2483.App.{app_payload, sleep_10_s, send_rounds}

-- So many pairs of the lines `ok` and `radio_tx_ok` arrive, each pair in time for a turn of the
-- loop that begins ten seconds after the end of the turn before; then `after` is to come.
pub data OkPairs (after : List Poll) : ℕ → ℕ → List Poll → Type 0 where
  no_more : {now : ℕ} {ps : List Poll} → ps ≡ after → OkPairs after 0 now ps
  pair :
      {n now t1 t2 : ℕ} {ps between rest : List Poll} {line1 line2 : Bytes}
      → Delivers (now + 10000 + cmd_timeout_ms) t1 between (now + 10000) ps line1
      → str_eq (line_text line1) (codes "ok") ≡ true
      → Delivers (t1 + tx_timeout_ms) t2 rest t1 between line2
      → str_eq (line_text line2) (codes "radio_tx_ok") ≡ true
      → OkPairs after n t2 rest
      → OkPairs after (suc n) now ps

-- One turn of the loop, and the turns after it.
one_round :
    (n : ℕ) (d d' d'' : Device) (e : Status) (errs : List Status)
    → send app_payload d ≡ some (d', e)
    → send_rounds n (sleep_10_s d') ≡ some (d'', errs)
    → send_rounds (suc n) d ≡ some (d'', e ∷ errs)
unfolding send_rounds
one_round n d d' d'' e errs now later = rw (now, send_rounds, later) refl

ok_rounds :
    (after : List Poll) {n now : ℕ} {ps : List Poll}
    → OkPairs after n now ps
    → (d : Device) → d.uptime ≡ now
    → d.polls ≡ ps
    → length d.resp_buf ≡ resp_buf_size
    → (d' : Device) × (send_rounds n (sleep_10_s d) ≡ some (d', replicate n (ok tt)))
      × (d'.polls ≡ after)
unfolding send_rounds sleep_10_s
ok_rounds after (no_more done) d e q size = (sleep_10_s d, refl, q ∙ done)
ok_rounds after
      (pair {n = n} {t1 = t1} {t2 = t2} {between = between} {rest = rest} {line1 = line1}
        {line2 = line2} first ready second sent more)
      d e q size =
    let (d1, r1, size1, at1, left1) =
      send_answered app_payload line1 line2 (sleep_10_s d) t1 t2 between rest (omega arith) size
        (rw (e, q) first) ready second in
    let (d2, r2, left2) = ok_rounds after more d1 at1 left1 size1 in
    (
      d2,
      one_round n (sleep_10_s d) d1 d2 (ok tt) (replicate n (ok tt))
          (r1 ∙ ap (λ s. some (d1, s)) (answer_ready (line_text line2) (codes "radio_tx_ok") sent))
          r2,
      left2,
    )

-- A line that is not `ok`, such as the `radio_tx_ok` of a command that was given up, makes the turn
-- that reads it first fail. If n pairs of the lines `ok` and `radio_tx_ok` come after it, each in
-- time for one of the next n turns, those turns succeed, and what comes after the pairs is still
-- unread when the n + 1 turns are over, whatever it is: the last turn does not read a line of it.
pub late_answer_shifts :
    (line : Bytes) (d : Device) (n t : ℕ) (between after : List Poll)
    → length d.resp_buf ≡ resp_buf_size
    → Delivers (d.uptime + cmd_timeout_ms) t between d.uptime d.polls line
    → str_eq (line_text line) (codes "ok") ≡ false
    → OkPairs after n t between
    → (d' : Device) × (send_rounds (suc n) d ≡ some (d', err eio ∷ replicate n (ok tt)))
      × (d'.polls ≡ after)
late_answer_shifts line d n t between after size late other pairs =
    let (d1, r1, size1, at1, left1) =
      send_refused app_payload line d t between (omega arith) size late other in
    let (d2, r2, left2) = ok_rounds after pairs d1 at1 left1 size1 in
    (d2, one_round n d d1 d2 (err eio) (replicate n (ok tt)) r1 r2, left2)

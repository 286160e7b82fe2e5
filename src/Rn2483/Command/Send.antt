-- ===== src/Rn2483/Command/Send.antt =====
-- What `rn2483_send` sends, and what it returns.
use winegrid_internship.Base.{
  ℕ, ◌+◌, ◌≤◌, ◌<◌, true, List, [], ◌++◌, some, err, einval, eio, Bytes, AreBytes, codes, length,
  ◌≡◌, ap, ◌∙◌, hex_bytes, false, unhex, unhex-hex_bytes, str_eq, ltb, ltb-false, ltb→lt, le_of_ltb,
  Bool-cases, inl, inr, ◌⊎◌,
}
use winegrid_internship.Rn2483.{
  Poll, Device, M, ◌>>◌, cmd_expect_ok, read_line, expect_response, resp_buf_size, cmd_timeout_ms,
  tx_timeout_ms,
}
use winegrid_internship.Rn2483.Line.{Delivers}
use winegrid_internship.Rn2483.Exchange.{
  Sends, cmd_expect_ok-Sends, bind-Sends, read_line-Sends, expect_response-Sends, bind-ok, answer,
  answer_ready, answer_other, bind-err, line_text, read_and_expect, cmd_expect_ok_answered,
}
use winegrid_internship.Rn2483.Command.{crlf, max_payload, send}
use winegrid_internship.Rn2483.Command.Build.{tx_cmd, sent_cmd}

await_tx : M (Unit {0})
await_tx = do read_line tx_timeout_ms; expect_response (codes "radio_tx_ok")

send_lem :
    (payload : Bytes) (d : Device)
    → length payload ≤ max_payload
    → send payload d ≡ ◌>>◌ (cmd_expect_ok (tx_cmd payload)) await_tx d
unfolding send await_tx
send_lem payload d h = rw (ltb-false max_payload (length payload) h, sent_cmd payload h)

refused :
    (payload : Bytes) (d : Device)
    → ltb max_payload (length payload) ≡ true
    → send payload d ≡ some (d, err einval)
unfolding send
refused payload d h = rw h

pub transmitted :
    (payload : Bytes) (d : Device)
    → length payload ≤ max_payload
    → Sends (tx_cmd payload) d (send payload d)
unfolding await_tx
transmitted payload d h = rw (send_lem payload d h) (
    bind-Sends (cmd_expect_ok (tx_cmd payload) d) (λ _. await_tx) (tx_cmd payload) d
      (cmd_expect_ok-Sends (tx_cmd payload) d)
      (λ _ d'.
        bind-Sends (read_line tx_timeout_ms d') (λ _. expect_response (codes "radio_tx_ok")) [] d'
          (read_line-Sends tx_timeout_ms d') (λ _ d''. expect_response-Sends _ d'')))

-- A payload of more than 64 bytes is refused with EINVAL, and nothing is sent or read.
-- Any other payload of bytes leaves as `radio tx`, its bytes in hexadecimal and a line end,
-- whatever the module answers, and reading the hexadecimal digits gives the payload back.
pub send_payload :
    (payload : Bytes) (d : Device)
    → AreBytes payload
    → ((max_payload < length payload) × (send payload d ≡ some (d, err einval)))
      ⊎ ((length payload ≤ max_payload)
          × ((digits : Bytes) × Sends (codes "radio tx " ++ (digits ++ crlf)) d (send payload d)
              × (unhex digits ≡ payload)))
send_payload payload d bytes = elim (Bool-cases (ltb max_payload (length payload))) [
  | inl long ↦ inl (ltb→lt _ _ long, refused payload d long)
  | inr short ↦
      let h = le_of_ltb _ _ short in
      inr (h, (hex_bytes payload, transmitted payload d h, unhex-hex_bytes payload bytes))
]

-- With a first answer line in time that is not `ok`, the call ends with EIO and reads no more.
pub send_refused :
    (payload line1 : Bytes) (d : Device) (t1 : ℕ) (after1 : List Poll)
    → length payload ≤ max_payload
    → length d.resp_buf ≡ resp_buf_size
    → Delivers (d.uptime + cmd_timeout_ms) t1 after1 d.uptime d.polls line1
    → str_eq (line_text line1) (codes "ok") ≡ false
    → (d' : Device) × (send payload d ≡ some (d', err eio))
      × (length d'.resp_buf ≡ resp_buf_size)
      × (d'.uptime ≡ t1)
      × (d'.polls ≡ after1)
send_refused payload line1 d t1 after1 h n first other =
    let (d1, r1, size1, sent1, at1, left1) =
      cmd_expect_ok_answered (tx_cmd payload) t1 after1 d line1 n first in
    (
      d1,
      send_lem payload d h
          ∙ bind-err (cmd_expect_ok (tx_cmd payload)) (λ _. await_tx) d d1 eio
              (r1 ∙ ap (λ s. some (d1, s)) (answer_other (line_text line1) (codes "ok") other)),
      size1,
      at1,
      left1,
    )

-- With both answer lines in time (two seconds for the first, eight more for the second) and the
-- first one `ok`, the call succeeds exactly if the second reads `radio_tx_ok`, and any other text
-- ends it with EIO.
pub send_answered :
    (payload line1 line2 : Bytes) (d : Device) (t1 t2 : ℕ) (after1 after2 : List Poll)
    → length payload ≤ max_payload
    → length d.resp_buf ≡ resp_buf_size
    → Delivers (d.uptime + cmd_timeout_ms) t1 after1 d.uptime d.polls line1
    → str_eq (line_text line1) (codes "ok") ≡ true
    → Delivers (t1 + tx_timeout_ms) t2 after2 t1 after1 line2
    → (d' : Device) × (send payload d ≡ some (d', answer (line_text line2) (codes "radio_tx_ok")))
      × (length d'.resp_buf ≡ resp_buf_size)
      × (d'.uptime ≡ t2)
      × (d'.polls ≡ after2)
unfolding await_tx
send_answered payload line1 line2 d t1 t2 after1 after2 h n first ready second =
    let (d1, r1, size1, sent1, at1, left1) =
      cmd_expect_ok_answered (tx_cmd payload) t1 after1 d line1 n first in
    let (d2, r2, size2, sent2, at2, left2) =
      read_and_expect tx_timeout_ms t2 after2 d1 line2 (codes "radio_tx_ok") size1
        (rw (at1, left1) second) in
    (
      d2,
      send_lem payload d h
          ∙ bind-ok (cmd_expect_ok (tx_cmd payload)) (λ _. await_tx) d d1 tt
              (r1 ∙ ap (λ s. some (d1, s)) (answer_ready (line_text line1) (codes "ok") ready))
          ∙ r2,
      size2,
      at2,
      left2,
    )

-- ===== src/Rn2483/Tests.antt =====
-- Witnesses and tests of the RN2483 driver.
use winegrid_internship.Base.{
  ℕ, ◌+◌, ◌≤◌, ◌<◌, ◌≡◌, ◌≢◌, refl, arith, ok, err, some, none, List, [], ◌∷◌, ◌++◌, Option, Bytes,
  codes, replicate, length, pos, einval, ◌⊎◌, unhex,
}
use winegrid_internship.Rn2483.{Poll, Device, read_line, cstr, resp_buf_size}
use winegrid_internship.Rn2483.Line.{
  Delivers, arrival, newline, idle, strip_cr, read_line_delivered,
}
use winegrid_internship.Rn2483.Timeout.{Returns, read_line-Returns}
use winegrid_internship.Rn2483.Exchange.{Sends}
use winegrid_internship.Rn2483.Command.{
  ModemConfig, bw_125_khz, build_tx_cmd, send, crlf, max_payload,
}
use winegrid_internship.Rn2483.Command.Send.{send_payload}
use winegrid_internship.Rn2483.Command.Build.{tx_cmd, build_tx_cmd-tx_cmd}

-- A byte, or none, one millisecond after the turn before.
abbrev turn : Option ℕ → Poll
turn b = record { elapsed = 1; byte = b }

abbrev pub ok_turns : List Poll → List Poll
ok_turns ps =
    turn (some b'o') ∷ turn none ∷ turn (some b'k') ∷ turn (some b'\r') ∷ turn (some b'\n') ∷ ps

abbrev pub module_at : List Poll → Device
module_at ps = record { resp_buf = replicate 64 0; sent = []; uptime = 10; polls = ps }

ok_arrives :
    (now : ℕ) (after : List Poll)
    → Delivers (now + 2000) (now + 7) after now (ok_turns after) (b'o' ∷ b'k' ∷ b'\r' ∷ [])
ok_arrives now after =
    arrival refl (λ e. omega arith) (omega arith)
      (idle refl (omega arith) (
        arrival refl (λ e. omega arith) (omega arith)
          (arrival refl (λ e. omega arith) (omega arith)
            (newline refl (omega arith) (omega arith) refl))))

read_line_delivered_example :
    (d' : Device) × (read_line 2000 (module_at (ok_turns [])) ≡ some (d', ok 2))
    × (cstr d'.resp_buf ≡ b'o' ∷ b'k' ∷ [])
    × (length d'.resp_buf ≡ resp_buf_size)
    × (d'.sent ≡ [])
    × (d'.uptime ≡ 17)
    × (d'.polls ≡ [])
unfolding strip_cr cstr
read_line_delivered_example =
    read_line_delivered 2000 17 [] (module_at (ok_turns [])) (b'o' ∷ b'k' ∷ b'\r' ∷ []) refl
      (ok_arrives 10 [])

-- Nothing comes for two seconds.
read_line-Returns_example :
    Returns 2010
      (module_at (record { elapsed = 2000; byte = none } ∷ []))
      (read_line 2000 (module_at (record { elapsed = 2000; byte = none } ∷ [])))
read_line-Returns_example =
    read_line-Returns 2000 (module_at (record { elapsed = 2000; byte = none } ∷ [])) (omega arith)
      (omega arith)

abbrev modem : ModemConfig
modem = record { frequency = 868100000; bandwidth = bw_125_khz; datarate = 7; tx_power = pos 14 }

send_payload_example :
    ((max_payload < 4)
      × (send (1 ∷ 2 ∷ 3 ∷ 4 ∷ []) (module_at (ok_turns []))
          ≡ some (module_at (ok_turns []), err einval)))
    ⊎ ((4 ≤ max_payload)
        × ((digits : Bytes) × Sends
              (codes "radio tx " ++ (digits ++ crlf))
              (module_at (ok_turns []))
              (send (1 ∷ 2 ∷ 3 ∷ 4 ∷ []) (module_at (ok_turns [])))
            × (unhex digits ≡ 1 ∷ 2 ∷ 3 ∷ 4 ∷ [])))
send_payload_example = send_payload (1 ∷ 2 ∷ 3 ∷ 4 ∷ []) (module_at (ok_turns [])) (omega arith)

abbrev pub tx_ok_line : Bytes
tx_ok_line = codes "radio_tx_ok"

-- The bytes of a line without `\n`, one in each turn, and then `\n`.
abbrev pub line_turns : Bytes → List Poll → List Poll
line_turns [] after = turn (some b'\n') ∷ after
line_turns (c ∷ cs) after = turn (some c) ∷ line_turns cs after

abbrev pub NoNewline : Bytes → Type 0
NoNewline [] = Unit
NoNewline (c ∷ cs) = (c ≢ b'\n') × NoNewline cs

pub line_arrives :
    (line : Bytes) (now deadline later : ℕ) (after : List Poll)
    → NoNewline line
    → later ≡ now + length line + 1
    → later < deadline
    → Delivers deadline later after now (line_turns line after) line
line_arrives [] now deadline later after n e l = newline refl (omega arith) (omega arith) refl
line_arrives (c ∷ cs) now deadline later after n e l =
    arrival refl n.0 (omega arith)
      (line_arrives cs (now + 1) deadline later after n.1 (omega arith) l)

build_tx_cmd-tx_cmd_example :
    build_tx_cmd (1 ∷ 2 ∷ 0xAB ∷ [])
    ≡ record { pos = length (tx_cmd (1 ∷ 2 ∷ 0xAB ∷ [])); cmd = tx_cmd (1 ∷ 2 ∷ 0xAB ∷ []) }
build_tx_cmd-tx_cmd_example = build_tx_cmd-tx_cmd (1 ∷ 2 ∷ 0xAB ∷ []) (omega arith)

-- ===== src/Rn2483/Command/Build.antt =====
-- The command that the loop of `rn2483_send` builds, one `snprintf` at a time.
use winegrid_internship.Base.{
  ℕ, ◌+◌, ◌-◌, ◌*◌, ◌%◌, ◌^◌, ◌≤◌, ◌<◌, ◌≡◌, sym, ap, ap₂, ◌∙◌, arith, [], ◌∷◌, ◌++◌, Bytes, codes,
  length, take, take_all, append-nil, append_assoc, length-append, hex_bytes, length-hex_bytes,
}
use winegrid_internship.Rn2483.Command.{
  crlf, CmdBuffer, append_cmd, append_hex, build_tx_cmd, tx_cmd_size, max_payload,
}

-- What the command reads for a payload.
abbrev pub tx_cmd : Bytes → Bytes
tx_cmd payload = codes "radio tx " ++ (hex_bytes payload ++ crlf)

append_cmd-fits :
    (text : Bytes) (b : CmdBuffer)
    → b.pos + length text < tx_cmd_size
    → append_cmd text b ≡ record { pos = b.pos + length text; cmd = b.cmd ++ text }
unfolding append_cmd
append_cmd-fits text b h =
    ap (λ written. record { pos = b.pos + length text; cmd = b.cmd ++ written })
      (take_all ((tx_cmd_size + 2 ^ 32 - b.pos) % 2 ^ 32 - 1) text (omega arith))

abbrev buffer : ℕ → Bytes → CmdBuffer
buffer pos cmd = record { pos = pos; cmd = cmd }

same_buffer : {p q : ℕ} {s t : Bytes} → p ≡ q → s ≡ t → buffer p s ≡ buffer q t
same_buffer e f = ap₂ buffer e f

append_hex-fits :
    (payload : Bytes) (b : CmdBuffer)
    → b.pos + 2 * length payload < tx_cmd_size
    → append_hex payload b
      ≡ record { pos = b.pos + 2 * length payload; cmd = b.cmd ++ hex_bytes payload }
unfolding append_hex hex_bytes
append_hex-fits [] b h = same_buffer (omega arith) (sym (append-nil b.cmd))
append_hex-fits (c ∷ cs) b h =
    let two = hex_bytes (c ∷ []) in
    ap (append_hex cs) (append_cmd-fits two b (omega arith))
    ∙ (append_hex-fits cs (record { pos = b.pos + 2; cmd = b.cmd ++ two }) (omega arith)
        ∙ same_buffer (omega arith) (append_assoc b.cmd two (hex_bytes cs)))

-- For a payload of at most 64 bytes, the calls of `snprintf`, each at `pos`, together write
-- `radio tx`, the payload in hexadecimal and a line end, uncut, and `pos` ends as its length.
pub build_tx_cmd-tx_cmd :
    (payload : Bytes)
    → length payload ≤ max_payload
    → build_tx_cmd payload ≡ record { pos = length (tx_cmd payload); cmd = tx_cmd payload }
unfolding build_tx_cmd
build_tx_cmd-tx_cmd payload h =
    let first : CmdBuffer = record { pos = 9; cmd = codes "radio tx " } in
    let second : CmdBuffer = record {
      pos = 9 + 2 * length payload;
      cmd = first.cmd ++ hex_bytes payload;
    } in
    ap (λ b. append_cmd crlf (append_hex payload b))
      (append_cmd-fits (codes "radio tx ") (record { pos = 0; cmd = [] }) (omega arith))
    ∙ (ap (append_cmd crlf) (append_hex-fits payload first (omega arith))
        ∙ (append_cmd-fits crlf second (omega arith)
            ∙ same_buffer
                (omega (arith, length-append (hex_bytes payload) crlf, length-hex_bytes payload))
                (append_assoc (codes "radio tx ") (hex_bytes payload) crlf)))

-- What the call sends.
pub sent_cmd :
    (payload : Bytes)
    → length payload ≤ max_payload
    → take (build_tx_cmd payload).pos (build_tx_cmd payload).cmd ≡ tx_cmd payload
sent_cmd payload h =
    ap (λ (b : CmdBuffer). take b.pos b.cmd) (build_tx_cmd-tx_cmd payload h)
    ∙ take_all (length (tx_cmd payload)) (tx_cmd payload) (omega arith)

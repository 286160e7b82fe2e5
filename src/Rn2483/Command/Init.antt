-- ===== src/Rn2483/Command/Init.antt =====
-- What `rn2483_init` does with a banner and a version line.
use winegrid_internship.Base.{
  ℕ, ◌+◌, true, false, List, [], ◌∷◌, ◌++◌, none, some, ok, err, enodev, Bytes, codes, length, ◌≡◌,
  refl, ap, ◌∙◌, arith,
}
use winegrid_internship.Rn2483.{Poll, Device, pure, resp_buf_size, cmd_timeout_ms, read_line, cstr}
use winegrid_internship.Rn2483.Line.{Delivers, read_line_delivered}
use winegrid_internship.Rn2483.Timeout.{total_elapsed}
use winegrid_internship.Rn2483.Exchange.{write_line_lem, bind-ok, line_text}
use winegrid_internship.Rn2483.Command.{drain, init}

-- Every turn finds a byte.
abbrev pub IsBanner : List Poll → Type 0
IsBanner [] = Unit
IsBanner (p ∷ ps) = ((c : ℕ) × (p.byte ≡ some c)) × IsBanner ps

device_path :
    {t u : ℕ} (d : Device) (rest : List Poll)
    → t ≡ u
    → (let r : Device = record d { uptime = t; polls = rest } in r)
      ≡ record d { uptime = u; polls = rest }
device_path d rest e = ap (λ t. record d { uptime = t; polls = rest }) e

drain_banner :
    (banner rest : List Poll) (quiet : Poll) (d : Device)
    → IsBanner banner
    → quiet.byte ≡ none
    → drain (banner ++ quiet ∷ rest) d
      ≡ some (record d { uptime = d.uptime + (total_elapsed banner + quiet.elapsed); polls = rest })
unfolding drain
drain_banner [] rest quiet d b q = rw q (ap some (device_path d rest (omega arith)))
drain_banner (p ∷ ps) rest quiet d b q = rw b.0.1 (
    drain_banner ps rest quiet
      (record d { uptime = d.uptime + p.elapsed; polls = ps ++ quiet ∷ rest }) b.1 q
    ∙ ap some (device_path d rest (omega arith)))

-- With the UART ready, the bytes of a banner are discarded up to the first turn that finds none.
-- Then the version is asked for, and a line that arrives within two seconds ends the call with
-- success and is what the buffer holds. With no UART the call fails with ENODEV and changes nothing.
init_answered :
    (banner rest after : List Poll) (quiet : Poll) (later : ℕ) (d : Device) (line : Bytes)
    → d.polls ≡ banner ++ quiet ∷ rest
    → IsBanner banner
    → quiet.byte ≡ none
    → length d.resp_buf ≡ resp_buf_size
    → let start = d.uptime + (total_elapsed banner + quiet.elapsed) in
      Delivers (start + cmd_timeout_ms) later after start rest line
      → (d' : Device) × (init true d ≡ some (d', ok tt))
        × (cstr d'.resp_buf ≡ line_text line)
        × (d'.sent ≡ d.sent ++ codes "sys get ver\r\n")
        × (d'.polls ≡ after)
        × (init false d ≡ some (d, err enodev))
unfolding init
init_answered banner rest after quiet later d line e b q n arrives =
    let asking : Device = record d {
      sent = d.sent ++ codes "sys get ver\r\n";
      uptime = d.uptime + (total_elapsed banner + quiet.elapsed);
      polls = rest;
    } in
    let (d', r, text, size, sent, at, left) =
      read_line_delivered cmd_timeout_ms later after asking line n arrives in
    (
      d',
      rw (ap (λ l. drain l d) e ∙ drain_banner banner rest quiet d b q, write_line_lem)
          (bind-ok (read_line cmd_timeout_ms) (λ _. pure tt) asking d' _ r),
      text,
      sent,
      left,
      refl,
    )

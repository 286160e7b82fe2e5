-- ===== src/Rn2483/Command.antt =====
-- The commands of the driver: `rn2483_config`, `rn2483_send`, `rn2483_init` and the entries of its
-- API that are not implemented.
pub mod Config
pub mod Build
pub mod Send
pub mod Init
use winegrid_internship.Base.{
  ℕ, ◌+◌, ◌*◌, ◌-◌, ◌%◌, ◌^◌, Bool, true, false, not, if◌then◌else◌, ltb, List, [], ◌∷◌, ◌++◌,
  Option, none, some, Result, ok, err, Status, einval, enosys, enodev, Bytes, length, take, codes,
  dec, dec_int, ℤ, hex_bytes, snprintf,
}
use winegrid_internship.Rn2483.{
  Device, Poll, M, ◌>>=◌, ◌>>◌, pure, fail, cmd_timeout_ms, tx_timeout_ms, write_line, read_line,
  cmd_expect_ok, expect_response,
}

-- `enum lora_signal_bandwidth`.
pub data Bandwidth : Type 0 where
  bw_125_khz bw_250_khz bw_500_khz : Bandwidth
  bw_other : ℕ → Bandwidth

-- The fields of `struct lora_modem_config` that the driver reads.
pub record ModemConfig : Type 0 where
  pub frequency : ℕ
  pub bandwidth : Bandwidth
  pub datarate : ℕ
  pub tx_power : ℤ

-- `rn2483_bandwidth_khz`.
unfoldable pub bandwidth_khz : Bandwidth → ℕ
bandwidth_khz bw_125_khz = 125
bandwidth_khz bw_250_khz = 250
bandwidth_khz bw_500_khz = 500
bandwidth_khz (bw_other n) = 125

abbrev pub crlf : Bytes
crlf = b'\r' ∷ b'\n' ∷ []

-- The texts that `rn2483_config` formats, before `snprintf` cuts them to the buffer.
unfoldable pub freq_cmd : ModemConfig → Bytes
freq_cmd c = codes "radio set freq " ++ (dec c.frequency ++ crlf)

unfoldable pub pwr_cmd : ModemConfig → Bytes
pwr_cmd c = codes "radio set pwr " ++ (dec_int c.tx_power ++ crlf)

unfoldable pub sf_cmd : ModemConfig → Bytes
sf_cmd c = codes "radio set sf sf" ++ (dec c.datarate ++ crlf)

unfoldable pub bw_cmd : ModemConfig → Bytes
unfolding bandwidth_khz
bw_cmd c = codes "radio set bw " ++ (dec (bandwidth_khz c.bandwidth) ++ crlf)

-- `rn2483_config`; its buffer is `char cmd[48]`.
unfoldable pub config : ModemConfig → M (Unit {0})
config c = do
  cmd_expect_ok (snprintf 48 (freq_cmd c))
  cmd_expect_ok (snprintf 48 (pwr_cmd c))
  cmd_expect_ok (snprintf 48 (sf_cmd c))
  cmd_expect_ok (snprintf 48 (bw_cmd c))

-- `RN2483_MAX_PAYLOAD`.
abbrev pub max_payload : ℕ
max_payload = 64

-- `sizeof(cmd)` in `rn2483_send`.
abbrev pub tx_cmd_size : ℕ
tx_cmd_size = 2 * max_payload + 16

-- `char cmd[]` of `rn2483_send` as far as it is written, and `pos`.
pub record CmdBuffer : Type 0 where
  pub pos : ℕ
  pub cmd : Bytes

-- `pos += snprintf(cmd + pos, sizeof(cmd) - pos, …)`, in `size_t` of 32 bits: it counts the whole
-- text, and writes what there is room for.
unfoldable pub append_cmd : Bytes → CmdBuffer → CmdBuffer
append_cmd text b = record {
  pos = b.pos + length text;
  cmd = b.cmd ++ snprintf ((tx_cmd_size + 2 ^ 32 - b.pos) % 2 ^ 32) text;
}

-- The loop over the bytes of the payload, each as `%02x`.
unfoldable pub append_hex : Bytes → CmdBuffer → CmdBuffer
unfolding append_cmd
append_hex [] b = b
append_hex (c ∷ cs) b = append_hex cs (append_cmd (hex_bytes (c ∷ [])) b)

unfoldable pub build_tx_cmd : Bytes → CmdBuffer
unfolding append_hex
build_tx_cmd payload =
    append_cmd crlf
      (append_hex payload (append_cmd (codes "radio tx ") (record { pos = 0; cmd = [] })))

-- `rn2483_send`.
unfoldable pub send : Bytes → M (Unit {0})
unfolding build_tx_cmd
send payload = if ltb max_payload (length payload) then fail einval else (do
  cmd_expect_ok (take (build_tx_cmd payload).pos (build_tx_cmd payload).cmd)
  read_line tx_timeout_ms
  expect_response (codes "radio_tx_ok"))

-- `rn2483_send_async_stub`, `rn2483_recv_stub`, `rn2483_recv_async_stub`, `rn2483_test_cw_stub`.
unfoldable pub unsupported : M (Unit {0})
unsupported = fail enosys

-- The loop in `rn2483_init` that discards what the module has already sent.
unfoldable pub drain : List Poll → Device → Option Device
drain [] d = none
drain (p ∷ ps) d = elim p.byte [
  | none ↦ some (record d { uptime = d.uptime + p.elapsed; polls = ps })
  | some c ↦ drain ps (record d { uptime = d.uptime + p.elapsed; polls = ps })
]

-- `rn2483_init`; the first argument is what `device_is_ready` answers.
unfoldable pub init : Bool → M (Unit {0})
unfolding drain
init ready d = if not ready then some (d, err enodev) else elim (drain d.polls d) [
  | none ↦ none
  | some d' ↦ (do read_line cmd_timeout_ms; pure tt) (write_line (codes "sys get ver\r\n") d')
]

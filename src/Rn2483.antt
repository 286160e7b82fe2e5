-- ===== src/Rn2483.antt =====
-- The RN2483 LoRa driver, zephyr-rn2483-poc/module/drivers/lora/rn2483/rn2483.c: the port that it
-- polls, and reading and writing lines. The commands are in Rn2483/Command.antt.
pub mod Loop
pub mod Line
pub mod Timeout
pub mod Exchange
pub mod Command
pub mod App
mod Tests
mod AppTests
use winegrid_internship.Base.{
  ℕ, suc, ◌+◌, ◌-◌, Bool, true, false, ◌&&◌, not, if◌then◌else◌, ltb, leb, ◌==◌, List, [], ◌∷◌,
  ◌++◌, Option, none, some, Result, ok, err, Errno, etimedout, eio, Bytes, set, codes, str_eq,
}

-- What happens between two turns of a polling loop: milliseconds pass, and then `uart_poll_in`
-- finds a byte, or none.
pub record Poll : Type 0 where
  pub elapsed : ℕ
  pub byte : Option ℕ

-- `struct rn2483_data` with the UART behind it: the bytes sent, the clock, and what is to come.
pub record Device : Type 0 where
  pub resp_buf : Bytes
  pub sent : Bytes
  pub uptime : ℕ
  pub polls : List Poll

-- A driver call. `none`: the given polls ended while the call was still waiting.
abbrev pub M {ℓ} : Type ℓ → Type ℓ
M A = Device → Option (Device × Result A)

infixl 5 ◌>>=◌ ◌>>◌
abbrev pub ◌>>=◌ {ℓ κ} : {A : Type ℓ} {B : Type κ} → M A → (A → M B) → M B
◌>>=◌ m f d = elim (m d) [
  | none ↦ none
  | some (d', err e) ↦ some (d', err e)
  | some (d', ok a) ↦ f a d'
]

abbrev pub ◌>>◌ {ℓ κ} : {A : Type ℓ} {B : Type κ} → M A → M B → M B
m >> k = m >>= λ _. k

abbrev pub pure {ℓ} : {A : Type ℓ} → A → M A
pure a d = some (d, ok a)

abbrev pub fail {ℓ} : {A : Type ℓ} → Errno → M A
fail e d = some (d, err e)

-- `RN2483_RESP_BUF_SIZE`, `RN2483_CMD_TIMEOUT_MS` and `RN2483_TX_TIMEOUT_MS`.
abbrev pub resp_buf_size : ℕ
resp_buf_size = 64

abbrev pub cmd_timeout_ms : ℕ
cmd_timeout_ms = 2000

abbrev pub tx_timeout_ms : ℕ
tx_timeout_ms = 8000

-- `rn2483_write_line`: one `uart_poll_out` for each byte.
unfoldable pub write_line : Bytes → Device → Device
write_line [] d = d
write_line (c ∷ cs) d = write_line cs (record d { sent = d.sent ++ c ∷ [] })

-- `c != '\r' && pos < RN2483_RESP_BUF_SIZE - 1`.
abbrev pub is_kept : ℕ → ℕ → Bool
is_kept c pos = not (c == b'\r') && ltb pos (resp_buf_size - 1)

-- The loop of `rn2483_read_line`. A poll that the deadline forestalls is still to come.
unfoldable pub read_loop : ℕ → List Poll → ℕ → Device → Option (Device × Result ℕ)
read_loop deadline [] pos d = none
read_loop deadline (p ∷ ps) pos d = elim (ltb (d.uptime + p.elapsed) deadline) [
  | false ↦ some (
    record d { uptime = d.uptime + p.elapsed; polls = record p { elapsed = 0 } ∷ ps },
    err etimedout,
  )
  | true ↦ elim p.byte [
    | none ↦ read_loop deadline ps pos (record d { uptime = d.uptime + p.elapsed + 2; polls = ps })
    | some c ↦ elim (c == b'\n') [
      | true ↦ some (
        record d { resp_buf = set d.resp_buf pos 0; uptime = d.uptime + p.elapsed; polls = ps },
        ok pos,
      )
      | false ↦ read_loop deadline ps (if is_kept c pos then pos + 1 else pos) (record d {
        resp_buf = if is_kept c pos then set d.resp_buf pos c else d.resp_buf;
        uptime = d.uptime + p.elapsed;
        polls = ps;
      })
    ]
  ]
]

-- `rn2483_read_line`: the length of the line, without `\r` and `\n`.
unfoldable pub read_line : ℕ → M ℕ
read_line timeout_ms d = read_loop (d.uptime + timeout_ms) d.polls 0 d

-- The C string that a buffer holds: the bytes before the first NUL.
unfoldable pub cstr : Bytes → Bytes
cstr [] = []
cstr (c ∷ cs) = if c == 0 then [] else c ∷ cstr cs

-- `strcmp(data->resp_buf, text) != 0` ends the call with `-EIO`.
unfoldable pub expect_response : Bytes → M (Unit {0})
unfolding cstr
expect_response text d =
    if not (str_eq (cstr d.resp_buf) text) then some (d, err eio) else some (d, ok tt)

-- `rn2483_cmd_expect_ok`.
unfoldable pub cmd_expect_ok : Bytes → M (Unit {0})
unfolding write_line
cmd_expect_ok cmd d = (do read_line cmd_timeout_ms; expect_response (codes "ok")) (write_line cmd d)

-- ===== src/Rn2483/Command/Config.antt =====
-- What `rn2483_config` sends.
use winegrid_internship.Base.{
  ℕ, suc, ◌^◌, ◌≤◌, ◌<◌, List, [], ◌∷◌, ◌++◌, Option, none, some, ok, err, Status, Bytes, length,
  take, take_all, snprintf, ◌≡◌, ◌∙◌, arith, append_assoc, append-nil, ℤ, pos, negsuc, dec, dec_int,
  length-dec, length-append,
}
use winegrid_internship.Rn2483.{Device, M, ◌>>=◌, cmd_expect_ok}
use winegrid_internship.Rn2483.Exchange.{Sends, cmd_expect_ok-Sends}
use winegrid_internship.Rn2483.Command.{
  ModemConfig, bandwidth_khz, crlf, freq_cmd, pwr_cmd, sf_cmd, bw_cmd, config, Bandwidth,
  bw_125_khz, bw_250_khz, bw_500_khz, bw_other,
}

abbrev pub join : List Bytes → Bytes
join [] = []
join (c ∷ cs) = c ++ join cs

-- On success all of `cmds` was sent, in order; on failure, a prefix of them that is not empty.
abbrev pub Follows : List Bytes → Device → Option (Device × Status) → Type 0
Follows cmds d none = Unit
Follows cmds d (some (d', ok u)) = d'.sent ≡ d.sent ++ join cmds
Follows cmds d (some (d', err e)) =
    (k : ℕ) × (k < length cmds) × (d'.sent ≡ d.sent ++ join (take (suc k) cmds))

Follows-one :
    (cmd : Bytes) (d : Device) (r : Option (Device × Status))
    → Sends cmd d r
    → Follows (cmd ∷ []) d r
Follows-one cmd d none h = tt
Follows-one cmd d (some (d', ok u)) h = rw append-nil h
Follows-one cmd d (some (d', err e)) h = (0, omega arith, rw append-nil h)

Follows-trans :
    (cmd : Bytes) (cmds : List Bytes) (d d' : Device) (r : Option (Device × Status))
    → d'.sent ≡ d.sent ++ cmd
    → Follows cmds d' r
    → Follows (cmd ∷ cmds) d r
Follows-trans cmd cmds d d' none e h = tt
Follows-trans cmd cmds d d' (some (t, ok u)) e h = h ∙ rw (e, append_assoc)
Follows-trans cmd cmds d d' (some (t, err x)) e h =
    (suc h.0, omega (arith, h.1), h.2 ∙ rw (e, append_assoc))

Follows-then :
    (cmd : Bytes) (cmds : List Bytes) (d : Device) (r : Option (Device × Status)) (k : M (Unit {0}))
    → Sends cmd d r
    → ((d' : Device) → Follows cmds d' (k d'))
    → Follows (cmd ∷ cmds) d (◌>>=◌ (λ _. r) (λ _. k) d)
Follows-then cmd cmds d none k h rest = tt
Follows-then cmd cmds d (some (d', err e)) k h rest = (0, omega arith, rw append-nil h)
Follows-then cmd cmds d (some (d', ok u)) k h rest = Follows-trans cmd cmds d d' (k d') h (rest d')

-- An `int8_t`.
abbrev pub PowerFits : ℤ → Type 0
PowerFits (pos n) = n < 128
PowerFits (negsuc n) = n < 128

-- The fields fit their C types: `uint32_t`, `int8_t` and an enumeration of spreading factors.
pub record FitsTypes (c : ModemConfig) : Type 0 where
  pub frequency_fits : c.frequency < 2 ^ 32
  pub datarate_fits : c.datarate < 2 ^ 32
  pub power_fits : PowerFits c.tx_power

abbrev pub commands : ModemConfig → List Bytes
commands c = freq_cmd c ∷ pwr_cmd c ∷ sf_cmd c ∷ bw_cmd c ∷ []

length-power : (p : ℤ) → PowerFits p → length (dec_int p) ≤ 4
unfolding dec_int
length-power (pos n) h = omega (arith, length-dec n 2 (omega arith))
length-power (negsuc n) h = omega (arith, length-dec (suc n) 2 (omega arith))

bandwidth_khz-lt : (b : Bandwidth) → bandwidth_khz b < 10 ^ 3
unfolding bandwidth_khz
bandwidth_khz-lt bw_125_khz = omega arith
bandwidth_khz-lt bw_250_khz = omega arith
bandwidth_khz-lt bw_500_khz = omega arith
bandwidth_khz-lt (bw_other n) = omega arith

freq_cmd-uncut : (c : ModemConfig) → FitsTypes c → snprintf 48 (freq_cmd c) ≡ freq_cmd c
unfolding freq_cmd
freq_cmd-uncut c f = take_all 47 _ (
    omega (
      arith,
      length-append (dec c.frequency) crlf,
      length-dec c.frequency 9 (omega (arith, f.frequency_fits)),
    ))

pwr_cmd-uncut : (c : ModemConfig) → FitsTypes c → snprintf 48 (pwr_cmd c) ≡ pwr_cmd c
unfolding pwr_cmd
pwr_cmd-uncut c f =
    take_all 47 _
      (omega (arith, length-append (dec_int c.tx_power) crlf, length-power c.tx_power f.power_fits))

sf_cmd-uncut : (c : ModemConfig) → FitsTypes c → snprintf 48 (sf_cmd c) ≡ sf_cmd c
unfolding sf_cmd
sf_cmd-uncut c f = take_all 47 _ (
    omega (
      arith,
      length-append (dec c.datarate) crlf,
      length-dec c.datarate 9 (omega (arith, f.datarate_fits)),
    ))

bw_cmd-uncut : (c : ModemConfig) → snprintf 48 (bw_cmd c) ≡ bw_cmd c
unfolding bw_cmd
bw_cmd-uncut c = take_all 47 _ (
    omega (
      arith,
      length-append (dec (bandwidth_khz c.bandwidth)) crlf,
      length-dec (bandwidth_khz c.bandwidth) 2 (bandwidth_khz-lt c.bandwidth),
    ))

-- However it ends, `rn2483_config` has sent whole commands in the order frequency, power,
-- spreading factor, bandwidth: all four if it succeeds, and otherwise one to four of them. None
-- of them was cut by the 48-byte buffer.
pub config-Follows :
    (c : ModemConfig) (d : Device) → FitsTypes c → Follows (commands c) d (config c d)
unfolding config
config-Follows c d fits =
    rw (freq_cmd-uncut c fits, pwr_cmd-uncut c fits, sf_cmd-uncut c fits, bw_cmd-uncut c)
      (Follows-then (freq_cmd c) (pwr_cmd c ∷ sf_cmd c ∷ bw_cmd c ∷ []) d _ _
        (cmd_expect_ok-Sends (freq_cmd c) d)
        λ d1.
          Follows-then (pwr_cmd c) (sf_cmd c ∷ bw_cmd c ∷ []) d1 _ _
            (cmd_expect_ok-Sends (pwr_cmd c) d1)
            λ d2.
              Follows-then (sf_cmd c) (bw_cmd c ∷ []) d2 _ _ (cmd_expect_ok-Sends (sf_cmd c) d2)
                λ d3.
                  Follows-one (bw_cmd c) d3 (cmd_expect_ok (bw_cmd c) d3)
                    (cmd_expect_ok-Sends (bw_cmd c) d3))

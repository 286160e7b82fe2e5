-- ===== src/Rn2483/App/Sent.antt =====
-- What the application sends.
use winegrid_internship.Base.{
  ℕ, zero, suc, ◌<◌, ◌≡◌, refl, ap, ◌∙◌, arith, List, ◌∷◌, ◌++◌, Option, none, some, ok, err,
  Status, Bytes, length, take, replicate, append_assoc, append-nil,
}
use winegrid_internship.Rn2483.{Device}
use winegrid_internship.Rn2483.Exchange.{Sends}
use winegrid_internship.Rn2483.Command.{config, send}
use winegrid_internship.Rn2483.Command.Config.{Follows, join, commands, config-Follows}
use winegrid_internship.Rn2483.Command.Build.{tx_cmd}
use winegrid_internship.Rn2483.Command.Send.{transmitted}
use winegrid_internship.Rn2483.App.{app_config, app_payload, sleep_10_s, send_rounds, main}

-- The rounds sent their command once each, and gave one result each.
abbrev RoundsSend : ℕ → Bytes → Option (Device × List Status) → Type 0
RoundsSend n before none = Unit
RoundsSend n before (some (d, errs)) =
    (length errs ≡ n) × (d.sent ≡ before ++ join (replicate n (tx_cmd app_payload)))

later_round :
    (n : ℕ) (before : Bytes) (d : Device) (e : Status) (r : Option (Device × List Status))
    → d.sent ≡ before ++ tx_cmd app_payload
    → RoundsSend n d.sent r
    → RoundsSend (suc n) before (elim r [ none ↦ none | some (d'', errs) ↦ some (d'', e ∷ errs) ])
later_round n before d e none s h = tt
later_round n before d e (some (t, errs)) s h = (ap suc h.0, h.1 ∙ rw (s, append_assoc))

first_round :
    (n : ℕ) (d : Device) (r : Option (Device × Status))
    → ((d' : Device) → RoundsSend n d'.sent (send_rounds n d'))
    → Sends (tx_cmd app_payload) d r
    → RoundsSend (suc n) d.sent (elim r [
      | none ↦ none
      | some (d', e) ↦ elim (send_rounds n (sleep_10_s d')) [
        | none ↦ none
        | some (d'', errs) ↦ some (d'', e ∷ errs)
      ]
    ])
unfolding sleep_10_s
first_round n d none rest s = tt
first_round n d (some (d', e)) rest s =
    later_round n d.sent d' e (send_rounds n (sleep_10_s d')) s (rest (sleep_10_s d'))

rounds-RoundsSend : (n : ℕ) (d : Device) → RoundsSend n d.sent (send_rounds n d)
unfolding send_rounds
rounds-RoundsSend zero d = (refl, rw append-nil)
rounds-RoundsSend (suc n) d =
    first_round n d (send app_payload d) (rounds-RoundsSend n)
      (transmitted app_payload d (omega arith))

-- What the application has sent when it has taken so many turns of its loop: one to four commands
-- of the configuration in order, and one command for each turn.
abbrev pub AppSends : ℕ → Device → Option (Device × List Status) → Type 0
AppSends n d none = Unit
AppSends n d (some (d', errs)) =
    (k : ℕ) × (0 < k)
    × (length errs ≡ n)
    × (d'.sent
        ≡ d.sent
          ++ (join (take k (commands app_config)) ++ join (replicate n (tx_cmd app_payload))))

joined :
    (n k : ℕ) (d d1 : Device) (r : Option (Device × List Status))
    → 0 < k
    → d1.sent ≡ d.sent ++ join (take k (commands app_config))
    → RoundsSend n d1.sent r
    → AppSends n d r
joined n k d d1 none h s m = tt
joined n k d d1 (some (t, errs)) h s m = (k, h, m.0, m.1 ∙ rw (s, append_assoc))

-- Whatever the module answers, when the application has taken n turns of its loop it has n results,
-- and has sent one or more of the commands of its configuration, in order from the first, and then
-- in each turn exactly one command, the whole one for its payload.
pub main-AppSends : (n : ℕ) (d : Device) → AppSends n d (main n d)
unfolding main
main-AppSends n d = after (config app_config d) (config-Follows app_config d (omega arith))
  where
    after :
        (r : Option (Device × Status))
        → Follows (commands app_config) d r
        → AppSends n d (elim r [ none ↦ none | some (d', e) ↦ send_rounds n d' ])
    after none f = tt
    after (some (d1, ok u)) f =
        joined n 4 d d1 (send_rounds n d1) (omega arith) f (rounds-RoundsSend n d1)
    after (some (d1, err e)) f =
        joined n (suc f.0) d d1 (send_rounds n d1) (omega arith) f.2 (rounds-RoundsSend n d1)

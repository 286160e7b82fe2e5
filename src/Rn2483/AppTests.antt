-- ===== src/Rn2483/AppTests.antt =====
-- Witnesses of the application that tries the RN2483 driver.
use winegrid_internship.Base.{◌≡◌, refl, arith, List, [], ◌∷◌, some, ok, err, eio, codes, str_eq}
use winegrid_internship.Rn2483.{Poll, Device, cstr}
use winegrid_internship.Rn2483.Line.{strip_cr}
use winegrid_internship.Rn2483.Tests.{module_at, ok_turns, line_turns, line_arrives, tx_ok_line}
use winegrid_internship.Rn2483.App.{send_rounds, main}
use winegrid_internship.Rn2483.App.Sent.{AppSends, main-AppSends}
use winegrid_internship.Rn2483.App.Late.{no_more, pair, late_answer_shifts}

-- The answers to the configuration, and then to one payload.
abbrev answered : Device
answered =
    module_at (ok_turns (ok_turns (ok_turns (ok_turns (ok_turns (line_turns tx_ok_line []))))))

main-AppSends_example : AppSends 1 answered (main 1 answered)
main-AppSends_example = main-AppSends 1 answered

-- A late `radio_tx_ok`, and then the answers to one payload.
abbrev pending : List Poll
pending = line_turns (codes "ok") (line_turns tx_ok_line [])

abbrev late : Device
late = module_at (line_turns tx_ok_line pending)

late_answer_shifts_example :
    (d' : Device) × (send_rounds 2 late ≡ some (d', err eio ∷ ok tt ∷ [])) × (d'.polls ≡ [])
unfolding strip_cr cstr str_eq
late_answer_shifts_example =
    late_answer_shifts tx_ok_line late 1 22 pending [] refl
      (line_arrives tx_ok_line 10 2010 22 pending (omega arith) refl (omega arith)) refl
      (pair {line1 = codes "ok"} {line2 = tx_ok_line}
        (line_arrives (codes "ok") 10022 12022 10025 (line_turns tx_ok_line []) (omega arith) refl
          (omega arith))
        refl (line_arrives tx_ok_line 10025 18025 10037 [] (omega arith) refl (omega arith)) refl
        (no_more refl))

-- ===== src/Rn2483/Loop.antt =====
-- One turn of the loop of `rn2483_read_line`.
use winegrid_internship.Base.{
  le_of_ltb, ltb→lt, ltb, Option-cases, ne_of_==, eq_of_==, etimedout, err, ℕ, ◌+◌, ◌≤◌, ◌<◌,
  if◌then◌else◌, ◌==◌, List, ◌∷◌, Option, none, some, Result, ok, set, ◌≡◌, ◌≢◌, ap, ◌∙◌, arith,
  inl, inr, Bool-cases,
}
use winegrid_internship.Rn2483.{Poll, Device, is_kept, read_loop}

module _ (deadline pos : ℕ) (p : Poll) (ps : List Poll) (d : Device) where
  pub loop_idle :
      p.byte ≡ none
      → d.uptime + p.elapsed < deadline
      → read_loop deadline (p ∷ ps) pos d
        ≡ read_loop deadline ps pos (record d { uptime = d.uptime + p.elapsed + 2; polls = ps })
  unfolding read_loop
  loop_idle quiet before = ground arith

  pub loop_arrival :
      (c : ℕ)
      → p.byte ≡ some c
      → c ≢ b'\n'
      → d.uptime + p.elapsed < deadline
      → read_loop deadline (p ∷ ps) pos d
        ≡ read_loop deadline ps (if is_kept c pos then pos + 1 else pos) (record d {
          resp_buf = if is_kept c pos then set d.resp_buf pos c else d.resp_buf;
          uptime = d.uptime + p.elapsed;
          polls = ps;
        })
  unfolding read_loop
  loop_arrival c came h before = ground arith

  pub loop_newline :
      p.byte ≡ some b'\n'
      → d.uptime + p.elapsed < deadline
      → read_loop deadline (p ∷ ps) pos d
        ≡ some (
          record d { resp_buf = set d.resp_buf pos 0; uptime = d.uptime + p.elapsed; polls = ps },
          ok pos,
        )
  unfolding read_loop
  loop_newline came before = ground arith

  loop_late :
      deadline ≤ d.uptime + p.elapsed
      → read_loop deadline (p ∷ ps) pos d
        ≡ some (
          record d { uptime = d.uptime + p.elapsed; polls = record p { elapsed = 0 } ∷ ps },
          err etimedout,
        )
  unfolding read_loop
  loop_late late = ground arith

  -- What one turn of the loop can do. A property of the outcome holds if it holds in each case.
  pub loop_cases :
      (P : Option (Device × Result ℕ) → Type 0)
      → (deadline ≤ d.uptime + p.elapsed
          → P (
              some (
                record d { uptime = d.uptime + p.elapsed; polls = record p { elapsed = 0 } ∷ ps },
                err etimedout,
              )))
      → (d.uptime + p.elapsed < deadline
          → P (
              read_loop deadline ps pos
                (record d { uptime = d.uptime + p.elapsed + 2; polls = ps })))
      → ((c : ℕ)
          → d.uptime + p.elapsed < deadline
          → P (
              read_loop deadline ps (if is_kept c pos then pos + 1 else pos) (record d {
                resp_buf = if is_kept c pos then set d.resp_buf pos c else d.resp_buf;
                uptime = d.uptime + p.elapsed;
                polls = ps;
              })))
      → (d.uptime + p.elapsed < deadline
          → P (
              some (
                record d {
                  resp_buf = set d.resp_buf pos 0;
                  uptime = d.uptime + p.elapsed;
                  polls = ps;
                },
                ok pos,
              )))
      → P (read_loop deadline (p ∷ ps) pos d)
  loop_cases P on_late on_quiet on_byte on_newline =
      elim (Bool-cases (ltb (d.uptime + p.elapsed) deadline)) [
        | inr over ↦ let h = le_of_ltb _ _ over in rw (loop_late h) (on_late h)
        | inl before ↦
            let h = ltb→lt _ _ before in
            elim (Option-cases p.byte) [
              | inl none_came ↦ rw (loop_idle none_came h) (on_quiet h)
              | inr (c, came) ↦ elim (Bool-cases (c == b'\n')) [
                | inl end ↦ rw (loop_newline (came ∙ ap some (eq_of_== _ _ end)) h) (on_newline h)
                | inr more ↦ rw (loop_arrival c came (ne_of_== _ _ more) h) (on_byte c h)
              ]
            ]
      ]

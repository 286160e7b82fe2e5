-- ===== src/ThingsBoard/Provisioning/Success.antt =====
-- Provisioning that is answered in time.
use winegrid_internship.Base.{
  ℕ, ◌+◌, ◌*◌, ◌≤◌, ◌<◌, ◌≡◌, refl, ap, ◌∙◌, arith, true, false, List, [], ◌∷◌, ◌++◌, some, Bytes,
  length, take, length-take, take_all, lt→ltb,
}
use winegrid_internship.Json.{CJson}
use winegrid_internship.Mqtt.{Event, connected, disconnected, transport_error, other, message}
use winegrid_internship.ThingsBoard.Provisioning.{
  Provisioning, Identity, stops, issued_token, take_token, provisioning_event_handler, handle_all,
  wait_loop, provisioning_result, run_provisioning,
}

-- An event that is no message.
abbrev pub IsQuiet : Event → Type 0
IsQuiet connected = Unit
IsQuiet disconnected = Unit
IsQuiet (message topic payload) = ⊥
IsQuiet transport_error = Unit
IsQuiet other = Unit

abbrev pub AreQuiet : List Event → Type 0
AreQuiet [] = Unit
AreQuiet (e ∷ es) = IsQuiet e × AreQuiet es

abbrev pub TurnsAreQuiet : List (List Event) → Type 0
TurnsAreQuiet [] = Unit
TurnsAreQuiet (es ∷ turns) = AreQuiet es × TurnsAreQuiet turns

module _ (json : CJson) (identity : Identity) where
  goes_on :
      (waited_ms : ℕ) (p : Provisioning)
      → p.done ≡ false
      → waited_ms < 15000
      → stops waited_ms p ≡ false
  unfolding stops
  goes_on waited_ms p waiting early = ground arith

  quiet_event :
      (e : Event) (p : Provisioning)
      → IsQuiet e
      → (provisioning_event_handler json identity e p).done ≡ p.done
  unfolding provisioning_event_handler
  quiet_event connected p q = refl
  quiet_event disconnected p q = refl
  quiet_event (message topic payload) p q = elim q [ ]
  quiet_event transport_error p q = refl
  quiet_event other p q = refl

  quiet_events :
      (es : List Event) (p : Provisioning)
      → AreQuiet es
      → (handle_all json identity es p).done ≡ p.done
  unfolding handle_all
  quiet_events [] p q = refl
  quiet_events (e ∷ es) p q =
      quiet_events es (provisioning_event_handler json identity e p) q.1 ∙ quiet_event e p q.0

  -- What the events of these waits make of the provisioning.
  after_turns : List (List Event) → Provisioning → Provisioning
  after_turns [] p = p
  after_turns (es ∷ turns) p = after_turns turns (handle_all json identity es p)

  quiet_loop :
      (before : List (List Event)) (waited_ms : ℕ) (turns : List (List Event)) (p : Provisioning)
      → TurnsAreQuiet before
      → p.done ≡ false
      → waited_ms + 200 * length before < 15000 + 200
      → (wait_loop json identity waited_ms (before ++ turns) p
          ≡ wait_loop json identity (waited_ms + 200 * length before) turns (after_turns before p))
        × ((after_turns before p).done ≡ false)
  unfolding wait_loop after_turns
  quiet_loop [] waited_ms turns p quiet waiting early =
      (ap (λ w. wait_loop json identity w turns p) (omega arith), waiting)
  quiet_loop (es ∷ before) waited_ms turns p quiet waiting early =
      let k = handle_all json identity es p in
      let (loop, still) =
        quiet_loop before (waited_ms + 200) turns k quiet.1 (quiet_events es p quiet.0 ∙ waiting)
          (omega arith) in
      (
        rw (goes_on waited_ms p waiting (omega arith), wait_loop)
            (loop ∙ ap (λ w. wait_loop json identity w turns (after_turns before k)) (omega arith)),
        still,
      )

  ends : (waited_ms : ℕ) (q : Provisioning) → q.done ≡ true → stops waited_ms q ≡ true
  unfolding stops
  ends waited_ms q d = ground arith

  done_loop :
      (waited_ms : ℕ) (turns : List (List Event)) (q : Provisioning)
      → q.done ≡ true
      → wait_loop json identity waited_ms turns q ≡ some q
  unfolding wait_loop
  done_loop waited_ms [] q d = rw (ends waited_ms q d) refl
  done_loop waited_ms (es ∷ turns) q d = rw (ends waited_ms q d, wait_loop) refl

  -- Any events, and then the answer.
  handle_answer :
      (es : List Event) (topic payload : Bytes) (root : json.Value) (text : Bytes)
      (p : Provisioning)
      → json.parse payload ≡ some root
      → issued_token json identity root ≡ some text
      → (q : Provisioning) × (handle_all json identity (es ++ message topic payload ∷ []) p ≡ q)
        × (q.done ≡ true)
        × (q.token ≡ take 63 text)
  unfolding handle_all provisioning_event_handler
  handle_answer [] topic payload root text p parsed issued = (
    record p { token = take 63 text; done = true },
    rw (parsed, issued, take_token) refl,
    refl,
    refl,
  )
  handle_answer (e ∷ es) topic payload root text p parsed issued =
      handle_answer es topic payload root text (provisioning_event_handler json identity e p) parsed
        issued

  answer_loop :
      (waited_ms : ℕ) (es : List Event) (turns : List (List Event)) (p q : Provisioning)
      → stops waited_ms p ≡ false
      → handle_all json identity es p ≡ q
      → q.done ≡ true
      → wait_loop json identity waited_ms (es ∷ turns) p ≡ some q
  unfolding wait_loop
  answer_loop waited_ms es turns p q go handled d =
      rw (go, wait_loop)
        (ap (wait_loop json identity (waited_ms + 200) turns) handled
          ∙ done_loop (waited_ms + 200) turns q d)

  token_result :
      (q : Provisioning)
      → q.done ≡ true
      → 0 < length q.token
      → length q.token ≤ 63
      → provisioning_result 64 q ≡ some q.token
  unfolding provisioning_result
  token_result q d positive l =
      rw (d, lt→ltb 0 (length q.token) positive) (ap some (take_all 63 q.token l))

  -- At most 74 waits pass with any events that are no messages, such as the connection on which the
  -- request is sent, and the next wait ends with a message, after any other events. Where this message
  -- issues a token with the status SUCCESS that is not empty, provisioning returns the first 63 bytes
  -- of this token.
  pub run_provisioning_succeeds :
      (before turns : List (List Event)) (es : List Event) (p : Provisioning)
      (topic payload : Bytes) (root : json.Value) (text : Bytes)
      → TurnsAreQuiet before
      → length before < 75
      → p.done ≡ false
      → json.parse payload ≡ some root
      → issued_token json identity root ≡ some text
      → 0 < length text
      → run_provisioning json identity 64 (before ++ ((es ++ message topic payload ∷ []) ∷ turns)) p
        ≡ some (some (take 63 text))
  unfolding run_provisioning
  run_provisioning_succeeds before turns es p topic payload root text quiet early waiting parsed
        issued positive =
      let waited = 0 + 200 * length before in
      let (loop, still) =
        quiet_loop before 0 ((es ++ message topic payload ∷ []) ∷ turns) p quiet waiting
          (omega arith) in
      let k = after_turns before p in
      let (q, handled, d, t) = handle_answer es topic payload root text k parsed issued in
      let ends_ : wait_loop json identity 0 (before ++ ((es ++ message topic payload ∷ []) ∷ turns))
            p
          ≡ some q =
        loop
        ∙ answer_loop waited (es ++ message topic payload ∷ []) turns k q
            (goes_on waited k still (omega arith)) handled d in
      let size : length q.token ≡ length (take 63 text) = ap (length {A = ℕ}) t in
      rw (ends_, run_provisioning)
        (ap some (
          token_result q d (omega (arith, size, length-take 63 text))
            (omega (arith, size, length-take 63 text))
          ∙ ap some t))

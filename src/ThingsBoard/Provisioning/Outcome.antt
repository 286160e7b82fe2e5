-- ===== src/ThingsBoard/Provisioning/Outcome.antt =====
-- What provisioning returns.
use winegrid_internship.Base.{
  ℕ, ◌⊎◌, ◌+◌, ◌*◌, ◌≤◌, ◌<◌, ◌≡◌, refl, sym, ap, ◌∙◌, arith, true, ◌&&◌, ltb, List, [], ◌∷◌, none,
  some, Bytes, length, take, length-take, take_all, Bool-cases, Option-cases, inl, inr,
  none-ne-some,
}
use mathlib.Core.Option.{some-injective}
use winegrid_internship.Json.{CJson}
use winegrid_internship.Mqtt.{Event, connected, disconnected, transport_error, other, message}
use winegrid_internship.ThingsBoard.Provisioning.{
  Provisioning, Identity, stops, issued_token, take_token, provisioning_event_handler, handle_all,
  wait_loop, provisioning_result, run_provisioning,
}

module _ (json : CJson) (identity : Identity) where
  -- One of the events is an answer that issues the token, of which 63 bytes are kept.
  pub data Issues (token : Bytes) : List Event → Type 0 where
    answer :
        {es : List Event} (topic payload : Bytes) (root : json.Value) (text : Bytes)
        → json.parse payload ≡ some root
        → issued_token json identity root ≡ some text
        → token ≡ take 63 text
        → Issues token (message topic payload ∷ es)
    later : {es : List Event} (e : Event) → Issues token es → Issues token (e ∷ es)

  pub data IssuedIn (token : Bytes) : List (List Event) → Type 0 where
    this_turn :
        {turns : List (List Event)} (es : List Event)
        → Issues token es
        → IssuedIn token (es ∷ turns)
    next_turn :
        {turns : List (List Event)} (es : List Event)
        → IssuedIn token turns
        → IssuedIn token (es ∷ turns)

  length-Issues : {token : Bytes} {es : List Event} → Issues token es → length token ≤ 63
  length-Issues (answer topic payload root text p i e) =
      omega (arith, ap (length {A = ℕ}) e, length-take 63 text)
  length-Issues (later e i) = length-Issues i

  length-IssuedIn :
      {token : Bytes} {turns : List (List Event)} → IssuedIn token turns → length token ≤ 63
  length-IssuedIn (this_turn es i) = length-Issues i
  length-IssuedIn (next_turn es i) = length-IssuedIn i

  event_token :
      (e : Event) (es : List Event) (p : Provisioning)
      → ((provisioning_event_handler json identity e p).token ≡ p.token)
        ⊎ Issues (provisioning_event_handler json identity e p).token (e ∷ es)
  unfolding provisioning_event_handler take_token
  event_token connected es p = inl refl
  event_token disconnected es p = inl refl
  event_token transport_error es p = inl refl
  event_token other es p = inl refl
  event_token (message topic payload) es p = elim (Option-cases (json.parse payload)) [
    | inl bad ↦ simp bad (inl refl)
    | inr (root, parsed) ↦ elim (Option-cases (issued_token json identity root)) [
      | inl refused ↦ rw (parsed, refused, take_token) (inl refl)
      | inr (text, issued) ↦
          rw (parsed, issued, take_token) (inr (answer topic payload root text parsed issued refl))
    ]
  ]

  handle_token :
      (es : List Event) (p : Provisioning)
      → ((handle_all json identity es p).token ≡ p.token)
        ⊎ Issues (handle_all json identity es p).token es
  unfolding handle_all
  handle_token [] p = inl refl
  handle_token (e ∷ es) p = elim (handle_token es (provisioning_event_handler json identity e p)) [
    | inr i ↦ inr (later e i)
    | inl kept ↦ elim (event_token e es p) [
      | inl same ↦ inl (kept ∙ same)
      | inr i ↦ inr (rw kept i)
    ]
  ]

  loop_token :
      (waited_ms : ℕ) (turns : List (List Event)) (p q : Provisioning)
      → wait_loop json identity waited_ms turns p ≡ some q
      → (q.token ≡ p.token) ⊎ IssuedIn q.token turns
  unfolding wait_loop
  loop_token waited_ms [] p q e = elim (Bool-cases (stops waited_ms p)) [
    | inl stop ↦ inl (ap (λ (o : Provisioning). o.token) (sym (some-injective _ _ (rw stop at e))))
    | inr go ↦ absurd (none-ne-some (rw go at e))
  ]
  loop_token waited_ms (es ∷ turns) p q e = elim (Bool-cases (stops waited_ms p)) [
    | inl stop ↦
        inl (
          ap (λ (o : Provisioning). o.token) (sym (some-injective _ _ (rw (stop, wait_loop) at e))))
    | inr go ↦
        elim (loop_token (waited_ms + 200) turns (handle_all json identity es p) q
          (rw (go, wait_loop) at e)) [
            | inr i ↦ inr (next_turn es i)
            | inl kept ↦ elim (handle_token es p) [
              | inl same ↦ inl (kept ∙ same)
              | inr i ↦ inr (this_turn es (rw kept i))
            ]
          ]
  ]

  stops_late : (waited_ms : ℕ) (p : Provisioning) → 15000 ≤ waited_ms → stops waited_ms p ≡ true
  unfolding stops
  stops_late waited_ms p h = ground arith

  loop_returns :
      (waited_ms : ℕ) (turns : List (List Event)) (p : Provisioning)
      → 15000 ≤ waited_ms + 200 * length turns
      → (q : Provisioning) × (wait_loop json identity waited_ms turns p ≡ some q)
  unfolding wait_loop
  loop_returns waited_ms [] p h = (p, rw (stops_late waited_ms p (omega arith)) refl)
  loop_returns waited_ms (es ∷ turns) p h = elim (Bool-cases (stops waited_ms p)) [
    | inl stop ↦ (p, rw (stop, wait_loop) refl)
    | inr go ↦
        let (q, e) =
          loop_returns (waited_ms + 200) turns (handle_all json identity es p) (omega arith) in
        (q, rw (go, wait_loop) e)
  ]

  kept_token :
      (q : Provisioning)
      → length q.token ≤ 63
      → (provisioning_result 64 q ≡ none)
        ⊎ ((provisioning_result 64 q ≡ some q.token) × (0 < length q.token))
  unfolding provisioning_result
  kept_token q l = elim (Bool-cases (q.done && ltb 0 (length q.token))) [
    | inl good ↦ rw (good, take_all 63 q.token l) (inr (refl, ground arith))
    | inr bad ↦ rw bad (inl refl)
  ]

  -- Provisioning always returns: seventy-five waits are enough, whatever events come in them. It
  -- fails, or it returns a token of at least one byte and at most 63 that one of the answers issued
  -- with the status SUCCESS.
  pub run_provisioning_lem :
      (turns : List (List Event)) (p : Provisioning)
      → 75 ≤ length turns
      → p.token ≡ []
      → (run_provisioning json identity 64 turns p ≡ some none)
        ⊎ ((token : Bytes) × (run_provisioning json identity 64 turns p ≡ some (some token))
            × (0 < length token)
            × (length token ≤ 63)
            × IssuedIn token turns)
  unfolding run_provisioning
  run_provisioning_lem turns p enough fresh =
      let (q, e) = loop_returns 0 turns p (omega arith) in
      let returned : run_provisioning json identity 64 turns p ≡ some (provisioning_result 64 q) =
        rw (e, run_provisioning) refl in
      elim (loop_token 0 turns p q e) [
        | inl kept ↦
            let empty : length q.token ≡ 0 = ap (length {A = ℕ}) (kept ∙ fresh) in
            elim (kept_token q (omega (arith, empty))) [
              | inl failed ↦ inl (returned ∙ ap some failed)
              | inr (result, positive) ↦ absurd (omega (arith, empty, positive))
            ]
        | inr issued ↦ elim (kept_token q (length-IssuedIn issued)) [
          | inl failed ↦ inl (returned ∙ ap some failed)
          | inr (result, positive) ↦
              inr (q.token, returned ∙ ap some result, positive, length-IssuedIn issued, issued)
        ]
      ]

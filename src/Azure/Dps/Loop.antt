-- ===== src/Azure/Dps/Loop.antt =====
-- What the registration returns.
use winegrid_internship.Base.{
  ℕ, ◌⊎◌, ◌+◌, ◌*◌, ◌≤◌, ◌≡◌, refl, ap, ◌∙◌, arith, true, false, ◌&&◌, List, [], ◌∷◌, some, Bytes,
  length, Bool-cases, none-ne-some, inl, inr,
}
use mathlib.Core.Option.{some-injective}
use winegrid_internship.Json.{CJson}
use winegrid_internship.Mqtt.{Event}
use winegrid_internship.Azure.Dps.{
  Dps, send, poll, registration_ends, handle_events, dps_round, dps_loop, run_dps_registration,
}
use winegrid_internship.Azure.Dps.Assignment.{Assigns, SameAssignment, events-Traced}

module _ (json : CJson) (registration_id : Bytes) where
  -- The assignment comes in one of the rounds.
  pub data AssignedIn (hub device : Bytes) : List (List Event × List Event) → Type 0 where
    in_before :
        {turns : List (List Event × List Event)} (before after : List Event)
        → Assigns json registration_id hub device before
        → AssignedIn hub device ((before, after) ∷ turns)
    in_after :
        {turns : List (List Event × List Event)} (before after : List Event)
        → Assigns json registration_id hub device after
        → AssignedIn hub device ((before, after) ∷ turns)
    in_later :
        {turns : List (List Event × List Event)} (turn : List Event × List Event)
        → AssignedIn hub device turns
        → AssignedIn hub device (turn ∷ turns)

  abbrev Outcome : List (List Event × List Event) → Dps → Dps → Type 0
  Outcome turns d d' =
      SameAssignment json registration_id d d' ⊎ AssignedIn d'.assigned_hub d'.device_id turns

  chain :
      (d d' d'' : Dps)
      → SameAssignment json registration_id d d'
      → SameAssignment json registration_id d' d''
      → SameAssignment json registration_id d d''
  chain d d' d'' s t = (t.0 ∙ s.0, t.1 ∙ s.1, t.2 ∙ s.2)

  poll_same : (d : Dps) → SameAssignment json registration_id d (poll d)
  unfolding poll send
  poll_same d = (refl, refl, refl)

  polled : List Event → Dps → Dps
  polled before d =
      poll (handle_events json registration_id before (record d { poll_pending = false }))

  polled_traced :
      (before after : List Event) (turns : List (List Event × List Event)) (d : Dps)
      → Outcome ((before, after) ∷ turns) d (polled before d)
  unfolding polled
  polled_traced before after turns d =
      let handled = handle_events json registration_id before (record d { poll_pending = false }) in
      let same = poll_same handled in
      elim (events-Traced json registration_id before (record d { poll_pending = false })) [
        | inl kept ↦ inl (chain d handled (poll handled) kept same)
        | inr a ↦ inr (in_before before after (rw (same.1, same.2) a))
      ]

  after_traced :
      (before after : List Event) (turns : List (List Event × List Event)) (d d' : Dps)
      → Outcome ((before, after) ∷ turns) d d'
      → Outcome ((before, after) ∷ turns) d (handle_events json registration_id after d')
  after_traced before after turns d d' o =
      let handled = handle_events json registration_id after d' in
      elim (events-Traced json registration_id after d') [
        | inr a ↦ inr (in_after before after a)
        | inl same ↦ elim o [
          | inl first ↦ inl (chain d d' handled first same)
          | inr a ↦ inr (rw (same.1, same.2) a)
        ]
      ]

  round_traced :
      (before after : List Event) (turns : List (List Event × List Event)) (d : Dps)
      → Outcome ((before, after) ∷ turns) d (dps_round json registration_id before after d)
  unfolding dps_round polled
  round_traced before after turns d = elim (Bool-cases d.poll_pending) [
    | inl due ↦
        simp due
          (after_traced before after turns d (polled before d) (polled_traced before after turns d))
    | inr quiet ↦ simp quiet (after_traced before after turns d d (inl (refl, refl, refl)))
  ]

  loop_traced :
      (waited_ms : ℕ) (turns : List (List Event × List Event)) (d d' : Dps)
      → dps_loop json registration_id waited_ms turns d ≡ some d'
      → Outcome turns d d'
  unfolding dps_loop
  loop_traced waited_ms [] d d' e = elim (Bool-cases (registration_ends waited_ms d)) [
    | inl stop ↦ rw (← some-injective _ _ (rw stop at e)) (inl (refl, refl, refl))
    | inr go ↦ absurd (none-ne-some (rw go at e))
  ]
  loop_traced waited_ms ((before, after) ∷ turns) d d' e =
      elim (Bool-cases (registration_ends waited_ms d)) [
        | inl stop ↦ rw (← some-injective _ _ (rw (stop, dps_loop) at e)) (inl (refl, refl, refl))
        | inr go ↦
            let next = dps_round json registration_id before after d in
            elim (loop_traced (waited_ms + 200) turns next d' (rw (go, dps_loop) at e)) [
              | inr a ↦ inr (in_later (before, after) a)
              | inl same ↦ elim (round_traced before after turns d) [
                | inl first ↦ inl (chain d next d' first same)
                | inr a ↦ inr (rw (same.1, same.2) a)
              ]
            ]
      ]

  late : (waited_ms : ℕ) (d : Dps) → 60000 ≤ waited_ms → registration_ends waited_ms d ≡ true
  unfolding registration_ends
  late waited_ms d h = ground arith

  loop_returns :
      (waited_ms : ℕ) (turns : List (List Event × List Event)) (d : Dps)
      → 60000 ≤ waited_ms + 200 * length turns
      → (d' : Dps) × (dps_loop json registration_id waited_ms turns d ≡ some d')
  unfolding dps_loop
  loop_returns waited_ms [] d h = (d, rw (late waited_ms d (omega arith)) refl)
  loop_returns waited_ms (turn ∷ turns) d h = elim (Bool-cases (registration_ends waited_ms d)) [
    | inl stop ↦ (d, rw (stop, dps_loop) refl)
    | inr go ↦
        let (d', e) =
          loop_returns (waited_ms + 200) turns (dps_round json registration_id turn.0 turn.1 d)
            (omega arith) in
        (d', rw (go, dps_loop) e)
  ]

  -- Registration with a token always returns: three hundred rounds are enough, whatever events come
  -- in them. It fails, or the hub and the device name that it leaves are those, of which 127 bytes
  -- are kept, that one and the same answer with the status `assigned` named.
  pub run_dps_registration_lem :
      (sas_token : Bytes) (turns : List (List Event × List Event)) (d : Dps)
      → 300 ≤ length turns
      → d.success ≡ false
      → (d' : Dps) × ((run_dps_registration json registration_id (some sas_token) turns d
            ≡ some (false, d'))
          ⊎ ((run_dps_registration json registration_id (some sas_token) turns d ≡ some (true, d'))
              × AssignedIn d'.assigned_hub d'.device_id turns))
  unfolding run_dps_registration
  run_dps_registration_lem sas_token turns d enough fresh =
      let (d', e) = loop_returns 0 turns d (omega arith) in
      (
        d',
        elim (Bool-cases (d'.done && d'.success)) [
          | inr failed ↦ inl (rw (e, run_dps_registration) (ap (λ b. some (b, d')) failed))
          | inl good ↦ elim (loop_traced 0 turns d d' e) [
            | inr a ↦ inr (rw (e, run_dps_registration) (ap (λ b. some (b, d')) good), a)
            | inl same ↦ absurd (no_success d' good (same.0 ∙ fresh))
          ]
        ],
      )
    where
      no_success : (d' : Dps) → (d'.done && d'.success) ≡ true → d'.success ≡ false → ⊥
      no_success d' good failed = ground arith

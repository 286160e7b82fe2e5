-- ===== src/ThingsBoard/Start/Again.antt =====
-- A device that was started once is started the same way again.
use winegrid_internship.Base.{
  ℕ, ◌≤◌, ◌≡◌, refl, sym, ap, ◌∙◌, arith, Bool, true, ◌&&◌, ltb, List, Option, none, some, Bytes,
  length, length-take, Bool-cases, Option-cases, none-ne-some, inl, inr,
}
use mathlib.Core.Option.{some-injective}
use winegrid_internship.Nvs.{Nvs, access_token, fit, load_nvs_str}
use winegrid_internship.Nvs.Laws.{load-stored}
use winegrid_internship.Json.{CJson}
use winegrid_internship.EspIdf.{network_up, marks_valid}
use winegrid_internship.Mqtt.{Event}
use winegrid_internship.Azure.Boot.Kept.{reconcile_kept}
use winegrid_internship.ThingsBoard.Boot.{reconcile_pending_ota, load_stored_token, save_token}
use winegrid_internship.ThingsBoard.Boot.Refusal.{reconcile_alike}
use winegrid_internship.ThingsBoard.Boot.Token.{load_stored_token-save_token}
use winegrid_internship.ThingsBoard.Provisioning.{
  Identity, Provisioning, wait_loop, provisioning_result, run_provisioning,
}
use winegrid_internship.ThingsBoard.Start.{
  MqttAppConfig, StartAnswers, Started, aborts, provisioning, unprovisioned, serves, mqtt_app_start,
  unprovisioned_state, save_and_start, find_token, app_main,
}

abbrev served : {S : Type 0} → Started S → Option (S × MqttAppConfig)
served (aborts s m) = none
served (provisioning s m) = none
served (unprovisioned s m) = none
served (serves s m c) = some (s, c)

module _ (nvs : Nvs) (json : CJson) (identity : Identity) (broker_url current : Bytes) where
  open nvs use {Store, stored}

  -- The flash holds the token that the client is started with.
  abbrev Keeps : Store → MqttAppConfig → Type 0
  Keeps t c =
      (token : Bytes) × (load_stored_token nvs current t 64 ≡ some token)
      × (c ≡ mqtt_app_start broker_url token)

  result_length :
      (q : Provisioning) (token : Bytes) → provisioning_result 64 q ≡ some token → length token ≤ 63
  unfolding provisioning_result
  result_length q token e = elim (Bool-cases (q.done && ltb 0 (length q.token))) [
    | inl good ↦
        omega
          (arith, ap (length {A = ℕ}) (some-injective _ _ (rw good at e)), length-take 63 q.token)
    | inr bad ↦ absurd (none-ne-some (rw bad at e))
  ]

  provisioned_length :
      (turns : List (List Event)) (token : Bytes)
      → run_provisioning json identity 64 turns unprovisioned_state ≡ some (some token)
      → length token ≤ 63
  unfolding run_provisioning
  provisioned_length turns token e =
      elim (Option-cases (wait_loop json identity 0 turns unprovisioned_state)) [
        | inl waits ↦ absurd (none-ne-some (rw (waits, run_provisioning) at e))
        | inr (q, ended) ↦
            result_length q token (some-injective _ _ (rw (ended, run_provisioning) at e))
      ]

  save-Keeps :
      (s t : Store) (m : Bool) (c : MqttAppConfig) (turns : List (List Event))
      → served (
          save_and_start nvs json identity broker_url current s m
            (run_provisioning json identity 64 turns unprovisioned_state))
        ≡ some (t, c)
      → Keeps t c
  unfolding save_and_start
  save-Keeps s t m c turns e =
      elim (Option-cases (run_provisioning json identity 64 turns unprovisioned_state)) [
        | inl waits ↦ absurd (none-ne-some (rw (waits, save_and_start) at e))
        | inr (result, ended) ↦ elim (Option-cases result) [
          | inl failed ↦ absurd (none-ne-some (rw (ended, save_and_start, failed) at e))
          | inr (token, issued) ↦
              let short = provisioned_length turns token (ended ∙ ap some issued) in
              elim (Option-cases (save_token nvs current s token)) [
                | inl lost ↦ absurd (none-ne-some (rw (ended, save_and_start, issued, lost) at e))
                | inr (u, saved) ↦
                    let same =
                      some-injective _ _ (rw (ended, save_and_start, issued, saved) at e) in
                    (
                      token,
                      ap (λ x. load_stored_token nvs current x 64) (sym (ap (λ p. p.0) same))
                          ∙ (load_stored_token-save_token nvs current s u token short saved).0,
                      sym (ap (λ p. p.1) same),
                    )
              ]
        ]
      ]

  find-Keeps :
      (a : StartAnswers) (m : Bool) (s t : Store) (c : MqttAppConfig)
      → served (find_token nvs json identity broker_url current a m s) ≡ some (t, c)
      → Keeps t c
  unfolding find_token
  find-Keeps a m s t c e = elim (Option-cases (load_stored_token nvs current s 64)) [
    | inl missing ↦ save-Keeps s t m c a.provisioning_turns (rw (missing, find_token) at e)
    | inr (token, loaded) ↦
        let same = some-injective _ _ (rw (loaded, find_token) at e) in
        (
          token,
          ap (λ x. load_stored_token nvs current x 64) (sym (ap (λ p. p.0) same)) ∙ loaded,
          sym (ap (λ p. p.1) same),
        )
  ]

  main-Keeps :
      (a : StartAnswers) (s t : Store) (c : MqttAppConfig)
      → served (app_main nvs json identity broker_url current a s) ≡ some (t, c)
      → Keeps t c
  unfolding app_main
  main-Keeps a s t c e = elim (Bool-cases a.checked.nvs_flash_init) [
    | inr bad ↦ absurd (none-ne-some (simp bad at e))
    | inl good ↦ elim (Option-cases (reconcile_pending_ota nvs current s)) [
      | inl lost ↦ absurd (none-ne-some (simp (good, lost) at e))
      | inr (u, reconciled) ↦ elim (Bool-cases (network_up a.checked)) [
        | inr down ↦ absurd (none-ne-some (simp (good, reconciled, down) at e))
        | inl up ↦
            find-Keeps a (marks_valid a.state_partition) u t c (simp (good, reconciled, up) at e)
      ]
    ]
  ]

  loads_stored : (s : Store) → load_stored_token nvs current s 64 ≡ fit 64 (stored s access_token)
  unfolding load_stored_token load_nvs_str
  loads_stored s = load-stored nvs s access_token 64

  find_found :
      (a : StartAnswers) (m : Bool) (s : Store) (token : Bytes)
      → load_stored_token nvs current s 64 ≡ some token
      → find_token nvs json identity broker_url current a m s
        ≡ serves s m (mqtt_app_start broker_url token)
  unfolding find_token
  find_found a m s token found = rw (found, find_token) refl

-- A start that serves leaves its token in the flash. Every later start whose guarded calls succeed,
-- of whatever image and from a flash that still holds that token, serves with the same settings,
-- whatever a provisioning would have given.
pub start_again :
    (nvs : Nvs) (json : CJson) (identity : Identity) (broker_url current next_version : Bytes)
    (a b : StartAnswers) (s t u v : nvs.Store) (marked : Bool) (config : MqttAppConfig)
    → app_main nvs json identity broker_url current a s ≡ serves t marked config
    → b.checked.nvs_flash_init ≡ true
    → network_up b.checked ≡ true
    → nvs.stored u access_token ≡ nvs.stored t access_token
    → reconcile_pending_ota nvs next_version u ≡ some v
    → app_main nvs json identity broker_url next_version b u
      ≡ serves v (marks_valid b.state_partition) config
unfolding app_main
start_again nvs json identity broker_url current next_version a b s t u v marked config first flash
      up kept reconciled =
    let (token, loaded, started) =
      main-Keeps nvs json identity broker_url current a s t config (ap served first) in
    let same =
      reconcile_kept nvs next_version u v access_token refl refl
        (reconcile_alike nvs next_version u ∙ reconciled) in
    let found : load_stored_token nvs next_version v 64 ≡ some token =
      loads_stored nvs json identity broker_url next_version v
      ∙ ap (fit 64) (same ∙ kept)
      ∙ sym (loads_stored nvs json identity broker_url current t)
      ∙ loaded in
    simp (flash, reconciled, up)
      (find_found nvs json identity broker_url next_version b (marks_valid b.state_partition) v
          token found
        ∙ ap (serves v (marks_valid b.state_partition)) (sym started))

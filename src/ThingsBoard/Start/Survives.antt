-- ===== src/ThingsBoard/Start/Survives.antt =====
-- The access token through the whole life of a device: start, messages, and start again.
use winegrid_internship.Base.{
  ℕ, ◌≡◌, refl, ap, ◌∙◌, arith, Bool, true, false, not, ◌&&◌, List, [], ◌∷◌, some, Bytes, codes, ℤ,
  pos, negsuc, str_eq, starts_with, Bool-cases, Option-cases, none-ne-some, inl, inr,
}
use mathlib.Core.Option.{some-injective}
use winegrid_internship.Nvs.{Nvs, access_token, pending_fw, failed_fw, load_nvs_str, save_nvs_str}
use winegrid_internship.Nvs.Laws.{stored-save}
use winegrid_internship.EspIdf.{network_up, marks_valid}
use winegrid_internship.Json.{CJson}
use winegrid_internship.Mqtt.{Event, connected, disconnected, transport_error, other, message}
use winegrid_internship.ThingsBoard.{
  Sha256, Client, publish, subscribe, send_telemetry_json, report_fw_state,
}
use winegrid_internship.ThingsBoard.Firmware.{
  Answers, request_fw_chunk, begin_fw_update, start_fw_update, finish_fw_update, accept_chunk,
  handle_fw_chunk_data, size_equal,
}
use winegrid_internship.ThingsBoard.Attributes.{
  number_or_zero, apply_interval, apply_shared_attribute, apply_members, container, wants_update,
  handle_attributes_payload,
}
use winegrid_internship.ThingsBoard.Rpc.{rpc_request_prefix, handle_rpc_request}
use winegrid_internship.ThingsBoard.Telemetry.{telemetry_round}
use winegrid_internship.ThingsBoard.Events.{on_connected, mqtt_event_handler}
use winegrid_internship.ThingsBoard.Events.Safety.{Reach, here, event, round}
use winegrid_internship.ThingsBoard.Boot.{reconcile_pending_ota}
use winegrid_internship.ThingsBoard.Provisioning.{Identity}
use winegrid_internship.ThingsBoard.Start.{MqttAppConfig, StartAnswers, serves, app_main}
use winegrid_internship.ThingsBoard.Start.Again.{start_again}

module _ (nvs : Nvs) (sha : Sha256) where
  open nvs use {Store, stored}
  open sha use {Context}

  finish_store :
      (a : Answers) (complete : Bool) (h : Client Store Context)
      → (finish_fw_update nvs sha a complete h).store ≡ h.store
  unfolding finish_fw_update report_fw_state send_telemetry_json publish
  finish_store a false h = refl
  finish_store a true h = ground arith

  chunk_store :
      (a : Answers) (chunk : Bytes) (h : Client Store Context)
      → (handle_fw_chunk_data nvs sha a chunk h).store ≡ h.store
  unfolding handle_fw_chunk_data request_fw_chunk publish
  chunk_store a chunk h =
      let after = accept_chunk nvs sha chunk h in
      ground (
        arith,
        finish_store a false h,
        finish_store a (size_equal after.fw_received h.fw_size) after,
      )

  begin_token :
      (a : Answers) (h t : Client Store Context)
      → begin_fw_update nvs sha a h ≡ some t
      → stored t.store access_token ≡ stored h.store access_token
  unfolding begin_fw_update request_fw_chunk report_fw_state send_telemetry_json publish
  begin_token a h t e = elim (Bool-cases (not (a.next_partition && a.ota_begin))) [
    | inl refused ↦ rw (← some-injective _ _ (rw refused at e)) refl
    | inr begun ↦ elim (Option-cases (save_nvs_str nvs h.store pending_fw h.fw_version)) [
      | inl lost ↦ absurd (none-ne-some (rw (begun, lost) at e))
      | inr (s, saved) ↦
          rw (← some-injective _ _ (rw (begun, saved) at e))
            (stored-save nvs h.store s pending_fw access_token h.fw_version saved)
    ]
  ]

  start_token :
      (a : Answers) (h t : Client Store Context)
      → start_fw_update nvs sha a h ≡ some t
      → stored t.store access_token ≡ stored h.store access_token
  unfolding start_fw_update send_telemetry_json publish
  start_token a h t e = elim (Option-cases (load_nvs_str nvs h.store failed_fw 32)) [
    | inl none_failed ↦ begin_token a h t (rw (none_failed, start_fw_update) at e)
    | inr (failed_version, failed) ↦ elim (Bool-cases (str_eq failed_version h.fw_version)) [
      | inl same ↦ rw (← some-injective _ _ (rw (failed, start_fw_update, same) at e)) refl
      | inr other_version ↦ begin_token a h t (rw (failed, start_fw_update, other_version) at e)
    ]
  ]

module _ (nvs : Nvs) (sha : Sha256) (json : CJson) (current : Bytes) where
  open nvs use {Store, stored}
  open sha use {Context}

  interval_store : (n : ℤ) (h : Client Store Context) → (apply_interval n h).store ≡ h.store
  unfolding apply_interval
  interval_store (negsuc n) h = refl
  interval_store (pos n) h = ground arith

  attribute_store :
      (key : Bytes) (value : json.Value) (h : Client Store Context)
      → (apply_shared_attribute nvs sha json current key value h).store ≡ h.store
  unfolding apply_shared_attribute
  attribute_store key value h =
      ground (arith, interval_store (number_or_zero (json.number_of value)) h)

  members_store :
      (items : List (Bytes × json.Value)) (h : Client Store Context)
      → (apply_members nvs sha json current items h).store ≡ h.store
  unfolding apply_members
  members_store [] h = refl
  members_store (item ∷ items) h =
      members_store items (apply_shared_attribute nvs sha json current item.0 item.1 h)
      ∙ attribute_store item.0 item.1 h

  payload_token :
      (a : Answers) (payload : Bytes) (h t : Client Store Context)
      → handle_attributes_payload nvs sha json current a payload h ≡ some t
      → stored t.store access_token ≡ stored h.store access_token
  unfolding handle_attributes_payload
  payload_token a payload h t e = elim (Option-cases (json.parse payload)) [
    | inl bad ↦ rw (← some-injective _ _ (rw (bad, handle_attributes_payload) at e)) refl
    | inr (root, parsed) ↦
        let items = json.members (container nvs sha json current root) in
        let applied = apply_members nvs sha json current items h in
        let same = ap (λ s. stored s access_token) (members_store items h) in
        elim (Bool-cases (json.nameless (container nvs sha json current root))) [
          | inl crash ↦ absurd (none-ne-some (rw (parsed, handle_attributes_payload, crash) at e))
          | inr named ↦ elim (Bool-cases (wants_update nvs sha json current applied)) [
            | inl wanted ↦
                start_token nvs sha a applied t
                  (rw (parsed, handle_attributes_payload, named, wanted) at e)
                ∙ same
            | inr unwanted ↦
                rw
                  (← some-injective _ _
                    (rw (parsed, handle_attributes_payload, named, unwanted) at e))
                  same
          ]
        ]
  ]

  rpc_store :
      (free_heap : ℕ) (topic payload : Bytes) (h : Client Store Context)
      → (handle_rpc_request json free_heap topic payload h).store ≡ h.store
  unfolding handle_rpc_request publish
  rpc_store free_heap topic payload h = ground arith

  event_token :
      (a : Answers) (free_heap : ℕ) (e : Event) (h t : Client Store Context)
      → mqtt_event_handler nvs sha json current a free_heap e h ≡ some t
      → stored t.store access_token ≡ stored h.store access_token
  unfolding mqtt_event_handler on_connected publish subscribe send_telemetry_json
  event_token a free_heap connected h t e = rw (← some-injective _ _ e) refl
  event_token a free_heap disconnected h t e = rw (← some-injective _ _ e) refl
  event_token a free_heap (message topic payload) h t e =
      elim (Bool-cases (starts_with (codes "v2/fw/") topic)) [
        | inl chunk ↦
            rw (← some-injective _ _ (rw chunk at e))
              (ap (λ s. stored s access_token) (chunk_store nvs sha a payload h))
        | inr not_chunk ↦ elim (Bool-cases (starts_with rpc_request_prefix topic)) [
          | inl rpc ↦
              rw (← some-injective _ _ (rw (not_chunk, rpc) at e))
                (ap (λ s. stored s access_token) (rpc_store free_heap topic payload h))
          | inr attributes ↦ payload_token a payload h t (rw (not_chunk, attributes) at e)
        ]
      ]
  event_token a free_heap transport_error h t e = rw (← some-injective _ _ e) refl
  event_token a free_heap other h t e = rw (← some-injective _ _ e) refl

  round_store : (h : Client Store Context) → (telemetry_round h).1.store ≡ h.store
  unfolding telemetry_round publish
  round_store h = ground arith

  Reach-token :
      {h t : Client Store Context}
      → Reach nvs sha json current h t
      → stored t.store access_token ≡ stored h.store access_token
  Reach-token here = refl
  Reach-token (event {t} {u} a free_heap e before on step) =
      event_token a free_heap e t u step ∙ Reach-token before
  Reach-token (round {t} before on) =
      ap (λ s. stored s access_token) (round_store t) ∙ Reach-token before

  -- The whole life of a device. A start that serves is followed by any messages, firmware updates
  -- and telemetry, over the flash that it left; the next start, of whatever image and with whatever
  -- a provisioning would have given, serves with the same settings, if its guarded calls succeed and
  -- its reconciliation does not abort: the device is provisioned at most once.
  pub restart_serves :
      (identity : Identity) (broker_url next_version : Bytes) (a b : StartAnswers) (s v : Store)
      (marked : Bool) (config : MqttAppConfig) (h t : Client Store Context)
      → app_main nvs json identity broker_url current a s ≡ serves h.store marked config
      → Reach nvs sha json current h t
      → b.checked.nvs_flash_init ≡ true
      → network_up b.checked ≡ true
      → reconcile_pending_ota nvs next_version t.store ≡ some v
      → app_main nvs json identity broker_url next_version b t.store
        ≡ serves v (marks_valid b.state_partition) config
  restart_serves identity broker_url next_version a b s v marked config h t first life flash up
        reconciled =
      start_again nvs json identity broker_url current next_version a b s h.store t.store v marked
        config first flash up (Reach-token life) reconciled

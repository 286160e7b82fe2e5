-- ===== src/Azure/Start/Survives.antt =====
-- The hub assignment through the whole life of a device: start, messages, updates, and start again.
use winegrid_internship.Base.{
  ℕ, ◌≡◌, refl, ap, ◌∙◌, arith, Bool, true, false, not, ◌&&◌, [], Option, none, some, Bytes, codes,
  ℤ, pos, negsuc, Bool-cases, Option-cases, inl, inr, none-ne-some,
}
use mathlib.Core.Option.{some-injective}
use winegrid_internship.Nvs.{
  Nvs, Key, key_eq, pending_fw, assigned_hub, device_id, save_nvs_str, erase_nvs_key,
}
use winegrid_internship.Nvs.Laws.{stored-save}
use winegrid_internship.EspIdf.{network_up, marks_valid}
use winegrid_internship.Json.{CJson}
use winegrid_internship.Mqtt.{Event, connected, disconnected, transport_error, other, message}
use winegrid_internship.Azure.{Hub, Platform, report_fw_state, report_twin_properties}
use winegrid_internship.Azure.SasToken.{Crypto}
use winegrid_internship.Azure.Connect.{MqttConfig, connect_to_hub}
use winegrid_internship.Azure.Ota.{
  Answers, Outcome, waits, aborts, ends, download, install, ota_task, task_version, trigger_ota,
}
use winegrid_internship.Azure.DirectMethod.{handle_direct_method_request, call_method}
use winegrid_internship.Azure.Twin.{
  apply_firmware, apply_interval, apply_desired_properties, string_item, number_item,
}
use winegrid_internship.Azure.Telemetry.{telemetry_round}
use winegrid_internship.Azure.Events.{on_desired_patch, on_twin_response, hub_mqtt_event_handler}
use winegrid_internship.Azure.Events.Invariant.{Step, event, round}
use winegrid_internship.Azure.Boot.{reconcile_pending_ota}
use winegrid_internship.Azure.Boot.Kept.{erase_kept}
use winegrid_internship.Azure.Start.{DpsSettings, StartAnswers, connects, effective_key, app_main}
use winegrid_internship.Azure.Start.Reconnect.{hub_start_again}

module _ (nvs : Nvs) (json : CJson) (current : Bytes) where
  open nvs use {Store, stored}

  trigger_store :
      (url version : Bytes) (h : Hub Store) → (trigger_ota nvs url version h).store ≡ h.store
  unfolding trigger_ota report_fw_state
  trigger_store url version h = ground arith

  firmware_store :
      (version url : Option Bytes) (h : Hub Store)
      → (apply_firmware nvs json current version url h).store ≡ h.store
  unfolding apply_firmware
  firmware_store none url h = refl
  firmware_store (some version) none h = refl
  firmware_store (some version) (some url) h = ground (arith, trigger_store url version h)

  interval_store :
      (platform : Platform) (n : Option ℤ) (h : Hub Store)
      → (apply_interval nvs json current platform n h).store ≡ h.store
  unfolding apply_interval report_twin_properties
  interval_store platform none h = refl
  interval_store platform (some (negsuc n)) h = refl
  interval_store platform (some (pos n)) h = ground arith

  desired_store :
      (platform : Platform) (d : Option json.Value) (h : Hub Store)
      → (on_desired_patch nvs json current platform d h).store ≡ h.store
  unfolding on_desired_patch apply_desired_properties
  desired_store platform none h = refl
  desired_store platform (some d) h =
      interval_store platform
        (number_item nvs json current (json.get_object_item d (codes "publishInterval"))) _
      ∙ firmware_store (string_item nvs json current (json.get_object_item d (codes "fw_version")))
          (string_item nvs json current (json.get_object_item d (codes "fw_url"))) h

  response_store :
      (platform : Platform) (root : Option json.Value) (h : Hub Store)
      → (on_twin_response nvs json current platform root h).store ≡ h.store
  unfolding on_twin_response
  response_store platform none h = refl
  response_store platform (some root) h = desired_store platform _ h

  method_store :
      (platform : Platform) (topic : Bytes) (h : Hub Store)
      → (handle_direct_method_request platform topic h).store ≡ h.store
  unfolding handle_direct_method_request call_method
  method_store platform topic h = ground arith

  event_store :
      (platform : Platform) (e : Event) (h : Hub Store)
      → (hub_mqtt_event_handler nvs json current platform e h).store ≡ h.store
  unfolding hub_mqtt_event_handler report_twin_properties
  event_store platform connected h = refl
  event_store platform disconnected h = refl
  event_store platform (message topic payload) h = ground (
    arith,
    method_store platform topic h,
    desired_store platform (json.parse payload) h,
    response_store platform (json.parse payload) h,
  )
  event_store platform transport_error h = refl
  event_store platform other h = refl

  round_store : (waited_ms : ℕ) (h : Hub Store) → (telemetry_round waited_ms h).1.store ≡ h.store
  unfolding telemetry_round
  round_store waited_ms h = ground arith

  Step-store : {h t : Hub Store} → Step nvs json current h t → t.store ≡ h.store
  Step-store {h} (event platform e) = event_store platform e h
  Step-store {h} (round waited_ms) = round_store waited_ms h

  -- The flash that a task leaves when it ends.
  abbrev left : Outcome Store → Option Store
  left waits = none
  left (aborts h) = none
  left (ends h) = some h.store

  module _ (k : Key) (not_pending : key_eq pending_fw k ≡ false) where
    failed_stored :
        (h : Hub Store) (s : Store)
        → some (erase_nvs_key nvs h.store pending_fw) ≡ some s
        → stored s k ≡ stored h.store k
    failed_stored h s e =
        rw (← some-injective _ _ e) (erase_kept nvs h.store pending_fw k not_pending)

    install_stored :
        (a : Answers) (r : Option (Bool × Bytes)) (h : Hub Store) (s : Store)
        → left (install nvs a r h) ≡ some s
        → stored s k ≡ stored h.store k
    unfolding install report_fw_state
    install_stored a none h s e = absurd (none-ne-some e)
    install_stored a (some (false, image)) h s e = failed_stored h s e
    install_stored a (some (true, image)) h s e =
        elim (Bool-cases (not (a.ota_end && a.set_boot_partition))) [
          | inl failed ↦ failed_stored h s (rw failed at e)
          | inr done ↦ rw (← some-injective _ _ (rw done at e)) refl
        ]

    task_stored :
        (arg : Bytes) (a : Answers) (h : Hub Store) (s : Store)
        → left (ota_task nvs arg a h) ≡ some s
        → stored s k ≡ stored h.store k
    unfolding ota_task report_fw_state
    task_stored arg a h s e = elim (Bool-cases (not a.http_open)) [
      | inl refused ↦ rw (← some-injective _ _ (rw refused at e)) refl
      | inr open_ ↦ elim (Bool-cases (not a.ota_begin)) [
        | inl refused ↦ rw (← some-injective _ _ (rw (open_, refused) at e)) refl
        | inr begun ↦ elim (Option-cases (save_nvs_str nvs h.store pending_fw (task_version arg))) [
          | inl lost ↦ absurd (none-ne-some (rw (open_, begun, lost) at e))
          | inr (t, saved) ↦
              install_stored a (download a.reads [])
                (report_fw_state (codes "DOWNLOADING") (record h { store = t })) s
                (rw (open_, begun, saved) at e)
              ∙ (stored-save nvs h.store t pending_fw k (task_version arg) saved
                  ∙ rw not_pending refl)
        ]
      ]
    ]

  -- What happens to a hub until its device restarts: messages, telemetry, and tasks that end.
  pub data Life (h : Hub Store) : Hub Store → Type 0 where
    born : Life h h
    next : {t u : Hub Store} → Life h t → Step nvs json current t u → Life h u
    task :
        {t u : Hub Store} (arg : Bytes) (a : Answers)
        → Life h t
        → ota_task nvs arg a t ≡ ends u
        → Life h u

  Life-stored :
      (k : Key) {h t : Hub Store}
      → key_eq pending_fw k ≡ false
      → Life h t
      → stored t.store k ≡ stored h.store k
  Life-stored k other_key born = refl
  Life-stored k other_key (next before s) =
      ap (λ store. stored store k) (Step-store s) ∙ Life-stored k other_key before
  Life-stored k other_key (task {t} {u} arg a before e) =
      task_stored k other_key arg a t u.store (ap left e) ∙ Life-stored k other_key before

-- The whole life of a device. A start that connects is followed by any messages, telemetry and OTA
-- tasks, over the flash that it left; the next start, of whatever image and with whatever a
-- registration would have given, connects to the same hub as the same device, with a token for its
-- own time, if its guarded calls succeed and its reconciliation does not abort.
pub restart_connects :
    (crypto : Crypto) (nvs : Nvs) (json : CJson) (c : DpsSettings) (current next_version : Bytes)
    (a b : StartAnswers) (h t : Hub nvs.Store) (v : nvs.Store) (marked : Bool) (hub dev : Bytes)
    (connection : Option MqttConfig × Hub nvs.Store)
    → app_main crypto nvs json c current a h ≡ connects marked hub dev connection
    → Life nvs json current connection.1 t
    → b.checked.nvs_flash_init ≡ true
    → network_up b.checked ≡ true
    → reconcile_pending_ota nvs next_version t.store ≡ some v
    → app_main crypto nvs json c next_version b t
      ≡ connects (marks_valid b.state_partition) hub dev (
          connect_to_hub crypto
            (effective_key crypto nvs json c next_version)
            b.connection_time
            hub
            dev
            (record t { store = v }))
restart_connects crypto nvs json c current next_version a b h t v marked hub dev connection first
      life flash up reconciled =
    hub_start_again crypto nvs json c current next_version a b h t v marked hub dev connection first
      flash up (Life-stored nvs json current assigned_hub refl life)
      (Life-stored nvs json current device_id refl life) reconciled

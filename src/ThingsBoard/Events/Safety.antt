-- ===== src/ThingsBoard/Events/Safety.antt =====
-- No message makes an unverified image bootable.
use winegrid_internship.Base.{
  ℕ, ◌≡◌, refl, sym, ap, ◌∙◌, arith, Bool, true, false, if◌then◌else◌, List, [], ◌∷◌, Option, some,
  Bytes, codes, ℤ, pos, negsuc, leb, Bool-cases, Option-cases, inl, inr, starts_with, none-ne-some,
}
use mathlib.Core.Option.{some-injective}
use winegrid_internship.Nvs.{Nvs}
use winegrid_internship.Json.{CJson}
use winegrid_internship.Mqtt.{Event, connected, disconnected, transport_error, other, message}
use winegrid_internship.ThingsBoard.{Sha256, Client, publish, subscribe, send_telemetry_json}
use winegrid_internship.ThingsBoard.Firmware.{Answers}
use winegrid_internship.ThingsBoard.Firmware.Verified.{
  IsReady, IsSafe, same-IsReady, chunk-IsSafe, start-IsReady,
}
use winegrid_internship.ThingsBoard.Attributes.{
  number_or_zero, apply_interval, apply_shared_attribute, apply_members, container, wants_update,
  handle_attributes_payload,
}
use winegrid_internship.ThingsBoard.Rpc.{rpc_request_prefix, handle_rpc_request}
use winegrid_internship.ThingsBoard.Events.{on_connected, mqtt_event_handler}
use winegrid_internship.ThingsBoard.Telemetry.{telemetry_round}

module _ (nvs : Nvs) (sha : Sha256) (json : CJson) (current : Bytes) where
  open nvs use {Store}
  open sha use {Context}

  -- What an update goes by, which no attribute touches.
  abbrev pub Update : Type 0
  Update = Bool × Context × Bytes × ℕ × Option Bytes

  abbrev pub update_of : Client Store Context → Update
  update_of h =
      (h.fw_update_in_progress, h.sha_ctx, h.update_partition, h.fw_received, h.boot_image)

  if_update :
      (b : Bool) (x y h : Client Store Context)
      → update_of x ≡ update_of h
      → update_of y ≡ update_of h
      → update_of (if b then x else y) ≡ update_of h
  if_update true x y h p q = p
  if_update false x y h p q = q

  interval_update :
      (n : ℤ) (h : Client Store Context) → update_of (apply_interval n h) ≡ update_of h
  unfolding apply_interval
  interval_update (negsuc n) h = refl
  interval_update (pos n) h = if_update (leb 1000 n) _ _ h refl refl

  attribute_update :
      (key : Bytes) (value : json.Value) (h : Client Store Context)
      → update_of (apply_shared_attribute nvs sha json current key value h) ≡ update_of h
  unfolding apply_shared_attribute
  attribute_update key value h =
      ground (arith, interval_update (number_or_zero (json.number_of value)) h)

  pub members_update :
      (items : List (Bytes × json.Value)) (h : Client Store Context)
      → update_of (apply_members nvs sha json current items h) ≡ update_of h
  unfolding apply_members
  members_update [] h = refl
  members_update (item ∷ items) h =
      members_update items (apply_shared_attribute nvs sha json current item.0 item.1 h)
      ∙ attribute_update item.0 item.1 h

  update-IsReady :
      (h k : Client Store Context)
      → update_of k ≡ update_of h
      → IsReady nvs sha h
      → IsReady nvs sha k
  update-IsReady h k e r =
      same-IsReady nvs sha h k (ap (λ (u : Update). u.0) e) (ap (λ (u : Update). u.1) e)
        (ap (λ (u : Update). u.2) e) (ap (λ (u : Update). u.3) e) (ap (λ (u : Update). u.4) e) r

  payload-IsReady :
      (a : Answers) (payload : Bytes) (h t : Client Store Context)
      → IsReady nvs sha h
      → handle_attributes_payload nvs sha json current a payload h ≡ some t
      → IsReady nvs sha t
  unfolding handle_attributes_payload
  payload-IsReady a payload h t r e = elim (Option-cases (json.parse payload)) [
    | inl bad ↦ rw (← some-injective _ _ (rw (bad, handle_attributes_payload) at e)) r
    | inr (root, parsed) ↦
        let items = json.members (container nvs sha json current root) in
        let applied = apply_members nvs sha json current items h in
        let ready = update-IsReady h applied (members_update items h) r in
        elim (Bool-cases (json.nameless (container nvs sha json current root))) [
          | inl crash ↦ absurd (none-ne-some (rw (parsed, handle_attributes_payload, crash) at e))
          | inr named ↦ elim (Bool-cases (wants_update nvs sha json current applied)) [
            | inl wanted ↦
                start-IsReady nvs sha a applied t ready
                  (rw (parsed, handle_attributes_payload, named, wanted) at e)
            | inr unwanted ↦
                rw
                  (← some-injective _ _
                    (rw (parsed, handle_attributes_payload, named, unwanted) at e))
                  ready
          ]
        ]
  ]

  pub rpc_update :
      (free_heap : ℕ) (topic payload : Bytes) (h : Client Store Context)
      → update_of (handle_rpc_request json free_heap topic payload h) ≡ update_of h
  unfolding handle_rpc_request publish
  rpc_update free_heap topic payload h = ground arith

  event-IsSafe :
      (a : Answers) (free_heap : ℕ) (e : Event) (h t : Client Store Context)
      → IsReady nvs sha h
      → mqtt_event_handler nvs sha json current a free_heap e h ≡ some t
      → IsSafe nvs sha t
  unfolding mqtt_event_handler on_connected publish subscribe send_telemetry_json
  event-IsSafe a free_heap connected h t r e =
      rw (← some-injective _ _ e) (inl (update-IsReady h _ refl r))
  event-IsSafe a free_heap disconnected h t r e =
      rw (← some-injective _ _ e) (inl (update-IsReady h _ refl r))
  event-IsSafe a free_heap (message topic payload) h t r e =
      elim (Bool-cases (starts_with (codes "v2/fw/") topic)) [
        | inl chunk ↦ rw (← some-injective _ _ (rw chunk at e)) (chunk-IsSafe nvs sha a payload h r)
        | inr not_chunk ↦ elim (Bool-cases (starts_with rpc_request_prefix topic)) [
          | inl rpc ↦
              rw (← some-injective _ _ (rw (not_chunk, rpc) at e))
                (inl (update-IsReady h _ (rpc_update free_heap topic payload h) r))
          | inr attributes ↦ inl (payload-IsReady a payload h t r (rw (not_chunk, attributes) at e))
        ]
      ]
  event-IsSafe a free_heap transport_error h t r e = rw (← some-injective _ _ e) (inl r)
  event-IsSafe a free_heap other h t r e = rw (← some-injective _ _ e) (inl r)

  pub round_update : (h : Client Store Context) → update_of (telemetry_round h).1 ≡ update_of h
  unfolding telemetry_round publish
  round_update h = ground arith

  -- Events and rounds of the telemetry task, until the device restarts.
  pub data Reach (h : Client Store Context) : Client Store Context → Type 0 where
    here : Reach h h
    event :
        {t u : Client Store Context} (a : Answers) (free_heap : ℕ) (e : Event)
        → Reach h t
        → t.restarting ≡ false
        → mqtt_event_handler nvs sha json current a free_heap e t ≡ some u
        → Reach h u
    round :
        {t : Client Store Context}
        → Reach h t
        → t.restarting ≡ false
        → Reach h (telemetry_round t).1

  pub before_restart :
      (t : Client Store Context) → IsSafe nvs sha t → t.restarting ≡ false → IsReady nvs sha t
  before_restart t (inl r) on = r
  before_restart t (inr (image, b)) on = absurd (true-ne-false (sym b.restarts ∙ on))
    where
      true-ne-false : true ≡ false → ⊥
      true-ne-false e = cc

  -- Whatever messages arrive and whatever the OTA library answers to each, as long as the device
  -- has not restarted, either no image is bootable, and an update in progress has counted and
  -- hashed exactly what it wrote, or the image that is bootable has the announced size and the
  -- announced SHA-256 checksum, and the device restarts.
  pub Reach-IsSafe : {h t : Client Store Context} → IsReady nvs sha h → Reach h t → IsSafe nvs sha t
  Reach-IsSafe r here = inl r
  Reach-IsSafe r (event {t} {u} a free_heap e before on step) =
      event-IsSafe a free_heap e t u (before_restart t (Reach-IsSafe r before) on) step
  Reach-IsSafe r (round {t} before on) =
      inl (update-IsReady t _ (round_update t) (before_restart t (Reach-IsSafe r before) on))

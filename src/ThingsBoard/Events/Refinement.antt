-- ===== src/ThingsBoard/Events/Refinement.antt =====
-- The client of esp-idf-thingsboard/main/app_main.c refines the machine of the firmware update.
use winegrid_internship.Base.{
  ℕ, ◌≡◌, refl, sym, ap, ◌∙◌, arith, true, false, ◌&&◌, if◌then◌else◌, List, [], ◌∷◌, Option, none,
  some, Bytes, codes, ℤ, pos, negsuc, str_eq, starts_with, Bool-cases, Option-cases, inl, inr,
  none-ne-some,
}
use mathlib.Core.Option.{some-injective}
use winegrid_internship.Nvs.{Nvs}
use winegrid_internship.Json.{CJson}
use winegrid_internship.Mqtt.{Event, connected, disconnected, transport_error, other, message}
use winegrid_internship.ThingsBoard.{Sha256, Client, publish, subscribe, send_telemetry_json}
use winegrid_internship.ThingsBoard.Firmware.{Answers}
use winegrid_internship.ThingsBoard.Firmware.Verified.{IsReady}
use winegrid_internship.ThingsBoard.Attributes.{
  is_some, copy_string, number_or_zero, apply_interval, apply_shared_attribute, apply_members,
  container, wants_update, handle_attributes_payload,
}
use winegrid_internship.ThingsBoard.Rpc.{rpc_request_prefix, handle_rpc_request}
use winegrid_internship.ThingsBoard.Telemetry.{telemetry_round}
use winegrid_internship.ThingsBoard.Events.{on_connected, mqtt_event_handler}
use winegrid_internship.ThingsBoard.Events.Safety.{
  update_of, members_update, rpc_update, round_update, Reach, here, event, round, Reach-IsSafe,
  before_restart,
}
use winegrid_internship.ThingsBoard.Firmware.Machine.{
  DownloadState, idle, Announced, Input, quiet, attributes, chunk, UpdateStep, stay, tell, state_of,
  update_state, announced, chunk_step, start_step,
}

module _ (nvs : Nvs) (sha : Sha256) (json : CJson) (current : Bytes) where
  open nvs use {Store}
  open sha use {Context}

  same_state :
      (h k : Client Store Context)
      → update_of nvs sha json current k ≡ update_of nvs sha json current h
      → update_state nvs sha k ≡ update_state nvs sha h
  same_state h k e = ap (λ u. state_of nvs sha u.0 u.2 u.4) e

  -- One member: only the size, the algorithm and the checksum change what is announced. A key counts
  -- for the attribute whose name it is, if its value is of that attribute's kind.
  unfoldable pub announce_one : Bytes → json.Value → Announced → Announced
  announce_one key value an =
      if str_eq key (codes "publishInterval") && is_some (json.number_of value)
      then an
      else if str_eq key (codes "fw_title") && is_some (json.string_of value)
      then an
      else if str_eq key (codes "fw_version") && is_some (json.string_of value)
      then an
      else if str_eq key (codes "fw_checksum") && is_some (json.string_of value)
      then record an { checksum = copy_string 64 (json.string_of value) }
      else if str_eq key (codes "fw_checksum_algorithm") && is_some (json.string_of value)
      then record an { algorithm = copy_string 15 (json.string_of value) }
      else if str_eq key (codes "fw_size") && is_some (json.number_of value)
      then record an { size = number_or_zero (json.number_of value) }
      else an

  -- What these members make of an announcement.
  unfoldable pub announce : List (Bytes × json.Value) → Announced → Announced
  announce [] an = an
  announce (item ∷ items) an = announce items (announce_one item.0 item.1 an)

  unfoldable pub payload_input : Option json.Value → Input
  payload_input none = quiet
  payload_input (some root) =
      attributes (announce (json.members (container nvs sha json current root)))

  -- What the machine is given of an event.
  unfoldable pub input_of : Event → Input
  input_of (message topic payload) =
      if starts_with (codes "v2/fw/") topic
      then chunk payload
      else if starts_with rpc_request_prefix topic
      then quiet
      else payload_input (json.parse payload)
  input_of _ = quiet

  -- The inputs of a run of the client, the last one first.
  unfoldable pub inputs : {h t : Client Store Context} → Reach nvs sha json current h t → List Input
  inputs here = []
  inputs (event a free_heap e before on step) = input_of e ∷ inputs before
  inputs (round before on) = quiet ∷ inputs before

  interval_announced :
      (n : ℤ) (h : Client Store Context)
      → announced nvs sha (apply_interval n h) ≡ announced nvs sha h
  unfolding apply_interval
  interval_announced (negsuc n) h = refl
  interval_announced (pos n) h = ground arith

  attribute_announced :
      (key : Bytes) (value : json.Value) (h : Client Store Context)
      → announced nvs sha (apply_shared_attribute nvs sha json current key value h)
        ≡ announce_one key value (announced nvs sha h)
  unfolding apply_shared_attribute announce_one
  attribute_announced key value h =
      ground (arith, interval_announced (number_or_zero (json.number_of value)) h)

  members_announced :
      (items : List (Bytes × json.Value)) (h : Client Store Context)
      → announced nvs sha (apply_members nvs sha json current items h)
        ≡ announce items (announced nvs sha h)
  unfolding apply_members announce
  members_announced [] h = refl
  members_announced (item ∷ items) h =
      members_announced items (apply_shared_attribute nvs sha json current item.0 item.1 h)
      ∙ ap (announce items) (attribute_announced item.0 item.1 h)

  -- The machine's step between two states of the client.
  abbrev ClientStep : Input → Client Store Context → Client Store Context → Type 0
  ClientStep i h t =
      UpdateStep nvs sha i (announced nvs sha h) (update_state nvs sha h) (announced nvs sha t)
        (update_state nvs sha t)

  quiet_step :
      (h k : Client Store Context)
      → update_of nvs sha json current k ≡ update_of nvs sha json current h
      → announced nvs sha k ≡ announced nvs sha h
      → ClientStep quiet h k
  quiet_step h k e p = rw (same_state h k e, p) stay

  rpc_announced :
      (free_heap : ℕ) (topic payload : Bytes) (h : Client Store Context)
      → announced nvs sha (handle_rpc_request json free_heap topic payload h) ≡ announced nvs sha h
  unfolding handle_rpc_request publish
  rpc_announced free_heap topic payload h = ground arith

  round_announced :
      (h : Client Store Context) → announced nvs sha (telemetry_round h).1 ≡ announced nvs sha h
  unfolding telemetry_round publish
  round_announced h = ground arith

  wanted_idle :
      (k : Client Store Context)
      → wants_update nvs sha json current k ≡ true
      → k.boot_image ≡ none
      → update_state nvs sha k ≡ idle
  unfolding wants_update
  wanted_idle k w b = let off : k.fw_update_in_progress ≡ false = ground arith in simp (off, b)

  payload_step :
      (a : Answers) (payload : Bytes) (h t : Client Store Context)
      → IsReady nvs sha h
      → handle_attributes_payload nvs sha json current a payload h ≡ some t
      → ClientStep (payload_input (json.parse payload)) h t
  unfolding handle_attributes_payload payload_input
  payload_step a payload h t r e = elim (Option-cases (json.parse payload)) [
    | inl bad ↦ rw (bad, ← some-injective _ _ (rw (bad, handle_attributes_payload) at e)) stay
    | inr (root, parsed) ↦
        let items = json.members (container nvs sha json current root) in
        let applied = apply_members nvs sha json current items h in
        let told = members_announced items h in
        let same = same_state h applied (members_update nvs sha json current items h) in
        elim (Bool-cases (json.nameless (container nvs sha json current root))) [
          | inl crash ↦ absurd (none-ne-some (rw (parsed, handle_attributes_payload, crash) at e))
          | inr named ↦ elim (Bool-cases (wants_update nvs sha json current applied)) [
            | inl wanted ↦
                let unbooted : applied.boot_image ≡ none =
                  ap (λ u. u.4) (members_update nvs sha json current items h) ∙ r.unbooted in
                let rests = wanted_idle applied wanted unbooted in
                rw (parsed, sym same ∙ rests)
                  (start_step nvs sha a (announce items) (announced nvs sha h) applied t told rests
                    unbooted (rw (parsed, handle_attributes_payload, named, wanted) at e))
            | inr unwanted ↦
                rw
                  (
                    parsed,
                    ← some-injective _ _
                        (rw (parsed, handle_attributes_payload, named, unwanted) at e),
                    same,
                    told,
                  )
                  (tell (announce items))
          ]
        ]
  ]

  event_step :
      (a : Answers) (free_heap : ℕ) (e : Event) (h t : Client Store Context)
      → IsReady nvs sha h
      → mqtt_event_handler nvs sha json current a free_heap e h ≡ some t
      → ClientStep (input_of e) h t
  unfolding mqtt_event_handler on_connected publish subscribe send_telemetry_json input_of
  event_step a free_heap connected h t r e = rw (← some-injective _ _ e) stay
  event_step a free_heap disconnected h t r e = rw (← some-injective _ _ e) stay
  event_step a free_heap (message topic payload) h t r e =
      elim (Bool-cases (starts_with (codes "v2/fw/") topic)) [
        | inl is_chunk ↦
            rw (is_chunk, ← some-injective _ _ (rw is_chunk at e))
              (chunk_step nvs sha a payload h r)
        | inr not_chunk ↦ elim (Bool-cases (starts_with rpc_request_prefix topic)) [
          | inl rpc ↦
              rw (not_chunk, rpc, ← some-injective _ _ (rw (not_chunk, rpc) at e))
                (quiet_step h (handle_rpc_request json free_heap topic payload h)
                  (rpc_update nvs sha json current free_heap topic payload h)
                  (rpc_announced free_heap topic payload h))
          | inr others ↦
              rw (not_chunk, others) (payload_step a payload h t r (rw (not_chunk, others) at e))
        ]
      ]
  event_step a free_heap transport_error h t r e = rw (← some-injective _ _ e) stay
  event_step a free_heap other h t r e = rw (← some-injective _ _ e) stay

  -- The machine's runs over inputs, of which the last one is first.
  pub data UpdateRun (a : Announced) (u : DownloadState)
      : List Input → Announced → DownloadState → Type 0 where
    start : UpdateRun a u [] a u
    then_step :
        {b c : Announced} {v w : DownloadState} {i : Input} {is : List Input}
        → UpdateRun a u is b v
        → UpdateStep nvs sha i b v c w
        → UpdateRun a u (i ∷ is) c w

  -- Whatever messages arrive and whatever the OTA library answers to each, what a device that has
  -- not restarted does to its update is a run of the machine of three states over the chunks and
  -- the announcements of these very messages: it begins an update only after attributes and while
  -- none is in progress; an update then holds exactly the bytes of its chunks in the order in which
  -- they came, and goes on only below the announced size; and an image is installed only from an
  -- update in progress and with the size and the SHA-256 checksum that were announced last.
  pub Reach-UpdateRun :
      {h t : Client Store Context}
      → IsReady nvs sha h
      → (run : Reach nvs sha json current h t)
      → UpdateRun
          (announced nvs sha h)
          (update_state nvs sha h)
          (inputs run)
          (announced nvs sha t)
          (update_state nvs sha t)
  unfolding inputs
  Reach-UpdateRun r here = start
  Reach-UpdateRun r (event {t} {u} a free_heap e before on step) =
      then_step (Reach-UpdateRun r before) (
        event_step a free_heap e t u
          (before_restart nvs sha json current t (Reach-IsSafe nvs sha json current r before) on)
          step)
  Reach-UpdateRun r (round {t} before on) =
      then_step (Reach-UpdateRun r before) (
        quiet_step t (telemetry_round t).1 (round_update nvs sha json current t)
          (round_announced t))

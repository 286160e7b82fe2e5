-- ===== src/Azure/Dps/Assignment.antt =====
-- Where the hub and the device's name come from.
use winegrid_internship.Base.{
  ◌⊎◌, ◌≡◌, refl, ◌∙◌, true, List, [], ◌∷◌, Option, none, some, Bytes, codes, take, str_eq,
  Bool-cases, Option-cases, inl, inr,
}
use winegrid_internship.Json.{CJson}
use winegrid_internship.Mqtt.{Event, connected, disconnected, transport_error, other, message}
use winegrid_internship.Azure.Dps.{
  Dps, send, status_code, item_string, keep_operation_id, assign, is_assigned, take_answer,
  on_response, dps_mqtt_event_handler, handle_events,
}

module _ (json : CJson) (registration_id : Bytes) where
  -- One of the events is an answer with the status `assigned` that names both; 127 bytes of each
  -- are kept.
  pub data Assigns (hub device : Bytes) : List Event → Type 0 where
    answer :
        {es : List Event} (topic payload : Bytes) (root : json.Value) (hub_name device_name : Bytes)
        → json.parse payload ≡ some root
        → is_assigned json registration_id
            (item_string json registration_id (some root) (codes "status"))
          ≡ true
        → item_string json registration_id
            (json.get_object_item root (codes "registrationState"))
            (codes "assignedHub")
          ≡ some hub_name
        → item_string json registration_id
            (json.get_object_item root (codes "registrationState"))
            (codes "deviceId")
          ≡ some device_name
        → hub ≡ take 127 hub_name
        → device ≡ take 127 device_name
        → Assigns hub device (message topic payload ∷ es)
    later : {es : List Event} (e : Event) → Assigns hub device es → Assigns hub device (e ∷ es)

  -- Nothing of the assignment changed.
  abbrev pub SameAssignment : Dps → Dps → Type 0
  SameAssignment d d' =
      (d'.success ≡ d.success) × (d'.assigned_hub ≡ d.assigned_hub) × (d'.device_id ≡ d.device_id)

  abbrev pub Traced : List Event → Dps → Dps → Type 0
  Traced es d d' = SameAssignment d d' ⊎ Assigns d'.assigned_hub d'.device_id es

  answer-Traced :
      (topic payload : Bytes) (es : List Event) (root : json.Value) (code : Bytes) (d : Dps)
      → json.parse payload ≡ some root
      → Traced (message topic payload ∷ es) d (take_answer json registration_id code root d)
  unfolding take_answer assign
  answer-Traced topic payload es root code d parsed =
      let reg_state = json.get_object_item root (codes "registrationState") in
      elim (Bool-cases (
        is_assigned json registration_id
          (item_string json registration_id (some root) (codes "status")))) [
            | inr unassigned ↦ elim (Bool-cases (str_eq code (codes "202"))) [
              | inl wait ↦ simp (unassigned, wait) (inl (refl, refl, refl))
              | inr failed ↦ simp (unassigned, failed) (inl (refl, refl, refl))
            ]
            | inl assigned ↦
                elim (Option-cases
                  (item_string json registration_id reg_state (codes "assignedHub"))) [
                    | inl nothing ↦ simp (assigned, nothing) (inl (refl, refl, refl))
                    | inr (hub_name, hub) ↦
                        elim (Option-cases
                          (item_string json registration_id reg_state (codes "deviceId"))) [
                            | inl nothing ↦ simp (assigned, hub, nothing) (inl (refl, refl, refl))
                            | inr (device_name, device) ↦
                                simp (assigned, hub, device)
                                  (inr (
                                    answer topic payload root hub_name device_name parsed assigned
                                      hub device refl refl))
                          ]
                  ]
          ]

  kept_same :
      (o : Option Bytes) (d : Dps) → SameAssignment d (keep_operation_id json registration_id o d)
  unfolding keep_operation_id
  kept_same none d = (refl, refl, refl)
  kept_same (some op_id) d = (refl, refl, refl)

  pub same-Traced :
      {es : List Event} (d d' d'' : Dps) → SameAssignment d d' → Traced es d' d'' → Traced es d d''
  same-Traced d d' d'' s (inl t) = inl (t.0 ∙ s.0, t.1 ∙ s.1, t.2 ∙ s.2)
  same-Traced d d' d'' s (inr a) = inr a

  event-Traced :
      (e : Event) (es : List Event) (d : Dps)
      → Traced (e ∷ es) d (dps_mqtt_event_handler json registration_id e d)
  unfolding dps_mqtt_event_handler on_response send
  event-Traced connected es d = inl (refl, refl, refl)
  event-Traced disconnected es d = inl (refl, refl, refl)
  event-Traced transport_error es d = inl (refl, refl, refl)
  event-Traced other es d = inl (refl, refl, refl)
  event-Traced (message topic payload) es d = elim (Option-cases (json.parse payload)) [
    | inl bad ↦ rw bad (inl (refl, refl, refl))
    | inr (root, parsed) ↦
        let op_id = item_string json registration_id (some root) (codes "operationId") in
        let kept = keep_operation_id json registration_id op_id d in
        rw parsed (
          same-Traced d kept (take_answer json registration_id (status_code topic) root kept)
            (kept_same op_id d)
            (answer-Traced topic payload es root (status_code topic) kept parsed))
  ]

  pub events-Traced :
      (es : List Event) (d : Dps) → Traced es d (handle_events json registration_id es d)
  unfolding handle_events
  events-Traced [] d = inl (refl, refl, refl)
  events-Traced (e ∷ es) d =
      let d' = dps_mqtt_event_handler json registration_id e d in
      elim (events-Traced es d') [
        | inr a ↦ inr (later e a)
        | inl same ↦ elim (event-Traced e es d) [
          | inl first ↦ inl (same.0 ∙ first.0, same.1 ∙ first.1, same.2 ∙ first.2)
          | inr a ↦ inr (rw (same.1, same.2) a)
        ]
      ]

-- ===== src/ThingsBoardZephyr/Main/Requests.antt =====
-- RPC requests as `main_evt_handler` gets them, from a payload that has arrived or has not.
use winegrid_internship.Base.{
  ℕ, ◌≡◌, refl, ap, ◌∙◌, arith, true, ◌&&◌, leb, ◌++◌, Bytes, length, length-append, starts_with,
  starts_with-append, Bool-cases, inl, inr,
}
use winegrid_internship.ThingsBoardZephyr.{
  Client, PublishParam, mqtt_evt_publish, fill_payload_buf, payload_text, rpc_request_prefix,
  handle_rpc_request,
}
use winegrid_internship.ThingsBoardZephyr.Buffer.{
  IsComplete, payload_text_complete, payload_text_stale, rpc_payload_buf,
}
use winegrid_internship.ThingsBoardZephyr.Main.{main_evt_handler}

topic_passes :
    (id : Bytes)
    → (leb (length rpc_request_prefix) (length (rpc_request_prefix ++ id))
        && starts_with rpc_request_prefix (rpc_request_prefix ++ id))
      ≡ true
topic_passes id =
    let long : leb (length rpc_request_prefix) (length (rpc_request_prefix ++ id)) ≡ true =
      ground (arith, length-append rpc_request_prefix id) in
    rw long (starts_with-append rpc_request_prefix id)

request_handled :
    (uptime : ℕ) (id : Bytes) (p : PublishParam) (h : Client)
    → p.topic ≡ rpc_request_prefix ++ id
    → main_evt_handler uptime (mqtt_evt_publish p) h
      ≡ handle_rpc_request uptime p.topic
          (payload_text p h.payload_buf)
          (record h { payload_buf = fill_payload_buf p h.payload_buf })
unfolding main_evt_handler
request_handled uptime id p h on_topic = rw (on_topic, topic_passes id) refl

publish_payload_buf :
    (uptime : ℕ) (p : PublishParam) (h : Client)
    → (main_evt_handler uptime (mqtt_evt_publish p) h).payload_buf
      ≡ fill_payload_buf p h.payload_buf
unfolding main_evt_handler
publish_payload_buf uptime p h =
    elim (Bool-cases (
      leb (length rpc_request_prefix) (length p.topic) && starts_with rpc_request_prefix p.topic)) [
        | inl rpc ↦ rw rpc (
            rpc_payload_buf uptime p.topic (payload_text p h.payload_buf)
              (record h { payload_buf = fill_payload_buf p h.payload_buf }))
        | inr passed_by ↦ rw passed_by refl
      ]

-- A message on the topic of an RPC request whose payload has arrived, in at most 511 bytes, is
-- handled as that payload. A message after it, on the topic of an RPC request too and with a payload of the same
-- length of which nothing has arrived yet, is handled as the payload of the first.
pub late_request_repeats :
    (uptime later : ℕ) (id next_id : Bytes) (q p : PublishParam) (h : Client)
    → q.topic ≡ rpc_request_prefix ++ id
    → p.topic ≡ rpc_request_prefix ++ next_id
    → IsComplete q
    → p.arrived ≡ 0
    → length p.payload ≡ length q.payload
    → let first = main_evt_handler uptime (mqtt_evt_publish q) h in
      (first
        ≡ handle_rpc_request uptime q.topic q.payload
            (record h { payload_buf = fill_payload_buf q h.payload_buf }))
      × (main_evt_handler later (mqtt_evt_publish p) first
          ≡ handle_rpc_request later p.topic q.payload
              (record first { payload_buf = fill_payload_buf p first.payload_buf }))
late_request_repeats uptime later id next_id q p h on_q on_p c late same =
    let first = main_evt_handler uptime (mqtt_evt_publish q) h in
    (
      request_handled uptime id q h on_q
          ∙ ap
              (λ text.
                handle_rpc_request uptime q.topic text
                  (record h { payload_buf = fill_payload_buf q h.payload_buf }))
              (payload_text_complete q h.payload_buf c),
      request_handled later next_id p first on_p
          ∙ ap
              (λ text.
                handle_rpc_request later p.topic text
                  (record first { payload_buf = fill_payload_buf p first.payload_buf }))
              (ap (payload_text p) (publish_payload_buf uptime q h)
                ∙ payload_text_stale q p h.payload_buf c late same),
    )

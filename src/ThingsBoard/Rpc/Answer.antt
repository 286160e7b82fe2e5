-- ===== src/ThingsBoard/Rpc/Answer.antt =====
-- Every request that names a method is answered once, under its own id.
use winegrid_internship.Base.{
  ℕ, ◌⊎◌, str_eq-eq, ◌≤◌, ◌≡◌, refl, true, false, if◌then◌else◌, [], ◌∷◌, ◌++◌, none, some, Bytes,
  codes, length, drop, take_all, str_eq, Bool-cases, Option-cases, inl, inr,
}
use winegrid_internship.Json.{CJson}
use winegrid_internship.ThingsBoard.{Client, publish}
use winegrid_internship.ThingsBoard.Rpc.{
  rpc_request_prefix, rpc_response_topic, rpc_status, method_of, handle_rpc_request,
}

-- The payload of an answer.
unfoldable pub rpc_answer : Bytes → ℕ → ℕ → Bytes
rpc_answer method temperature free_heap =
    if str_eq method (codes "getStatus")
    then rpc_status temperature free_heap
    else if str_eq method (codes "reboot")
    then codes "{\"result\":\"rebooting\"}"
    else codes "{\"error\":\"unknown method\"}"

response_topic_of :
    (id : Bytes)
    → length id ≤ 36
    → rpc_response_topic (drop (length rpc_request_prefix) (rpc_request_prefix ++ id))
      ≡ codes "v1/devices/me/rpc/response/" ++ id
unfolding rpc_response_topic
response_topic_of id l = rw (take_all 36 id l) refl

status-not-reboot :
    (method : Bytes)
    → str_eq method (codes "getStatus") ≡ true
    → str_eq method (codes "reboot") ≡ false
unfolding str_eq
status-not-reboot method h = rw (str_eq-eq method (codes "getStatus") h)

-- A request with an id of at most 36 bytes whose payload names a method is answered with exactly
-- one message, on the response topic of that id: the temperature and the free heap for
-- `getStatus`, a confirmation for `reboot`, an error for any other. The device restarts exactly if
-- the method is `reboot` (or a restart was already under way). A request that names no method
-- changes nothing.
pub rpc_answered :
    (json : CJson) {S C : Type 0} (free_heap : ℕ) (id payload : Bytes) (h : Client S C)
    → length id ≤ 36
    → ((method_of json payload ≡ none)
        × (handle_rpc_request json free_heap (rpc_request_prefix ++ id) payload h ≡ h))
      ⊎ ((method : Bytes) × (method_of json payload ≡ some method)
          × ((handle_rpc_request json free_heap (rpc_request_prefix ++ id) payload h).outbox
              ≡ h.outbox
                ++ (record {
                  topic = codes "v1/devices/me/rpc/response/" ++ id;
                  payload = rpc_answer method h.fake_temperature free_heap;
                }
                    ∷ []))
          × ((handle_rpc_request json free_heap (rpc_request_prefix ++ id) payload h).restarting
              ≡ (if str_eq method (codes "reboot") then true else h.restarting)))
unfolding handle_rpc_request rpc_answer publish
rpc_answered json free_heap id payload h l = elim (Option-cases (method_of json payload)) [
  | inl nothing ↦ inl (nothing, rw (nothing, handle_rpc_request) refl)
  | inr (method, named) ↦
      let topic = response_topic_of id l in
      elim (Bool-cases (str_eq method (codes "getStatus"))) [
        | inl status ↦ inr (
          method,
          named,
          rw (named, handle_rpc_request, topic, status) refl,
          rw (named, handle_rpc_request, status, status-not-reboot method status) refl,
        )
        | inr not_status ↦ elim (Bool-cases (str_eq method (codes "reboot"))) [
          | inl reboot ↦ inr (
            method,
            named,
            rw (named, handle_rpc_request, topic, not_status, reboot) refl,
            rw (named, handle_rpc_request, not_status, reboot) refl,
          )
          | inr unknown ↦ inr (
            method,
            named,
            rw (named, handle_rpc_request, topic, not_status, unknown) refl,
            rw (named, handle_rpc_request, not_status, unknown) refl,
          )
        ]
      ]
]

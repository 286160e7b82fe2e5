-- ===== src/ThingsBoard/Rpc.antt =====
-- `handle_rpc_request` of esp-idf-thingsboard/main/app_main.c.
pub mod Answer
use winegrid_internship.Base.{
  ℕ, Bool, true, if◌then◌else◌, ◌++◌, Option, none, some, Bytes, codes, dec, length, drop, snprintf,
  str_eq,
}
use winegrid_internship.Json.{CJson}
use winegrid_internship.ThingsBoard.{Client, publish}

abbrev pub rpc_request_prefix : Bytes
rpc_request_prefix = codes "v1/devices/me/rpc/request/"

unfoldable pub rpc_response_topic : Bytes → Bytes
rpc_response_topic request_id = snprintf 64 (codes "v1/devices/me/rpc/response/" ++ request_id)

unfoldable pub rpc_status : ℕ → ℕ → Bytes
rpc_status temperature free_heap = snprintf 128 (
    codes "{\"temperature\":"
    ++ (dec temperature ++ (codes ",\"freeHeap\":" ++ (dec free_heap ++ codes "}"))))

module _ (json : CJson) where
  open json use {Value, parse, get_object_item, string_of}

  -- `cJSON_IsString(method)` with its `valuestring`.
  unfoldable pub method_of : Bytes → Option Bytes
  method_of payload = elim (parse payload) [
    | none ↦ none
    | some root ↦ elim (get_object_item root (codes "method")) [
      | none ↦ none
      | some method ↦ string_of method
    ]
  ]

  -- `handle_rpc_request` on a topic that begins with the prefix; the number is the free heap.
  unfoldable pub handle_rpc_request : {S C : Type 0} → ℕ → Bytes → Bytes → Client S C → Client S C
  unfolding publish method_of
  handle_rpc_request free_heap topic payload h =
      let response_topic = rpc_response_topic (drop (length rpc_request_prefix) topic) in
      elim (method_of payload) [
        | none ↦ h
        | some method ↦
            if str_eq method (codes "getStatus")
            then publish response_topic (rpc_status h.fake_temperature free_heap) h
            else if str_eq method (codes "reboot")
            then record (publish response_topic (codes "{\"result\":\"rebooting\"}") h) {
              restarting = true;
            }
            else publish response_topic (codes "{\"error\":\"unknown method\"}") h
      ]

-- ===== src/Azure/DirectMethod.antt =====
-- `handle_direct_method_request` of esp-idf-azure-dps/main/app_main.c.
pub mod Answer
use winegrid_internship.Base.{
  ℕ, zero, suc, ◌+◌, Bool, true, false, if◌then◌else◌, ltb, ◌==◌, List, [], ◌∷◌, ◌++◌, Option, none,
  some, Bytes, codes, dec, length, drop, snprintf, starts_with, str_eq,
}
use winegrid_internship.Azure.{Hub, Platform, publish}

abbrev pub direct_method_prefix : Bytes
direct_method_prefix = codes "$iothub/methods/POST/"

abbrev pub rid_marker : Bytes
rid_marker = codes "$rid="

-- The bytes before the first `/`, at most `limit`.
unfoldable pub before_slash : ℕ → Bytes → Bytes
before_slash zero s = []
before_slash (suc limit) [] = []
before_slash (suc limit) (c ∷ cs) = if c == b'/' then [] else c ∷ before_slash limit cs

-- The search for `$rid=`, over what is left at `i`: it goes on while more than the marker is left.
unfoldable pub find_rid : Bytes → Option Bytes
find_rid [] = none
find_rid (c ∷ cs) =
    let rest = find_rid cs in
    if ltb (length rid_marker) (length (c ∷ cs))
    then if starts_with rid_marker (c ∷ cs) then some (drop (length rid_marker) (c ∷ cs)) else rest
    else none

abbrev pub response_topic : Bytes → Bytes → Bytes
response_topic status rid =
    snprintf 128 (codes "$iothub/methods/res/" ++ (status ++ (codes "/?$rid=" ++ rid)))

unfoldable pub status_payload : ℕ → ℕ → Bytes
status_payload temperature free_heap = snprintf 128 (
    codes "{\"temperature\":"
    ++ (dec temperature ++ (codes ",\"freeHeap\":" ++ (dec free_heap ++ codes "}"))))

module _ {S : Type 0} where
  -- From the point on where the method's name and the request's id are known.
  unfoldable pub call_method : Platform → Bytes → Bytes → Hub S → Hub S
  unfolding publish
  call_method platform method_name rid h =
      if str_eq method_name (codes "getStatus")
      then publish (response_topic (codes "200") rid)
          (status_payload h.fake_temperature platform.free_heap) h
      else if str_eq method_name (codes "reboot")
      then record (publish (response_topic (codes "200") rid) (codes "{\"result\":\"rebooting\"}")
          h) { restarting = true }
      else publish (response_topic (codes "404") rid) (codes "{\"error\":\"unknown method\"}") h

  -- `handle_direct_method_request`, on a topic that begins with the prefix.
  unfoldable pub handle_direct_method_request : Platform → Bytes → Hub S → Hub S
  handle_direct_method_request platform topic h =
      let after_prefix = drop (length direct_method_prefix) topic in
      let method_name = before_slash 31 after_prefix in
      elim (find_rid (drop (length method_name) after_prefix)) [
        | none ↦ h
        | some rid ↦ call_method platform method_name rid h
      ]

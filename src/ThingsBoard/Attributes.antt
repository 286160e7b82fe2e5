-- ===== src/ThingsBoard/Attributes.antt =====
-- The shared attributes of esp-idf-thingsboard/main/app_main.c: `apply_shared_attribute` and
-- `handle_attributes_payload`.
use winegrid_internship.Base.{
  ℕ, Bool, true, false, ◌&&◌, not, if◌then◌else◌, leb, ltb, List, [], ◌∷◌, Option, none, some,
  Bytes, codes, ℤ, pos, negsuc, length, str_eq, take,
}
use winegrid_internship.Nvs.{Nvs}
use winegrid_internship.Json.{CJson}
use winegrid_internship.ThingsBoard.{Sha256, Client}
use winegrid_internship.ThingsBoard.Firmware.{Answers, start_fw_update}

abbrev pub is_some {ℓ} : {A : Type ℓ} → Option A → Bool
is_some none = false
is_some (some a) = true

-- `strncpy(buffer, text, size - 1)` into a static buffer, whose last byte stays 0.
abbrev pub copy_string : ℕ → Option Bytes → Bytes
copy_string room none = []
copy_string room (some text) = take room text

abbrev pub number_or_zero : Option ℤ → ℤ
number_or_zero none = pos 0
number_or_zero (some n) = n

unfoldable pub apply_interval : {S C : Type 0} → ℤ → Client S C → Client S C
apply_interval (negsuc n) h = h
apply_interval (pos new_interval) h =
    if leb 1000 new_interval then record h { publish_interval_ms = new_interval } else h

module _ (nvs : Nvs) (sha : Sha256) (json : CJson) (current : Bytes) where
  open nvs use {Store}
  open sha use {Context}
  open json use {Value, parse, get_object_item, members, nameless, string_of, number_of}

  -- `apply_shared_attribute`.
  unfoldable pub apply_shared_attribute :
      Bytes → Value → Client Store Context → Client Store Context
  unfolding apply_interval
  apply_shared_attribute key value h =
      if str_eq key (codes "publishInterval") && is_some (number_of value)
      then apply_interval (number_or_zero (number_of value)) h
      else if str_eq key (codes "fw_title") && is_some (string_of value)
      then record h { fw_title = copy_string 63 (string_of value) }
      else if str_eq key (codes "fw_version") && is_some (string_of value)
      then record h { fw_version = copy_string 31 (string_of value) }
      else if str_eq key (codes "fw_checksum") && is_some (string_of value)
      then record h { fw_checksum = copy_string 64 (string_of value) }
      else if str_eq key (codes "fw_checksum_algorithm") && is_some (string_of value)
      then record h { fw_checksum_algorithm = copy_string 15 (string_of value) }
      else if str_eq key (codes "fw_size") && is_some (number_of value)
      then record h { fw_size = number_or_zero (number_of value); fw_info_known = true }
      else h

  -- The loop over the members.
  unfoldable pub apply_members : List (Bytes × Value) → Client Store Context → Client Store Context
  unfolding apply_shared_attribute
  apply_members [] h = h
  apply_members (item ∷ items) h = apply_members items (apply_shared_attribute item.0 item.1 h)

  -- The object that holds the attributes: under `shared`, or at the root.
  unfoldable pub container : Value → Value
  container root = elim (get_object_item root (codes "shared")) [
    | none ↦ root
    | some shared ↦ shared
  ]

  unfoldable pub wants_update : Client Store Context → Bool
  wants_update h =
      h.fw_info_known
      && not h.fw_update_in_progress
      && ltb 0 (length h.fw_version)
      && not (str_eq h.fw_version current)

  -- `handle_attributes_payload`; `none` where an `ESP_ERROR_CHECK` aborts, or `strcmp` crashes on the
  -- name that a member of an array does not have.
  unfoldable pub handle_attributes_payload :
      Answers → Bytes → Client Store Context → Option (Client Store Context)
  unfolding apply_members container wants_update
  handle_attributes_payload a payload h = elim (parse payload) [
    | none ↦ some h
    | some root ↦
        let applied = apply_members (members (container root)) h in
        if nameless (container root)
        then none
        else if wants_update applied
        then start_fw_update nvs sha a applied
        else some applied
  ]

-- ===== src/Nvs.antt =====
-- The NVS helpers of the two ESP-IDF clients, `load_nvs_str`, `save_nvs_str` and `erase_nvs_key` of
-- esp-idf-azure-dps/main/app_main.c (esp-idf-thingsboard/main/app_main.c has the same three), over
-- what they use of the NVS library.
pub mod Laws
pub mod Memory
use winegrid_internship.Base.{
  ℕ, Bool, true, false, ◌&&◌, if◌then◌else◌, Option, none, some, Bytes, length, ltb, ◌≡◌,
}

-- The keys that the clients use, each within its own namespace.
pub data Key : Type 0 where
  access_token assigned_hub device_id pending_fw failed_fw : Key

abbrev pub key_eq : Key → Key → Bool
key_eq access_token access_token = true
key_eq assigned_hub assigned_hub = true
key_eq device_id device_id = true
key_eq pending_fw pending_fw = true
key_eq failed_fw failed_fw = true
key_eq _ _ = false

-- A stored string that fits a buffer of `size` bytes with its NUL.
abbrev pub fit : ℕ → Option Bytes → Option Bytes
fit size none = none
fit size (some v) = if ltb (length v) size then some v else none

-- The NVS library as its documentation describes it. `stored` is what the flash holds.
pub record Nvs : Type 1 where
  pub Store : Type 0
  pub stored : Store → Key → Option Bytes
  -- `nvs_open` succeeds, read-only and for writing.
  pub opens_ro : Store → Bool
  pub opens_rw : Store → Bool
  -- `nvs_get_str` into a buffer of the given size.
  pub get_str : Store → Key → ℕ → Option Bytes
  -- `nvs_set_str` and `nvs_commit`; `none` where one of them fails.
  pub set_str : Store → Key → Bytes → Option Store
  -- `nvs_erase_key` and `nvs_commit`, whose results the clients ignore, and whether the key is gone
  -- after them.
  pub erase_key : Store → Key → Store
  pub erases : Store → Key → Bool
  pub get_str_lem : (s : Store) (k : Key) (size : ℕ) → get_str s k size ≡ fit size (stored s k)
  -- Without its namespace a store holds nothing; writing creates the namespace.
  pub stored-closed : (s : Store) (k : Key) → opens_ro s ≡ false → stored s k ≡ none
  pub opens_ro-set :
      (s t : Store) (k : Key) (v : Bytes) → set_str s k v ≡ some t → opens_ro t ≡ true
  pub opens_rw-set :
      (s t : Store) (k : Key) (v : Bytes) → set_str s k v ≡ some t → opens_rw t ≡ opens_rw s
  pub stored-set :
      (s t : Store) (k j : Key) (v : Bytes)
      → set_str s k v ≡ some t
      → stored t j ≡ (if key_eq k j then some v else stored s j)
  pub opens_rw-erase : (s : Store) (k : Key) → opens_rw (erase_key s k) ≡ opens_rw s
  pub stored-erase :
      (s : Store) (k j : Key)
      → stored (erase_key s k) j ≡ (if key_eq k j && erases s k then none else stored s j)

module _ (nvs : Nvs) where
  open nvs use {Store, opens_ro, opens_rw, get_str, set_str, erase_key}

  unfoldable pub load_nvs_str : Store → Key → ℕ → Option Bytes
  load_nvs_str s k size = if opens_ro s then get_str s k size else none

  -- `none`: an `ESP_ERROR_CHECK` aborted the program.
  unfoldable pub save_nvs_str : Store → Key → Bytes → Option Store
  save_nvs_str s k v = if opens_rw s then set_str s k v else none

  -- A key that cannot be erased stays.
  unfoldable pub erase_nvs_key : Store → Key → Store
  erase_nvs_key s k = if opens_rw s then erase_key s k else s

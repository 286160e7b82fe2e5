-- ===== src/Azure/Connect/Topics.antt =====
-- Cloud-to-device messages reach the client that `connect_to_hub` set up.
use winegrid_internship.Base.{
  ℕ, ◌≤◌, ◌≡◌, refl, ap, ◌∙◌, arith, true, ◌++◌, none, some, Bytes, codes, length, length-append,
  snprintf, take_all, append_assoc, starts_with, starts_with-append, subst,
}
use winegrid_internship.Nvs.{Nvs}
use winegrid_internship.Json.{CJson}
use winegrid_internship.Azure.{Hub, Platform}
use winegrid_internship.Azure.SasToken.{Crypto, build_sas_token}
use winegrid_internship.Azure.Connect.{connect_to_hub}
use winegrid_internship.Azure.Events.{on_message}

-- The topic that the hub sends the device's messages on.
abbrev pub c2d_topic : Bytes → Bytes → Bytes
c2d_topic device_id properties =
    codes "devices/" ++ (device_id ++ (codes "/messages/devicebound/" ++ properties))

module _ (crypto : Crypto) (nvs : Nvs) (json : CJson) (current : Bytes) where
  connected_prefix :
      (symmetric_key : Bytes) (now : ℕ) (hub_hostname device_id sas_token : Bytes)
      (h : Hub nvs.Store)
      → build_sas_token crypto symmetric_key now
          (snprintf 160 (hub_hostname ++ (codes "/devices/" ++ device_id)))
          none
          256
        ≡ some sas_token
      → length device_id ≤ 161
      → (connect_to_hub crypto symmetric_key now hub_hostname device_id h).1.c2d_topic_prefix
        ≡ codes "devices/" ++ (device_id ++ codes "/messages/devicebound/")
  unfolding connect_to_hub
  connected_prefix symmetric_key now hub_hostname device_id sas_token h token l =
      rw (token, connect_to_hub)
        (take_all 191 _ (omega (arith, length-append device_id (codes "/messages/devicebound/"))))

  matches :
      (device_id properties : Bytes) (h : Hub nvs.Store)
      → h.c2d_topic_prefix ≡ codes "devices/" ++ (device_id ++ codes "/messages/devicebound/")
      → starts_with h.c2d_topic_prefix (c2d_topic device_id properties) ≡ true
  matches device_id properties h prefix =
      let own = device_id ++ codes "/messages/devicebound/" in
      ap (λ p. starts_with p (c2d_topic device_id properties)) prefix
      ∙ subst (λ rest. starts_with (codes "devices/" ++ own) (codes "devices/" ++ rest) ≡ true)
          (append_assoc device_id (codes "/messages/devicebound/") properties)
          (starts_with-append (codes "devices/" ++ own) properties)

  c2d_message :
      (platform : Platform) (device_id properties payload : Bytes) (h : Hub nvs.Store)
      → h.c2d_topic_prefix ≡ codes "devices/" ++ (device_id ++ codes "/messages/devicebound/")
      → on_message nvs json current platform (c2d_topic device_id properties) payload h
        ≡ record h { c2d_force_telemetry = true }
  unfolding on_message starts_with
  c2d_message platform device_id properties payload h prefix =
      rw (matches device_id properties h prefix) refl

  -- Once `connect_to_hub` has a token, for a device name of at most 161 bytes, every message on the
  -- device's cloud-to-device topic, whatever properties follow in the topic, asks for telemetry and
  -- does nothing else.
  c2d_forces_telemetry :
      (symmetric_key : Bytes) (now : ℕ) (hub_hostname device_id sas_token : Bytes)
      (platform : Platform) (properties payload : Bytes) (h : Hub nvs.Store)
      → build_sas_token crypto symmetric_key now
          (snprintf 160 (hub_hostname ++ (codes "/devices/" ++ device_id)))
          none
          256
        ≡ some sas_token
      → length device_id ≤ 161
      → on_message nvs json current platform
          (c2d_topic device_id properties)
          payload
          (connect_to_hub crypto symmetric_key now hub_hostname device_id h).1
        ≡ record (connect_to_hub crypto symmetric_key now hub_hostname device_id h).1 {
          c2d_force_telemetry = true;
        }
  c2d_forces_telemetry symmetric_key now hub_hostname device_id sas_token platform properties
        payload h token l =
      c2d_message platform device_id properties payload
        (connect_to_hub crypto symmetric_key now hub_hostname device_id h).1
        (connected_prefix symmetric_key now hub_hostname device_id sas_token h token l)

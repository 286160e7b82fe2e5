-- ===== src/ThingsBoardZephyr/Provisioning/Bounds.antt =====
-- The sizes of the provisioning messages and of the token.
use winegrid_internship.Base.{
  is_zero, ℕ, ◌-◌, ◌+◌, ◌≤◌, ◌<◌, ◌≡◌, refl, arith, false, leb, ◌==◌, [], ◌∷◌, ◌++◌, Option, none,
  some, Bytes, codes, length, drop, length-append, length-take, take_all, pos, length-hex_bytes,
  hex_bytes, starts_with, ltb, str_eq, Bool-cases, Option-cases, inl, inr, none-ne-some, eq_of_==,
}
use mathlib.Core.Option.{some-injective}
use winegrid_internship.ThingsBoardZephyr.{
  Client, mqtt_evt_connack, pattern, before_quote, search_pattern, json_extract_string,
  mqtt_publish, mqtt_subscribe,
}
use winegrid_internship.ThingsBoardZephyr.Provisioning.{
  Settings, get_device_name, provision_text, request_credentials, issued_token,
  provisioning_evt_handler,
}

length-search :
    (p s v : Bytes) (out_size : ℕ) → search_pattern p out_size s ≡ some v → length v ≤ out_size - 1
unfolding search_pattern
length-search p [] v out_size e = absurd (none-ne-some e)
length-search p (c ∷ cs) v out_size e = elim (Bool-cases (ltb (length p) (length (c ∷ cs)))) [
  | inr short ↦ absurd (none-ne-some (rw short at e))
  | inl long ↦ elim (Bool-cases (starts_with p (c ∷ cs))) [
    | inl here ↦
        rw (← some-injective _ _ (rw (long, here) at e))
          (omega (arith, length-take (out_size - 1) (before_quote (drop (length p) (c ∷ cs)))))
    | inr later ↦ length-search p cs v out_size (rw (long, later) at e)
  ]
]

length-extract :
    (json key v : Bytes) (out_size : ℕ)
    → json_extract_string json key out_size ≡ some v
    → length v ≤ out_size - 1
unfolding json_extract_string
length-extract json key v out_size e =
    elim (Bool-cases (leb (length json) (length (pattern key)))) [
      | inl guard ↦ absurd (none-ne-some (rw guard at e))
      | inr passes ↦ length-search (pattern key) json v out_size (rw passes at e)
    ]

pub length-issued : (text token : Bytes) → issued_token text ≡ some token → length token ≤ 63
unfolding issued_token
length-issued text token e = elim (Option-cases (json_extract_string text (codes "status") 32)) [
  | inl missing ↦ absurd (none-ne-some (rw (missing, issued_token) at e))
  | inr (status, found) ↦ elim (Bool-cases (str_eq status (codes "SUCCESS"))) [
    | inl good ↦
        length-extract text (codes "credentialsValue") token 64
          (rw (found, issued_token, good) at e)
    | inr bad ↦ absurd (none-ne-some (rw (found, issued_token, bad) at e))
  ]
]

length-name : (link_addr : Option Bytes) → length (get_device_name link_addr 48) ≤ 19
unfolding get_device_name
length-name none = omega arith
length-name (some addr) = elim (Bool-cases (length addr == 6)) [
  | inl six ↦ rw six (
      omega (
        arith,
        length-take 47 (codes "zephyr-" ++ hex_bytes addr),
        length-append (codes "zephyr-") (hex_bytes addr),
        length-hex_bytes addr,
        eq_of_== _ _ six,
      ))
  | inr other ↦ rw other (omega arith)
]

text_fits :
    (s : Settings)
    → length s.provision_key + length s.provision_secret ≤ 168
    → length (provision_text s) < 256
unfolding provision_text
text_fits s h = simp length-append (omega (arith, length-name s.link_addr))

-- For a provisioning key and secret of at most 168 bytes together, the request that answers a
-- CONNACK fits `char payload[256]`: it is sent uncut, nothing beyond it is sent, and the response
-- topic is subscribed to.
pub request_sent_whole :
    (s : Settings) (h : Client)
    → length s.provision_key + length s.provision_secret ≤ 168
    → let h' = provisioning_evt_handler s (mqtt_evt_connack (pos 0)) h in
      (h'.over_read ≡ h.over_read)
      × (h'.outbox
          ≡ h.outbox
            ++ record { topic = codes "/provision/request"; payload = provision_text s } ∷ [])
      × (h'.subscriptions ≡ h.subscriptions ++ codes "/provision/response" ∷ [])
unfolding provisioning_evt_handler is_zero request_credentials mqtt_publish mqtt_subscribe
request_sent_whole s h short =
    let fits = text_fits s short in
    let no_over_read : leb 256 (length (provision_text s)) ≡ false = ground arith in
    (rw no_over_read refl, rw (take_all 255 (provision_text s) (omega arith)) refl, refl)

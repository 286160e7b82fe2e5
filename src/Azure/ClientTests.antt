-- ===== src/Azure/ClientTests.antt =====
-- Witnesses and tests of the Azure client's texts, requests and rounds.
use winegrid_internship.Base.{
  ℕ, ◌<◌, ◌≡◌, refl, arith, true, some, none, [], ◌∷◌, ◌++◌, Option, Bytes, codes, hex_upper,
  ne_of_==, ◌==◌, not, take, length, pos, dec_value, Bool, ◌&&◌, snprintf, str_eq, starts_with,
}
use winegrid_internship.Json.Memory.{
  Document, null, text, number, member, document_json, find_member,
}
use winegrid_internship.Nvs.Memory.{Map, map_nvs, empty_map}
use winegrid_internship.Azure.{Hub, report_twin_properties}
use winegrid_internship.Azure.Examples.{hub_with, weak_crypto, good_signal, all_bytes_lem}
use winegrid_internship.Azure.UrlEncode.{url_byte, url_encode, is_unreserved, url_encode_onto}
use winegrid_internship.Azure.UrlEncode.RoundTrip.{url_decode, AreSafe, url_encode_safe}
use winegrid_internship.Azure.SasToken.{
  build_sas_token, policy_part, signed, build_sas_token_verifies,
}
use winegrid_internship.Azure.DirectMethod.{direct_method_prefix, handle_direct_method_request}
use winegrid_internship.Azure.DirectMethod.Answer.{
  AnsweredWith, NoSlash, is_known, direct_method_answered,
}
use winegrid_internship.Azure.Telemetry.{telemetry_round}
use winegrid_internship.Azure.Telemetry.Rounds.{rounds, published, InRamp, telemetry_period}
use winegrid_internship.Azure.Twin.{apply_desired_properties}
use winegrid_internship.Mqtt.{message}
use winegrid_internship.Azure.Events.{hub_mqtt_event_handler}
use winegrid_internship.Azure.Events.Invariant.{
  IsValid, IsRunning, event, round, here, next, Reach-IsValid, Reach-IsRunning,
}

abbrev vine_uri : Bytes
vine_uri = codes "hub.net/devices/vine 7"

url_encode_safe_example :
    (length (url_encode vine_uri 192) < 192)
    × AreSafe (url_encode vine_uri 192)
    × ((k : ℕ) × (url_decode (url_encode vine_uri 192) ≡ take k vine_uri))
url_encode_safe_example = url_encode_safe vine_uri 192 (all_bytes_lem vine_uri refl) (omega arith)

escapes_the_slash : url_encode (codes "a/b") 96 ≡ codes "a%2Fb"
unfolding url_encode url_encode_onto is_unreserved url_byte hex_upper
escapes_the_slash = refl

build_sas_token_verifies_example :
    (sr sig se : Bytes) × (build_sas_token weak_crypto (codes "a2V5") 1000 vine_uri none 256
      ≡ some (
          snprintf 256 (
            codes "SharedAccessSignature sr="
            ++ (sr ++ (codes "&sig=" ++ (sig ++ (codes "&se=" ++ (se ++ policy_part none))))))))
    × (url_decode sr ≡ vine_uri)
    × (dec_value 0 se ≡ 4600)
    × (url_decode sig ≡ signed weak_crypto (codes "key") (sr ++ b'\n' ∷ se))
unfolding url_encode url_encode_onto is_unreserved url_byte
build_sas_token_verifies_example =
    build_sas_token_verifies weak_crypto (codes "a2V5") (codes "key") vine_uri 1000 none 256 refl
      (all_bytes_lem vine_uri refl) (omega arith) (omega arith) (omega arith)

abbrev no_slash : Bytes → Bool
no_slash [] = true
no_slash (c ∷ cs) = let rest = no_slash cs in not (c == b'/') && rest

has_no_slash : (s : Bytes) → no_slash s ≡ true → NoSlash s
has_no_slash [] h = tt
has_no_slash (c ∷ cs) h = (ne_of_== c b'/' (ground arith), has_no_slash cs (ground arith))

direct_method_answered_example :
    let h' =
      handle_direct_method_request good_signal
        (direct_method_prefix ++ (codes "reboot" ++ (codes "/?$rid=" ++ codes "7")))
        (hub_with empty_map) in
    AnsweredWith (codes "200") (codes "7") (hub_with empty_map) h' × (h'.restarting ≡ true)
unfolding is_known str_eq
direct_method_answered_example =
    direct_method_answered good_signal (codes "reboot") (codes "7") (hub_with empty_map)
      (omega arith) (has_no_slash (codes "reboot") refl) (omega arith) (omega arith)

abbrev asked : Hub Map
asked = record (hub_with empty_map) { c2d_force_telemetry = true }

-- The twin's desired properties ask for a publication every five seconds.
abbrev five_seconds : Bytes → Option Document
five_seconds payload = some (member (codes "publishInterval") (number (pos 5000)) null)

abbrev patch_topic : Bytes
patch_topic = codes "$iothub/twin/PATCH/properties/desired/?$version=2"

abbrev after_patch : Hub Map
after_patch =
    hub_mqtt_event_handler map_nvs (document_json five_seconds) (codes "1.0") good_signal
      (message patch_topic []) (hub_with empty_map)

patch_is_applied : after_patch.publish_interval_ms ≡ 5000
unfolding hub_mqtt_event_handler find_member report_twin_properties starts_with str_eq
    apply_desired_properties
patch_is_applied = refl

Reach-IsValid_example : IsValid (telemetry_round 200 after_patch).1
Reach-IsValid_example =
    Reach-IsValid map_nvs (document_json five_seconds) (codes "1.0")
      (record { interval = omega arith; ramp = (omega arith, omega arith) })
      (next (next here (event good_signal (message patch_topic []))) (round 200))

abbrev updating : Hub Map
updating = record (hub_with empty_map) {
  ota_in_progress = true;
  ota_arg = some (codes "http://srv/fw.bin\n1.1");
}

abbrev new_firmware : Bytes → Option Document
new_firmware payload = some (
    member (codes "fw_version") (text (codes "1.2"))
      (member (codes "fw_url") (text (codes "http://srv/2.bin")) null))

Reach-IsRunning_example : IsRunning (some (codes "http://srv/fw.bin\n1.1")) (
    hub_mqtt_event_handler map_nvs
      (document_json new_firmware)
      (codes "1.0")
      good_signal
      (message patch_topic [])
      updating)
Reach-IsRunning_example =
    Reach-IsRunning map_nvs (document_json new_firmware) (codes "1.0")
      (some (codes "http://srv/fw.bin\n1.1")) (record { in_progress = refl; argument = refl })
      (next here (event good_signal (message patch_topic [])))

telemetry_period_example :
    (rounds 300 200 (hub_with empty_map) ≡ (200, published (hub_with empty_map)))
    × InRamp (published (hub_with empty_map)).fake_temperature
telemetry_period_example =
    telemetry_period (hub_with empty_map) refl 299 refl (omega arith) (omega arith)

-- ===== src/Azure/Examples.antt =====
-- A connected hub over the store in memory, with a crypto library and a platform, for the tests.
use winegrid_internship.Base.{
  ◌≡◌, refl, arith, Bool, true, false, ◌&&◌, ltb, ltb→lt, none, some, [], ◌∷◌, Bytes, AreBytes,
  codes, replicate, pos,
}
use winegrid_internship.Nvs.Memory.{Map}
use winegrid_internship.Azure.{Hub, Platform}
use winegrid_internship.Azure.SasToken.{Crypto}

abbrev pub hub_with : Map → Hub Map
hub_with m = record {
  store = m;
  hub_connected = true;
  c2d_topic_prefix = codes "devices/vine-7/messages/devicebound/";
  telemetry_topic = codes "devices/vine-7/messages/events/";
  c2d_force_telemetry = false;
  fake_temperature = 20;
  publish_interval_ms = 60000;
  twin_request_id = 0;
  ota_in_progress = false;
  ota_arg = none;
  outbox = [];
  subscriptions = [];
  boot_image = none;
  restarting = false;
}

abbrev pub all_bytes : Bytes → Bool
all_bytes [] = true
all_bytes (c ∷ cs) = let rest = all_bytes cs in ltb c 256 && rest

pub all_bytes_lem : (s : Bytes) → all_bytes s ≡ true → AreBytes s
all_bytes_lem [] h = tt
all_bytes_lem (c ∷ cs) h = (ltb→lt c 256 (ground arith), all_bytes_lem cs (ground arith))

-- A library whose digests and keys are not worth a secret.
abbrev pub weak_crypto : Crypto
weak_crypto = record {
  base64_decode = λ text size. some (codes "key");
  base64_encode = λ m. replicate 44 b'q';
  hmac_sha256 = λ k m. k;
  AreBytes-base64_encode = λ m. all_bytes_lem (replicate 44 b'q') refl;
  length-base64_digest = λ k m. refl;
}

abbrev pub good_signal : Platform
good_signal = record { rssi = some (pos 40); free_heap = 100000 }

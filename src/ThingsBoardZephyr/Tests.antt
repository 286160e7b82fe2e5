-- ===== src/ThingsBoardZephyr/Tests.antt =====
-- Witnesses of the ThingsBoard client of Zephyr.
use winegrid_internship.Base.{
  ◌≡◌, refl, arith, true, replicate, false, [], ◌∷◌, ◌++◌, codes, str_eq, starts_with,
}
use winegrid_internship.ThingsBoardZephyr.{
  Client, pattern, rpc_request_prefix, rpc_response, handle_rpc_request,
}
use winegrid_internship.ThingsBoardZephyr.Extract.{NoQuote, NoMatch, zephyr_rpc_answered}

no_quote : NoQuote (codes "reboot")
no_quote = (
  λ e. absurd (omega arith),
  (
    λ e. absurd (omega arith),
    (
      λ e. absurd (omega arith),
      (λ e. absurd (omega arith), (λ e. absurd (omega arith), (λ e. absurd (omega arith), tt))),
    ),
  ),
)

no_match :
    NoMatch
      (pattern (codes "method"))
      (codes "{")
      (pattern (codes "method") ++ (codes "reboot" ++ b'"' ∷ codes "}"))
unfolding starts_with pattern
no_match = (refl, tt)

abbrev pub client : Client
client = record {
  fake_temperature = 20;
  broker_addr = record { sin_addr = 1; sin_port = 8883 };
  payload_buf = replicate 512 0;
  provisioning_done = true;
  provisioned_token = codes "A1";
  connects = [];
  subscriptions = [];
  outbox = [];
  over_read = false;
  rebooting = false;
}

zephyr_rpc_answered_example :
    let h' =
      handle_rpc_request 5000
        (rpc_request_prefix ++ codes "7")
        (codes "{" ++ (pattern (codes "method") ++ (codes "reboot" ++ b'"' ∷ codes "}")))
        client in
    (h'.outbox
      ≡ record {
        topic = codes "v1/devices/me/rpc/response/" ++ codes "7";
        payload = rpc_response (codes "reboot") 20 5000;
      }
        ∷ [])
    × (h'.rebooting ≡ true)
unfolding str_eq
zephyr_rpc_answered_example =
    zephyr_rpc_answered 5000 (codes "7") (codes "{") (codes "reboot") (codes "}") client
      (omega arith) (omega arith) no_quote no_match

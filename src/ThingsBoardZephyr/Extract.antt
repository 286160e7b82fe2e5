-- ===== src/ThingsBoardZephyr/Extract.antt =====
-- What the search finds in a document, and the answer to a request that it reads.
use winegrid_internship.Base.{
  ℕ, ◌-◌, ◌<◌, ◌≤◌, ◌≡◌, ◌≢◌, refl, ap, ◌∙◌, arith, true, false, if◌then◌else◌, leb, [], ◌∷◌, ◌++◌,
  some, Bytes, codes, length, take, take_all, drop-append, length-append, starts_with,
  starts_with-append, lt→ltb, ne→==, str_eq, Bool-cases, inl, inr,
}
use winegrid_internship.ThingsBoardZephyr.{
  Client, pattern, before_quote, search_pattern, json_extract_string, rpc_request_prefix,
  rpc_response, handle_rpc_request, mqtt_publish,
}

abbrev pub NoQuote : Bytes → Type 0
NoQuote [] = Unit
NoQuote (c ∷ cs) = (c ≢ b'"') × NoQuote cs

-- At no place of `before` does `p` begin, in the text that goes on with `after`.
abbrev pub NoMatch : Bytes → Bytes → Bytes → Type 0
NoMatch p [] after = Unit
NoMatch p (c ∷ cs) after = (starts_with p (c ∷ (cs ++ after)) ≡ false) × NoMatch p cs after

before_quote_lem :
    (value rest : Bytes) → NoQuote value → before_quote (value ++ b'"' ∷ rest) ≡ value
unfolding before_quote
before_quote_lem [] rest n = refl
before_quote_lem (c ∷ cs) rest n =
    rw (ne→== c b'"' n.0) (ap (λ t. c ∷ t) (before_quote_lem cs rest n.1))

search_here :
    (p value rest : Bytes) (out_size : ℕ)
    → 0 < length p
    → NoQuote value
    → search_pattern p out_size (p ++ (value ++ b'"' ∷ rest)) ≡ some (take (out_size - 1) value)
unfolding search_pattern
search_here [] value rest out_size h n = absurd (omega arith)
search_here (c ∷ cs) value rest out_size h n =
    let tail = value ++ b'"' ∷ rest in
    rw
      (
        lt→ltb (length (c ∷ cs)) (length (c ∷ (cs ++ tail)))
            (omega (arith, length-append cs tail, length-append value (b'"' ∷ rest))),
        starts_with-append (c ∷ cs) tail,
        drop-append cs tail,
        before_quote_lem value rest n,
      )
      refl

search_later :
    (p before value rest : Bytes) (out_size : ℕ)
    → 0 < length p
    → NoQuote value
    → NoMatch p before (p ++ (value ++ b'"' ∷ rest))
    → search_pattern p out_size (before ++ (p ++ (value ++ b'"' ∷ rest)))
      ≡ some (take (out_size - 1) value)
unfolding search_pattern
search_later p [] value rest out_size h n m = search_here p value rest out_size h n
search_later p (c ∷ cs) value rest out_size h n m =
    let tail = value ++ b'"' ∷ rest in
    rw
      (
        lt→ltb (length p) (length (c ∷ (cs ++ (p ++ tail))))
            (omega (arith, length-append cs (p ++ tail), length-append p tail)),
        m.0,
      )
      (search_later p cs value rest out_size h n m.1)

longer : (m n : ℕ) → n < m → leb m n ≡ false
longer m n h = ground arith

passes_guard :
    (json key : Bytes) (out_size : ℕ)
    → length (pattern key) < length json
    → json_extract_string json key out_size ≡ search_pattern (pattern key) out_size json
unfolding json_extract_string
passes_guard json key out_size h =
    rw (longer (length json) (length (pattern key)) h, json_extract_string) refl

pattern-pos : (key : Bytes) → 0 < length (pattern key)
unfolding pattern
pattern-pos key = omega (arith, length-append key (codes "\":\""))

-- For a key of at most 35 bytes, a document that holds `"key":"value"`, where the value has no quote and `"key":"` stands nowhere
-- before, gives the value, cut to fit the buffer with its NUL, whatever follows.
json_extract_string_lem :
    (before key value rest : Bytes) (out_size : ℕ)
    → length key ≤ 35
    → NoQuote value
    → NoMatch (pattern key) before (pattern key ++ (value ++ b'"' ∷ rest))
    → json_extract_string (before ++ (pattern key ++ (value ++ b'"' ∷ rest))) key out_size
      ≡ some (take (out_size - 1) value)
json_extract_string_lem before key value rest out_size short n m =
    let tail = value ++ b'"' ∷ rest in
    passes_guard (before ++ (pattern key ++ tail)) key out_size (
      omega (
        arith,
        length-append before (pattern key ++ tail),
        length-append (pattern key) tail,
        length-append value (b'"' ∷ rest),
      ))
    ∙ search_later (pattern key) before value rest out_size (pattern-pos key) n m

-- A request with an id of at most 36 bytes whose payload names, in the same way, a method of at most
-- 31 bytes is answered with exactly one message, on the response topic of that id, and the device
-- reboots exactly if the method is `reboot` (or a reboot was already under way).
pub zephyr_rpc_answered :
    (uptime : ℕ) (id before method rest : Bytes) (h : Client)
    → length id ≤ 36
    → length method ≤ 31
    → NoQuote method
    → NoMatch
        (pattern (codes "method"))
        before
        (pattern (codes "method") ++ (method ++ b'"' ∷ rest))
    → let h' =
        handle_rpc_request uptime
          (rpc_request_prefix ++ id)
          (before ++ (pattern (codes "method") ++ (method ++ b'"' ∷ rest)))
          h in
      (h'.outbox
        ≡ h.outbox
          ++ (record {
            topic = codes "v1/devices/me/rpc/response/" ++ id;
            payload = rpc_response method h.fake_temperature uptime;
          }
              ∷ []))
      × (h'.rebooting ≡ (if str_eq method (codes "reboot") then true else h.rebooting))
unfolding handle_rpc_request mqtt_publish
zephyr_rpc_answered uptime id before method rest h l k n m =
    let named =
      json_extract_string_lem before (codes "method") method rest 32 (omega arith) n m
      ∙ ap some (take_all 31 method k) in
    rw (named, handle_rpc_request)
      (elim (Bool-cases (str_eq method (codes "reboot"))) [
        | inl reboots ↦ rw (reboots, take_all 36 id l) (refl, refl)
        | inr stays ↦ rw (stays, take_all 36 id l) (refl, refl)
      ])

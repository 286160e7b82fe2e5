-- ===== src/Azure/SasToken.antt =====
-- `build_sas_token` of esp-idf-azure-dps/main/app_main.c, over what it uses of mbedTLS.
use winegrid_internship.Base.{
  ℕ, ◌+◌, ◌*◌, ◌^◌, ◌<◌, ◌≡◌, ap, arith, [], ◌∷◌, ◌++◌, Option, none, some, Bytes, AreBytes, codes,
  dec, dec_int, ℤ, pos, negsuc, ltb, lt→ltb, if◌then◌else◌, ◌-◌, ◌%◌, refl, dec_value,
  dec_value-dec, length-dec, length, snprintf, take_all, length-append,
}
use winegrid_internship.Azure.UrlEncode.{url_encode}
use winegrid_internship.Azure.UrlEncode.RoundTrip.{
  url_decode, url_decode-url_encode, url_decode-fits, url_encode_safe,
}

-- mbedTLS: base64 into a buffer of the given size (`none` for an error code) and back, and
-- HMAC-SHA256 of a key and a message. Base64 of a digest is 44 characters.
pub record Crypto : Type 0 where
  pub base64_decode : Bytes → ℕ → Option Bytes
  pub base64_encode : Bytes → Bytes
  pub hmac_sha256 : Bytes → Bytes → Bytes
  pub AreBytes-base64_encode : (m : Bytes) → AreBytes (base64_encode m)
  pub length-base64_digest : (k m : Bytes) → length (base64_encode (hmac_sha256 k m)) ≡ 44

-- `SAS_TOKEN_VALIDITY_SECONDS`.
abbrev pub sas_token_validity_seconds : ℕ
sas_token_validity_seconds = 3600

-- The end of the token that names the policy.
unfoldable pub policy_part : Option Bytes → Bytes
policy_part none = []
policy_part (some policy_name) = codes "&skn=" ++ policy_name

module _ (crypto : Crypto) where
  -- `(long)time(NULL) + SAS_TOKEN_VALIDITY_SECONDS`, in a `long` of 32 bits that wraps.
  unfoldable pub expiry_at : ℕ → ℤ
  expiry_at now =
      let sum = (now + sas_token_validity_seconds) % 2 ^ 32 in
      if ltb sum (2 ^ 31) then pos sum else negsuc (2 ^ 32 - 1 - sum)

  -- What is signed, `char to_sign[256]`.
  unfoldable pub to_sign : Bytes → ℤ → Bytes
  to_sign encoded_uri expiry = snprintf 256 (encoded_uri ++ b'\n' ∷ dec_int expiry)

  -- `encoded_sig`, for the decoded key.
  unfoldable pub signature : Bytes → Bytes → ℤ → Bytes
  signature key encoded_uri expiry =
      crypto.base64_encode (crypto.hmac_sha256 key (to_sign encoded_uri expiry))

  unfoldable pub token_text : Bytes → Bytes → ℤ → Option Bytes → Bytes
  token_text encoded_uri encoded_sig expiry policy_name =
      codes "SharedAccessSignature sr="
      ++ (encoded_uri
          ++ (codes "&sig="
              ++ (encoded_sig ++ (codes "&se=" ++ (dec_int expiry ++ policy_part policy_name)))))

  -- `build_sas_token`; `symmetric_key` is `s_effective_symmetric_key`, and `now` is `time(NULL)`.
  -- `none` where the function returns false.
  unfoldable pub build_sas_token : Bytes → ℕ → Bytes → Option Bytes → ℕ → Option Bytes
  build_sas_token symmetric_key now resource_uri policy_name out_size =
      elim (crypto.base64_decode symmetric_key 64) [
        | none ↦ none
        | some key ↦
            let expiry = expiry_at now in
            let encoded_uri = url_encode resource_uri 192 in
            let encoded_sig = url_encode (signature key encoded_uri expiry) 96 in
            some (snprintf out_size (token_text encoded_uri encoded_sig expiry policy_name))
      ]

  -- The signature of a text with a key, in base64.
  abbrev pub signed : Bytes → Bytes → Bytes
  signed key text = crypto.base64_encode (crypto.hmac_sha256 key text)

  in_time : (now : ℕ) → now + 3600 < 2 ^ 31 → expiry_at now ≡ pos (now + 3600)
  unfolding expiry_at
  in_time now t =
      let sum : (now + 3600) % 2 ^ 32 ≡ now + 3600 = omega arith in
      rw (sum, lt→ltb (now + 3600) (2 ^ 31) t) refl

  to_sign-uncut :
      (resource_uri : Bytes) (expiry : ℕ)
      → AreBytes resource_uri
      → expiry < 10 ^ 10
      → to_sign (url_encode resource_uri 192) (pos expiry)
        ≡ url_encode resource_uri 192 ++ b'\n' ∷ dec expiry
  unfolding to_sign dec_int
  to_sign-uncut resource_uri expiry b h = take_all 255 _ (
      omega (
        arith,
        length-append (url_encode resource_uri 192) (b'\n' ∷ dec expiry),
        length-dec expiry 9 h,
        (url_encode_safe resource_uri 192 b (omega arith)).0,
      ))

  -- Where the resource and the escaped signature fit their buffers, and the clock is more than an
  -- hour before 2 ^ 31,
  -- the token is the text of `sr`, `sig`, `se` and the policy, cut to the size of the output, and a
  -- verifier that knows the key accepts these three: the decoded `sr` is the resource, the number
  -- `se` is an hour from now, and the decoded `sig` is the signature of the text of `sr`, a line
  -- feed and the text of `se`.
  pub build_sas_token_verifies :
      (symmetric_key key resource_uri : Bytes) (now : ℕ) (policy_name : Option Bytes) (out_size : ℕ)
      → crypto.base64_decode symmetric_key 64 ≡ some key
      → AreBytes resource_uri
      → 3 * length resource_uri + 1 < 192
      → now + 3600 < 2 ^ 31
      → length
          (url_encode (signed key (url_encode resource_uri 192 ++ b'\n' ∷ dec (now + 3600))) 192)
        < 93
      → (sr sig se : Bytes) × (build_sas_token symmetric_key now resource_uri policy_name out_size
          ≡ some (
              snprintf out_size (
                codes "SharedAccessSignature sr="
                ++ (sr
                    ++ (codes "&sig="
                        ++ (sig ++ (codes "&se=" ++ (se ++ policy_part policy_name))))))))
        × (url_decode sr ≡ resource_uri)
        × (dec_value 0 se ≡ now + 3600)
        × (url_decode sig ≡ signed key (sr ++ b'\n' ∷ se))
  unfolding build_sas_token signature token_text dec_int
  build_sas_token_verifies symmetric_key key resource_uri now policy_name out_size k b l t fits =
      let sr = url_encode resource_uri 192 in
      let text = sr ++ b'\n' ∷ dec (now + 3600) in
      (
        sr,
        url_encode (signed key text) 96,
        dec (now + 3600),
        rw (k, build_sas_token, in_time now t)
            (ap
              (λ t. some (
                snprintf out_size (
                  token_text sr (url_encode (crypto.base64_encode (crypto.hmac_sha256 key t)) 96)
                    (pos (now + 3600)) policy_name)))
              (to_sign-uncut resource_uri (now + 3600) b (omega arith))),
        url_decode-url_encode resource_uri 192 b l,
        dec_value-dec (now + 3600),
        url_decode-fits (signed key text) 96 192 (crypto.AreBytes-base64_encode _)
            (omega (arith, crypto.length-base64_digest key text)) (omega arith),
      )

-- ===== src/Azure/UrlEncode/RoundTrip.antt =====
-- An encoded text fits its buffer, is safe in a query string, and decodes to what was encoded.
use winegrid_internship.Base.{
  ℕ, zero, suc, ◌+◌, ◌*◌, ◌/◌, ◌≤◌, ◌<◌, ◌≡◌, ◌≢◌, refl, sym, ap, ◌∙◌, inl, inr, Bool, true, false,
  ◌||◌, if◌then◌else◌, ltb, ◌==◌, [], ◌∷◌, ◌++◌, Bytes, AreBytes, length, take, hex_upper,
  digit_value, digit_value-hex_upper, bit_and, low_nibble, arith, append_assoc, append-nil,
  length-append, Bool-cases, lt→ltb, ltb→lt, passes, passes_lem, ne→==,
}
use winegrid_internship.Azure.UrlEncode.{is_unreserved, url_byte, url_encode_onto, url_encode}

-- Percent-decoding. An unfinished escape at the end stands for itself.
unfoldable pub url_decode : Bytes → Bytes
url_decode [] = []
url_decode (c ∷ []) = c ∷ []
url_decode (c ∷ d ∷ []) = c ∷ d ∷ []
url_decode (c ∷ a ∷ b ∷ cs) =
    let plain = c ∷ url_decode (a ∷ b ∷ cs) in
    let escaped = (digit_value a * 16 + digit_value b) ∷ url_decode cs in
    if c == b'%' then escaped else plain

decode_plain : (c : ℕ) (cs : Bytes) → c ≢ b'%' → url_decode (c ∷ cs) ≡ c ∷ url_decode cs
unfolding url_decode
decode_plain c [] h = refl
decode_plain c (a ∷ []) h = refl
decode_plain c (a ∷ b ∷ cs) h = rw (ne→== c b'%' h)

abbrev encode_all : Bytes → Bytes
encode_all [] = []
encode_all (c ∷ cs) = url_byte c ++ encode_all cs

unreserved-ne-percent : (c : ℕ) → is_unreserved c ≡ true → c ≢ b'%'
unfolding is_unreserved
unreserved-ne-percent c h e = ground arith

decode_byte :
    (c : ℕ) (rest : Bytes) → c < 256 → url_decode (url_byte c ++ rest) ≡ c ∷ url_decode rest
unfolding url_byte url_decode
decode_byte c rest h = elim (Bool-cases (is_unreserved c)) [
  | inl plain ↦ rw plain (decode_plain c rest (unreserved-ne-percent c plain))
  | inr other ↦ rw other (
      ap (λ t. t ∷ url_decode rest)
        (omega (
          arith,
          digit_value-hex_upper (c / 16) (omega arith),
          digit_value-hex_upper (bit_and c 15) (omega (arith, low_nibble c h)),
          low_nibble c h,
        )))
]

decode-encode_all : (src : Bytes) → AreBytes src → url_decode (encode_all src) ≡ src
unfolding url_decode
decode-encode_all [] h = refl
decode-encode_all (c ∷ cs) h =
    decode_byte c (encode_all cs) h.0 ∙ ap (λ t. c ∷ t) (decode-encode_all cs h.1)

length-url_byte : (c : ℕ) → length (url_byte c) ≤ 3
unfolding url_byte
length-url_byte c = ground arith

encode_whole :
    (src : Bytes) (dst_size : ℕ) (out : Bytes)
    → length out + 3 * length src + 1 < dst_size
    → url_encode_onto src dst_size out ≡ out ++ encode_all src
unfolding url_encode_onto
encode_whole [] dst_size out h = sym (append-nil out)
encode_whole (c ∷ cs) dst_size out h = rw (lt→ltb (length out + 4) dst_size (omega arith)) (
    encode_whole cs dst_size (out ++ url_byte c)
      (omega (arith, length-append out (url_byte c), length-url_byte c))
    ∙ append_assoc out (url_byte c) (encode_all cs))

encode_prefix :
    (src : Bytes) (dst_size : ℕ) (out : Bytes)
    → length out < dst_size
    → (k : ℕ) × (url_encode_onto src dst_size out ≡ out ++ encode_all (take k src))
      × (length (url_encode_onto src dst_size out) < dst_size)
unfolding url_encode_onto
encode_prefix [] dst_size out h = (0, sym (append-nil out), h)
encode_prefix (c ∷ cs) dst_size out h = elim (Bool-cases (ltb (length out + 4) dst_size)) [
  | inr full ↦ rw full (0, sym (append-nil out), h)
  | inl room ↦
      let (k, e, fits) =
        encode_prefix cs dst_size (out ++ url_byte c)
          (omega (arith, ltb→lt _ _ room, length-append out (url_byte c), length-url_byte c)) in
      rw room (suc k, e ∙ append_assoc out (url_byte c) (encode_all (take k cs)), fits)
]

-- Letters, digits, `-`, `_`, `.`, `~` and `%` only.
abbrev pub AreSafe : Bytes → Type 0
AreSafe [] = Unit
AreSafe (c ∷ cs) = ((is_unreserved c || c == b'%') ≡ true) × AreSafe cs

AreSafe-append : (a b : Bytes) → AreSafe a → AreSafe b → AreSafe (a ++ b)
AreSafe-append [] b h k = k
AreSafe-append (c ∷ cs) b h k = (h.0, AreSafe-append cs b h.1 k)

hex_upper-safe : (n : ℕ) → n < 16 → (is_unreserved (hex_upper n) || hex_upper n == b'%') ≡ true
unfolding is_unreserved hex_upper passes
hex_upper-safe n h = passes_lem (λ n. is_unreserved (hex_upper n) || hex_upper n == b'%') 16 h table
  where
    table : passes (λ n. is_unreserved (hex_upper n) || hex_upper n == b'%') 16 ≡ true
    table = refl

url_byte-AreSafe : (c : ℕ) → c < 256 → AreSafe (url_byte c)
unfolding url_byte
url_byte-AreSafe c h = elim (Bool-cases (is_unreserved c)) [
  | inl plain ↦ rw (plain, plain) (refl, tt)
  | inr other ↦ rw other (
    or_right (is_unreserved b'%'),
    (
      hex_upper-safe (c / 16) (omega arith),
      (hex_upper-safe (bit_and c 15) (omega (arith, low_nibble c h)), tt),
    ),
  )
]
  where
    or_right : (b : Bool) → (b || true) ≡ true
    or_right true = refl
    or_right false = refl

encode_all-AreSafe : (src : Bytes) → AreBytes src → AreSafe (encode_all src)
encode_all-AreSafe [] h = tt
encode_all-AreSafe (c ∷ cs) h =
    AreSafe-append (url_byte c) (encode_all cs) (url_byte-AreSafe c h.0) (encode_all-AreSafe cs h.1)

AreBytes-take : (k : ℕ) (src : Bytes) → AreBytes src → AreBytes (take k src)
AreBytes-take zero src h = tt
AreBytes-take (suc k) [] h = tt
AreBytes-take (suc k) (c ∷ cs) h = (h.0, AreBytes-take k cs h.1)

-- Whatever the size of the buffer (above zero), the encoded text fits it with its NUL, holds only
-- characters that need no escape in a query string and `%`, and decodes to the first bytes of the
-- source: it is cut between two bytes of the source, never within an escape.
pub url_encode_safe :
    (src : Bytes) (dst_size : ℕ)
    → AreBytes src
    → 0 < dst_size
    → (length (url_encode src dst_size) < dst_size)
      × AreSafe (url_encode src dst_size)
      × ((k : ℕ) × (url_decode (url_encode src dst_size) ≡ take k src))
unfolding url_encode
url_encode_safe src dst_size bytes h =
    let (k, e, fits) = encode_prefix src dst_size [] h in
    (
      fits,
      rw e (encode_all-AreSafe (take k src) (AreBytes-take k src bytes)),
      (k, rw e (decode-encode_all (take k src) (AreBytes-take k src bytes))),
    )

-- Where the buffer has room for three characters a byte and two more, nothing is cut: decoding
-- gives the source back.
pub url_decode-url_encode :
    (src : Bytes) (dst_size : ℕ)
    → AreBytes src
    → 3 * length src + 1 < dst_size
    → url_decode (url_encode src dst_size) ≡ src
unfolding url_encode
url_decode-url_encode src dst_size bytes h =
    rw (encode_whole src dst_size [] (omega arith)) (decode-encode_all src bytes)

length-url_byte-pos : (c : ℕ) → 1 ≤ length (url_byte c)
unfolding url_byte
length-url_byte-pos c = ground arith

encode_fits :
    (src : Bytes) (dst_size : ℕ) (out : Bytes)
    → length out + length (encode_all src) + 3 < dst_size
    → url_encode_onto src dst_size out ≡ out ++ encode_all src
unfolding url_encode_onto
encode_fits [] dst_size out h = sym (append-nil out)
encode_fits (c ∷ cs) dst_size out h =
    let parts = length-append (url_byte c) (encode_all cs) in
    rw (lt→ltb (length out + 4) dst_size (omega (arith, parts, length-url_byte-pos c))) (
      encode_fits cs dst_size (out ++ url_byte c)
        (omega (arith, parts, length-append out (url_byte c)))
      ∙ append_assoc out (url_byte c) (encode_all cs))

-- The room that the encoded text takes decides: if a large buffer takes it in fewer than
-- `dst_size - 3` characters, a buffer of `dst_size` has it whole.
pub url_decode-fits :
    (src : Bytes) (dst_size large : ℕ)
    → AreBytes src
    → 3 * length src + 1 < large
    → length (url_encode src large) + 3 < dst_size
    → url_decode (url_encode src dst_size) ≡ src
unfolding url_encode
url_decode-fits src dst_size large bytes l h =
    rw
      (encode_fits src dst_size []
        (omega (arith, ap (length {A = ℕ}) (encode_whole src large [] (omega arith)))))
      (decode-encode_all src bytes)

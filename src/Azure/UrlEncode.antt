-- ===== src/Azure/UrlEncode.antt =====
-- `url_encode` of esp-idf-azure-dps/main/app_main.c.
pub mod RoundTrip
use winegrid_internship.Base.{
  ℕ, ◌+◌, ◌/◌, ◌^◌, Bool, ◌||◌, ◌&&◌, if◌then◌else◌, leb, ltb, ◌==◌, List, [], ◌∷◌, ◌++◌, Bytes,
  length, hex_upper, bit_and,
}

-- `isalnum(c) || c == '-' || c == '_' || c == '.' || c == '~'`, in the C locale.
unfoldable pub is_unreserved : ℕ → Bool
is_unreserved c =
    (leb b'0' c && leb c b'9')
    || (leb b'A' c && leb c b'Z')
    || (leb b'a' c && leb c b'z')
    || c == b'-'
    || c == b'_'
    || c == b'.'
    || c == b'~'

-- What the loop appends for one byte.
unfoldable pub url_byte : ℕ → Bytes
url_byte c =
    if is_unreserved c
    then c ∷ []
    else b'%' ∷ hex_upper (c / 2 ^ 4) ∷ hex_upper (bit_and c 0x0F) ∷ []

-- The loop: it goes on while `di + 4 < dst_size`.
unfoldable pub url_encode_onto : Bytes → ℕ → Bytes → Bytes
url_encode_onto [] dst_size out = out
url_encode_onto (c ∷ cs) dst_size out =
    let rest = url_encode_onto cs dst_size (out ++ url_byte c) in
    if ltb (length out + 4) dst_size then rest else out

-- `url_encode`: the C string that it leaves in `dst`.
unfoldable pub url_encode : Bytes → ℕ → Bytes
unfolding url_encode_onto
url_encode src dst_size = url_encode_onto src dst_size []

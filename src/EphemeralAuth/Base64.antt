-- ===== src/EphemeralAuth/Base64.antt =====
-- ephemeralauth/helpers.go: `encodeBase64URL` and `decodeBase64URL`, by base64.RawURLEncoding (no
-- padding, not strict: the decoder skips line ends and ignores the unused bits of the last digit).
pub mod RoundTrip
use orcacommon.Common.{
  ℕ, ◌+◌, ◌-◌, ◌*◌, ◌/◌, ◌%◌, ltb, leb, ◌==◌, if◌then◌else◌, ◌&&◌, ◌||◌, Option, none, some, List,
  [], ◌∷◌, ◌>>=◌,
}
use orcacommon.Common.Text.{Text}

-- The alphabet A-Z a-z 0-9 - _.
unfoldable pub encode_digit : ℕ → ℕ
encode_digit n =
    if ltb n 26
    then b'A' + n
    else if ltb n 52
    then b'a' + (n - 26)
    else if ltb n 62
    then b'0' + (n - 52)
    else if n == 62
    then b'-'
    else b'_'

unfoldable pub decode_digit : ℕ → Option ℕ
decode_digit c =
    if leb b'A' c && leb c b'Z'
    then some (c - b'A')
    else if leb b'a' c && leb c b'z'
    then some (c - b'a' + 26)
    else if leb b'0' c && leb c b'9'
    then some (c - b'0' + 52)
    else if c == b'-'
    then some 62
    else if c == b'_'
    then some 63
    else none

-- Three bytes give four digits; one or two bytes at the end give two or three.
unfoldable pub encode : Text → Text
unfolding encode_digit
encode [] = []
encode (a ∷ []) =
    let v = a * 65536 in encode_digit (v / 262144 % 64) ∷ encode_digit (v / 4096 % 64) ∷ []
encode (a ∷ b ∷ []) =
    let v = a * 65536 + b * 256 in
    encode_digit (v / 262144 % 64) ∷ encode_digit (v / 4096 % 64) ∷ encode_digit (v / 64 % 64) ∷ []
encode (a ∷ b ∷ c ∷ rest) =
    let v = a * 65536 + b * 256 + c in
    encode_digit (v / 262144 % 64)
    ∷ encode_digit (v / 4096 % 64)
    ∷ encode_digit (v / 64 % 64)
    ∷ encode_digit (v % 64)
    ∷ encode rest

unfoldable pub strip_newlines : Text → Text
strip_newlines [] = []
strip_newlines (c ∷ s) = if (c == 10) || (c == 13) then strip_newlines s else c ∷ strip_newlines s

decode_quanta : Text → Option Text
unfolding decode_digit
decode_quanta [] = some []
decode_quanta (a ∷ []) = none
decode_quanta (a ∷ b ∷ []) = do
  p ← decode_digit a
  q ← decode_digit b
  let v = p * 262144 + q * 4096
  some (v / 65536 % 256 ∷ [])
decode_quanta (a ∷ b ∷ c ∷ []) = do
  p ← decode_digit a
  q ← decode_digit b
  r ← decode_digit c
  let v = p * 262144 + q * 4096 + r * 64
  some (v / 65536 % 256 ∷ v / 256 % 256 ∷ [])
decode_quanta (a ∷ b ∷ c ∷ d ∷ rest) = do
  p ← decode_digit a
  q ← decode_digit b
  r ← decode_digit c
  s ← decode_digit d
  let v = p * 262144 + q * 4096 + r * 64 + s
  more ← decode_quanta rest
  some ((v / 65536 % 256) ∷ (v / 256 % 256) ∷ (v % 256) ∷ more)

unfoldable pub decode : Text → Option Text
unfolding decode_quanta strip_newlines
decode s = decode_quanta (strip_newlines s)

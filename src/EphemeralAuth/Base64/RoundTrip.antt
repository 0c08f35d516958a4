-- ===== src/EphemeralAuth/Base64/RoundTrip.antt =====
-- Decoding undoes encoding, and the digits contain no dot.
use orcacommon.Common.{
  ℕ, ◌+◌, ◌*◌, ◌/◌, ◌%◌, ◌<◌, ◌≡◌, ◌≢◌, refl, inl, inr, ◌⊎◌, false, some, [], ◌∷◌, arith, All,
}
use orcacommon.Common.Text.{Text, has_byte}
use orcacommon.EphemeralAuth.Base64.{
  encode_digit, decode_digit, encode, strip_newlines, decode_quanta, decode,
}

abbrev pub IsByte : ℕ → Type 0
IsByte b = b < 256

decode_digit-encode_digit : (n : ℕ) → n < 64 → decode_digit (encode_digit n) ≡ some n
unfolding encode_digit decode_digit
decode_digit-encode_digit n h = ground arith

-- No digit is a line end or a dot.
encode_digit_plain :
    (n : ℕ) → (encode_digit n ≢ 10) × (encode_digit n ≢ 13) × (encode_digit n ≢ b'.')
unfolding encode_digit
encode_digit_plain n =
    let no : (c : ℕ) → (c ≡ 10) ⊎ (c ≡ 13) ⊎ (c ≡ 46) → encode_digit n ≢ c =
      λ c k e. ground arith in
    (no 10 (inl refl), no 13 (inr (inl refl)), no 46 (inr (inr refl)))

quad :
    (a b c : ℕ)
    → a < 256
    → b < 256
    → c < 256
    → let v = a * 65536 + b * 256 + c in
      let w = (v / 262144 % 64) * 262144 + (v / 4096 % 64) * 4096 + (v / 64 % 64) * 64 + v % 64 in
      (w / 65536 % 256 ≡ a) × (w / 256 % 256 ≡ b) × (w % 256 ≡ c)
quad a b c p q r = omega arith

-- What decoding does with the digit of a sextet, and stripping with any digit.
digit : (n : ℕ) → decode_digit (encode_digit (n % 64)) ≡ some (n % 64)
digit n = decode_digit-encode_digit (n % 64) (omega arith)

strip_nil : strip_newlines [] ≡ []
unfolding strip_newlines
strip_nil = refl

strip-digit :
    (n : ℕ) (s : Text) → strip_newlines (encode_digit n ∷ s) ≡ encode_digit n ∷ strip_newlines s
unfolding strip_newlines
strip-digit n s = ground (arith, encode_digit_plain n)

strip-encode : (xs : Text) → strip_newlines (encode xs) ≡ encode xs
unfolding encode
strip-encode [] = strip_nil
strip-encode (a ∷ []) = simp (strip-digit, strip_nil)
strip-encode (a ∷ b ∷ []) = simp (strip-digit, strip_nil)
strip-encode (a ∷ b ∷ c ∷ xs) = simp (strip-digit, strip-encode xs)

decode-encode_raw : (xs : Text) → All IsByte xs → decode_quanta (encode xs) ≡ some xs
unfolding decode_quanta encode
decode-encode_raw [] h = refl
decode-encode_raw (a ∷ []) h = simp digit (ground (arith, quad a 0 0 h.0))
decode-encode_raw (a ∷ b ∷ []) h = simp digit (ground (arith, quad a b 0 h.0 h.1.0))
decode-encode_raw (a ∷ b ∷ c ∷ xs) h =
    simp (digit, decode-encode_raw xs h.1.1.1) (ground (arith, quad a b c h.0 h.1.0 h.1.1.0))

-- Decoding an encoding gives the bytes back.
pub decode-encode : (xs : Text) → All IsByte xs → decode (encode xs) ≡ some xs
unfolding decode
decode-encode xs h = rw (strip-encode xs) (decode-encode_raw xs h)

has_dot-digit : (n : ℕ) (s : Text) → has_byte b'.' (encode_digit n ∷ s) ≡ has_byte b'.' s
unfolding has_byte
has_dot-digit n s = ground (arith, encode_digit_plain n)

pub has_dot-encode : (xs : Text) → has_byte b'.' (encode xs) ≡ false
unfolding encode has_byte
has_dot-encode [] = refl
has_dot-encode (a ∷ []) = simp has_dot-digit
has_dot-encode (a ∷ b ∷ []) = simp has_dot-digit
has_dot-encode (a ∷ b ∷ c ∷ xs) = simp has_dot-digit (has_dot-encode xs)

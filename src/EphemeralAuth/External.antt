-- ===== src/EphemeralAuth/External.antt =====
-- What package ephemeralauth calls and does not implement: the hash functions of the standard
-- library, and the token library github.com/golang-jwt/jwt/v5. Times are nanoseconds; a numeric
-- date in a token is a number of seconds.
use orcacommon.Common.{
  ℕ, ◌*◌, ◌≡◌, ◌<◌, Bool, true, Option, none, some, List, String, length, All, ◌∷◌, [], ◌⊎◌,
}
use orcacommon.Common.Text.{Text}
use orcacommon.EphemeralAuth.Base64.RoundTrip.{IsByte}

-- `sha256.Sum256`, and HMAC-SHA256 of a key and a message.
pub record Hash : Type 0 where
  pub sum256 : Text → Text
  pub hmac : Text → Text → Text

-- Both give 32 bytes.
pub record IsHash (h : Hash) : Type 0 where
  pub sum256_length : (m : Text) → length (h.sum256 m) ≡ 32
  pub hmac_length : (k m : Text) → length (h.hmac k m) ≡ 32
  pub hmac_bytes : (k m : Text) → All IsByte (h.hmac k m)

-- The registered claims that the package sets, and its own.
pub record Claims : Type 0 where
  pub subject : Text
  pub expires_at : Option ℕ
  pub issued_at : Option ℕ
  pub issuer : Text
  pub ip_hash : Text
  pub ua_hash : Text
  pub scopes : List Text

-- A signing method: the header's `alg`, and whether it is of type `*SigningMethodHMAC`.
pub record Method : Type 0 where
  pub alg : String
  pub is_hmac : Bool

-- `NewWithClaims(SigningMethodHS256, claims).SignedString(key)`, and `ParseWithClaims(token,
-- claims, keyfunc, WithValidMethods(valid))` at a time: the claims and `token.Valid`.
pub record Jwt : Type 0 where
  pub sign : Text → Claims → Option Text
  pub parse : (Method → Option Text) → List String → ℕ → Text → Option (Claims × Bool)

abbrev pub second : ℕ
second = 1000000000

abbrev pub NotExpired : ℕ → Option ℕ → Type 0
NotExpired now none = Unit {0}
NotExpired now (some at) = now < at * second

abbrev pub Listed : String → List String → Type 0
Listed a [] = ⊥
Listed a (b ∷ bs) = (a ≡ b) ⊎ Listed a bs

abbrev pub hs256 : Method
hs256 = record { alg = "HS256"; is_hmac = true }

-- What the library documents. `Signed m key token claims`: the token carries the claims and a
-- signature by the method and the key; the claims are part of the token. `Kept` are the claims that
-- JSON keeps: encoding/json replaces what is not valid UTF-8, so that only claims of valid texts are
-- read as they were written.
pub record IsJwt (j : Jwt) (Signed : Method → Text → Text → Claims → Type 0)
    (Kept : Claims → Type 0) : Type 0 where
  pub parse_sound :
      (keyfunc : Method → Option Text) (valid : List String) (now : ℕ) (token : Text)
      (claims : Claims) (ok : Bool)
      → j.parse keyfunc valid now token ≡ some (claims, ok)
      → (m : Method) × (key : Text) × Listed m.alg valid
        × (keyfunc m ≡ some key)
        × Signed m key token claims
        × NotExpired now claims.expires_at
  pub parse-sign :
      (keyfunc : Method → Option Text) (valid : List String) (now : ℕ) (token key : Text)
      (claims : Claims)
      → Kept claims
      → j.sign key claims ≡ some token
      → keyfunc hs256 ≡ some key
      → Listed "HS256" valid
      → NotExpired now claims.expires_at
      → j.parse keyfunc valid now token ≡ some (claims, true)
  pub signed_by_sign :
      (key token : Text) (claims : Claims)
      → Kept claims
      → j.sign key claims ≡ some token
      → Signed hs256 key token claims
  pub signed_unique :
      (m m' : Method) (key key' token : Text) (c c' : Claims)
      → Signed m key token c
      → Signed m' key' token c'
      → c ≡ c'

-- ===== src/EphemeralAuth/Token.antt =====
-- ephemeralauth/token.go, and the methods of ephemeralauth/config.go. A duration is an int64
-- number of nanoseconds; a panic is `none`.
pub mod Lifetime
pub mod Verify
use orcacommon.Common.{
  ℕ, suc, ◌+◌, ◌/◌, ◌*◌, ltb, ◌==◌, if◌then◌else◌, Bool, true, false, Option, none, some, List, [],
  ◌∷◌, String, length, take,
}
use orcacommon.Common.Text.{Text, codes}
use orcacommon.Common.Word.{ℤ, pos, negsuc, mul_word}
use orcacommon.EphemeralAuth.Base64.{encode}
use orcacommon.EphemeralAuth.External.{Hash, Jwt, Claims, Method, second}

abbrev pub max_token_ttl : ℕ
max_token_ttl = 180 * second

abbrev pub default_token_ttl : ℕ
default_token_ttl = 120 * second

-- `DeriveKey`: a key of 32 bytes stays, any other is hashed; the empty key panics.
unfoldable pub derive_key : Hash → Text → Option Text
derive_key h raw =
    if length raw == 0 then none else if length raw == 32 then some raw else some (h.sum256 raw)

-- `clampTTL`.
unfoldable pub clamp_ttl : ℤ → ℕ
clamp_ttl (negsuc n) = default_token_ttl
clamp_ttl (pos n) =
    if n == 0
    then default_token_ttl
    else if ltb n (60 * second)
    then 60 * second
    else if ltb max_token_ttl n
    then max_token_ttl
    else n

pub record Issuer : Type 0 where
  pub signing_key : Text
  pub ttl : ℕ

-- `NewIssuer`; the warning on a short key is left out.
unfoldable pub new_issuer : Hash → Text → ℤ → Option Issuer
new_issuer h raw ttl = elim (derive_key h raw) [
  | none ↦ none
  | some key ↦ some (record { signing_key = key; ttl = clamp_ttl ttl })
]

-- `jwt.NewNumericDate`: the precision is one second.
abbrev pub numeric_date : ℕ → ℕ
numeric_date t = t / second

unfoldable pub claims_of : ℕ → ℕ → Text → Text → Text → List Text → Claims
claims_of now ttl session_id ip_hash ua_hash scopes = record {
  subject = session_id;
  expires_at = some (numeric_date (now + ttl));
  issued_at = some (numeric_date now);
  issuer = codes "ephemeralauth";
  ip_hash = ip_hash;
  ua_hash = ua_hash;
  scopes = scopes;
}

-- `(*Issuer).Issue` at the time `now`: the token and the seconds that it lives, `none` if the
-- token cannot be signed.
unfoldable pub issue : Jwt → Issuer → ℕ → Text → Text → Text → List Text → Option (Text × ℕ)
issue j iss now session_id ip_hash ua_hash scopes =
    elim (j.sign iss.signing_key (claims_of now iss.ttl session_id ip_hash ua_hash scopes)) [
      | none ↦ none
      | some signed ↦ some (signed, iss.ttl / second)
    ]

-- The key function of `Verify`: only a method of type HMAC is given the key.
unfoldable pub keyfunc : Issuer → Method → Option Text
keyfunc iss m = if m.is_hmac then some iss.signing_key else none

abbrev pub valid_methods : List String
valid_methods = "HS256" ∷ []

-- `(*Issuer).Verify`.
unfoldable pub verify : Jwt → Issuer → ℕ → Text → Option Claims
verify j iss now token = elim (j.parse (keyfunc iss) valid_methods now token) [
  | none ↦ none
  | some (claims, valid) ↦ if valid then some claims else none
]

-- `hashContextWithKey`: the first 16 bytes of the HMAC.
unfoldable pub hash_context_with_key : Hash → Text → Text → Text
hash_context_with_key h key value = encode (take 16 (h.hmac key value))

-- `HashContext`.
unfoldable pub hash_context : Hash → Text → Text → Option Text
hash_context h key value = elim (derive_key h key) [
  | none ↦ none
  | some derived ↦ some (hash_context_with_key h derived value)
]

-- The fields of `Config`.
pub record Config : Type 0 where
  pub signing_key : Text
  pub token_ttl_seconds : ℤ
  pub turnstile_secret : Text
  pub turnstile_sitekey : Text
  pub trust_proxy : Bool
  pub scopes : List Text
  pub required_scopes : List Text

-- `Config.TTL`: the product is taken in int64.
unfoldable pub config_ttl : Config → ℕ
config_ttl c = clamp_ttl (mul_word c.token_ttl_seconds second)

-- `Config.Issuer`.
unfoldable pub config_issuer : Hash → Config → Option Issuer
config_issuer h c = new_issuer h c.signing_key (pos (config_ttl c))

-- ===== src/EphemeralAuth/Redaction.antt =====
-- ephemeralauth/config.go: `Config.LogValue`, which redacts the secrets.
use orcacommon.Common.{◌≡◌, refl, if◌then◌else◌, Bool, List, [], ◌∷◌, String, is_empty}
use orcacommon.Common.Text.{Text, codes}
use orcacommon.Common.Word.{ℤ}
use orcacommon.EphemeralAuth.Token.{Config}

pub data Attr : Type 0 where
  text_attr : String → Text → Attr
  int_attr : String → ℤ → Attr
  bool_attr : String → Bool → Attr
  texts_attr : String → List Text → Attr

redact : Text → Text
redact s = if is_empty s then [] else codes "[REDACTED]"

unfoldable pub log_value : Config → List Attr
unfolding redact
log_value c =
    text_attr "signing_key" (redact c.signing_key)
    ∷ int_attr "token_ttl_seconds" c.token_ttl_seconds
    ∷ text_attr "turnstile_secret" (redact c.turnstile_secret)
    ∷ text_attr "turnstile_sitekey" c.turnstile_sitekey
    ∷ bool_attr "trust_proxy" c.trust_proxy
    ∷ texts_attr "scopes" c.scopes
    ∷ texts_attr "required_scopes" c.required_scopes
    ∷ []

-- What is logged of a configuration does not depend on its secrets, but on whether they are empty.
pub log_value-redacted :
    (c : Config) (key secret : Text)
    → is_empty key ≡ is_empty c.signing_key
    → is_empty secret ≡ is_empty c.turnstile_secret
    → log_value (record c { signing_key = key; turnstile_secret = secret }) ≡ log_value c
unfolding log_value
log_value-redacted c key secret k s = rw (k, s) refl

-- ===== src/EphemeralAuth/Tests.antt =====
-- The handlers of package ephemeralauth run on samples: one visitor, one issuer, one token.
pub mod Samples
mod Witnesses
use orcacommon.Common.{
  ℕ, ◌+◌, ◌*◌, ◌/◌, ◌≤◌, ◌<◌, ◌≡◌, ◌≢◌, refl, Bool, true, false, Option, none, some, List, [], ◌∷◌,
  ◌++◌, String, All, inl, inr, ◌⊎◌, ◌↔◌, arith, ltb, ◌==◌, if◌then◌else◌, length, get_or, take,
  is_empty,
}
use orcacommon.Common.Text.{
  Text, codes, text_eq, cut, has_byte, has_prefix, trim_prefix, read_limited, cut_last, trim_space,
}
use orcacommon.Common.Word.{ℤ, pos, mul_word}
use orcacommon.Common.Http.{
  Request, Writer, Handler, fresh, lookup, header_get, http_error, set_cookie, write_header, write,
  set_header,
}
use orcacommon.EphemeralAuth.Base64.{encode, decode}
use orcacommon.EphemeralAuth.Base64.RoundTrip.{IsByte, decode-encode}
use orcacommon.EphemeralAuth.External.{second, Claims}
use orcacommon.EphemeralAuth.Token.{
  Issuer, Config, max_token_ttl, derive_key, clamp_ttl, config_ttl, config_issuer, new_issuer,
  claims_of, issue, keyfunc, verify, hash_context_with_key,
}
use orcacommon.EphemeralAuth.Token.Lifetime.{derive_key_total, config_issuer_valid, config_ttl_lem}
use orcacommon.EphemeralAuth.Token.Verify.{verify_sound, verify-issue}
use orcacommon.EphemeralAuth.Guest.{
  guest_cookie_name, sign_guest_cookie, verify_guest_cookie, guest_session_id_with_key,
  guest_session, guest_cookie,
}
use orcacommon.EphemeralAuth.ClientIp.{split_host, remote_ip, client_ip}
use orcacommon.EphemeralAuth.Issuance.{
  Scan, request, decode_body, issue_token, verify_bot, issuance_handler,
}
use orcacommon.EphemeralAuth.Protect.{
  bearer, has_required_scopes, session_matches, ip_matches, ua_matches, protect_claims, protect,
}
use Samples.{
  sample_hash, sample_hash-IsHash, sample_jwt, SignedSample, sample_jwt-IsJwt, only_token, samples,
}

abbrev pub key : Text
key = codes "0123456789abcdef0123456789abcdef"

abbrev pub issuer : Issuer
issuer = record { signing_key = key; ttl = 120 * second }

-- The issuer that the configuration makes.
abbrev pub issuer_of_config : Issuer
issuer_of_config = record { signing_key = key; ttl = 180 * second }

abbrev pub visitor_id : Text
visitor_id = 200 ∷ 7 ∷ 255 ∷ 0 ∷ 16 ∷ []

abbrev pub config : Config
config = record {
  signing_key = key;
  token_ttl_seconds = pos 300;
  turnstile_secret = [];
  turnstile_sitekey = [];
  trust_proxy = false;
  scopes = codes "public:read" ∷ codes "public:write" ∷ [];
  required_scopes = codes "public:read" ∷ [];
}

abbrev pub now : ℕ
now = 1000 * second + 5

-- The session as the cookie holds it.
abbrev pub visitor : Text
visitor = codes "yAf_ABA"

visitor_lem : encode visitor_id ≡ visitor
unfolding encode
visitor_lem = refl

abbrev pub cookie_value : Text
cookie_value = codes "yAf_ABA.yAf_ABAwMTIzNDU2Nzg5YWJjZGVmMDEyMzQ1Njc4OWE"

pub cookie_value_lem : sign_guest_cookie sample_hash visitor_id key ≡ cookie_value
unfolding sign_guest_cookie encode
cookie_value_lem = refl

abbrev pub agent : Text
agent = codes "curl/8"

-- The visitor's request, with the cookie and perhaps a token.
abbrev ask : String → List (String × Text) → Text → Request
ask method header body = record {
  method = method;
  path = codes "/api/items";
  remote_addr = codes "10.0.0.7:4711";
  header = ("User-Agent", agent) ∷ header;
  cookies = (guest_cookie_name, cookie_value) ∷ [];
  body = body;
}

abbrev pub with_token : Request
with_token = ask "GET" (("Authorization", bearer ++ only_token) ∷ []) []

-- The same request with the cookie's last digit changed.
abbrev forged : Request
forged = record with_token {
  cookies = (guest_cookie_name, codes "yAf_ABA.yAf_ABAwMTIzNDU2Nzg5YWJjZGVmMDEyMzQ1Njc4OWA") ∷ [];
}

abbrev stranger : Request
stranger = record with_token { remote_addr = codes "10.0.0.8:4711" }

abbrev pub digest : Text → Text
digest = hash_context_with_key sample_hash key

abbrev pub granted : Claims
granted = claims_of now issuer.ttl visitor (digest (codes "10.0.0.7")) (digest agent) config.scopes

-- A handler that counts its calls and answers with a text.
abbrev pub serve : Handler ℕ
serve r (w, n) = (write (codes "ok") w, n + 1)

unfoldable pub run : Unit {0}
unfolding guest_session_id_with_key verify_guest_cookie text_eq cut decode encode lookup header_get
    hash_context_with_key claims_of client_ip remote_ip split_host cut_last has_byte
run = tt

pub session_tests :
    (guest_session_id_with_key sample_hash with_token key ≡ some visitor)
    × (guest_session_id_with_key sample_hash forged key ≡ none)
    × (client_ip with_token false ≡ codes "10.0.0.7")
unfolding run
session_tests = (refl, refl, refl)

pub issue_test :
    issue
      (sample_jwt key granted)
      issuer
      now
      visitor
      (digest (codes "10.0.0.7"))
      (digest agent)
      config.scopes
    ≡ some (only_token, 120)
unfolding issue samples run
issue_test = refl

protect_tests :
    (protect sample_hash
        (sample_jwt key granted)
        issuer
        false
        config.required_scopes
        (now + second)
        serve
        with_token
        (fresh, 0)
      ≡ (write (codes "ok") fresh, 1))
    × (protect sample_hash
          (sample_jwt key granted)
          issuer
          false
          config.required_scopes
          (now + second)
          serve
          stranger
          (fresh, 0)
        ≡ (http_error "forbidden: IP mismatch" 403 fresh, 0))
    × (protect sample_hash
          (sample_jwt key granted)
          issuer
          false
          config.required_scopes
          (now + 120 * second)
          serve
          with_token
          (fresh, 0)
        ≡ (http_error "unauthorized: invalid token" 401 fresh, 0))
    × (protect sample_hash
          (sample_jwt key granted)
          issuer
          false
          (codes "admin" ∷ [])
          now
          serve
          with_token
          (fresh, 0)
        ≡ (http_error "forbidden: insufficient scope" 403 fresh, 0))
unfolding protect protect_claims session_matches ip_matches ua_matches has_required_scopes verify
    keyfunc has_prefix trim_prefix samples run
protect_tests = (refl, refl, refl, refl)

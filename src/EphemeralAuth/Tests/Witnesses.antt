-- ===== src/EphemeralAuth/Tests/Witnesses.antt =====
-- The theorems about package ephemeralauth at the samples.
use orcacommon.Common.{
  ℕ, ◌+◌, ◌*◌, ◌/◌, ◌≤◌, ◌≡◌, ◌≢◌, refl, true, false, Option, none, some, [], ◌∷◌, ◌++◌, String,
  inl, inr, ◌⊎◌, ◌↔◌, arith, subst, All, ltb, if◌then◌else◌, length,
}
use orcacommon.Common.Text.{Text, codes, text_eq, has_byte, read_limited}
use orcacommon.Common.Http.{fresh, http_error}
use orcacommon.EphemeralAuth.Base64.{encode, decode}
use orcacommon.EphemeralAuth.Base64.RoundTrip.{IsByte, decode-encode}
use orcacommon.EphemeralAuth.External.{second, NotExpired, hs256}
use orcacommon.EphemeralAuth.Token.{
  Issuer, max_token_ttl, config_ttl, config_issuer, claims_of, verify, keyfunc,
}
use orcacommon.EphemeralAuth.Token.Lifetime.{config_issuer_valid}
use orcacommon.EphemeralAuth.Token.Verify.{verify_sound, verify-issue}
use orcacommon.EphemeralAuth.Guest.{verify_guest_cookie}
use orcacommon.EphemeralAuth.Guest.Signature.{verify_guest_cookie_iff}
use orcacommon.EphemeralAuth.Guest.Session.{Handled, guest_session_cases}
use orcacommon.EphemeralAuth.Issuance.{Scan, issuance_handler}
use orcacommon.EphemeralAuth.Issuance.Granted.{Answered, issuance_answers}
use orcacommon.EphemeralAuth.Protect.{protect}
use orcacommon.EphemeralAuth.Protect.Guard.{Guarded, protect_cases}
use orcacommon.EphemeralAuth.Lifecycle.{admitted_after_issue, refused_elsewhere}
use orcacommon.EphemeralAuth.Turnstile.{
  TurnstileVerifier, TurnstileResult, Form, Response, form_of, turnstile_verify,
  turnstile_verify_iff,
}
use orcacommon.EphemeralAuth.Tests.Samples.{
  sample_hash, sample_hash-IsHash, sample_jwt, SignedSample, IsPlain, sample_jwt-IsJwt, only_token,
  samples,
}
use orcacommon.EphemeralAuth.Tests.{
  key, issuer, visitor_id, config, now, visitor, cookie_value, ask, with_token, stranger, digest,
  granted, serve, agent, run, session_tests, issue_test,
}

protect_cases_example :
    Guarded sample_hash
      (sample_jwt key granted)
      issuer
      false
      config.required_scopes
      now
      serve
      stranger
      fresh
      0
      (protect sample_hash
        (sample_jwt key granted)
        issuer
        false
        config.required_scopes
        now
        serve
        stranger
        (fresh, 0))
protect_cases_example =
    protect_cases sample_hash (sample_jwt key granted) issuer false config.required_scopes now serve
      stranger fresh 0

plain : IsPlain granted
unfolding run samples
plain = refl

admitted_after_issue_example :
    protect sample_hash
      (sample_jwt key granted)
      issuer
      false
      config.required_scopes
      (now + second)
      serve
      with_token
      (fresh, 0)
    ≡ serve with_token (fresh, 0)
unfolding run
admitted_after_issue_example =
    admitted_after_issue sample_hash (sample_jwt key granted) (SignedSample key granted) IsPlain
      (sample_jwt-IsJwt key granted) issuer false config.scopes config.required_scopes now
      (now + second) 120 visitor (codes "10.0.0.7") agent only_token serve with_token fresh 0 plain
      issue_test (λ e. cc) refl session_tests.0 session_tests.2 refl (inl refl, tt) (omega arith)

refused_elsewhere_example :
    (code : ℕ) × (msg : String) × ((code ≡ 401) ⊎ (code ≡ 403))
    × (protect sample_hash
          (sample_jwt key granted)
          issuer
          false
          config.required_scopes
          (now + 120 * second)
          serve
          with_token
          (fresh, 0)
        ≡ (http_error msg code fresh, 0))
unfolding run
refused_elsewhere_example =
    refused_elsewhere sample_hash (sample_jwt key granted) (SignedSample key granted) IsPlain
      (sample_jwt-IsJwt key granted) issuer false config.scopes config.required_scopes now
      (now + 120 * second) 120 visitor (codes "10.0.0.7") agent only_token serve with_token fresh 0
      plain issue_test refl (inr (inr (inr (inr (omega arith)))))

-- The verifier accepts one bot token, and the decoder finds it in one body.
abbrev sample_scan : Text → Scan
sample_scan body =
    if text_eq body (codes "{bot}") then Scan.request (codes "human") else Scan.incomplete

issuance_answers_example :
    Answered sample_hash
      (sample_jwt key granted)
      sample_scan
      (λ token life. token)
      config
      (λ bot ip. some (text_eq bot (codes "human")))
      issuer
      now
      (ask "POST" [] (codes "{bot}"))
      fresh
      (issuance_handler sample_hash
        (sample_jwt key granted)
        sample_scan
        (λ token life. token)
        config
        (λ bot ip. some (text_eq bot (codes "human")))
        issuer
        now
        (ask "POST" [] (codes "{bot}"))
        fresh)
issuance_answers_example =
    issuance_answers sample_hash (sample_jwt key granted) sample_scan (λ token life. token) config
      (λ bot ip. some (text_eq bot (codes "human"))) issuer now (ask "POST" [] (codes "{bot}"))
      fresh

drawn_bytes : (id : Text) → some visitor_id ≡ some id → All IsByte id
drawn_bytes id e = let same : visitor_id ≡ id = cc e in subst (All IsByte) same (omega arith)

guest_session_cases_example :
    Handled sample_hash key (some visitor_id) serve (record with_token { cookies = [] }) fresh 0
guest_session_cases_example =
    guest_session_cases sample_hash key (some visitor_id) serve (record with_token { cookies = [] })
      fresh 0 sample_hash-IsHash drawn_bytes

verify_guest_cookie_iff_example :
    (verify_guest_cookie sample_hash cookie_value key ≡ some visitor) ↔ (
      (id mac_part : Text) × (cookie_value ≡ visitor ++ b'.' ∷ mac_part)
      × (has_byte b'.' visitor ≡ false)
      × (decode visitor ≡ some id)
      × (decode mac_part ≡ some (sample_hash.hmac key id)))
verify_guest_cookie_iff_example = verify_guest_cookie_iff sample_hash cookie_value key visitor

decode-encode_example : decode (encode visitor_id) ≡ some visitor_id
decode-encode_example = decode-encode visitor_id (omega arith)

verify_sound_example :
    SignedSample key granted hs256 issuer.signing_key only_token granted
    × NotExpired (now + second) granted.expires_at
unfolding claims_of verify keyfunc samples run
verify_sound_example =
    verify_sound (sample_jwt key granted) (SignedSample key granted) IsPlain
      (sample_jwt-IsJwt key granted) issuer (now + second) only_token granted refl

verify-issue_example :
    (verify (sample_jwt key granted) issuer (now + second) only_token
      ≡ (if ltb (now + second) ((now + issuer.ttl) / second * second) then some granted else none))
    × (◌≡◌ {A = ℕ} 120 (issuer.ttl / second))
verify-issue_example =
    verify-issue (sample_jwt key granted) (SignedSample key granted) IsPlain
      (sample_jwt-IsJwt key granted) issuer now (now + second) 120 visitor
      (digest (codes "10.0.0.7")) (digest agent) only_token config.scopes plain issue_test

config_issuer_valid_example :
    (iss : Issuer) × (config_issuer sample_hash config ≡ some iss)
    × (length iss.signing_key ≡ 32)
    × (60 * second ≤ iss.ttl)
    × (iss.ttl ≤ max_token_ttl)
    × (iss.ttl ≡ config_ttl config)
config_issuer_valid_example = config_issuer_valid sample_hash config sample_hash-IsHash (λ e. cc)

abbrev cloudflare : TurnstileVerifier
cloudflare = record { secret = codes "1x0"; endpoint = codes "https://challenges.cloudflare.com" }

abbrev accepting : Text → Option TurnstileResult
accepting body = some (record { success = text_eq body (codes "yes"); error_codes = [] })

abbrev answer_yes : Text → Form → Option Response
answer_yes url form = some (200, codes "yes")

turnstile_verify_iff_example :
    (turnstile_verify answer_yes accepting cloudflare (codes "t") agent ≡ some true) ↔ (
      (codes "t" ≢ [])
      × (body : Text) × (result : TurnstileResult) × (answer_yes cloudflare.endpoint
            (form_of cloudflare (codes "t") agent)
          ≡ some (200, body))
      × (accepting (read_limited 4096 body) ≡ some result)
      × (result.success ≡ true))
turnstile_verify_iff_example =
    turnstile_verify_iff answer_yes accepting cloudflare (codes "t") agent

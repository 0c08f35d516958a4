-- ===== src/EphemeralAuth/Turnstile.antt =====
-- ephemeralauth/turnstile.go: the bot verifier of Cloudflare Turnstile. `post` sends a form to the
-- endpoint, `none` if the request cannot be built or sent; `decode` is the JSON decoder.
use orcacommon.Common.{
  ℕ, ◌≡◌, ◌≢◌, refl, ◌==◌, if◌then◌else◌, not, Bool, true, false, Option, none, some, List, [], ◌∷◌,
  String, ap, ◌∙◌, is_empty, is_empty-eq-false, ◌↔◌, inl, inr, arith, Bool-cases, ◌>>=◌,
  >>=-eq-some,
}
use orcacommon.Common.Text.{Text, read_limited}
use orcacommon.EphemeralAuth.Issuance.{BotVerifier}

pub record TurnstileVerifier : Type 0 where
  pub secret : Text
  pub endpoint : Text

pub record TurnstileResult : Type 0 where
  pub success : Bool
  pub error_codes : List Text

abbrev pub Form : Type 0
Form = List (String × Text)

-- The status and the body of a response.
abbrev pub Response : Type 0
Response = ℕ × Text

unfoldable pub form_of : TurnstileVerifier → Text → Text → Form
form_of tv token remote_ip =
    ("secret", tv.secret)
    ∷ ("response", token)
    ∷ (if is_empty remote_ip then [] else ("remoteip", remote_ip) ∷ [])

status_ok :
    {A : Type 0} {a : A} (status : ℕ) (o : Option A)
    → (if not (status == 200) then none else o) ≡ some a
    → (status ≡ 200) × (o ≡ some a)
status_ok status o h = ground arith

module _ (post : Text → Form → Option Response) (decode : Text → Option TurnstileResult)
    (tv : TurnstileVerifier) where
  -- `VerifyWithDetails`; `none` is an error.
  unfoldable pub verify_with_details : Text → Text → Option TurnstileResult
  verify_with_details token remote_ip = if is_empty token then none else do
    (status, body) ← post tv.endpoint (form_of tv token remote_ip)
    if not (status == 200) then none else decode (read_limited 4096 body)

  -- `Verify`.
  unfoldable pub turnstile_verify : BotVerifier
  turnstile_verify token remote_ip = do
    result ← verify_with_details token remote_ip
    some result.success

  details_reply :
      (token remote_ip : Text) (result : TurnstileResult)
      → is_empty token ≡ false
      → verify_with_details token remote_ip ≡ some result
      → (body : Text) × (post tv.endpoint (form_of tv token remote_ip) ≡ some (200, body))
        × (decode (read_limited 4096 body) ≡ some result)
  unfolding verify_with_details
  details_reply token remote_ip result e v =
      let ((status, body), sent, read) =
        >>=-eq-some (post tv.endpoint (form_of tv token remote_ip)) _
          (rw (e, verify_with_details) at v) in
      let (fine, decoded) = status_ok status _ read in
      (body, sent ∙ ap (λ n. some (n, body)) fine, decoded)

  -- Fail closed: a token is accepted exactly if it is not empty and the endpoint answers the form
  -- with status 200 and a body that decodes to success.
  pub turnstile_verify_iff :
      (token remote_ip : Text)
      → (turnstile_verify token remote_ip ≡ some true) ↔ (
          (token ≢ [])
          × (body : Text) × (result : TurnstileResult) × (post tv.endpoint
                (form_of tv token remote_ip)
              ≡ some (200, body))
          × (decode (read_limited 4096 body) ≡ some result)
          × (result.success ≡ true))
  unfolding turnstile_verify verify_with_details
  turnstile_verify_iff token remote_ip = elim (Bool-cases (is_empty token)) [
    | inl e ↦ (
      λ v. cc (rw (e, turnstile_verify, verify_with_details) at v),
      λ a. absurd (cc (e, is_empty-eq-false token a.0)),
    )
    | inr e ↦ (
      λ v.
          let (result, found, ok) = >>=-eq-some (verify_with_details token remote_ip) _ v in
          let (body, sent, decoded) = details_reply token remote_ip result e found in
          (λ n. cc (e, ap is_empty n), body, result, sent, decoded, cc),
      λ (_, body, result, sent, read, ok).
          rw (e, turnstile_verify, verify_with_details, sent, read, ok) refl,
    )
  ]

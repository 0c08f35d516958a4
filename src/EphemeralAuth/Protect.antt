-- ===== src/EphemeralAuth/Protect.antt =====
-- ephemeralauth/middleware.go: the middleware that guards a handler by an ephemeral token. `now` is
-- the time at which the token is checked.
pub mod Scopes
pub mod Access
pub mod Guard
use orcacommon.Common.{
  ℕ, if◌then◌else◌, Bool, true, false, not, ◌&&◌, ◌||◌, Option, none, some, List, [], ◌∷◌, is_empty,
}
use orcacommon.Common.Text.{Text, codes, text_eq, has_prefix, trim_prefix}
use orcacommon.Common.Http.{Request, Writer, Handler, header_get, http_error}
use orcacommon.EphemeralAuth.External.{Hash, Jwt, Claims}
use orcacommon.EphemeralAuth.Token.{Issuer, verify, hash_context_with_key}
use orcacommon.EphemeralAuth.Guest.{guest_session_id_with_key}
use orcacommon.EphemeralAuth.ClientIp.{client_ip}

-- The inner loop of `hasRequiredScopes`.
has_scope : List Text → Text → Bool
has_scope [] r = false
has_scope (s ∷ ss) r = text_eq s r || has_scope ss r

-- `hasRequiredScopes`.
unfoldable pub has_required_scopes : List Text → List Text → Bool
unfolding has_scope
has_required_scopes token_scopes [] = true
has_required_scopes token_scopes (r ∷ rs) =
    if has_scope token_scopes r then has_required_scopes token_scopes rs else false

abbrev pub bearer : Text
bearer = codes "Bearer "

module _ (h : Hash) (j : Jwt) (iss : Issuer) (trust_proxy : Bool) (required : List Text) where
  -- The session test: `!ok || !hmac.Equal(sessionID, claims.Subject)` is false.
  unfoldable pub session_matches : Request → Claims → Bool
  session_matches r claims = elim (guest_session_id_with_key h r iss.signing_key) [
    | none ↦ false
    | some sid ↦ text_eq sid claims.subject
  ]

  unfoldable pub ip_matches : Request → Claims → Bool
  ip_matches r claims =
      text_eq (hash_context_with_key h iss.signing_key (client_ip r trust_proxy)) claims.ip_hash

  unfoldable pub ua_matches : Request → Claims → Bool
  ua_matches r claims =
      text_eq (hash_context_with_key h iss.signing_key (header_get "User-Agent" r.header))
        claims.ua_hash

  -- The rest of the handler, once the token has verified.
  unfoldable pub protect_claims : {S : Type 0} → Claims → Handler S → Handler S
  protect_claims claims next r (w, s) =
      if not (session_matches r claims)
      then (http_error "forbidden: session mismatch" 403 w, s)
      else if not (ip_matches r claims)
      then (http_error "forbidden: IP mismatch" 403 w, s)
      else if not (ua_matches r claims)
      then (http_error "forbidden: User-Agent mismatch" 403 w, s)
      else if not (is_empty required) && not (has_required_scopes claims.scopes required)
      then (http_error "forbidden: insufficient scope" 403 w, s)
      else next r (w, s)

  -- The handler that `Protect` makes.
  unfoldable pub protect : {S : Type 0} → ℕ → Handler S → Handler S
  protect now next r (w, s) =
      let auth = header_get "Authorization" r.header in
      let token = trim_prefix auth bearer in
      if is_empty auth
      then (http_error "unauthorized: missing Authorization header" 401 w, s)
      else if not (has_prefix auth bearer)
      then (http_error "unauthorized: malformed Authorization header" 401 w, s)
      else if is_empty token
      then (http_error "unauthorized: empty Bearer token" 401 w, s)
      else elim (verify j iss now token) [
        | none ↦ (http_error "unauthorized: invalid token" 401 w, s)
        | some claims ↦ protect_claims claims next r (w, s)
      ]

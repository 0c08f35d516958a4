-- ===== src/LiteSpa/Server/Visit.antt =====
-- A visit: from the page that sets the guest cookie, through the token, to a guarded request.
use orcacommon.Common.{
  ℕ, ◌+◌, ◌*◌, ◌/◌, ◌<◌, ◌≡◌, ◌≢◌, refl, none, some, [], ◌∷◌, ◌++◌, arith, ◌∙◌, ap, All,
}
use mathlib.Core.Option
use orcacommon.Common.Text.{Text}
use orcacommon.Common.Http.{Cookie, Request, Writer, Handler, lookup, header_get, set_cookie}
use orcacommon.EphemeralAuth.Base64.{encode}
use orcacommon.EphemeralAuth.Base64.RoundTrip.{IsByte}
use orcacommon.EphemeralAuth.External.{Hash, IsHash, Jwt, IsJwt, Claims, Method, second}
use orcacommon.EphemeralAuth.Token.{Config, Issuer, claims_of, hash_context_with_key}
use orcacommon.EphemeralAuth.Guest.{
  guest_cookie_name, guest_cookie, guest_session, guest_session_id_with_key, sign_guest_cookie,
}
use orcacommon.EphemeralAuth.Guest.Session.{guest_session_returns}
use orcacommon.EphemeralAuth.Issuance.Granted.{issued_for}
use orcacommon.EphemeralAuth.ClientIp.{client_ip}
use orcacommon.EphemeralAuth.Protect.{bearer, protect}
use orcacommon.EphemeralAuth.Protect.Scopes.{Has}
use orcacommon.EphemeralAuth.Lifecycle.{admitted_after_issue}
use orcacommon.LiteSpa.Server.{Server, Env, serve_root_inner}
use orcacommon.LiteSpa.Server.Cookies.{cookies-serve_root_inner}
use orcacommon.LiteSpa.Server.Setup.{serve_root, public_auth_middleware}

cookies_set :
    (c : Cookie) (w : Writer) → w.status ≡ none → (set_cookie c w).cookies ≡ w.cookies ++ c ∷ []
unfolding set_cookie
cookies_set c w s = ground arith

-- A visitor without a session gets the signed cookie of a new id with whatever the server answers,
-- and a request that brings the cookie back belongs to the session of the id, for the issuer too.
pub serve_root_session :
    (h : Hash) (env : Env) (id : Text) (r back : Request) (w : Writer) (s : Server) (iss : Issuer)
    → IsHash h
    → All IsByte id
    → s.guest_key ≡ some iss.signing_key
    → w.status ≡ none
    → guest_session_id_with_key h r iss.signing_key ≡ none
    → lookup guest_cookie_name back.cookies ≡ some (sign_guest_cookie h id iss.signing_key)
    → ((serve_root h env (some id) r (w, s)).0.cookies
        ≡ w.cookies ++ guest_cookie (sign_guest_cookie h id iss.signing_key) ∷ [])
      × (guest_session_id_with_key h back iss.signing_key ≡ some (encode id))
unfolding serve_root guest_session
serve_root_session h env id r back w s iss hash bytes keyed begun new brought =
    let next : Handler Server = serve_root_inner env in
    let cookie = guest_cookie (sign_guest_cookie h id iss.signing_key) in
    (
      rw (keyed, serve_root, new, guest_session)
          (cookies-serve_root_inner env r (set_cookie cookie w) s ∙ cookies_set cookie w begun),
      (guest_session_returns h iss.signing_key id none next back w s hash bytes brought).0,
    )

middleware_of :
    {S : Type 0} (h : Hash) (j : Jwt) (s : Server) (auth : Config) (iss : Issuer)
    → s.issuer ≡ some iss
    → s.public_auth_cfg ≡ some auth
    → public_auth_middleware h j s {S = S}
      ≡ some (λ now next. protect h j iss auth.trust_proxy auth.required_scopes now next)
unfolding public_auth_middleware
middleware_of h j s auth iss issued configured =
    rw (issued, configured, public_auth_middleware) refl

-- Where JSON keeps the claims of the token, a visitor who sends the cookie of an id and the token that was issued to its session passes the
-- server's middleware from the same address and user agent until the token ends, if the configured
-- scopes contain the required ones.
pub visitor_admitted :
    {S : Type 0} (h : Hash) (j : Jwt) (Signed : Method → Text → Text → Claims → Type 0)
    (Kept : Claims → Type 0) (s : Server) (auth : Config) (iss : Issuer) (id token : Text)
    (now later life : ℕ) (asked r : Request) (next : Handler S) (w : Writer) (state : S)
    → IsJwt j Signed Kept
    → IsHash h
    → All IsByte id
    → s.issuer ≡ some iss
    → s.public_auth_cfg ≡ some auth
    → Kept (
        claims_of now iss.ttl
          (encode id)
          (hash_context_with_key h iss.signing_key (client_ip asked auth.trust_proxy))
          (hash_context_with_key h iss.signing_key (header_get "User-Agent" asked.header))
          auth.scopes)
    → issued_for h j auth iss now asked (encode id) ≡ some (token, life)
    → token ≢ []
    → header_get "Authorization" r.header ≡ bearer ++ token
    → lookup guest_cookie_name r.cookies ≡ some (sign_guest_cookie h id iss.signing_key)
    → client_ip r auth.trust_proxy ≡ client_ip asked auth.trust_proxy
    → header_get "User-Agent" r.header ≡ header_get "User-Agent" asked.header
    → All (Has auth.scopes) auth.required_scopes
    → later < (now + iss.ttl) / second * second
    → Option.map
        (λ (guard : ℕ → Handler S → Handler S). guard later next r (w, state))
        (public_auth_middleware h j s)
      ≡ some (next r (w, state))
visitor_admitted h j Signed Kept s auth iss id token now later life asked r next w state lib hash
      bytes issuer configured kept issued some_token sent brought same_ip same_ua scoped early =
    let session =
      (guest_session_returns h iss.signing_key id none next r w state hash bytes brought).0 in
    rw (middleware_of h j s auth iss issuer configured) (
      ap some (
        admitted_after_issue h j Signed Kept lib iss auth.trust_proxy auth.scopes
          auth.required_scopes now later life (encode id) (client_ip asked auth.trust_proxy)
          (header_get "User-Agent" asked.header) token next r w state kept issued some_token sent
          session same_ip same_ua scoped early))

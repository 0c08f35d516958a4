-- ===== src/EphemeralAuth/Lifecycle.antt =====
-- From the issuance of a token (ephemeralauth/issuance.go) to its use (ephemeralauth/middleware.go).
use orcacommon.Common.{
  ℕ, ◌+◌, ◌*◌, ◌/◌, ◌≤◌, ◌<◌, ◌≡◌, ◌≢◌, refl, Bool, some, List, [], ◌++◌, ◌⊎◌, inl, inr, arith,
  String, All, sym, ap, ◌∙◌, subst, Bool-cases, ltb, ltb→lt,
}
use orcacommon.Common.Text.{Text, trim_prefix}
use orcacommon.Common.Text.Laws.{trim_prefix-append}
use orcacommon.Common.Http.{Request, Writer, Handler, header_get, http_error}
use orcacommon.EphemeralAuth.External.{Hash, Jwt, IsJwt, Claims, Method, second}
use orcacommon.EphemeralAuth.Token.{Issuer, claims_of, issue, verify, hash_context_with_key}
use orcacommon.EphemeralAuth.Token.Verify.{issue_sign, verify_before, verify_after}
use orcacommon.EphemeralAuth.Guest.{guest_session_id_with_key}
use orcacommon.EphemeralAuth.ClientIp.{client_ip}
use orcacommon.EphemeralAuth.Protect.{bearer, protect}
use orcacommon.EphemeralAuth.Protect.Scopes.{Has}
use orcacommon.EphemeralAuth.Protect.Access.{HasToken, IsBound}
use orcacommon.EphemeralAuth.Protect.Guard.{protect_cases}

-- A token that was issued at `now` to a session, for a request's address and user agent.
module _ (h : Hash) (j : Jwt) (Signed : Method → Text → Text → Claims → Type 0)
    (Kept : Claims → Type 0) (lib : IsJwt j Signed Kept) (iss : Issuer) (trust_proxy : Bool)
    (scopes required : List Text) (now later life : ℕ) (session_id ip ua token : Text) where
  abbrev digest : Text → Text
  digest = hash_context_with_key h iss.signing_key

  abbrev granted : Claims
  granted = claims_of now iss.ttl session_id (digest ip) (digest ua) scopes

  abbrev ends : ℕ
  ends = (now + iss.ttl) / second * second

  -- Whoever sends the token is checked against what it was issued for.
  same_claims :
      (r : Request) (claims : Claims)
      → Kept granted
      → issue j iss now session_id (digest ip) (digest ua) scopes ≡ some (token, life)
      → header_get "Authorization" r.header ≡ bearer ++ token
      → HasToken h j iss trust_proxy required later r claims
      → (claims ≡ granted) × (later < ends)
  same_claims r claims kept issued sent t =
      let same : t.token ≡ token =
        sym (trim_prefix-append bearer t.token)
        ∙ (ap (λ a. trim_prefix a bearer) (sym t.sent ∙ sent) ∙ trim_prefix-append bearer token) in
      let verified : verify j iss later token ≡ some claims = rw same at t.verified in
      let signed =
        (issue_sign j Signed Kept lib iss now session_id (digest ip) (digest ua) token scopes life
          issued).0 in
      elim (Bool-cases (ltb later ends)) [
        | inl e ↦
            let early : later < ends = ltb→lt later ends e in
            let before =
              verify_before j Signed Kept lib iss now session_id (digest ip) (digest ua) token
                scopes later kept signed early in
            (cc, early)
        | inr e ↦
            let late : ends ≤ later = ground arith in
            absurd (
              cc (
                verify_after j Signed Kept lib iss now session_id (digest ip) (digest ua) token
                  scopes later kept signed late))
      ]

  -- Where JSON keeps its claims, an issued token lets every request of the same session, address and user agent pass until it
  -- ends, if its scopes contain the required ones.
  pub admitted_after_issue :
      {S : Type 0} (next : Handler S) (r : Request) (w : Writer) (s : S)
      → Kept (claims_of now iss.ttl session_id (digest ip) (digest ua) scopes)
      → issue j iss now session_id (digest ip) (digest ua) scopes ≡ some (token, life)
      → token ≢ []
      → header_get "Authorization" r.header ≡ bearer ++ token
      → guest_session_id_with_key h r iss.signing_key ≡ some session_id
      → client_ip r trust_proxy ≡ ip
      → header_get "User-Agent" r.header ≡ ua
      → All (Has scopes) required
      → later < (now + iss.ttl) / second * second
      → protect h j iss trust_proxy required later next r (w, s) ≡ next r (w, s)
  unfolding claims_of
  admitted_after_issue next r w s kept issued some_token sent session same_ip same_ua scoped early =
      elim (protect_cases h j iss trust_proxy required later next r w s) [
        | inl (claims, t, inl (_, e)) ↦ e
        | inl (claims, t, inr (unbound, _, _)) ↦
            let (same, _) = same_claims r claims kept issued sent t in
            absurd (
              unbound (
                subst (IsBound h j iss trust_proxy required r) (sym same) (record {
                  session = session;
                  ip = ap digest same_ip;
                  ua = ap digest same_ua;
                  scoped = scoped;
                })))
        | inr (none_sent, _, _) ↦
            let signed =
              (issue_sign j Signed Kept lib iss now session_id (digest ip) (digest ua) token scopes
                life issued).0 in
            absurd (
              none_sent granted (record {
                token = token;
                sent = sent;
                some_token = some_token;
                verified =
                    verify_before j Signed Kept lib iss now session_id (digest ip) (digest ua) token
                      scopes later kept signed early;
              }))
      ]

  abbrev Elsewhere : Request → Type 0
  Elsewhere r =
      (guest_session_id_with_key h r iss.signing_key ≢ some session_id)
      ⊎ (digest (client_ip r trust_proxy) ≢ digest ip)
      ⊎ (digest (header_get "User-Agent" r.header) ≢ digest ua)
      ⊎ (¬ All (Has scopes) required)
      ⊎ (ends ≤ later)

  not-Elsewhere :
      (r : Request) → IsBound h j iss trust_proxy required r granted → later < ends → ¬ Elsewhere r
  unfolding claims_of
  not-Elsewhere r b early (inl e) = e b.session
  not-Elsewhere r b early (inr (inl e)) = e b.ip
  not-Elsewhere r b early (inr (inr (inl e))) = e b.ua
  not-Elsewhere r b early (inr (inr (inr (inl e)))) = e b.scoped
  not-Elsewhere r b early (inr (inr (inr (inr e)))) = omega arith

  -- Sent from another session, from an address or a user agent with another digest, after its end,
  -- or where a scope is required that it lacks, an issued token, the claims of which JSON keeps, is answered by 401 or 403, and the
  -- guarded handler is not called.
  pub refused_elsewhere :
      {S : Type 0} (next : Handler S) (r : Request) (w : Writer) (s : S)
      → Kept (claims_of now iss.ttl session_id (digest ip) (digest ua) scopes)
      → issue j iss now session_id (digest ip) (digest ua) scopes ≡ some (token, life)
      → header_get "Authorization" r.header ≡ bearer ++ token
      → (guest_session_id_with_key h r iss.signing_key ≢ some session_id)
        ⊎ (digest (client_ip r trust_proxy) ≢ digest ip)
        ⊎ (digest (header_get "User-Agent" r.header) ≢ digest ua)
        ⊎ (¬ All (Has scopes) required)
        ⊎ ((now + iss.ttl) / second * second ≤ later)
      → (code : ℕ) × (msg : String) × ((code ≡ 401) ⊎ (code ≡ 403))
        × (protect h j iss trust_proxy required later next r (w, s) ≡ (http_error msg code w, s))
  unfolding claims_of
  refused_elsewhere next r w s kept issued sent why =
      elim (protect_cases h j iss trust_proxy required later next r w s) [
        | inr (_, msg, e) ↦ (401, msg, inl refl, e)
        | inl (claims, t, inr (_, msg, e)) ↦ (403, msg, inr refl, e)
        | inl (claims, t, inl (b, e)) ↦
            let (same, early) = same_claims r claims kept issued sent t in
            absurd
              (not-Elsewhere r (subst (IsBound h j iss trust_proxy required r) same b) early why)
      ]

-- ===== src/EphemeralAuth/Protect/Access.antt =====
-- Who gets through.
use orcacommon.Common.{
  ℕ, ◌≡◌, ◌≢◌, refl, Bool, true, some, List, [], ◌∷◌, ◌++◌, ◌⊎◌, inl, inr, ◌↔◌, arith, All,
  Bool-cases, Option-cases, String, ap, not, ◌&&◌, is_empty,
}
use orcacommon.Common.Text.{Text}
use orcacommon.Common.Text.Laws.{text_eq_iff, text_eq_sound}
use orcacommon.Common.Http.{Request, Writer, Handler, header_get, http_error}
use orcacommon.EphemeralAuth.External.{Hash, Jwt, Claims}
use orcacommon.EphemeralAuth.Token.{Issuer, verify, hash_context_with_key}
use orcacommon.EphemeralAuth.Guest.{guest_session_id_with_key}
use orcacommon.EphemeralAuth.ClientIp.{client_ip}
use orcacommon.EphemeralAuth.Protect.{
  bearer, protect_claims, session_matches, ip_matches, ua_matches, has_required_scopes,
}
use orcacommon.EphemeralAuth.Protect.Scopes.{Has, has_required_scopes_iff}

module _ (h : Hash) (j : Jwt) (iss : Issuer) (trust_proxy : Bool) (required : List Text) where
  -- The request's token verifies at the time.
  pub record HasToken (now : ℕ) (r : Request) (claims : Claims) : Type 0 where
    pub token : Text
    pub sent : header_get "Authorization" r.header ≡ bearer ++ token
    pub some_token : token ≢ []
    pub verified : verify j iss now token ≡ some claims

  -- The token belongs to the session, the address and the user agent of the request, and carries
  -- the required scopes.
  pub record IsBound (r : Request) (claims : Claims) : Type 0 where
    pub session : guest_session_id_with_key h r iss.signing_key ≡ some claims.subject
    pub ip : hash_context_with_key h iss.signing_key (client_ip r trust_proxy) ≡ claims.ip_hash
    pub ua :
        hash_context_with_key h iss.signing_key (header_get "User-Agent" r.header) ≡ claims.ua_hash
    pub scoped : All (Has claims.scopes) required

  session_matches_iff :
      (r : Request) (claims : Claims)
      → (session_matches h j iss trust_proxy required r claims ≡ true)
        ↔ (guest_session_id_with_key h r iss.signing_key ≡ some claims.subject)
  unfolding session_matches
  session_matches_iff r claims =
      elim (Option-cases (guest_session_id_with_key h r iss.signing_key)) [
        | inl e ↦ rw (e, session_matches) (λ x. cc, λ x. cc)
        | inr (sid, e) ↦
            rw (e, session_matches)
              (
                λ x. ap some (text_eq_sound sid claims.subject x),
                λ x. ground (arith, text_eq_iff sid claims.subject),
              )
      ]

  ip_matches_iff :
      (r : Request) (claims : Claims)
      → (ip_matches h j iss trust_proxy required r claims ≡ true)
        ↔ (hash_context_with_key h iss.signing_key (client_ip r trust_proxy) ≡ claims.ip_hash)
  unfolding ip_matches
  ip_matches_iff r claims = text_eq_iff _ _

  ua_matches_iff :
      (r : Request) (claims : Claims)
      → (ua_matches h j iss trust_proxy required r claims ≡ true) ↔ (
          hash_context_with_key h iss.signing_key (header_get "User-Agent" r.header)
          ≡ claims.ua_hash)
  unfolding ua_matches
  ua_matches_iff r claims = text_eq_iff _ _

  scope_test :
      (ss rs : List Text)
      → (not (is_empty rs) && not (has_required_scopes ss rs)) ≡ not (has_required_scopes ss rs)
  unfolding has_required_scopes
  scope_test ss [] = refl
  scope_test ss (r ∷ rs) = refl

  -- The two ways in which the checks of a verified token end.
  abbrev pub Checked :
      {S : Type 0} → Claims → Handler S → Request → Writer → S → Writer × S → Type 0
  Checked claims next r w s out =
      (IsBound r claims × (out ≡ next r (w, s)))
      ⊎ ((¬ IsBound r claims) × (msg : String) × (out ≡ (http_error msg 403 w, s)))

  pub protect_claims_cases :
      {S : Type 0} (claims : Claims) (next : Handler S) (r : Request) (w : Writer) (s : S)
      → Checked claims next r w s (protect_claims h j iss trust_proxy required claims next r (w, s))
  unfolding protect_claims
  protect_claims_cases claims next r w s =
      elim (Bool-cases (session_matches h j iss trust_proxy required r claims)) [
        | inr e ↦ rw e (inr (λ b. cc (e, (session_matches_iff r claims).1 b.session), _, refl))
        | inl session ↦ elim (Bool-cases (ip_matches h j iss trust_proxy required r claims)) [
          | inr e ↦ rw (session, e) (inr (λ b. cc (e, (ip_matches_iff r claims).1 b.ip), _, refl))
          | inl ip ↦ elim (Bool-cases (ua_matches h j iss trust_proxy required r claims)) [
            | inr e ↦
                rw (session, ip, e) (inr (λ b. cc (e, (ua_matches_iff r claims).1 b.ua), _, refl))
            | inl ua ↦
                rw (session, ip, ua, scope_test claims.scopes required)
                  (elim (Bool-cases (has_required_scopes claims.scopes required)) [
                    | inr e ↦ rw e (
                        inr (
                          λ b. cc (e, (has_required_scopes_iff claims.scopes required).1 b.scoped),
                          _,
                          refl,
                        ))
                    | inl scoped ↦ rw scoped (
                        inl (
                          record {
                            session = (session_matches_iff r claims).0 session;
                            ip = (ip_matches_iff r claims).0 ip;
                            ua = (ua_matches_iff r claims).0 ua;
                            scoped = (has_required_scopes_iff claims.scopes required).0 scoped;
                          },
                          refl,
                        ))
                  ])
          ]
        ]
      ]

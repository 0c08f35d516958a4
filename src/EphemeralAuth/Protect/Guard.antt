-- ===== src/EphemeralAuth/Protect/Guard.antt =====
-- Every run of the middleware.
use orcacommon.Common.{
  ℕ, ◌≡◌, refl, Bool, true, false, none, some, List, ◌⊎◌, inl, inr, Bool-cases, Option-cases,
  String, is_empty, is_empty-eq-false, ap, ◌∙◌, subst,
}
use orcacommon.Common.Text.{Text, has_prefix, trim_prefix}
use orcacommon.Common.Text.Laws.{has_prefix-append, trim_prefix-append, trim_prefix_sound}
use orcacommon.Common.Http.{Request, Writer, Handler, header_get, http_error}
use orcacommon.EphemeralAuth.External.{Hash, Jwt, Claims}
use orcacommon.EphemeralAuth.Token.{Issuer, verify}
use orcacommon.EphemeralAuth.Protect.{bearer, protect}
use orcacommon.EphemeralAuth.Protect.Access.{HasToken, Checked, protect_claims_cases}

module _ (h : Hash) (j : Jwt) (iss : Issuer) (trust_proxy : Bool) (required : List Text) where
  abbrev TokenOf : ℕ → Request → Claims → Type 0
  TokenOf = HasToken h j iss trust_proxy required

  module _ (now : ℕ) (r : Request) where
    abbrev auth : Text
    auth = header_get "Authorization" r.header

    no_token_header : (claims : Claims) → is_empty auth ≡ true → ¬ TokenOf now r claims
    no_token_header claims e t = cc (subst (λ a. is_empty a ≡ true) t.sent e)

    no_token_prefix : (claims : Claims) → has_prefix auth bearer ≡ false → ¬ TokenOf now r claims
    no_token_prefix claims e t =
        cc (subst (λ a. has_prefix a bearer ≡ false) t.sent e, has_prefix-append bearer t.token)

    token_sent : (claims : Claims) (t : TokenOf now r claims) → trim_prefix auth bearer ≡ t.token
    token_sent claims t = ap (λ a. trim_prefix a bearer) t.sent ∙ trim_prefix-append bearer t.token

    no_token_text :
        (claims : Claims) → is_empty (trim_prefix auth bearer) ≡ true → ¬ TokenOf now r claims
    no_token_text claims e t = cc (
      subst (λ a. is_empty a ≡ true) (token_sent claims t) e,
      is_empty-eq-false t.token t.some_token,
    )

    no_token_verified :
        (claims : Claims)
        → verify j iss now (trim_prefix auth bearer) ≡ none
        → ¬ TokenOf now r claims
    no_token_verified claims e t =
        cc (subst (λ a. verify j iss now a ≡ none) (token_sent claims t) e, t.verified)

    token_found :
        (claims : Claims)
        → has_prefix auth bearer ≡ true
        → is_empty (trim_prefix auth bearer) ≡ false
        → verify j iss now (trim_prefix auth bearer) ≡ some claims
        → TokenOf now r claims
    token_found claims p e v = record {
      token = trim_prefix auth bearer;
      sent = trim_prefix_sound auth bearer p;
      some_token = λ n. cc (e, ap is_empty n);
      verified = v;
    }

  -- The three ways in which the middleware ends.
  abbrev pub Guarded : {S : Type 0} → ℕ → Handler S → Request → Writer → S → Writer × S → Type 0
  Guarded now next r w s out =
      ((claims : Claims) × TokenOf now r claims
        × Checked h j iss trust_proxy required claims next r w s out)
      ⊎ (((claims : Claims) → ¬ TokenOf now r claims)
          × (msg : String) × (out ≡ (http_error msg 401 w, s)))

  -- A request passes to the next handler, with the response and the state untouched, if it carries
  -- a token that verifies and that is bound to it and has the required scopes. With a token that
  -- verifies and is not so bound the answer is 403, with no such token 401; the next handler is not
  -- called then and the state stays.
  pub protect_cases :
      {S : Type 0} (now : ℕ) (next : Handler S) (r : Request) (w : Writer) (s : S)
      → Guarded now next r w s (protect h j iss trust_proxy required now next r (w, s))
  unfolding protect
  protect_cases now next r w s = elim (Bool-cases (is_empty (auth now r))) [
    | inl e ↦ rw e (inr (λ c. no_token_header now r c e, _, refl))
    | inr sent ↦ elim (Bool-cases (has_prefix (auth now r) bearer)) [
      | inr e ↦ rw (sent, e) (inr (λ c. no_token_prefix now r c e, _, refl))
      | inl p ↦ elim (Bool-cases (is_empty (trim_prefix (auth now r) bearer))) [
        | inl e ↦ rw (sent, p, e) (inr (λ c. no_token_text now r c e, _, refl))
        | inr t ↦ elim (Option-cases (verify j iss now (trim_prefix (auth now r) bearer))) [
          | inl e ↦ rw (sent, p, t, e) (inr (λ c. no_token_verified now r c e, _, refl))
          | inr (claims, v) ↦
              rw (sent, p, t, v)
                (inl (
                  claims,
                  token_found now r claims p t v,
                  protect_claims_cases h j iss trust_proxy required claims next r w s,
                ))
        ]
      ]
    ]
  ]

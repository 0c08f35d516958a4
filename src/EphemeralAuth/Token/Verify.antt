-- ===== src/EphemeralAuth/Token/Verify.antt =====
-- What a verified token tells.
use orcacommon.Common.{
  ℕ, ◌+◌, ◌*◌, ◌/◌, ◌≤◌, ◌<◌, ◌≡◌, refl, true, none, some, List, inl, inr, arith, Option-cases,
  subst, Bool-cases, ltb, ltb→lt, if◌then◌else◌,
}
use orcacommon.Common.Text.{Text}
use orcacommon.EphemeralAuth.External.{
  Jwt, IsJwt, Claims, Method, hs256, second, NotExpired, Listed,
}
use orcacommon.EphemeralAuth.Token.{Issuer, issue, claims_of, keyfunc, valid_methods, verify}

module _ (j : Jwt) (Signed : Method → Text → Text → Claims → Type 0) (Kept : Claims → Type 0)
    (lib : IsJwt j Signed Kept) (iss : Issuer) where
  keyfunc_pinned :
      (m : Method) (key : Text)
      → Listed m.alg valid_methods
      → keyfunc iss m ≡ some key
      → (m ≡ hs256) × (key ≡ iss.signing_key)
  unfolding keyfunc
  keyfunc_pinned m key (inl a) e = ground arith
  keyfunc_pinned m key (inr a) e = absurd a

  verify_parse :
      (now : ℕ) (token : Text) (claims : Claims)
      → verify j iss now token ≡ some claims
      → j.parse (keyfunc iss) valid_methods now token ≡ some (claims, true)
  unfolding verify
  verify_parse now token claims e = ground arith

  -- A token that verifies carries a signature by HS256 and the issuer's key, by no other method or
  -- key, and has not expired.
  pub verify_sound :
      (now : ℕ) (token : Text) (claims : Claims)
      → verify j iss now token ≡ some claims
      → Signed hs256 iss.signing_key token claims × NotExpired now claims.expires_at
  verify_sound now token claims e =
      let (m, key, listed, given, signed, fresh) =
        lib.parse_sound _ _ now token claims true (verify_parse now token claims e) in
      let (same_m, same_key) = keyfunc_pinned m key listed given in
      (rw (same_m, same_key) at signed, fresh)

  module _ (now : ℕ) (session_id ip_hash ua_hash token : Text) (scopes : List Text) where
    abbrev pub issued : Claims
    issued = claims_of now iss.ttl session_id ip_hash ua_hash scopes

    abbrev pub expiry : ℕ
    expiry = (now + iss.ttl) / second * second

    pub issue_sign :
        (life : ℕ)
        → issue j iss now session_id ip_hash ua_hash scopes ≡ some (token, life)
        → (j.sign iss.signing_key issued ≡ some token) × (life ≡ iss.ttl / second)
    unfolding issue
    issue_sign life e = ground arith

    pub verify_before :
        (later : ℕ)
        → Kept issued
        → j.sign iss.signing_key issued ≡ some token
        → later < expiry
        → verify j iss later token ≡ some issued
    unfolding verify keyfunc claims_of
    verify_before later kept signed h =
        let parsed =
          lib.parse-sign (keyfunc iss) valid_methods later token iss.signing_key issued kept signed
            refl (inl refl) h in
        ground (arith, parsed)

    pub verify_after :
        (later : ℕ)
        → Kept issued
        → j.sign iss.signing_key issued ≡ some token
        → expiry ≤ later
        → verify j iss later token ≡ none
    unfolding claims_of
    verify_after later kept signed h = elim (Option-cases (verify j iss later token)) [
      | inl e ↦ e
      | inr (c, e) ↦
          let (s, fresh) = verify_sound later token c e in
          let same =
            lib.signed_unique _ _ _ _ token c issued s
              (lib.signed_by_sign _ token issued kept signed) in
          let late : later < expiry = subst (λ d. NotExpired later d.expires_at) same fresh in
          absurd (omega arith)
    ]

  -- Where JSON keeps the claims, which it does if their texts are valid UTF-8, an issued token verifies until the whole second in which its lifetime ends, with the claims
  -- that it was issued for, and not from then on; the seconds that `Issue` returns are the lifetime.
  pub verify-issue :
      (now later life : ℕ) (session_id ip_hash ua_hash token : Text) (scopes : List Text)
      → Kept (claims_of now iss.ttl session_id ip_hash ua_hash scopes)
      → issue j iss now session_id ip_hash ua_hash scopes ≡ some (token, life)
      → (verify j iss later token ≡ (
          if ltb later ((now + iss.ttl) / second * second)
          then some (claims_of now iss.ttl session_id ip_hash ua_hash scopes)
          else none))
        × (life ≡ iss.ttl / second)
  verify-issue now later life session_id ip_hash ua_hash token scopes kept e =
      let (signed, length) = issue_sign now session_id ip_hash ua_hash token scopes life e in
      (
        elim (Bool-cases (ltb later (expiry now session_id ip_hash ua_hash token scopes))) [
          | inl h ↦ rw h (
              verify_before now session_id ip_hash ua_hash token scopes later kept signed
                (ltb→lt later _ h))
          | inr h ↦ rw h (
              verify_after now session_id ip_hash ua_hash token scopes later kept signed
                (ground arith))
        ],
        length,
      )

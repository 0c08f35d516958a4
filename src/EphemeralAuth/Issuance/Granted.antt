-- ===== src/EphemeralAuth/Issuance/Granted.antt =====
-- When a token is issued, and what is answered if it is not.
use orcacommon.Common.{
  ℕ, ◌≡◌, ◌≢◌, refl, true, false, none, some, [], ◌∷◌, ◌⊎◌, inl, inr, Bool-cases, Option,
  Option-cases, String,
}
use text.Mathlib.Text.{◌==◌ as str_eq}
use text.Mathlib.TextEquality.{eq_iff}
use orcacommon.Common.Text.{Text, codes}
use orcacommon.Common.Http.{Request, Writer, header_get, http_error, set_header, write}
use orcacommon.EphemeralAuth.External.{Hash, Jwt}
use orcacommon.EphemeralAuth.Token.{Issuer, Config, issue, hash_context_with_key}
use orcacommon.EphemeralAuth.Guest.{guest_session_id_with_key}
use orcacommon.EphemeralAuth.ClientIp.{client_ip}
use orcacommon.EphemeralAuth.Issuance.{
  Scan, Decoded, bot_token, too_large, bad_json, BotVerifier, decode_body, issue_token, verify_bot,
  issuance_handler,
}

-- The token for a session, bound to the address and the user agent of the request.
abbrev pub issued_for : Hash → Jwt → Config → Issuer → ℕ → Request → Text → Option (Text × ℕ)
issued_for h j cfg iss now r session_id =
    issue j iss now session_id
      (hash_context_with_key h iss.signing_key (client_ip r cfg.trust_proxy))
      (hash_context_with_key h iss.signing_key (header_get "User-Agent" r.header)) cfg.scopes

module _ (h : Hash) (j : Jwt) (scan : Text → Scan) (encode_response : Text → ℕ → Text)
    (cfg : Config) (verifier : BotVerifier) (iss : Issuer) (now : ℕ) (r : Request) where
  -- A POST from a guest session, whose bot token the verifier accepts.
  pub record IsHuman (session_id : Text) : Type 0 where
    pub method : r.method ≡ "POST"
    pub session : guest_session_id_with_key h r iss.signing_key ≡ some session_id
    pub bot : Text
    pub body : decode_body scan r.body ≡ bot_token bot
    pub some_bot : bot ≢ []
    pub passed : verifier bot (client_ip r cfg.trust_proxy) ≡ some true

  -- The reasons to refuse, each with its status.
  pub data Refused : ℕ → Type 0 where
    wrong_method : {code : ℕ} → r.method ≢ "POST" → code ≡ 405 → Refused code
    no_session :
        {code : ℕ}
        → guest_session_id_with_key h r iss.signing_key ≡ none
        → code ≡ 401
        → Refused code
    large_body : {code : ℕ} → decode_body scan r.body ≡ too_large → code ≡ 413 → Refused code
    bad_body : {code : ℕ} → decode_body scan r.body ≡ bad_json → code ≡ 400 → Refused code
    no_bot_token : {code : ℕ} → decode_body scan r.body ≡ bot_token [] → code ≡ 400 → Refused code
    verifier_error :
        {code : ℕ} (bot : Text)
        → decode_body scan r.body ≡ bot_token bot
        → verifier bot (client_ip r cfg.trust_proxy) ≡ none
        → code ≡ 403
        → Refused code
    rejected :
        {code : ℕ} (bot : Text)
        → decode_body scan r.body ≡ bot_token bot
        → verifier bot (client_ip r cfg.trust_proxy) ≡ some false
        → code ≡ 403
        → Refused code
    not_signed :
        {code : ℕ} (session_id : Text)
        → IsHuman session_id
        → issued_for h j cfg iss now r session_id ≡ none
        → code ≡ 500
        → Refused code

  abbrev pub Answered : Writer → Writer → Type 0
  Answered w out =
      ((session_id token : Text) × (life : ℕ) × IsHuman session_id
        × (issued_for h j cfg iss now r session_id ≡ some (token, life))
        × (out
            ≡ write (encode_response token life)
                (set_header "Content-Type" (codes "application/json") w)))
      ⊎ ((code : ℕ) × (msg : String) × Refused code × (out ≡ http_error msg code w))

  issue_token_cases :
      (w : Writer) (session_id : Text)
      → IsHuman session_id
      → Answered w (
          issue_token h j scan encode_response cfg verifier iss now session_id
            (client_ip r cfg.trust_proxy)
            r
            w)
  unfolding issue_token
  issue_token_cases w session_id human =
      elim (Option-cases (issued_for h j cfg iss now r session_id)) [
        | inl e ↦ rw (e, issue_token) (inr (500, _, not_signed session_id human e refl, refl))
        | inr ((token, life), e) ↦
            rw (e, issue_token) (inl (session_id, token, life, human, e, refl))
      ]

  verify_bot_cases :
      (w : Writer) (session_id bot : Text)
      → r.method ≡ "POST"
      → guest_session_id_with_key h r iss.signing_key ≡ some session_id
      → decode_body scan r.body ≡ bot_token bot
      → bot ≢ []
      → Answered w (verify_bot h j scan encode_response cfg verifier iss now session_id bot r w)
  unfolding verify_bot
  verify_bot_cases w session_id bot method session body some_bot =
      elim (Option-cases (verifier bot (client_ip r cfg.trust_proxy))) [
        | inl e ↦ rw (e, verify_bot) (inr (403, _, verifier_error bot body e refl, refl))
        | inr (false, e) ↦ rw (e, verify_bot) (inr (403, _, rejected bot body e refl, refl))
        | inr (true, e) ↦
            rw (e, verify_bot)
              (issue_token_cases w session_id (record {
                method = method;
                session = session;
                bot = bot;
                body = body;
                some_bot = some_bot;
                passed = e;
              }))
      ]

  decoded_cases :
      (w : Writer) (session_id : Text) (d : Decoded)
      → str_eq r.method "POST" ≡ true
      → guest_session_id_with_key h r iss.signing_key ≡ some session_id
      → decode_body scan r.body ≡ d
      → Answered w (issuance_handler h j scan encode_response cfg verifier iss now r w)
  unfolding issuance_handler
  decoded_cases w sid too_large m s e =
      rw (m, s, e, issuance_handler) (inr (413, _, large_body e refl, refl))
  decoded_cases w sid bad_json m s e =
      rw (m, s, e, issuance_handler) (inr (400, _, bad_body e refl, refl))
  decoded_cases w sid (bot_token []) m s e =
      rw (m, s, e, issuance_handler) (inr (400, _, no_bot_token e refl, refl))
  decoded_cases w sid (bot_token (c ∷ t)) m s e =
      rw (m, s, e, issuance_handler)
        (verify_bot_cases w sid (c ∷ t) ((eq_iff r.method "POST").0 m) s e (λ n. cc))

  -- A token is issued exactly for a POST from a guest session whose bot token the verifier accepts:
  -- any error or rejection of the verifier is refused. It is bound to the session, the address and
  -- the user agent of the request. Each refusal has its status, and nothing else is answered.
  pub issuance_answers :
      (w : Writer) → Answered w (issuance_handler h j scan encode_response cfg verifier iss now r w)
  unfolding issuance_handler
  issuance_answers w = elim (Bool-cases (str_eq r.method "POST")) [
    | inr e ↦
        rw (e, issuance_handler)
          (inr (405, _, wrong_method (λ m. cc (e, (eq_iff r.method "POST").1 m)) refl, refl))
    | inl m ↦ elim (Option-cases (guest_session_id_with_key h r iss.signing_key)) [
      | inl e ↦ rw (m, e, issuance_handler) (inr (401, _, no_session e refl, refl))
      | inr (sid, e) ↦ decoded_cases w sid _ m e refl
    ]
  ]

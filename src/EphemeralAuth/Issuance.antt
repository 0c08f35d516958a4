-- ===== src/EphemeralAuth/Issuance.antt =====
-- ephemeralauth/issuance.go: the endpoint that issues tokens. The bot verifier (botverifier.go) is a
-- function of the bot token and the address, `none` for an error. Package encoding/json is a
-- parameter: `scan` tells what the decoder finds in the bytes that it can read, and
-- `encode_response` is the body of a response.
pub mod Granted
use orcacommon.Common.{
  ℕ, ltb, if◌then◌else◌, Bool, true, false, not, Option, none, some, List, [], ◌∷◌, String, length,
  is_empty,
}
use text.Mathlib.Text.{◌==◌ as str_eq}
use orcacommon.Common.Text.{Text, codes, read_limited}
use orcacommon.Common.Http.{Request, Writer, header_get, http_error, set_header, write}
use orcacommon.EphemeralAuth.External.{Hash, Jwt}
use orcacommon.EphemeralAuth.Token.{Issuer, Config, issue, hash_context_with_key}
use orcacommon.EphemeralAuth.Guest.{guest_session_id_with_key}
use orcacommon.EphemeralAuth.ClientIp.{client_ip}

-- What the decoder finds: a request with its bot token (empty if the field is missing), bytes that
-- begin no JSON value of the type, or the beginning of a value that needs more bytes.
pub data Scan : Type 0 where
  request : Text → Scan
  malformed : Scan
  incomplete : Scan

pub data Decoded : Type 0 where
  bot_token : Text → Decoded
  too_large : Decoded
  bad_json : Decoded

abbrev pub body_limit : ℕ
body_limit = 1024

abbrev pub BotVerifier : Type 0
BotVerifier = Text → Text → Option Bool

-- `Decode` behind `http.MaxBytesReader`: the bytes after the limit are an error if they are needed.
unfoldable pub decode_body : (Text → Scan) → Text → Decoded
decode_body scan body = elim (scan (read_limited body_limit body)) [
  | request token ↦ bot_token token
  | malformed ↦ bad_json
  | incomplete ↦ if ltb body_limit (length body) then too_large else bad_json
]

module _ (h : Hash) (j : Jwt) (scan : Text → Scan) (encode_response : Text → ℕ → Text)
    (cfg : Config) (verifier : BotVerifier) (iss : Issuer) (now : ℕ) where
  -- From the answer of the verifier on.
  unfoldable pub issue_token : Text → Text → Request → Writer → Writer
  issue_token session_id remote_ip r w =
      let ip_hash = hash_context_with_key h iss.signing_key remote_ip in
      let ua_hash = hash_context_with_key h iss.signing_key (header_get "User-Agent" r.header) in
      elim (issue j iss now session_id ip_hash ua_hash cfg.scopes) [
        | none ↦ http_error "internal server error" 500 w
        | some (token, expires_in) ↦
            write (encode_response token expires_in)
              (set_header "Content-Type" (codes "application/json") w)
      ]

  unfoldable pub verify_bot : Text → Text → Request → Writer → Writer
  verify_bot session_id token r w =
      let remote_ip = client_ip r cfg.trust_proxy in
      elim (verifier token remote_ip) [
        | none ↦ http_error "forbidden: bot verification failed" 403 w
        | some passed ↦
            if not passed
            then http_error "forbidden: bot verification failed" 403 w
            else issue_token session_id remote_ip r w
      ]

  -- The handler that `IssuanceHandler` makes.
  unfoldable pub issuance_handler : Request → Writer → Writer
  issuance_handler r w =
      if not (str_eq r.method "POST")
      then http_error "method not allowed" 405 w
      else elim (guest_session_id_with_key h r iss.signing_key) [
        | none ↦ http_error "unauthorized: no valid guest session" 401 w
        | some session_id ↦ elim (decode_body scan r.body) [
          | too_large ↦ http_error "request body too large" 413 w
          | bad_json ↦ http_error "bad request: invalid JSON" 400 w
          | bot_token token ↦
              if is_empty token
              then http_error "bad request: bot_token required" 400 w
              else verify_bot session_id token r w
        ]
      ]

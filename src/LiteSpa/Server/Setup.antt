-- ===== src/LiteSpa/Server/Setup.antt =====
-- litespaserver/serve.go: making a server, the operations of its owner, and the handlers that it
-- exposes. `none` is the panic of an invalid frontend name or an empty signing key.
use orcacommon.Common.{
  ℕ, if◌then◌else◌, Bool, true, false, Option, none, some, List, [], is_empty, ◌>>=◌,
}
use orcacommon.Common.Text.{Text, codes}
use orcacommon.Common.Http.{Request, Writer, Handler}
use orcacommon.EphemeralAuth.External.{Hash, Jwt}
use orcacommon.EphemeralAuth.Token.{Config, config_issuer, derive_key}
use orcacommon.EphemeralAuth.Guest.{guest_session}
use orcacommon.EphemeralAuth.Issuance.{BotVerifier, Scan, issuance_handler}
use orcacommon.EphemeralAuth.Protect.{protect}
use orcacommon.EphemeralAuth.Turnstile.{TurnstileVerifier}
use orcacommon.LiteSpa.Csp.{CspConfig}
use orcacommon.LiteSpa.Dao.{Db}
use orcacommon.LiteSpa.Static.{new_static_retriever}
use orcacommon.LiteSpa.Version.{VersionConfig, new_manager, force_refresh}
use orcacommon.LiteSpa.Server.{Fs, Server, Env, serve_root_inner}

-- `Config` of litespaserver.go; the fields of the version manager are a record of their own.
pub record ServerConfig : Type 0 where
  pub version : VersionConfig
  pub static_paths : List Text
  pub csp : CspConfig
  pub embedded_content : Option Fs
  pub public_auth : Option Config

-- `resolveEmbedded`.
unfoldable pub resolve_embedded : Option Fs → Option Fs
resolve_embedded none = none
resolve_embedded (some f) = if f.opens (codes "index.html") then some f else none

abbrev pub turnstile_endpoint : Text
turnstile_endpoint = codes "https://challenges.cloudflare.com/turnstile/v0/siteverify"

-- `NewTurnstileVerifier`; the client is the parameter of the verifier's functions.
unfoldable pub new_turnstile_verifier : Text → TurnstileVerifier
new_turnstile_verifier secret = record { secret = secret; endpoint = turnstile_endpoint }

-- The part of `NewServer` that wires ephemeral auth.
unfoldable pub wire_public_auth : Hash → Config → Server → Option Server
wire_public_auth h auth s = if is_empty auth.signing_key then some s else do
  key ← derive_key h auth.signing_key
  iss ← config_issuer h auth
  some (record s {
    public_auth_cfg = some auth;
    guest_key = some key;
    issuer = some iss;
    issuance =
        if is_empty auth.turnstile_secret
        then none
        else some (new_turnstile_verifier auth.turnstile_secret);
  })

abbrev pub is_given {ℓ} : {A : Type ℓ} → Option A → Bool
is_given none = false
is_given (some _) = true

-- `NewServer`; `pool` is whether there is one.
unfoldable pub new_server : Hash → Db → Bool → ServerConfig → Option Server
new_server h db pool cfg = do
  let embedded = resolve_embedded cfg.embedded_content
  manager ← new_manager db pool cfg.version (is_given embedded)
  let s : Server = record {
    cdn = cfg.version.cdn_prefix;
    embedded = embedded;
    csp = cfg.csp;
    manager = manager;
    static = new_static_retriever cfg.static_paths;
    index_cache = [];
    guest_key = none;
    issuer = none;
    issuance = none;
    public_auth_cfg = none;
  }
  elim cfg.public_auth [ none ↦ some s | some auth ↦ wire_public_auth h auth s ]

-- `RefreshVersion`.
unfoldable pub refresh_version : ℕ → Server → Server
refresh_version now s = record s { manager = force_refresh now s.manager }

-- `FlushCache`.
unfoldable pub flush_cache : Server → Server
flush_cache s = record s { index_cache = [] }

-- `SetCSP`.
unfoldable pub set_csp : CspConfig → Server → Server
set_csp csp s = flush_cache (record s { csp = csp })

-- `ServeRoot`: `random_id` is what the guest middleware draws.
unfoldable pub serve_root : Hash → Env → Option Text → Handler Server
serve_root h env random_id r (w, s) = elim s.guest_key [
  | none ↦ serve_root_inner env r (w, s)
  | some key ↦ guest_session h key random_id (serve_root_inner env) r (w, s)
]

module _ (h : Hash) (j : Jwt) (s : Server) where
  -- The handler of `PublicAuthHandler`; `none` is nil. `verify` makes a verifier's `Verify`.
  unfoldable pub public_auth_handler :
      (TurnstileVerifier → BotVerifier)
      → (Text → Scan)
      → (Text → ℕ → Text)
      → Option (ℕ → Request → Writer → Writer)
  public_auth_handler verify scan encode_response = do
    auth ← s.public_auth_cfg
    iss ← s.issuer
    tv ← s.issuance
    some (λ now. issuance_handler h j scan encode_response auth (verify tv) iss now)

  -- `PublicAuthMiddleware`.
  unfoldable pub public_auth_middleware : {S : Type 0} → Option (ℕ → Handler S → Handler S)
  public_auth_middleware = do
    auth ← s.public_auth_cfg
    iss ← s.issuer
    some (λ now next. protect h j iss auth.trust_proxy auth.required_scopes now next)

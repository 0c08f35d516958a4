-- ===== src/LiteSpa/Server/Wiring.antt =====
-- How a new server is wired: its caches, and one key for the guest sessions and the tokens.
use orcacommon.Common.{
  ◌≡◌, ◌≢◌, refl, if◌then◌else◌, Bool, Option, none, some, [], is_empty, arith, Bool-cases,
  Option-cases, inl, inr, ◌⊎◌, sym, ap, >>=-eq-some, is_empty_sound,
}
use orcacommon.Common.Text.{Text}
use orcacommon.EphemeralAuth.External.{Hash}
use orcacommon.EphemeralAuth.Token.{Config, Issuer, config_issuer, new_issuer, derive_key}
use orcacommon.LiteSpa.Dao.{Db}
use orcacommon.LiteSpa.Static.{new_static_retriever}
use orcacommon.LiteSpa.Version.{Manager, new_manager}
use orcacommon.LiteSpa.Server.{Server}
use orcacommon.LiteSpa.Server.Setup.{
  ServerConfig, resolve_embedded, new_turnstile_verifier, wire_public_auth, is_given, new_server,
}

-- Without ephemeral auth.
abbrev pub IsOpen : Server → Type 0
IsOpen s =
    (s.guest_key ≡ none) × (s.issuer ≡ none) × (s.issuance ≡ none) × (s.public_auth_cfg ≡ none)

-- With it: the guest sessions are signed by the key of the tokens, and the endpoint for tokens is
-- there exactly if there is a secret for its verifier.
abbrev pub IsGuarded : Hash → Config → Server → Type 0
IsGuarded h auth s =
    (iss : Issuer) × (config_issuer h auth ≡ some iss)
    × (s.issuer ≡ some iss)
    × (s.guest_key ≡ some iss.signing_key)
    × (s.public_auth_cfg ≡ some auth)
    × (s.issuance ≡ (
        if is_empty auth.turnstile_secret
        then none
        else some (new_turnstile_verifier auth.turnstile_secret)))

abbrev pub IsWired : Hash → Option Config → Server → Type 0
IsWired h none s = IsOpen s
IsWired h (some auth) s =
    ((auth.signing_key ≡ []) × IsOpen s) ⊎ ((auth.signing_key ≢ []) × IsGuarded h auth s)

issuer_key :
    (h : Hash) (auth : Config) (key : Text) (iss : Issuer)
    → derive_key h auth.signing_key ≡ some key
    → config_issuer h auth ≡ some iss
    → iss.signing_key ≡ key
unfolding config_issuer new_issuer
issuer_key h auth key iss d e = ground arith

abbrev guarded_server : Config → Text → Issuer → Server → Server
guarded_server auth key iss s = record s {
  public_auth_cfg = some auth;
  guest_key = some key;
  issuer = some iss;
  issuance =
      if is_empty auth.turnstile_secret
      then none
      else some (new_turnstile_verifier auth.turnstile_secret);
}

guarded :
    (h : Hash) (auth : Config) (key : Text) (iss : Issuer) (s s' : Server)
    → derive_key h auth.signing_key ≡ some key
    → config_issuer h auth ≡ some iss
    → some (guarded_server auth key iss s) ≡ some s'
    → IsGuarded h auth s'
guarded h auth key iss s s' d c e =
    let same : guarded_server auth key iss s ≡ s' = cc in
    rw (← same) (iss, c, refl, ap some (sym (issuer_key h auth key iss d c)), refl, refl)

unguarded : (s s' : Server) → IsOpen s → some s ≡ some s' → IsOpen s'
unguarded s s' bare e = let same : s ≡ s' = cc in rw (← same) bare

wire_public_auth-IsWired :
    (h : Hash) (auth : Config) (s s' : Server)
    → IsOpen s
    → wire_public_auth h auth s ≡ some s'
    → IsWired h (some auth) s'
unfolding wire_public_auth
wire_public_auth-IsWired h auth s s' bare e = elim (Bool-cases (is_empty auth.signing_key)) [
  | inl empty ↦ inl (
    is_empty_sound auth.signing_key empty,
    unguarded s s' bare (rw (empty, wire_public_auth) at e),
  )
  | inr full ↦
      let (key, d, rest) =
        >>=-eq-some (derive_key h auth.signing_key) _ (rw (full, wire_public_auth) at e) in
      let (iss, c, done) = >>=-eq-some (config_issuer h auth) _ rest in
      inr (λ n. cc (full, ap is_empty n), guarded h auth key iss s s' d c done)
]

-- The server before ephemeral auth is wired.
first_server : (cfg : ServerConfig) (m : Manager) → Server
first_server cfg m = record {
  cdn = cfg.version.cdn_prefix;
  embedded = resolve_embedded cfg.embedded_content;
  csp = cfg.csp;
  manager = m;
  static = new_static_retriever cfg.static_paths;
  index_cache = [];
  guest_key = none;
  issuer = none;
  issuance = none;
  public_auth_cfg = none;
}

new_server_steps :
    (h : Hash) (db : Db) (pool : Bool) (cfg : ServerConfig) (s : Server)
    → new_server h db pool cfg ≡ some s
    → (m : Manager) × (new_manager db pool cfg.version
          (is_given (resolve_embedded cfg.embedded_content))
        ≡ some m)
      × (elim cfg.public_auth [
        | none ↦ some (first_server cfg m)
        | some auth ↦ wire_public_auth h auth (first_server cfg m)
      ]
          ≡ some s)
unfolding new_server first_server
new_server_steps h db pool cfg s e =
    >>=-eq-some (new_manager db pool cfg.version (is_given (resolve_embedded cfg.embedded_content)))
      _ e

-- A server that is made has ephemeral auth if it is configured with a key: then the key of the guest
-- sessions is that of the issuer, and tokens are issued if there is a secret for their verifier.
pub new_server-IsWired :
    (h : Hash) (db : Db) (pool : Bool) (cfg : ServerConfig) (s : Server)
    → new_server h db pool cfg ≡ some s
    → IsWired h cfg.public_auth s
unfolding first_server
new_server-IsWired h db pool cfg s e =
    let (m, made, rest) = new_server_steps h db pool cfg s e in
    elim (Option-cases cfg.public_auth) [
      | inl none_e ↦
          rw none_e (unguarded (first_server cfg m) s (refl, refl, refl, refl) (rw none_e at rest))
      | inr (auth, some_e) ↦ rw some_e (
          wire_public_auth-IsWired h auth (first_server cfg m) s (refl, refl, refl, refl)
            (rw some_e at rest))
    ]

abbrev IsBlank : Server → Type 0
IsBlank s = (s.index_cache ≡ []) × (s.static.file_cache ≡ [])

wire_public_auth-IsBlank :
    (h : Hash) (auth : Config) (s s' : Server)
    → IsBlank s
    → wire_public_auth h auth s ≡ some s'
    → IsBlank s'
unfolding wire_public_auth
wire_public_auth-IsBlank h auth s s' blank e = elim (Bool-cases (is_empty auth.signing_key)) [
  | inl empty ↦ let same : s ≡ s' = cc (rw (empty, wire_public_auth) at e) in rw (← same) blank
  | inr full ↦
      let (key, d, rest) =
        >>=-eq-some (derive_key h auth.signing_key) _ (rw (full, wire_public_auth) at e) in
      let (iss, c, done) = >>=-eq-some (config_issuer h auth) _ rest in
      let same : guarded_server auth key iss s ≡ s' = cc done in rw (← same) blank
]

-- A new server has cached nothing.
pub new_server_blank :
    (h : Hash) (db : Db) (pool : Bool) (cfg : ServerConfig) (s : Server)
    → new_server h db pool cfg ≡ some s
    → (s.index_cache ≡ []) × (s.static.file_cache ≡ [])
unfolding first_server new_static_retriever
new_server_blank h db pool cfg s e =
    let (m, made, rest) = new_server_steps h db pool cfg s e in
    elim (Option-cases cfg.public_auth) [
      | inl none_e ↦
          let same : first_server cfg m ≡ s = cc (rw none_e at rest) in rw (← same) (refl, refl)
      | inr (auth, some_e) ↦
          wire_public_auth-IsBlank h auth (first_server cfg m) s (refl, refl) (rw some_e at rest)
    ]

-- ===== src/LiteSpa/Tests/Witnesses.antt =====
-- The theorems about package litespaserver at the samples.
use orcacommon.Common.{
  ◌↔◌, ℕ, ◌+◌, ◌≡◌, refl, true, false, Option, none, some, [], ◌∷◌, ◌++◌, arith, inl, ◌⊎◌,
}
use mathlib.Core.Option
use orcacommon.Common.Text.{Text, codes, trim_space}
use orcacommon.Common.Word.{mul_word}
use orcacommon.Common.Http.{Handler, fresh}
use orcacommon.EphemeralAuth.Base64.{encode}
use orcacommon.EphemeralAuth.Token.{derive_key, config_issuer, new_issuer, clamp_ttl, config_ttl}
use orcacommon.EphemeralAuth.Guest.{guest_cookie, guest_session_id_with_key, sign_guest_cookie}
use orcacommon.EphemeralAuth.Tests as Auth
use orcacommon.EphemeralAuth.Tests.Samples.{
  sample_hash, sample_hash-IsHash, sample_jwt, SignedSample, IsPlain, samples, sample_jwt-IsJwt,
  only_token,
}
use orcacommon.LiteSpa.Dao.{version_key}
use orcacommon.LiteSpa.Dao.Keys.{IsKey, version_key_iff}
use orcacommon.LiteSpa.Static.{file_url, download, retrieve, new_static_retriever, non_empty}
use orcacommon.LiteSpa.Static.Retrieve.{IsConsistent, retrieve-IsConsistent}
use orcacommon.LiteSpa.Version.{Manager, provider_version, set_version, notify_listeners}
use orcacommon.LiteSpa.Version.Accept.{IsInstalled, IsRefused, set_version_cases}
use orcacommon.LiteSpa.Version.Staleness.{IsRecent, start, version_IsRecent}
use orcacommon.LiteSpa.Server.{Server, serve_root_inner}
use orcacommon.LiteSpa.Server.Reference.{reference}
use orcacommon.LiteSpa.Server.Serving.{IsAs, IsServing, serve_root_inner-reference}
use orcacommon.LiteSpa.Server.Reachable as Reach
use orcacommon.LiteSpa.Server.Setup.{
  ServerConfig, new_server, wire_public_auth, resolve_embedded, serve_root, public_auth_middleware,
}
use orcacommon.LiteSpa.Server.Wiring.{IsWired, new_server-IsWired}
use orcacommon.LiteSpa.Server.Visit.{serve_root_session, visitor_admitted}
use orcacommon.LiteSpa.Tests.{
  cdn, sample_get, env, csp, version_config, empty_db, seeded_db, manager, server, visit, run,
}

blank : IsServing sample_get server
unfolding run
blank = record {
  index_bounded = omega arith;
  index_served = λ v body e. cc;
  static_served = record { bounded = omega arith; served = λ url body e. cc };
}

serve_root_inner-reference_example :
    IsAs sample_get
      (reference env server (visit "/"))
      (serve_root_inner env (visit "/") (fresh, server))
serve_root_inner-reference_example =
    serve_root_inner-reference env (visit "/") fresh server blank (refl, refl)

set_version_cases_example :
    ((m' : Manager) × (set_version sample_get 9 ((λ n. (n + 1, true)) ∷ []) (codes "v1") manager 0
        ≡ (true, m', notify_listeners ((λ n. (n + 1, true)) ∷ []) 0))
      × IsInstalled sample_get manager (codes "v1") m')
    ⊎ ((set_version sample_get 9 ((λ n. (n + 1, true)) ∷ []) (codes "v1") manager 0
          ≡ (false, manager, 0))
        × IsRefused sample_get manager (codes "v1"))
set_version_cases_example =
    set_version_cases sample_get 9 ((λ n. (n + 1, true)) ∷ []) (codes "v1") manager 0

version_IsRecent_example :
    IsRecent
      (λ t. seeded_db)
      manager.key
      9
      ((provider_version seeded_db manager.key 9 manager.provider).0)
version_IsRecent_example =
    version_IsRecent (λ t. seeded_db) manager.key 9 manager.provider (start 5) (omega arith)

retrieve-IsConsistent_example :
    ((retrieve sample_get 0 cdn (codes "v1") (codes "/a.txt") server.static).0
      ≡ download sample_get (file_url cdn (codes "v1") (codes "/a.txt")))
    × IsConsistent sample_get
        (retrieve sample_get 0 cdn (codes "v1") (codes "/a.txt") server.static).1
retrieve-IsConsistent_example =
    retrieve-IsConsistent sample_get 0 cdn (codes "v1") (codes "/a.txt") server.static
      blank.static_served

abbrev drawn : Option Text
drawn = some (7 ∷ 255 ∷ [])

version_key_iff_example :
    (version_key (codes " shop ") ≡ some (codes "frontend.version.shop"))
    ↔ IsKey (trim_space (codes " shop ")) (codes "frontend.version.shop")
version_key_iff_example = version_key_iff (codes " shop ") (codes "frontend.version.shop")

-- A server with ephemeral auth.
abbrev server_config : ServerConfig
server_config = record {
  version = version_config;
  static_paths = codes "/a.txt" ∷ [];
  csp = csp;
  embedded_content = none;
  public_auth = some Auth.config;
}

abbrev guarded_server : Server
guarded_server = record server {
  guest_key = some Auth.key;
  issuer = some Auth.issuer_of_config;
  public_auth_cfg = some Auth.config;
}

new_server_test : new_server sample_hash empty_db true server_config ≡ some guarded_server
unfolding run new_server wire_public_auth derive_key config_issuer new_issuer resolve_embedded
    new_static_retriever clamp_ttl non_empty config_ttl mul_word
new_server_test = refl

new_server-IsWired_example : IsWired sample_hash (some Auth.config) guarded_server
new_server-IsWired_example =
    new_server-IsWired sample_hash empty_db true server_config guarded_server new_server_test

Reached-IsServing_example :
    IsServing sample_get (serve_root_inner env (visit "/") (fresh, guarded_server)).1
Reached-IsServing_example =
    Reach.Reached-IsServing sample_hash empty_db true server_config sample_get
      (serve_root_inner env (visit "/") (fresh, guarded_server)).1
      (Reach.served env (visit "/") fresh refl (refl, refl) (Reach.made new_server_test))

abbrev issuing_server : Server
issuing_server = record guarded_server { issuer = some Auth.issuer }

serve_root_session_example :
    ((serve_root sample_hash env
        (some Auth.visitor_id)
        (visit "/")
        (fresh, guarded_server)).0.cookies
      ≡ [] ++ guest_cookie (sign_guest_cookie sample_hash Auth.visitor_id Auth.key) ∷ [])
    × (guest_session_id_with_key sample_hash Auth.with_token Auth.key
        ≡ some (encode Auth.visitor_id))
unfolding run guest_session_id_with_key sign_guest_cookie encode
serve_root_session_example =
    serve_root_session sample_hash env Auth.visitor_id (visit "/") Auth.with_token fresh
      guarded_server Auth.issuer sample_hash-IsHash (omega arith) refl refl refl refl

visitor_admitted_example :
    Option.map
      (λ (guard : ℕ → Handler ℕ → Handler ℕ). guard Auth.now Auth.serve Auth.with_token (fresh, 0))
      (public_auth_middleware sample_hash (sample_jwt Auth.key Auth.granted) issuing_server)
    ≡ some (Auth.serve Auth.with_token (fresh, 0))
unfolding Auth.run sign_guest_cookie samples
visitor_admitted_example =
    visitor_admitted sample_hash (sample_jwt Auth.key Auth.granted)
      (SignedSample Auth.key Auth.granted) IsPlain issuing_server Auth.config Auth.issuer
      Auth.visitor_id only_token Auth.now Auth.now 120 Auth.with_token Auth.with_token Auth.serve
      fresh 0 (sample_jwt-IsJwt Auth.key Auth.granted) sample_hash-IsHash (omega arith) refl refl
      refl Auth.issue_test (λ e. cc) refl refl refl refl (inl refl, tt) (omega arith)

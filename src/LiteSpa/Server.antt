-- ===== src/LiteSpa/Server.antt =====
-- litespaserver/serve.go: the server. Requests come one after the other: that concurrent fetches of
-- a page are joined to one is left out. What a request meets is an `Env`.
pub mod Setup
pub mod Wiring
pub mod Reference
pub mod Serving
pub mod Woven
pub mod Policy
pub mod Cookies
pub mod Visit
pub mod Reachable
use text.Mathlib.Text.{◌==◌ as str_eq}
use orcacommon.Common.{
  ℕ, ◌==◌, if◌then◌else◌, Bool, true, false, not, ◌&&◌, Option, none, some, List, [], ◌∷◌, ◌++◌,
  String, is_empty, reverse,
}
use orcacommon.Common.Text.{Text, codes, contains, replace_first, trim_prefix}
use orcacommon.Common.Http.{
  Request, Writer, Handler, header_get, http_error, not_found, set_header, write,
}
use orcacommon.EphemeralAuth.Token.{Config, Issuer}
use orcacommon.EphemeralAuth.Turnstile.{TurnstileVerifier}
use orcacommon.LiteSpa.Cache.{Cache, lookup, put, index_cache_capacity}
use orcacommon.LiteSpa.Csp.{CspConfig, csp_rule, generate_nonce}
use orcacommon.LiteSpa.Fetch.{Get, FetchedVersion, fetch}
use orcacommon.LiteSpa.Static.{StaticRetriever, is_static, retrieve}
use orcacommon.LiteSpa.Version.{Manager, version}

-- An `fs.FS`: which names open, and what `fs.ReadFile` gives, `none` for an error.
pub record Fs : Type 0 where
  pub opens : Text → Bool
  pub read_file : Text → Option Text

pub record Server : Type 0 where
  pub cdn : Text
  pub embedded : Option Fs
  pub csp : CspConfig
  pub manager : Manager
  pub static : StaticRetriever
  pub index_cache : Cache
  -- The key of `guestMiddleware`.
  pub guest_key : Option Text
  pub issuer : Option Issuer
  -- The verifier in `issuanceHandler`.
  pub issuance : Option TurnstileVerifier
  pub public_auth_cfg : Option Config

-- The CDN, pattern matching, `mime.TypeByExtension` (empty if unknown), the time, `rand.Read` of a
-- number of bytes, and the entry that an eviction meets first.
pub record Env : Type 0 where
  pub get : Get
  pub glob : Text → Text → Bool
  pub mime : Text → Text
  pub now : ℕ
  pub random : ℕ → Option Text
  pub choice : ℕ

abbrev pub nonce_length : ℕ
nonce_length = 12

abbrev pub fallback_body : Text
fallback_body = codes "Something unexpected happened - We'll be right back."

-- `path.Ext` of a path that is given from its end; the second text is what has been passed.
ext_of : Text → Text → Text
ext_of [] after = []
ext_of (c ∷ before) after =
    if c == b'/' then [] else if c == b'.' then b'.' ∷ after else ext_of before (c ∷ after)

-- `path.Ext`.
unfoldable pub ext : Text → Text
unfolding ext_of
ext path = ext_of (reverse path) []

-- `injectNonce`.
unfoldable pub inject_nonce : Text → Text → Text
inject_nonce body nonce =
    replace_first body (codes "nonce=\"NONCE\"") (codes "nonce=\"" ++ nonce ++ codes "\"")

-- `setBaseHeaders`.
unfoldable pub set_base_headers : CspConfig → Text → Writer → Writer
set_base_headers csp nonce w =
    let based = set_header "X-Content-Type-Options" (codes "nosniff") (
      set_header "Referrer-Policy" (codes "origin-when-cross-origin") (
        set_header "X-Frame-Options" (codes "SAMEORIGIN") (
          set_header "Content-Type" (codes "text/html")
            (set_header "Cache-Control" (codes "no-store, max-age=0") w)))) in
    if not csp.disable && not csp.disable_append_nonce
    then set_header "Content-Security-Policy" (csp_rule csp nonce) based
    else based

-- `indexLookup` and `indexStore`.
unfoldable pub index_lookup : Text → Server → Option Text
index_lookup version s = lookup version s.index_cache

unfoldable pub index_store : ℕ → Text → Text → Server → Server
index_store choice version body s = record s {
  index_cache = put index_cache_capacity choice version body s.index_cache;
}

-- The embedded file of a path.
unfoldable pub embedded_file : Server → Text → Option Text
embedded_file s path = elim s.embedded [
  | none ↦ none
  | some f ↦ f.read_file (trim_prefix path (codes "/"))
]

unfoldable pub set_content_type : Text → Writer → Writer
set_content_type ct w = if is_empty ct then w else set_header "Content-Type" ct w

unfoldable pub serve_fallback : Writer → Writer
serve_fallback w = write fallback_body (set_header "Content-Type" (codes "text/plain") w)

-- The branch of static files.
unfoldable pub serve_static : Env → Text → Handler Server
serve_static env v r (w, s) = elim (embedded_file s r.path) [
  | some content ↦ (
    write content (
        set_content_type (env.mime (ext (trim_prefix r.path (codes "/"))))
          (set_base_headers s.csp [] w)),
    s,
  )
  | none ↦
      let (result, static) = retrieve env.get env.choice s.cdn v r.path s.static in
      let s' = record s { static = static } in
      elim result [
        | none ↦ (http_error "upstream unavailable" 502 w, s')
        | some body ↦ (write body (set_base_headers s.csp [] w), s')
      ]
]

-- The page from the CDN, after the headers.
unfoldable pub serve_cdn_page : Env → Text → Text → Writer → Server → Writer × Server
serve_cdn_page env v nonce w s = elim (index_lookup v s) [
  | some cached ↦ (write (inject_nonce cached nonce) (set_header "X-fe-version-cache" v w), s)
  | none ↦ elim (fetch env.get s.cdn v) [
    | none ↦ (serve_fallback w, s)
    | some fv ↦ (
      write (inject_nonce fv.content nonce) (set_header "X-fe-version-url" fv.url w),
      index_store env.choice v fv.content s,
    )
  ]
]

-- The branch of the page.
unfoldable pub serve_page : Env → Text → Writer → Server → Writer × Server
serve_page env v w s = elim (generate_nonce (env.random nonce_length)) [
  | none ↦ (http_error "internal server error" 500 w, s)
  | some nonce ↦
      let started = set_header "X-app-version" v (set_base_headers s.csp nonce w) in
      elim s.embedded [
        | some f ↦ elim (f.read_file (codes "index.html")) [
          | none ↦ (serve_fallback started, s)
          | some content ↦ (write (inject_nonce content nonce) started, s)
        ]
        | none ↦ serve_cdn_page env v nonce started s
      ]
]

unfoldable pub serve_version : Env → Text → Handler Server
serve_version env v r (w, s) =
    if not (is_empty (ext r.path)) && is_static env.glob s.static r.path
    then serve_static env v r (w, s)
    else if not (is_empty (ext r.path))
    then (not_found (set_base_headers s.csp [] w), s)
    else serve_page env v w s

abbrev pub wants_json : Request → Bool
wants_json r = contains (header_get "Accept" r.header) (codes "application/json")

-- `serveRootInner`.
unfoldable pub serve_root_inner : Env → Handler Server
serve_root_inner env r (w, s) =
    if wants_json r
    then (not_found w, s)
    else let (v, m) = version env.now s.manager in
      serve_version env v r (w, record s { manager = m })

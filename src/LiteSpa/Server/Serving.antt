-- ===== src/LiteSpa/Server/Serving.antt =====
-- The caches of the server are invisible.
use orcacommon.Common.{
  ℕ, ◌≤◌, ◌≡◌, refl, if◌then◌else◌, not, ◌&&◌, some, [], ◌∷◌, length, is_empty, arith, Bool-cases,
  Option-cases, inl, inr, ◌∙◌,
}
use orcacommon.Common.Text.{Text, codes, trim_prefix}
use orcacommon.Common.Http.{Request, Writer}
use orcacommon.Common.Http.Answers.{
  IsFresh, IsAnswer, IsFresh-set_header, IsAnswer-write, IsAnswer-http_error, IsAnswer-not_found,
}
use orcacommon.LiteSpa.Cache.{lookup, index_cache_capacity}
use orcacommon.LiteSpa.Cache.Laws.{length-put-le, lookup-put}
use orcacommon.LiteSpa.Csp.{CspConfig, csp_rule, generate_nonce}
use orcacommon.LiteSpa.Fetch.{Get, FetchedVersion, fetch}
use orcacommon.LiteSpa.Static.{StaticRetriever, is_static, download, file_url}
use orcacommon.LiteSpa.Static.Retrieve.{IsConsistent, retrieve-IsConsistent}
use orcacommon.LiteSpa.Version.{version}
use orcacommon.LiteSpa.Server.{
  Server, Env, nonce_length, fallback_body, ext, set_base_headers, index_lookup, index_store,
  embedded_file, set_content_type, serve_fallback, serve_static, serve_cdn_page, serve_page,
  serve_version, wants_json, serve_root_inner,
}
use orcacommon.LiteSpa.Server.Reference.{
  cdn_page, page, file, page_answer, file_answer, error_text, reference,
}

-- Both caches are within their capacities and hold what the CDN gives.
pub record IsServing (get : Get) (s : Server) : Type 0 where
  pub index_bounded : length s.index_cache ≤ index_cache_capacity
  pub index_served :
      (v body : Text) → lookup v s.index_cache ≡ some body → cdn_page get s.cdn v ≡ some body
  pub static_served : IsConsistent get s.static

-- A response as the reference has it, from a server whose caches are consistent.
abbrev pub IsAs : Get → ℕ × Text → Writer × Server → Type 0
IsAs get (code, text) (w, s) = IsAnswer code text w × IsServing get s

pub IsFresh-set_base_headers :
    (csp : CspConfig) (nonce : Text) (w : Writer)
    → IsFresh w
    → IsFresh (set_base_headers csp nonce w)
unfolding set_base_headers
IsFresh-set_base_headers csp nonce w f =
    let headers = IsFresh-set_header "X-Content-Type-Options" _ _ (
      IsFresh-set_header "Referrer-Policy" _ _ (
        IsFresh-set_header "X-Frame-Options" _ _
          (IsFresh-set_header "Content-Type" _ _ (IsFresh-set_header "Cache-Control" _ w f)))) in
    elim (Bool-cases (not csp.disable && not csp.disable_append_nonce)) [
      | inl e ↦
          rw (e, set_base_headers)
            (IsFresh-set_header "Content-Security-Policy" (csp_rule csp nonce) _ headers)
      | inr e ↦ rw (e, set_base_headers) headers
    ]

IsFresh-set_content_type : (ct : Text) (w : Writer) → IsFresh w → IsFresh (set_content_type ct w)
unfolding set_content_type
IsFresh-set_content_type [] w f = f
IsFresh-set_content_type (c ∷ ct) w f = IsFresh-set_header "Content-Type" (c ∷ ct) w f

IsAnswer-serve_fallback : (w : Writer) → IsFresh w → IsAnswer 200 fallback_body (serve_fallback w)
unfolding serve_fallback
IsAnswer-serve_fallback w f =
    IsAnswer-write fallback_body _ (IsFresh-set_header "Content-Type" _ w f)

cdn_page-fetch :
    (get : Get) (cdn v : Text) (fv : FetchedVersion)
    → fetch get cdn v ≡ some fv
    → cdn_page get cdn v ≡ some fv.content
cdn_page-fetch get cdn v fv e = rw (e, cdn_page) refl

index_store-IsServing :
    (get : Get) (choice : ℕ) (v : Text) (fv : FetchedVersion) (s : Server)
    → IsServing get s
    → fetch get s.cdn v ≡ some fv
    → IsServing get (index_store choice v fv.content s)
unfolding index_store
index_store-IsServing get choice v fv s inv e = record {
  index_bounded =
      length-put-le index_cache_capacity choice v fv.content s.index_cache (omega arith)
        inv.index_bounded;
  index_served = λ u b h.
      elim (lookup-put index_cache_capacity choice v fv.content u b s.index_cache h) [
        | inl (same, is) ↦ rw (same, is) (cdn_page-fetch get s.cdn v fv e)
        | inr old ↦ inv.index_served u b old
      ];
  static_served = inv.static_served;
}

-- The page from the CDN, cached or not.
serve_cdn_page_lem :
    (env : Env) (v nonce : Text) (w : Writer) (s : Server)
    → IsServing env.get s
    → IsFresh w
    → IsAs env.get
        (page_answer (some nonce) (cdn_page env.get s.cdn v))
        (serve_cdn_page env v nonce w s)
unfolding serve_cdn_page index_lookup
serve_cdn_page_lem env v nonce w s inv f = elim (Option-cases (lookup v s.index_cache)) [
  | inr (cached, e) ↦
      rw (e, serve_cdn_page, index_lookup, inv.index_served v cached e)
        (IsAnswer-write _ _ (IsFresh-set_header "X-fe-version-cache" v w f), inv)
  | inl e ↦ elim (Option-cases (fetch env.get s.cdn v)) [
    | inl miss ↦
        rw (e, serve_cdn_page, index_lookup, miss, cdn_page) (IsAnswer-serve_fallback w f, inv)
    | inr (fv, got) ↦
        rw (e, serve_cdn_page, index_lookup, got, cdn_page)
          (
            IsAnswer-write _ _ (IsFresh-set_header "X-fe-version-url" fv.url w f),
            index_store-IsServing env.get env.choice v fv s inv got,
          )
  ]
]

-- A page, whatever the mode.
serve_page_lem :
    (env : Env) (v : Text) (w : Writer) (s : Server)
    → IsServing env.get s
    → IsFresh w
    → IsAs env.get
        (page_answer (generate_nonce (env.random nonce_length)) (page env s v))
        (serve_page env v w s)
unfolding serve_page
serve_page_lem env v w s inv f = elim (Option-cases (generate_nonce (env.random nonce_length))) [
  | inl dry ↦ rw (dry, serve_page) (IsAnswer-http_error "internal server error" 500 w f, inv)
  | inr (nonce, drawn) ↦
      let started =
        IsFresh-set_header "X-app-version" v _ (IsFresh-set_base_headers s.csp nonce w f) in
      elim (Option-cases s.embedded) [
        | inl cdn ↦ rw (drawn, serve_page, cdn) (serve_cdn_page_lem env v nonce _ s inv started)
        | inr (fs, embedded) ↦ elim (Option-cases (fs.read_file (codes "index.html"))) [
          | inl missing ↦
              rw (drawn, serve_page, embedded, missing) (IsAnswer-serve_fallback _ started, inv)
          | inr (text, found) ↦
              rw (drawn, serve_page, embedded, found) (IsAnswer-write _ _ started, inv)
        ]
      ]
]

static-IsServing :
    (get : Get) (s : Server) (r : StaticRetriever)
    → IsServing get s
    → IsConsistent get r
    → IsServing get (record s { static = r })
static-IsServing get s r inv c = record {
  index_bounded = inv.index_bounded;
  index_served = inv.index_served;
  static_served = c;
}

-- A static file, embedded, cached or from the CDN.
serve_static_lem :
    (env : Env) (v : Text) (r : Request) (w : Writer) (s : Server)
    → IsServing env.get s
    → IsFresh w
    → IsAs env.get (file_answer (file env s v r.path)) (serve_static env v r (w, s))
unfolding serve_static
serve_static_lem env v r w s inv f =
    let headers = IsFresh-set_base_headers s.csp [] w f in
    let ct = env.mime (ext (trim_prefix r.path (codes "/"))) in
    let (same, consistent) =
      retrieve-IsConsistent env.get env.choice s.cdn v r.path s.static inv.static_served in
    let inv' = static-IsServing env.get s _ inv consistent in
    elim (Option-cases (embedded_file s r.path)) [
      | inr (text, found) ↦
          rw (found, serve_static, file)
            (
              IsAnswer-write text (set_content_type ct (set_base_headers s.csp [] w))
                  (IsFresh-set_content_type ct (set_base_headers s.csp [] w) headers),
              inv,
            )
      | inl absent ↦ elim (Option-cases (download env.get (file_url s.cdn v r.path))) [
        | inl failed ↦
            rw (absent, serve_static, file, same ∙ failed, failed)
              (IsAnswer-http_error "upstream unavailable" 502 w f, inv')
        | inr (text, got) ↦
            rw (absent, serve_static, file, same ∙ got, got) (IsAnswer-write text _ headers, inv')
      ]
    ]

serve_version_lem :
    (env : Env) (v : Text) (r : Request) (w : Writer) (s : Server)
    → IsServing env.get s
    → IsFresh w
    → IsAs env.get
        (if is_empty (ext r.path)
          then page_answer (generate_nonce (env.random nonce_length)) (page env s v)
          else if is_static env.glob s.static r.path
          then file_answer (file env s v r.path)
          else (404, error_text "404 page not found"))
        (serve_version env v r (w, s))
unfolding serve_version
serve_version_lem env v r w s inv f = elim (Bool-cases (is_empty (ext r.path))) [
  | inl bare ↦ rw (bare, serve_version) (serve_page_lem env v w s inv f)
  | inr some_ext ↦ elim (Bool-cases (is_static env.glob s.static r.path)) [
    | inl listed ↦ rw (some_ext, listed, serve_version) (serve_static_lem env v r w s inv f)
    | inr unlisted ↦
        rw (some_ext, unlisted, serve_version)
          (
            IsAnswer-not_found (set_base_headers s.csp [] w)
                (IsFresh-set_base_headers s.csp [] w f),
            inv,
          )
  ]
]

-- While the CDN answers as it did when the caches were filled, each request is answered with the
-- status and the body of the reference, which has no caches of pages and files, and the caches stay within their
-- capacities and consistent.
pub serve_root_inner-reference :
    (env : Env) (r : Request) (w : Writer) (s : Server)
    → IsServing env.get s
    → IsFresh w
    → IsAs env.get (reference env s r) (serve_root_inner env r (w, s))
unfolding serve_root_inner reference embedded_file
serve_root_inner-reference env r w s inv f = elim (Bool-cases (wants_json r)) [
  | inl json ↦ rw (json, serve_root_inner, reference) (IsAnswer-not_found w f, inv)
  | inr html ↦
      let (v, m) = version env.now s.manager in
      let inv' : IsServing env.get (record s { manager = m }) = record {
        index_bounded = inv.index_bounded;
        index_served = inv.index_served;
        static_served = inv.static_served;
      } in
      rw (html, serve_root_inner, reference)
        (serve_version_lem env v r w (record s { manager = m }) inv' f)
]

-- ===== src/LiteSpa/Server/Cookies.antt =====
-- The server itself sets no cookie: what a client gets is the guest cookie of the middleware.
use orcacommon.Common.{
  ◌≡◌, refl, not, ◌&&◌, [], ◌∷◌, Bool-cases, Option-cases, inl, inr, ◌∙◌, is_empty,
}
use orcacommon.Common.Text.{Text, codes}
use orcacommon.Common.Http.{Request, Writer, cookies-http_error, not_found}
use orcacommon.Common.Http.Answers.{cookies-set_header, cookies-write}
use orcacommon.LiteSpa.Csp.{CspConfig, generate_nonce}
use orcacommon.LiteSpa.Fetch.{fetch}
use orcacommon.LiteSpa.Static.{is_static, retrieve}
use orcacommon.LiteSpa.Version.{version}
use orcacommon.LiteSpa.Server.{
  Server, Env, nonce_length, ext, set_base_headers, set_content_type, index_lookup, embedded_file,
  serve_fallback, serve_static, serve_cdn_page, serve_page, serve_version, wants_json,
  serve_root_inner,
}

cookies-set_base_headers :
    (csp : CspConfig) (nonce : Text) (w : Writer)
    → (set_base_headers csp nonce w).cookies ≡ w.cookies
unfolding set_base_headers
cookies-set_base_headers csp nonce w =
    elim (Bool-cases (not csp.disable && not csp.disable_append_nonce)) [
      | inl e ↦ rw (e, set_base_headers) (simp (cookies-set_header))
      | inr e ↦ rw (e, set_base_headers) (simp (cookies-set_header))
    ]

cookies-serve_fallback : (w : Writer) → (serve_fallback w).cookies ≡ w.cookies
unfolding serve_fallback
cookies-serve_fallback w = simp (cookies-write, cookies-set_header)

cookies-set_content_type : (ct : Text) (w : Writer) → (set_content_type ct w).cookies ≡ w.cookies
unfolding set_content_type
cookies-set_content_type [] w = refl
cookies-set_content_type (c ∷ ct) w = cookies-set_header "Content-Type" (c ∷ ct) w

cookies-not_found : (w : Writer) → (not_found w).cookies ≡ w.cookies
unfolding not_found
cookies-not_found w = cookies-http_error "404 page not found" 404 w

cookies-serve_static :
    (env : Env) (v : Text) (r : Request) (w : Writer) (s : Server)
    → (serve_static env v r (w, s)).0.cookies ≡ w.cookies
unfolding serve_static
cookies-serve_static env v r w s = elim (Option-cases (embedded_file s r.path)) [
  | inr (text, found) ↦
      rw (found, serve_static)
        (simp (cookies-write, cookies-set_content_type, cookies-set_base_headers))
  | inl absent ↦ elim (Option-cases (retrieve env.get env.choice s.cdn v r.path s.static).0) [
    | inl failed ↦
        rw (absent, serve_static, failed) (cookies-http_error "upstream unavailable" 502 w)
    | inr (text, got) ↦
        rw (absent, serve_static, got) (simp (cookies-write, cookies-set_base_headers))
  ]
]

cookies-serve_cdn_page :
    (env : Env) (v nonce : Text) (w : Writer) (s : Server)
    → (serve_cdn_page env v nonce w s).0.cookies ≡ w.cookies
unfolding serve_cdn_page
cookies-serve_cdn_page env v nonce w s = elim (Option-cases (index_lookup v s)) [
  | inr (cached, e) ↦ rw (e, serve_cdn_page) (simp (cookies-write, cookies-set_header))
  | inl e ↦ elim (Option-cases (fetch env.get s.cdn v)) [
    | inl miss ↦ rw (e, miss, serve_cdn_page) (cookies-serve_fallback w)
    | inr (fv, got) ↦ rw (e, got, serve_cdn_page) (simp (cookies-write, cookies-set_header))
  ]
]

cookies-serve_page :
    (env : Env) (v : Text) (w : Writer) (s : Server) → (serve_page env v w s).0.cookies ≡ w.cookies
unfolding serve_page
cookies-serve_page env v w s = elim (Option-cases (generate_nonce (env.random nonce_length))) [
  | inl dry ↦ rw (dry, serve_page) (cookies-http_error "internal server error" 500 w)
  | inr (nonce, drawn) ↦ elim (Option-cases s.embedded) [
    | inl cdn ↦
        rw (drawn, serve_page, cdn)
          (cookies-serve_cdn_page env v nonce _ s
            ∙ simp (cookies-set_header, cookies-set_base_headers))
    | inr (fs, embedded) ↦ elim (Option-cases (fs.read_file (codes "index.html"))) [
      | inl missing ↦
          rw (drawn, serve_page, embedded, missing)
            (simp (cookies-serve_fallback, cookies-set_header, cookies-set_base_headers))
      | inr (text, found) ↦
          rw (drawn, serve_page, embedded, found)
            (simp (cookies-write, cookies-set_header, cookies-set_base_headers))
    ]
  ]
]

-- The server itself sets no cookie.
pub cookies-serve_root_inner :
    (env : Env) (r : Request) (w : Writer) (s : Server)
    → (serve_root_inner env r (w, s)).0.cookies ≡ w.cookies
unfolding serve_root_inner serve_version
cookies-serve_root_inner env r w s = elim (Bool-cases (wants_json r)) [
  | inl json ↦ rw (json, serve_root_inner) (cookies-not_found w)
  | inr html ↦
      let (v, m) = version env.now s.manager in
      let s' = record s { manager = m } in
      elim (Bool-cases (is_empty (ext r.path))) [
        | inl bare ↦
            rw (html, serve_root_inner, serve_version, bare) (cookies-serve_page env v w s')
        | inr some_ext ↦ elim (Bool-cases (is_static env.glob s.static r.path)) [
          | inl listed ↦
              rw (html, serve_root_inner, serve_version, some_ext, listed)
                (cookies-serve_static env v r w s')
          | inr unlisted ↦
              rw (html, serve_root_inner, serve_version, some_ext, unlisted)
                (cookies-not_found _ ∙ cookies-set_base_headers s.csp [] w)
        ]
      ]
]

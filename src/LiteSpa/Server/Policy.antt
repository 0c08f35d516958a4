-- ===== src/LiteSpa/Server/Policy.antt =====
-- The nonce of a page is the nonce of its policy.
use text.Mathlib.Text.{◌==◌ as str_eq}
use orcacommon.Common.{◌≡◌, if◌then◌else◌, Bool, false, not, ◌&&◌, Option, none, some, ◌++◌, String}
use orcacommon.Common.Text.{Text, codes}
use orcacommon.Common.Http.{Header, Writer, lookup, insert, set_header}
use orcacommon.LiteSpa.Cache.{lookup as lookup_page}
use orcacommon.LiteSpa.Csp.{CspConfig, csp_rule}
use orcacommon.LiteSpa.Fetch.{fetch}
use orcacommon.LiteSpa.Server.{Server, Env, fallback_body, set_base_headers}
use orcacommon.LiteSpa.Server.Woven.{IsReplaced}

abbrev pub sends_policy : CspConfig → Bool
sends_policy csp = not csp.disable && not csp.disable_append_nonce

abbrev IsOther : String → Type 0
IsOther k =
    (str_eq k "Content-Security-Policy" ≡ false)
    × (str_eq k "X-app-version" ≡ false)
    × (str_eq k "Cache-Control" ≡ false)
    × (str_eq k "X-Content-Type-Options" ≡ false)

abbrev placeholder : Text
placeholder = codes "nonce=\"NONCE\""

abbrev nonce_attribute : Text → Text
nonce_attribute nonce = codes "nonce=\"" ++ nonce ++ codes "\""

-- Where the page of a version comes from: the embedded index.html, the cache, or the CDN.
unfoldable pub cdn_source : Env → Text → Server → Option Text
cdn_source env v s = elim (lookup_page v s.index_cache) [
  | some cached ↦ some cached
  | none ↦ elim (fetch env.get s.cdn v) [ none ↦ none | some fv ↦ some fv.content ]
]

unfoldable pub page_source : Env → Text → Server → Option Text
page_source env v s = elim s.embedded [
  | none ↦ cdn_source env v s
  | some fs ↦ fs.read_file (codes "index.html")
]

-- `prior` is the header before the server.
module _ (csp : CspConfig) (nonce v : Text) (prior : Header) where
  -- The headers of a page.
  abbrev pub IsPageHeader : Header → Type 0
  IsPageHeader h =
      (lookup "Content-Security-Policy" h ≡ (
        if sends_policy csp
        then some (csp_rule csp nonce)
        else lookup "Content-Security-Policy" prior))
      × (lookup "X-app-version" h ≡ some v)
      × (lookup "Cache-Control" h ≡ some (codes "no-store, max-age=0"))
      × (lookup "X-Content-Type-Options" h ≡ some (codes "nosniff"))

  -- The body is made of the source of the page, or is the fallback where there is none.
  abbrev pub IsBody : Option Text → Text → Type 0
  IsBody none body = body ≡ fallback_body
  IsBody (some source) body = IsReplaced placeholder (nonce_attribute nonce) source body

  abbrev pub IsPage : Option Text → Writer → Type 0
  IsPage source w = IsPageHeader w.header × (w.status ≡ some 200) × IsBody source w.body

abbrev started : CspConfig → Text → Text → Writer → Writer
started csp nonce v w = set_header "X-app-version" v (set_base_headers csp nonce w)

abbrev base_header : Header → Header
base_header h = insert "X-Content-Type-Options" (codes "nosniff") (
    insert "Referrer-Policy" (codes "origin-when-cross-origin") (
      insert "X-Frame-Options" (codes "SAMEORIGIN") (
        insert "Content-Type" (codes "text/html")
          (insert "Cache-Control" (codes "no-store, max-age=0") h))))

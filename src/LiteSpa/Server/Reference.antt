-- ===== src/LiteSpa/Server/Reference.antt =====
-- What the server is to answer, told without its caches: the status and the body.
use orcacommon.Common.{ℕ, if◌then◌else◌, Option, none, some, [], ◌∷◌, ◌++◌, String, is_empty}
use orcacommon.Common.Text.{Text, codes}
use orcacommon.Common.Http.{Request}
use orcacommon.LiteSpa.Csp.{generate_nonce}
use orcacommon.LiteSpa.Fetch.{Get, fetch}
use orcacommon.LiteSpa.Static.{is_static, download, file_url}
use orcacommon.LiteSpa.Version.{version}
use orcacommon.LiteSpa.Server.{
  Server, Env, nonce_length, fallback_body, ext, inject_nonce, embedded_file, wants_json,
}

-- The page of a version on the CDN.
abbrev pub cdn_page : Get → Text → Text → Option Text
cdn_page get cdn v = elim (fetch get cdn v) [ none ↦ none | some fv ↦ some fv.content ]

abbrev pub page : Env → Server → Text → Option Text
page env s v = elim s.embedded [
  | some f ↦ f.read_file (codes "index.html")
  | none ↦ cdn_page env.get s.cdn v
]

abbrev pub file : Env → Server → Text → Text → Option Text
file env s v path = elim (embedded_file s path) [
  | some content ↦ some content
  | none ↦ download env.get (file_url s.cdn v path)
]

abbrev pub error_text : String → Text
error_text msg = codes msg ++ 10 ∷ []

abbrev pub page_answer : Option Text → Option Text → ℕ × Text
page_answer none p = (500, error_text "internal server error")
page_answer (some nonce) none = (200, fallback_body)
page_answer (some nonce) (some p) = (200, inject_nonce p nonce)

abbrev pub file_answer : Option Text → ℕ × Text
file_answer none = (502, error_text "upstream unavailable")
file_answer (some content) = (200, content)

unfoldable pub reference : Env → Server → Request → ℕ × Text
reference env s r =
    let v = (version env.now s.manager).0 in
    if wants_json r
    then (404, error_text "404 page not found")
    else if is_empty (ext r.path)
    then page_answer (generate_nonce (env.random nonce_length)) (page env s v)
    else if is_static env.glob s.static r.path
    then file_answer (file env s v r.path)
    else (404, error_text "404 page not found")

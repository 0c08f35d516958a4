-- ===== src/LiteSpa/Tests.antt =====
-- The server of package litespaserver run on a sample: one CDN, one version, one page, one file.
mod Witnesses
use orcacommon.Common.{
  ℕ, ◌*◌, ◌≡◌, refl, Bool, true, false, Option, none, some, List, [], ◌∷◌, ◌++◌, String,
  if◌then◌else◌, is_empty, length,
}
use orcacommon.Common.Text.{
  Text, codes, text_eq, has_prefix, has_suffix, contains, replace_first, trim_prefix, trim_space,
  join,
}
use orcacommon.Common.Http.{
  Request, Writer, fresh, lookup, header_get, http_error, set_header, insert, write, write_header,
  not_found,
}
use orcacommon.LiteSpa.Cache.{Cache, put, evict, delete}
use orcacommon.LiteSpa.Csp.{CspConfig, csp_rule, generate_nonce, nonce_char}
use orcacommon.LiteSpa.Dao.{Db, is_name_char, is_valid_name, version_key, get_version, set_row}
use orcacommon.LiteSpa.Fetch.{Get, fetch, check_response}
use orcacommon.LiteSpa.Static.{is_static, download, retrieve, new_static_retriever, non_empty}
use orcacommon.LiteSpa.Version.{
  VersionConfig, Manager, stored, reload, provider_version, version, seed_default_if_absent,
  new_manager, is_valid_version, set_version,
}
use orcacommon.LiteSpa.Server.{
  Server, Env, Fs, ext, inject_nonce, set_base_headers, index_lookup, index_store, embedded_file,
  set_content_type, serve_fallback, serve_static, serve_cdn_page, serve_page, serve_version,
  serve_root_inner,
}

abbrev cdn : Text
cdn = codes "https://c"

abbrev page_text : Text
page_text = codes "<script nonce=\"NONCE\" src=\"https://c/v1/a.js\">"

abbrev sample_get : Get
sample_get url =
    if text_eq url (codes "https://c/v1/index.html")
    then some (200, page_text)
    else if text_eq url (codes "https://c/v1/a.txt")
    then some (200, codes "file")
    else none

abbrev env : Env
env = record {
  get = sample_get;
  glob = text_eq;
  mime = λ e. [];
  now = 7;
  random = λ n. some (0 ∷ 1 ∷ 63 ∷ []);
  choice = 0;
}

abbrev csp : CspConfig
csp = record {
  font_srcs = codes "f" ∷ [];
  script_srcs = codes "s" ∷ [];
  connect_srcs = codes "c" ∷ [];
  style_srcs = codes "t" ∷ [];
  manifest_srcs = codes "m" ∷ [];
  disable = false;
  disable_append_nonce = false;
}

abbrev version_config : VersionConfig
version_config = record {
  cdn_prefix = cdn;
  cdn_version = [];
  default_version = codes "v1";
  frontend_name = codes " shop ";
}

abbrev empty_db : Db
empty_db = record { rows = []; read_fails = false; write_fails = false }

abbrev seeded_db : Db
seeded_db = record {
  rows = (codes "frontend.version.shop", codes "v1") ∷ [];
  read_fails = false;
  write_fails = false;
}

abbrev manager : Manager
manager = record {
  cdn = cdn;
  key = codes "frontend.version.shop";
  db = seeded_db;
  provider = stored [] 0;
}

abbrev server : Server
server = record {
  cdn = cdn;
  embedded = none;
  csp = csp;
  manager = manager;
  static = record { patterns = codes "/a.txt" ∷ []; file_cache = [] };
  index_cache = [];
  guest_key = none;
  issuer = none;
  issuance = none;
  public_auth_cfg = none;
}

abbrev visit : String → Request
visit p = record {
  method = "GET";
  path = codes p;
  remote_addr = codes "10.0.0.7:4711";
  header = ("Accept", codes "text/html") ∷ [];
  cookies = [];
  body = [];
}

run : Unit {0}
unfolding text_eq has_prefix has_suffix contains replace_first trim_prefix trim_space join lookup
    header_get http_error set_header insert write write_header not_found put evict delete csp_rule
    generate_nonce nonce_char is_name_char is_valid_name version_key get_version set_row fetch
    check_response is_static download retrieve reload provider_version version
    seed_default_if_absent new_manager is_valid_version set_version ext inject_nonce
    set_base_headers index_lookup index_store embedded_file set_content_type serve_fallback
    serve_static serve_cdn_page serve_page serve_version serve_root_inner
    orcacommon.LiteSpa.Cache.lookup orcacommon.LiteSpa.Cache.insert
run = tt

abbrev answer : Writer × Server → Option ℕ × Text
answer (w, s) = (w.status, w.body)

manager_test : new_manager empty_db true version_config false ≡ some manager
unfolding run
manager_test = refl

page_test :
    answer (serve_root_inner env (visit "/") (fresh, server))
    ≡ (some 200, codes "<script nonce=\"abb\" src=\"https://c/v1/a.js\">")
unfolding run
page_test = refl

cached_test :
    lookup "X-fe-version-cache"
      (serve_root_inner env
        (visit "/shop")
        (fresh, (serve_root_inner env (visit "/") (fresh, server)).1)).0.header
    ≡ some (codes "v1")
unfolding run
cached_test = refl

static_tests :
    (answer (serve_root_inner env (visit "/a.txt") (fresh, server)) ≡ (some 200, codes "file"))
    × (answer (serve_root_inner env (visit "/b.txt") (fresh, server))
        ≡ (some 404, codes "404 page not found" ++ 10 ∷ []))
unfolding run
static_tests = (refl, refl)

-- A file from the CDN is sent as a page, whatever its name says.
cdn_content_type :
    lookup "Content-Type" (serve_root_inner env (visit "/a.txt") (fresh, server)).0.header
    ≡ some (codes "text/html")
unfolding run
cdn_content_type = refl

-- ===== src/LiteSpa/Csp.antt =====
-- litespaserver/csp.go: the Content-Security-Policy header and the nonce; the configuration is that
-- of litespaserver/litespaserver.go.
pub mod Nonce
pub mod Rule
use orcacommon.Common.{
  ℕ, ◌%◌, if◌then◌else◌, Bool, Option, none, some, List, [], ◌∷◌, ◌++◌, map, length, get_or,
  is_empty,
}
use orcacommon.Common.Text.{Text, codes, join}

pub record CspConfig : Type 0 where
  pub font_srcs : List Text
  pub script_srcs : List Text
  pub connect_srcs : List Text
  pub style_srcs : List Text
  pub manifest_srcs : List Text
  pub disable : Bool
  pub disable_append_nonce : Bool

abbrev pub csp_self : Text
csp_self = codes "'self'"

abbrev pub csp_doublefin_cdn : Text
csp_doublefin_cdn = codes "https://hc-cdn.doublefin.com"

abbrev pub csp_doublefin_cdn_daily : Text
csp_doublefin_cdn_daily = codes "https://hcdev-cdn.doublefin.com"

abbrev pub csp_google_accounts : Text
csp_google_accounts = codes "https://accounts.google.com"

abbrev pub csp_google_apis : Text
csp_google_apis = codes "https://apis.google.com"

abbrev pub csp_google_storage : Text
csp_google_storage = codes "https://storage.googleapis.com"

abbrev pub csp_doublefin_all : Text
csp_doublefin_all = codes "https://*.doublefin.com"

unfoldable pub default_font_srcs : List Text
default_font_srcs = csp_self ∷ csp_doublefin_cdn ∷ csp_doublefin_cdn_daily ∷ []

unfoldable pub default_manifest_srcs : List Text
default_manifest_srcs = csp_self ∷ csp_doublefin_cdn ∷ csp_doublefin_cdn_daily ∷ []

unfoldable pub default_script_srcs : List Text
default_script_srcs =
    csp_self ∷ csp_doublefin_cdn ∷ csp_doublefin_cdn_daily ∷ csp_google_accounts ∷ csp_google_apis
    ∷ []

unfoldable pub default_connect_srcs : List Text
default_connect_srcs =
    csp_self ∷ csp_doublefin_cdn ∷ csp_doublefin_cdn_daily ∷ csp_google_accounts ∷ csp_google_apis
    ∷ csp_google_storage ∷ csp_doublefin_all ∷ []

unfoldable pub default_style_srcs : List Text
default_style_srcs =
    codes "'unsafe-hashes'"
    ∷ csp_self
    ∷ csp_doublefin_cdn
    ∷ csp_doublefin_cdn_daily
    ∷ csp_google_accounts
    ∷ map codes (
        "'sha256-47DEQpj8HBSa+/TImW+5JCeuQeRkm5NMpJWZG3hSuFU='"
        ∷ "'sha256-ZdHxw9eWtnxUb3mk6tBS+gIiVUPE3pGM470keHPDFlE='"
        ∷ "'sha256-dCNOmK/nSY+12vHzasLXiswzlGT5UHA7jAGYkvmCuQs='"
        ∷ "'sha256-vYd+FsML43MBXhP+pXOhW9h0Cdq43hkCe4Im/yyvhss='"
        ∷ "'sha256-aqNNdDLnnrDOnTNdkJpYlAxKVJtLt9CtFLklmInuUAE='"
        ∷ "'sha256-ez18eoOA3hwtNh/P9f8KPxcOdorR7TwpKOdo2DZqgV4='"
        ∷ "'sha256-HLH8Aj1d/u9Yre92z4+ZKgw39ExiiScZBG3W1Vf5o9g='"
        ∷ "'sha256-deHIoPlRijnpfbTDYsK+8JmDfUBmpwpnb0L/SUV8NeU='"
        ∷ "'sha256-NcGgkTn5U5sLsc2+SWulyTfIqyyjjm9JD9cw9aYa0ek='"
        ∷ "'sha256-CemOtDQpZ5U2c1aMwNP33cQ4r487RzoaoDL7XkXAlKQ='"
        ∷ "'sha256-uCvsNvXCD9uUw1ELbn+9KbUqNulkAQeIqVkQL44hPVE='"
        ∷ "'sha256-ByOXYIXIkfNC3flUR/HoxR4Ak0pjOEF1q8XmtuIa6po='" ∷ [])

-- `orDefault`.
unfoldable pub or_default : List Text → List Text → List Text
or_default v def = if is_empty v then def else v

-- The sources of `style-src`, with the nonce.
unfoldable pub style_src : CspConfig → Text → Text
style_src csp nonce =
    let srcs = join (or_default csp.style_srcs default_style_srcs) (codes " ") in
    if is_empty nonce then srcs else srcs ++ codes " 'nonce-" ++ nonce ++ codes "'"

-- The directives before `style-src`.
unfoldable pub other_directives : CspConfig → List Text
other_directives csp =
    codes "default-src 'self'"
    ∷ codes "object-src blob:"
    ∷ (codes "font-src " ++ join (or_default csp.font_srcs default_font_srcs) (codes " "))
    ∷ (codes "manifest-src "
        ++ join (or_default csp.manifest_srcs default_manifest_srcs) (codes " "))
    ∷ (codes "script-src " ++ join (or_default csp.script_srcs default_script_srcs) (codes " "))
    ∷ codes "media-src 'none'"
    ∷ (codes "connect-src " ++ join (or_default csp.connect_srcs default_connect_srcs) (codes " "))
    ∷ codes "frame-src *"
    ∷ codes "img-src * blob: data:"
    ∷ []

-- `cspRule`.
unfoldable pub csp_rule : CspConfig → Text → Text
csp_rule csp nonce =
    join (other_directives csp ++ (codes "style-src " ++ style_src csp nonce) ∷ []) (codes "; ")

abbrev pub nonce_alphabet : Text
nonce_alphabet = codes "abcdefghijklmnopqrstuvwxyzABCDEFGHIJKLMNOPQRSTUVWXYZ0123456789"

unfoldable pub nonce_char : ℕ → ℕ
nonce_char b = get_or nonce_alphabet (b % length nonce_alphabet) 0

-- `generateNonce`: `random` is what `rand.Read` gives for the length, `none` on an error.
unfoldable pub generate_nonce : Option Text → Option Text
generate_nonce none = none
generate_nonce (some bytes) = some (map nonce_char bytes)

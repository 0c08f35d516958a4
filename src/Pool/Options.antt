-- ===== src/Pool/Options.antt =====
-- postgres/pool.go: `parseEmbeddedOptions`, the URL of the database that `Connect` opens, and the
-- image of a test container. `strings.Index` and `url.ParseQuery` are written out.
pub mod Query
use orcacommon.Common.{
  ℕ, ◌+◌, ◌-◌, ◌*◌, leb, ◌==◌, ◌&&◌, if◌then◌else◌, true, false, Option, none, some, List, [], ◌∷◌,
  ◌++◌, length, drop, is_empty, ◌>>=◌,
}
use orcacommon.Common.Text.{Text, codes, text_eq, has_byte, has_prefix, trim_prefix, cut}

-- The value of a hexadecimal digit.
unfoldable pub unhex : ℕ → Option ℕ
unhex c =
    if leb b'0' c && leb c b'9'
    then some (c - b'0')
    else if leb b'a' c && leb c b'f'
    then some (c - b'a' + 10)
    else if leb b'A' c && leb c b'F'
    then some (c - b'A' + 10)
    else none

abbrev pub cons_byte : ℕ → Option Text → Option Text
cons_byte c none = none
cons_byte c (some s) = some (c ∷ s)

-- The byte of an escape.
abbrev pub unhex_pair : ℕ → ℕ → Option ℕ
unhex_pair a b = unhex a >>= λ x. unhex b >>= λ y. some (x * 16 + y)

-- Where the decoder stands: outside an escape, after the percent sign, after the first digit.
pub data Escape : Type 0 where
  outside : Escape
  percent : Escape
  digit : ℕ → Escape

-- `url.QueryUnescape`: `none` is an error.
unfoldable pub unescape : Escape → Text → Option Text
unescape outside [] = some []
unescape percent [] = none
unescape (digit x) [] = none
unescape outside (c ∷ s) = elim (c == b'%') [
  | true ↦ unescape percent s
  | false ↦ cons_byte (if c == b'+' then b' ' else c) (unescape outside s)
]
unescape percent (c ∷ s) = elim (unhex c) [ none ↦ none | some x ↦ unescape (digit x) s ]
unescape (digit x) (c ∷ s) = elim (unhex c) [
  | none ↦ none
  | some y ↦ cons_byte (x * 16 + y) (unescape outside s)
]

-- `strings.Cut`.
unfoldable pub cut_or_all : ℕ → Text → Text × Text
cut_or_all c s = elim (cut c s) [ none ↦ (s, []) | some p ↦ p ]

abbrev pub onto_first : ℕ → List Text → List Text
onto_first c [] = (c ∷ []) ∷ []
onto_first c (piece ∷ pieces) = (c ∷ piece) ∷ pieces

-- The pieces between the ampersands; the empty ones are skipped where they are read.
unfoldable pub split_pieces : Text → List Text
split_pieces [] = [] ∷ []
split_pieces (c ∷ s) =
    let rest = split_pieces s in if c == b'&' then [] ∷ rest else onto_first c rest

abbrev pub Values : Type 0
Values = List (Text × Text)

-- The key and the value of a piece.
unfoldable pub parse_piece : Text → Option (Text × Text)
parse_piece piece =
    let (key, value) = cut_or_all b'=' piece in
    if has_byte b';' piece
    then none
    else unescape outside key >>= λ k. unescape outside value >>= λ v. some (k, v)

-- `url.ParseQuery`, of which the code uses the values only where there is no error.
unfoldable pub parse_pieces : List Text → Option Values
parse_pieces [] = some []
parse_pieces ([] ∷ pieces) = parse_pieces pieces
parse_pieces ((c ∷ piece) ∷ pieces) =
    parse_piece (c ∷ piece) >>= λ kv. parse_pieces pieces >>= λ rest. some (kv ∷ rest)

unfoldable pub parse_query : Text → Option Values
parse_query s = parse_pieces (split_pieces s)

-- `Values.Get`: the first value of a key.
unfoldable pub get_value : Text → Values → Text
get_value k [] = []
get_value k ((j, v) ∷ rest) = if text_eq j k then v else get_value k rest

pub record EmbeddedOptions : Type 0 where
  pub data_path : Text
  pub db_user : Text
  pub db_password : Text
  pub db_name : Text

abbrev pub no_options : EmbeddedOptions
no_options = record { data_path = []; db_user = []; db_password = []; db_name = [] }

-- What follows the first occurrence of a text.
unfoldable pub after_text : Text → Text → Option Text
after_text sub [] = if is_empty sub then some [] else none
after_text sub (c ∷ s) =
    if has_prefix (c ∷ s) sub then some (drop (length sub) (c ∷ s)) else after_text sub s

abbrev pub options_from : Values → EmbeddedOptions
options_from q = record {
  data_path = get_value (codes "datapath") q;
  db_user = get_value (codes "user") q;
  db_password = get_value (codes "password") q;
  db_name = get_value (codes "name") q;
}

-- The options of what follows the prefix.
unfoldable pub parse_suffix : Text → EmbeddedOptions
parse_suffix suffix =
    if has_prefix suffix (codes "?")
    then elim (parse_query (trim_prefix suffix (codes "?"))) [
      | none ↦ no_options
      | some q ↦ options_from q
    ]
    else no_options

-- `parseEmbeddedOptions`.
unfoldable pub parse_embedded_options : Text → EmbeddedOptions
parse_embedded_options db_url = elim (after_text (codes "postgres:embedded:") db_url) [
  | none ↦ no_options
  | some suffix ↦ parse_suffix suffix
]

abbrev pub or_test : Text → Text
or_test [] = codes "test"
or_test (c ∷ s) = c ∷ s

-- The defaults of `Connect`.
unfoldable pub with_defaults : EmbeddedOptions → EmbeddedOptions
with_defaults o = record {
  data_path = o.data_path;
  db_user = or_test o.db_user;
  db_password = or_test o.db_password;
  db_name = or_test o.db_name;
}

-- The URL of the database that was provisioned; `port` is its text.
unfoldable pub local_url : Text → Text → Text → Text → Text → Text
local_url user password host port name =
    codes "postgres://"
    ++ (user
        ++ (codes ":"
            ++ (password
                ++ (codes "@"
                    ++ (host
                        ++ (codes ":"
                            ++ (port ++ (codes "/" ++ (name ++ codes "?sslmode=disable")))))))))

-- `strings.SplitN(s, ":", 2)[0]`.
unfoldable pub before_colon : Text → Text
before_colon s = (cut_or_all b':' s).0

-- The image of the test container.
unfoldable pub image_name : Text → Text
image_name db_url =
    let left = trim_prefix db_url (codes "postgres:tc:") in
    if has_prefix left (codes ":")
    then codes "postgres:" ++ before_colon left
    else codes "postgres:17.5"

-- ===== src/Pool/Options/Query.antt =====
-- Options that are written into the URL of an embedded server are read back.
use orcacommon.Common.{
  ℕ, ◌+◌, ◌*◌, ◌/◌, ◌%◌, ◌<◌, ◌≡◌, refl, ap, ◌∙◌, ◌==◌, true, false, some, List, [], ◌∷◌, ◌++◌, All,
  arith, Bool-cases, inl, inr,
}
use orcacommon.Common.Text.{Text, codes, text_eq, has_byte, has_prefix, trim_prefix}
use orcacommon.Common.Text.Laws.{cut-append, has_byte-append}
use orcacommon.DbConfig.{is_unreserved, hex_digit, query_escape}
use orcacommon.DbConfig.Url.{IsSafe, query_escape-IsSafe}
use orcacommon.Pool.Options.{
  unhex, outside, unescape, cut_or_all, split_pieces, Values, parse_piece, parse_pieces,
  parse_query, get_value, EmbeddedOptions, after_text, parse_suffix, parse_embedded_options,
}

abbrev pub IsByte : ℕ → Type 0
IsByte c = c < 256

unhex-hex_digit : (n : ℕ) → n < 16 → unhex (hex_digit n) ≡ some n
unfolding unhex
unhex-hex_digit n h = ground arith

joined : (c : ℕ) → c / 16 * 16 + c % 16 ≡ c
joined c = omega arith

unreserved_plain : (c : ℕ) → is_unreserved c ≡ true → ((c == b'%') ≡ false) × ((c == b'+') ≡ false)
unreserved_plain c h = ground arith

space_code : (c : ℕ) → (c == b' ') ≡ true → b' ' ≡ c
space_code c h = ground arith

unescape-pair :
    (a b x y : ℕ) (s r : Text)
    → unhex a ≡ some x
    → unhex b ≡ some y
    → unescape outside s ≡ some r
    → unescape outside (b'%' ∷ a ∷ b ∷ s) ≡ some ((x * 16 + y) ∷ r)
unfolding unescape
unescape-pair a b x y s r h l e = rw (unescape, h, unescape, l, e) refl

-- What `url.QueryEscape` writes, `url.QueryUnescape` reads.
pub unescape-query_escape : (s : Text) → All IsByte s → unescape outside (query_escape s) ≡ some s
unfolding unescape query_escape
unescape-query_escape [] h = refl
unescape-query_escape (c ∷ s) h =
    let high = unhex-hex_digit (c / 16) (omega arith) in
    let low = unhex-hex_digit (c % 16) (omega arith) in
    let rest = unescape-query_escape s h.1 in
    elim (Bool-cases (is_unreserved c)) [
      | inl e ↦ rw (e, unescape, (unreserved_plain c e).0, (unreserved_plain c e).1, rest) refl
      | inr e ↦ elim (Bool-cases (c == b' ')) [
        | inl space ↦ rw (e, space, unescape, rest) (ap (λ x. some (x ∷ s)) (space_code c space))
        | inr other ↦
            rw (e, other)
              (unescape-pair (hex_digit (c / 16)) (hex_digit (c % 16)) _ _ (query_escape s) s high
                  low rest
                ∙ ap (λ x. some (x ∷ s)) (joined c))
      ]
    ]

-- A byte that separates nothing stays with its piece.
split-onto :
    (s t : Text) → has_byte b'&' s ≡ false → split_pieces (s ++ b'&' ∷ t) ≡ s ∷ split_pieces t
unfolding split_pieces has_byte
split-onto [] t h = refl
split-onto (c ∷ s) t h = ground (arith, split-onto s t)

split-last : (s : Text) → has_byte b'&' s ≡ false → split_pieces s ≡ s ∷ []
unfolding split_pieces has_byte
split-last [] h = refl
split-last (c ∷ s) h = ground (arith, split-last s)

-- A separator does not occur in what was escaped.
has_byte-safe :
    (c : ℕ) (s : Text)
    → is_unreserved c ≡ false
    → (c == b'+') ≡ false
    → (c == b'%') ≡ false
    → All IsSafe s
    → has_byte c s ≡ false
unfolding has_byte
has_byte-safe c [] u p q h = refl
has_byte-safe c (a ∷ s) u p q h = ground (arith, h.0, has_byte-safe c s u p q h.1)

escaped_free :
    (c : ℕ) (v : Text)
    → is_unreserved c ≡ false
    → (c == b'+') ≡ false
    → (c == b'%') ≡ false
    → All IsByte v
    → has_byte c (query_escape v) ≡ false
escaped_free c v u p q h = has_byte-safe c (query_escape v) u p q (query_escape-IsSafe v h)

-- A name of an option.
abbrev pub IsName : Text → Type 0
IsName k =
    (has_byte b'&' k ≡ false)
    × (has_byte b';' k ≡ false)
    × (has_byte b'=' k ≡ false)
    × (unescape outside k ≡ some k)

abbrev pub setting : Text → Text → Text
setting k v = k ++ b'=' ∷ query_escape v

setting_free :
    (c : ℕ) (k v : Text)
    → has_byte c k ≡ false
    → (b'=' == c) ≡ false
    → has_byte c (query_escape v) ≡ false
    → has_byte c (setting k v) ≡ false
unfolding has_byte
setting_free c k v h e l = has_byte-append c k (b'=' ∷ query_escape v) ∙ rw (h, e, l) refl

parse-setting : (k v : Text) → IsName k → All IsByte v → parse_piece (setting k v) ≡ some (k, v)
unfolding parse_piece cut_or_all
parse-setting k v n h =
    rw
      (
        parse_piece,
        cut_or_all,
        cut-append b'=' k (query_escape v) n.2,
        setting_free b';' k v n.1 refl (escaped_free b';' v refl refl refl h),
        n.3,
        unescape-query_escape v h,
      )
      refl

-- The settings of a query, with ampersands between them.
abbrev pub query_of : List (Text × Text) → Text
query_of [] = []
query_of ((k, v) ∷ []) = setting k v
query_of ((k, v) ∷ kv ∷ rest) = setting k v ++ b'&' ∷ query_of (kv ∷ rest)

abbrev pub IsSetting : Text × Text → Type 0
IsSetting kv = IsName kv.0 × All IsByte kv.1

parse_pieces-cons :
    (piece : Text) (pieces : List Text) (kv : Text × Text) (rest : Values)
    → has_byte b'=' piece ≡ true
    → parse_piece piece ≡ some kv
    → parse_pieces pieces ≡ some rest
    → parse_pieces (piece ∷ pieces) ≡ some (kv ∷ rest)
unfolding parse_pieces has_byte
parse_pieces-cons [] pieces kv rest i e f = cc
parse_pieces-cons (c ∷ piece) pieces kv rest i e f = rw (e, f) refl

parse_pieces-nil : parse_pieces [] ≡ some []
unfolding parse_pieces
parse_pieces-nil = refl

has_equals : (k v : Text) → has_byte b'=' (setting k v) ≡ true
unfolding has_byte
has_equals [] v = refl
has_equals (c ∷ k) v = ground (arith, has_equals k v)

-- `url.ParseQuery` reads back the settings of a query whose values are escaped.
pub parse_query-query_of :
    (kv : Text × Text) (rest : List (Text × Text))
    → All IsSetting (kv ∷ rest)
    → parse_query (query_of (kv ∷ rest)) ≡ some (kv ∷ rest)
unfolding parse_query
parse_query-query_of (k, v) [] h =
    let free = setting_free b'&' k v h.0.0.0 refl (escaped_free b'&' v refl refl refl h.0.1) in
    ap parse_pieces (split-last (setting k v) free)
    ∙ parse_pieces-cons (setting k v) [] (k, v) [] (has_equals k v) (parse-setting k v h.0.0 h.0.1)
        parse_pieces-nil
parse_query-query_of (k, v) (next ∷ rest) h =
    let free = setting_free b'&' k v h.0.0.0 refl (escaped_free b'&' v refl refl refl h.0.1) in
    ap parse_pieces (split-onto (setting k v) (query_of (next ∷ rest)) free)
    ∙ parse_pieces-cons (setting k v) (split_pieces (query_of (next ∷ rest))) (k, v) (next ∷ rest)
        (has_equals k v) (parse-setting k v h.0.0 h.0.1) (parse_query-query_of next rest h.1)

-- The URL of an embedded server with these options.
abbrev pub settings_of : EmbeddedOptions → List (Text × Text)
settings_of o =
    (codes "datapath", o.data_path)
    ∷ (codes "user", o.db_user)
    ∷ (codes "password", o.db_password)
    ∷ (codes "name", o.db_name)
    ∷ []

abbrev pub embedded_url : EmbeddedOptions → Text
embedded_url o = codes "postgres:embedded:?" ++ query_of (settings_of o)

names :
    IsName (codes "datapath")
    × IsName (codes "user")
    × IsName (codes "password")
    × IsName (codes "name")
unfolding has_byte unescape
names = (
  (refl, refl, refl, refl),
  (refl, refl, refl, refl),
  (refl, refl, refl, refl),
  (refl, refl, refl, refl),
)

-- Whatever bytes the options hold, `parseEmbeddedOptions` reads them back from the URL that they are
-- written into by `url.QueryEscape`.
pub parse_embedded_options-embedded_url :
    (o : EmbeddedOptions)
    → All IsByte o.data_path
    → All IsByte o.db_user
    → All IsByte o.db_password
    → All IsByte o.db_name
    → parse_embedded_options (embedded_url o) ≡ o
unfolding parse_embedded_options after_text has_prefix parse_suffix trim_prefix get_value text_eq
parse_embedded_options-embedded_url o d u p n =
    rw
      (parse_query-query_of (codes "datapath", o.data_path)
        ((codes "user", o.db_user)
          ∷ (codes "password", o.db_password)
          ∷ (codes "name", o.db_name)
          ∷ [])
        ((names.0, d), ((names.1, u), ((names.2, p), ((names.3, n), tt)))))
      refl

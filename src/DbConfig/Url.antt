-- ===== src/DbConfig/Url.antt =====
-- The URL of the default template, and what the password can do to it.
use orcacommon.Common.{
  ℕ, ◌/◌, ◌%◌, ◌<◌, ◌≡◌, refl, ◌==◌, true, List, [], ◌∷◌, ◌++◌, All, arith, Bool-cases, inl, inr,
  ◌⊎◌,
}
use orcacommon.Common.Text.{Text, codes, has_prefix}
use orcacommon.DbConfig.{
  DbConfig, is_unreserved, hex_digit, query_escape, itoa_digits, match_here, replace_all,
  replacements, resolve_url,
}

abbrev pub default_template : Text
default_template = codes "postgres:tc://[username]:[password]@[host]:[port]/[database_name]"

abbrev pub concat : List Text → Text
concat [] = []
concat (p ∷ ps) = p ++ concat ps

-- By the default template every field stands once in its place, whatever the fields contain: what
-- looks like a placeholder in one of them is not replaced.
pub resolve_url_default :
    (d : DbConfig)
    → d.database_url_template ≡ default_template
    → resolve_url d
      ≡ concat (
          codes "postgres:tc://"
          ∷ d.user
          ∷ codes ":"
          ∷ query_escape d.password
          ∷ codes "@"
          ∷ d.host
          ∷ codes ":"
          ∷ itoa_digits 20 d.port []
          ∷ codes "/"
          ∷ d.name
          ∷ [])
unfolding resolve_url replace_all match_here replacements has_prefix
resolve_url_default d e = rw e refl

-- A byte that can stand in the password of a URL.
abbrev pub IsSafe : ℕ → Type 0
IsSafe c = (is_unreserved c ≡ true) ⊎ ((c ≡ b'+') ⊎ (c ≡ b'%'))

hex_digit_safe : (n : ℕ) → n < 16 → is_unreserved (hex_digit n) ≡ true
hex_digit_safe n h = ground arith

high : (c : ℕ) → c < 256 → c / 16 < 16
high c h = omega arith

-- The escaped password of bytes has no byte that ends the password, the authority or a placeholder:
-- letters, digits and `-_.~+%` only.
pub query_escape-IsSafe : (s : Text) → All (λ c. c < 256) s → All IsSafe (query_escape s)
unfolding query_escape
query_escape-IsSafe [] h = tt
query_escape-IsSafe (c ∷ s) h = elim (Bool-cases (is_unreserved c)) [
  | inl e ↦ rw (e, query_escape) (inl e, query_escape-IsSafe s h.1)
  | inr e ↦ elim (Bool-cases (c == b' ')) [
    | inl space ↦ rw (e, space, query_escape) (inr (inl refl), query_escape-IsSafe s h.1)
    | inr other ↦
        rw (e, other, query_escape)
          (
            inr (inr refl),
            (
              inl (hex_digit_safe (c / 16) (high c h.0)),
              (inl (hex_digit_safe (c % 16) (omega arith)), query_escape-IsSafe s h.1),
            ),
          )
  ]
]

-- ===== src/DbConfig.antt =====
-- postgres/dbconfig.go: the URL of a database.
pub mod Url
pub mod Log
mod Tests
use orcacommon.Common.{
  ℕ, zero, suc, ◌+◌, ◌-◌, ◌*◌, ◌/◌, ◌%◌, ltb, leb, ◌==◌, ◌&&◌, ◌||◌, if◌then◌else◌, Bool, true,
  false, Option, none, some, List, [], ◌∷◌, ◌++◌, String, length,
}
use orcacommon.Common.Text.{Text, codes, has_prefix}

pub record DbConfig : Type 0 where
  pub host : Text
  pub port : ℕ
  pub user : Text
  pub password : Text
  pub name : Text
  pub cloud_sql_instance : Text
  pub migration_schema : Text
  pub database_url_template : Text

-- The bytes that `url.QueryEscape` leaves as they are.
abbrev pub is_unreserved : ℕ → Bool
is_unreserved c =
    (leb b'a' c && leb c b'z')
    || (leb b'A' c && leb c b'Z')
    || (leb b'0' c && leb c b'9')
    || (c == b'-')
    || (c == b'_')
    || (c == b'.')
    || (c == b'~')

abbrev pub hex_digit : ℕ → ℕ
hex_digit n = if ltb n 10 then b'0' + n else b'A' + (n - 10)

-- `url.QueryEscape`.
unfoldable pub query_escape : Text → Text
query_escape [] = []
query_escape (c ∷ s) =
    let rest = query_escape s in
    if is_unreserved c
    then c ∷ rest
    else if c == b' '
    then b'+' ∷ rest
    else b'%' ∷ hex_digit (c / 16) ∷ hex_digit (c % 16) ∷ rest

-- `strconv.Itoa` of a port, a number of fewer than 20 digits.
abbrev pub itoa_digits : ℕ → ℕ → Text → Text
itoa_digits zero n acc = acc
itoa_digits (suc fuel) n acc =
    let rest = itoa_digits fuel (n / 10) ((b'0' + n % 10) ∷ acc) in
    if ltb n 10 then (b'0' + n) ∷ acc else rest

abbrev pub Replacements : Type 0
Replacements = List (Text × Text)

-- The first replacement whose old text stands here: the bytes after the first, and the new text.
unfoldable pub match_here : Replacements → Text → Option (ℕ × Text)
match_here [] s = none
match_here ((old, new) ∷ rest) s =
    if has_prefix s old then some (length old - 1, new) else match_here rest s

-- `Replacer.Replace`: the text is read once, and what is put in is not read again.
unfoldable pub replace_all : Replacements → ℕ → Text → Text
replace_all rs skip [] = []
replace_all rs (suc skip) (c ∷ s) = replace_all rs skip s
replace_all rs zero (c ∷ s) = elim (match_here rs (c ∷ s)) [
  | none ↦ c ∷ replace_all rs zero s
  | some (skip, new) ↦ new ++ replace_all rs skip s
]

unfoldable pub replacements : DbConfig → Replacements
replacements d =
    (codes "[username]", d.user)
    ∷ (codes "[password]", query_escape d.password)
    ∷ (codes "[host]", d.host)
    ∷ (codes "[port]", itoa_digits 20 d.port [])
    ∷ (codes "[database_name]", d.name)
    ∷ (codes "[query_parameters]", [])
    ∷ []

-- `ResolveURL`.
unfoldable pub resolve_url : DbConfig → Text
resolve_url d = replace_all (replacements d) 0 d.database_url_template

-- `IsEmbeddedPostgres` and `IsTestContainer`.
unfoldable pub is_embedded_postgres : Text → Bool
is_embedded_postgres db_url = has_prefix db_url (codes "postgres:embedded:")

unfoldable pub is_test_container : Text → Bool
is_test_container db_url = has_prefix db_url (codes "postgres:tc:")

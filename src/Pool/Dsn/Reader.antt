-- ===== src/Pool/Dsn/Reader.antt =====
-- How a connection string is read: keywords and values with an equal sign between them, where a
-- value ends at a space or stands between single quotes, and a backslash takes the next byte as it
-- is. What the code writes is read back.
use mathlib.Core.List.{reverse_aux, reverse-reverse, append_assoc}
use orcacommon.Common.{
  ℕ, ◌≡◌, refl, ap, ◌∙◌, ◌==◌, ◌||◌, true, false, Option, none, some, List, [], ◌∷◌, ◌++◌, reverse,
  All, arith,
}
use orcacommon.Common.Text.{Text, codes}
use orcacommon.DbConfig.{DbConfig}
use orcacommon.Pool.Dsn.{dsn_escape, dsn_quote, root_conn_str, cloud_sql_dsn}

abbrev pub Settings : Type 0
Settings = List (Text × Text)

-- Where the reader stands, and what it has read of the keyword and of the value, backwards.
pub data Place : Type 0 where
  keyword : Text → Place
  start : Text → Place
  bare : Text → Text → Place
  bare_next : Text → Text → Place
  quoted : Text → Text → Place
  quoted_next : Text → Text → Place

abbrev pub with_setting : Text → Text → Option Settings → Option Settings
with_setting k v none = none
with_setting k v (some rest) = some ((reverse k, reverse v) ∷ rest)

unfoldable pub read_settings : Place → Text → Option Settings
read_settings (keyword []) [] = some []
read_settings (keyword (_ ∷ _)) [] = none
read_settings (start k) [] = with_setting k [] (some [])
read_settings (bare k v) [] = with_setting k v (some [])
read_settings (bare_next k v) [] = with_setting k v (some [])
read_settings (quoted k v) [] = none
read_settings (quoted_next k v) [] = none
read_settings (keyword k) (c ∷ s) = elim (c == b'=') [
  | true ↦ read_settings (start k) s
  | false ↦ elim (c == b' ') [
    | true ↦ read_settings (keyword k) s
    | false ↦ read_settings (keyword (c ∷ k)) s
  ]
]
read_settings (start k) (c ∷ s) = elim (c == b' ') [
  | true ↦ read_settings (start k) s
  | false ↦ elim (c == 39) [
    | true ↦ read_settings (quoted k []) s
    | false ↦ elim (c == 92) [
      | true ↦ read_settings (bare_next k []) s
      | false ↦ read_settings (bare k (c ∷ [])) s
    ]
  ]
]
read_settings (bare k v) (c ∷ s) = elim (c == b' ') [
  | true ↦ with_setting k v (read_settings (keyword []) s)
  | false ↦ elim (c == 92) [
    | true ↦ read_settings (bare_next k v) s
    | false ↦ read_settings (bare k (c ∷ v)) s
  ]
]
read_settings (bare_next k v) (c ∷ s) = read_settings (bare k (c ∷ v)) s
read_settings (quoted k v) (c ∷ s) = elim (c == 39) [
  | true ↦ with_setting k v (read_settings (keyword []) s)
  | false ↦ elim (c == 92) [
    | true ↦ read_settings (quoted_next k v) s
    | false ↦ read_settings (quoted k (c ∷ v)) s
  ]
]
read_settings (quoted_next k v) (c ∷ s) = read_settings (quoted k (c ∷ v)) s

-- The settings of a connection string.
unfoldable pub parse_settings : Text → Option Settings
parse_settings s = read_settings (keyword []) s

-- A byte that stands for itself outside quotes.
abbrev pub IsPlainByte : ℕ → Type 0
IsPlainByte c = ((c == b' ') || (c == 39) || (c == 92)) ≡ false

read-dsn_escape :
    (v k acc s : Text)
    → read_settings (quoted k acc) (dsn_escape v ++ 39 ∷ s)
      ≡ with_setting k (reverse_aux v acc) (read_settings (keyword []) s)
unfolding read_settings dsn_escape
read-dsn_escape [] k acc s = refl
read-dsn_escape (c ∷ v) k acc s = ground (arith, read-dsn_escape v k (c ∷ acc) s)

read-bare :
    (v k acc s : Text)
    → All IsPlainByte v
    → read_settings (bare k acc) (v ++ b' ' ∷ s)
      ≡ with_setting k (reverse_aux v acc) (read_settings (keyword []) s)
unfolding read_settings
read-bare [] k acc s h = refl
read-bare (c ∷ v) k acc s h = ground (arith, read-bare v k (c ∷ acc) s h.1)

-- A value without quotes.
read-plain :
    (k : Text) (c : ℕ) (v s : Text)
    → All IsPlainByte (c ∷ v)
    → read_settings (start k) (c ∷ v ++ b' ' ∷ s)
      ≡ with_setting k (reverse (c ∷ v)) (read_settings (keyword []) s)
unfolding read_settings
read-plain k c v s h = ground (arith, read-bare v k (c ∷ []) s h.1)

-- A quoted value.
read-quoted :
    (k v s : Text)
    → read_settings (start k) (dsn_quote v ++ s)
      ≡ with_setting k (reverse v) (read_settings (keyword []) s)
unfolding read_settings dsn_quote
read-quoted k v s =
    ap (λ t. read_settings (quoted k []) t) (append_assoc (dsn_escape v) (39 ∷ []) s)
    ∙ read-dsn_escape v k [] s

turned :
    (k v : Text) (r : Option Settings) (rest : Settings)
    → r ≡ some rest
    → with_setting k (reverse v) r ≡ some ((reverse k, v) ∷ rest)
turned k v r rest e = rw (e, reverse-reverse v) refl

plain-setting :
    (k : Text) (c : ℕ) (v s : Text) (rest : Settings)
    → All IsPlainByte (c ∷ v)
    → read_settings (keyword []) s ≡ some rest
    → read_settings (start k) (c ∷ v ++ b' ' ∷ s) ≡ some ((reverse k, c ∷ v) ∷ rest)
plain-setting k c v s rest h e =
    read-plain k c v s h ∙ turned k (c ∷ v) (read_settings (keyword []) s) rest e

quoted-setting :
    (k v s : Text) (rest : Settings)
    → read_settings (keyword []) s ≡ some rest
    → read_settings (start k) (dsn_quote v ++ s) ≡ some ((reverse k, v) ∷ rest)
quoted-setting k v s rest e = read-quoted k v s ∙ turned k v (read_settings (keyword []) s) rest e

-- From the connection string of `ensureDatabaseExists` the host, the port, the user and the password
-- are read back as they were given, whatever bytes the user and the password hold, if the host and
-- the port are not empty and have no space, quote or backslash; and nothing else is set.
pub parse-root_conn_str :
    (h : ℕ) (host : Text) (p : ℕ) (port user password : Text)
    → All IsPlainByte (h ∷ host)
    → All IsPlainByte (p ∷ port)
    → parse_settings (root_conn_str (h ∷ host) (p ∷ port) user password)
      ≡ some (
          (codes "host", h ∷ host)
          ∷ (codes "port", p ∷ port)
          ∷ (codes "user", user)
          ∷ (codes "password", password)
          ∷ (codes "dbname", codes "postgres")
          ∷ (codes "sslmode", codes "disable")
          ∷ [])
unfolding parse_settings root_conn_str read_settings
parse-root_conn_str h host p port user password k l =
    let after_password = codes " dbname=postgres sslmode=disable" in
    let after_user = codes " password=" ++ (dsn_quote password ++ after_password) in
    let after_port = codes "user=" ++ (dsn_quote user ++ after_user) in
    plain-setting (reverse (codes "host")) h host (codes "port=" ++ (p ∷ port ++ b' ' ∷ after_port))
      _ k
      (plain-setting (reverse (codes "port")) p port after_port _ l (
        quoted-setting (reverse (codes "user")) user after_user _
          (quoted-setting (reverse (codes "password")) password after_password _ refl)))

-- The connection string of `openCloudSQL` sets the user, the password and the database of the
-- configuration, if none of them is empty or has a space, a quote or a backslash.
pub parse-cloud_sql_dsn :
    (d : DbConfig) (u : ℕ) (user : Text) (p : ℕ) (password : Text) (n : ℕ) (name : Text)
    → d.user ≡ u ∷ user
    → d.password ≡ p ∷ password
    → d.name ≡ n ∷ name
    → All IsPlainByte (u ∷ user)
    → All IsPlainByte (p ∷ password)
    → All IsPlainByte (n ∷ name)
    → parse_settings (cloud_sql_dsn d)
      ≡ some (
          (codes "user", d.user)
          ∷ (codes "password", d.password)
          ∷ (codes "dbname", d.name)
          ∷ (codes "sslmode", codes "disable")
          ∷ [])
unfolding parse_settings cloud_sql_dsn read_settings
parse-cloud_sql_dsn d u user p password n name e f g h k l =
    let after_name = codes "sslmode=disable" in
    let after_password = codes "dbname=" ++ (n ∷ name ++ b' ' ∷ after_name) in
    rw (e, f, g)
      (plain-setting (reverse (codes "user")) u user
        (codes "password=" ++ (p ∷ password ++ b' ' ∷ after_password)) _ h
        (plain-setting (reverse (codes "password")) p password after_password _ k
          (plain-setting (reverse (codes "dbname")) n name after_name _ l refl)))

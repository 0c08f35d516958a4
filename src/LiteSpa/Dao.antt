-- ===== src/LiteSpa/Dao.antt =====
-- litespaserver/dao.go: the row of the frontend version. The table is a list of rows; `read_fails`
-- and `write_fails` tell which queries fail at the moment, and an error is `none`.
pub mod Segments
pub mod Keys
use orcacommon.Common.{
  ℕ, leb, ◌==◌, ◌&&◌, ◌||◌, not, if◌then◌else◌, Bool, true, false, Option, none, some, List, [],
  ◌∷◌, ◌++◌, is_empty, all,
}
use orcacommon.Common.Text.{Text, codes, contains, has_prefix, has_suffix, trim_space}
use orcacommon.LiteSpa.Cache.{lookup, insert}

abbrev pub setting_version_key : Text
setting_version_key = codes "frontend.version"

-- A character of `validFrontendName`, which wants one or more.
unfoldable pub is_name_char : ℕ → Bool
is_name_char c =
    (leb b'a' c && leb c b'z')
    || (leb b'A' c && leb c b'Z')
    || (leb b'0' c && leb c b'9')
    || (c == b'_')
    || (c == b'.')
    || (c == b'-')

unfoldable pub is_valid_name : Text → Bool
is_valid_name name =
    not (is_empty name)
    && all is_name_char name
    && not (contains name (codes ".."))
    && not (has_prefix name (codes "."))
    && not (has_suffix name (codes "."))

-- `versionKey`; the panic on an invalid name is `none`.
unfoldable pub version_key : Text → Option Text
version_key frontend_name =
    let name = trim_space frontend_name in
    if is_empty name
    then some setting_version_key
    else if is_valid_name name
    then some (setting_version_key ++ b'.' ∷ name)
    else none

pub record Db : Type 0 where
  pub rows : List (Text × Text)
  pub read_fails : Bool
  pub write_fails : Bool

-- `getVersion`: the empty text if there is no row.
unfoldable pub get_version : Db → Text → Option Text
get_version db key =
    if db.read_fails then none else elim (lookup key db.rows) [ none ↦ some [] | some v ↦ some v ]

-- `setVersion`: an upsert.
unfoldable pub set_row : Db → Text → Text → Option Db
set_row db key version =
    if db.write_fails then none else some (record db { rows = insert key version db.rows })

-- ===== src/Pool/Dsn.antt =====
-- postgres/pool.go: the connection strings of keywords and values, and `ensureDatabaseExists`.
pub mod Reader
use orcacommon.Common.{
  ◌==◌, ◌||◌, if◌then◌else◌, Bool, true, false, Option, none, some, [], ◌∷◌, ◌++◌,
}
use orcacommon.Common.Text.{Text, codes}
use orcacommon.DbConfig.{DbConfig}
use orcacommon.Migrate.Dir.{quote_ident}

-- Backslashes and single quotes get a backslash.
unfoldable pub dsn_escape : Text → Text
dsn_escape [] = []
dsn_escape (c ∷ s) =
    let rest = dsn_escape s in if (c == 92) || (c == 39) then 92 ∷ c ∷ rest else c ∷ rest

-- `dsnQuote`.
unfoldable pub dsn_quote : Text → Text
dsn_quote v = 39 ∷ dsn_escape v ++ 39 ∷ []

-- The connection to the database "postgres"; `port` is its text.
unfoldable pub root_conn_str : Text → Text → Text → Text → Text
root_conn_str host port user password =
    codes "host="
    ++ (host
        ++ (codes " port="
            ++ (port
                ++ (codes " user="
                    ++ (dsn_quote user
                        ++ (codes " password="
                            ++ (dsn_quote password
                                ++ codes " dbname=postgres sslmode=disable")))))))

-- The connection string of `openCloudSQL`.
unfoldable pub cloud_sql_dsn : DbConfig → Text
cloud_sql_dsn d =
    codes "user="
    ++ (d.user
        ++ (codes " password="
            ++ (d.password ++ (codes " dbname=" ++ (d.name ++ codes " sslmode=disable")))))

-- The calls of package database/sql: `none` and `false` are errors.
pub record Sql (S : Type 0) : Type 0 where
  pub open_db : Text → S → Bool × S
  pub database_exists : Text → S → Option Bool × S
  pub exec : Text → S → Bool × S
  pub close : S → S

unfoldable pub create_database : Text → Text
create_database name = codes "CREATE DATABASE " ++ quote_ident name

module _ {S : Type 0} (sql : Sql S) where
  unfoldable pub create_if_missing : Text → S → Bool × S
  create_if_missing name s =
      let (found, t) = sql.database_exists name s in
      elim found [
        | none ↦ (false, t)
        | some there ↦ elim there [ true ↦ (true, t) | false ↦ sql.exec (create_database name) t ]
      ]

  -- `ensureDatabaseExists`: whether it returned without an error.
  unfoldable pub ensure_database_exists : Text → Text → Text → Text → Text → S → Bool × S
  ensure_database_exists host port user password name s =
      let (opened, t) = sql.open_db (root_conn_str host port user password) s in
      elim opened [
        | false ↦ (false, t)
        | true ↦ let (ok, u) = create_if_missing name t in (ok, sql.close u)
      ]

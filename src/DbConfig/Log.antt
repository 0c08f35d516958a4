-- ===== src/DbConfig/Log.antt =====
-- postgres/dbconfig.go: `DBConfig.LogValue`, which redacts the password.
use orcacommon.Common.{ℕ, ◌≡◌, refl, List, [], ◌∷◌, String}
use orcacommon.Common.Text.{Text, codes}
use orcacommon.DbConfig.{DbConfig}

pub data Attribute : Type 0 where
  of_text : String → Text → Attribute
  of_number : String → ℕ → Attribute

unfoldable pub config_log_value : DbConfig → List Attribute
config_log_value d =
    of_text "host" d.host
    ∷ of_number "port" d.port
    ∷ of_text "user" d.user
    ∷ of_text "password" (codes "[REDACTED]")
    ∷ of_text "name" d.name
    ∷ of_text "cloud_sql_instance" d.cloud_sql_instance
    ∷ of_text "migration_schema" d.migration_schema
    ∷ of_text "url_template" d.database_url_template
    ∷ []

-- What is logged of a configuration does not depend on its password.
config_log_value-redacted :
    (d : DbConfig) (password : Text)
    → config_log_value (record d { password = password }) ≡ config_log_value d
unfolding config_log_value
config_log_value-redacted d password = refl

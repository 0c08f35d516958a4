-- ===== src/DbConfig/Tests.antt =====
-- The URL of a sample, and the theorems about it at the sample.
use orcacommon.Common.{◌≡◌, refl, true, false, []}
use orcacommon.Common.Text.{codes, has_prefix}
use orcacommon.DbConfig.{
  DbConfig, query_escape, match_here, replace_all, replacements, resolve_url, is_embedded_postgres,
  is_test_container,
}
use orcacommon.DbConfig.Url.{default_template}

abbrev config : DbConfig
config = record {
  host = codes "localhost";
  port = 5432;
  user = codes "[host]";
  password = codes "p w@/";
  name = codes "app";
  cloud_sql_instance = [];
  migration_schema = codes "public";
  database_url_template = default_template;
}

-- A space in the password becomes a plus sign.
url_test : resolve_url config ≡ codes "postgres:tc://[host]:p+w%40%2F@localhost:5432/app"
unfolding resolve_url replace_all match_here replacements has_prefix query_escape
url_test = refl

kind_tests :
    (is_test_container (resolve_url config) ≡ true)
    × (is_embedded_postgres (resolve_url config) ≡ false)
unfolding is_test_container is_embedded_postgres resolve_url replace_all match_here replacements
    has_prefix query_escape
kind_tests = (refl, refl)

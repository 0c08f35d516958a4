-- ===== src/Pool/Tests.antt =====
-- Connections and stopped servers on concrete hosts.
use orcacommon.Common.{ℕ, ◌≡◌, refl, Bool, true, false, none, some, List, [], ◌∷◌, arith}
use orcacommon.Common.Text.{Text, codes, has_prefix, trim_prefix, cut}
use orcacommon.Common.Word.{pos}
use orcacommon.DbConfig.{DbConfig}
use orcacommon.EmbeddedPg.Process.{
  Event, made, removed, command, signalled, alive, sigterm, log_closed,
}
use orcacommon.EmbeddedPg.Signals.{guarded, IsGuarded}
use orcacommon.EmbeddedPg.Tests.{host, idle, runs}
use orcacommon.Pool.Dsn.{Sql, root_conn_str, cloud_sql_dsn}
use orcacommon.Pool.Dsn.Reader.{read_settings, parse_settings, parse-root_conn_str}
use orcacommon.Pool.Options.{
  EmbeddedOptions, parse_embedded_options, image_name, before_colon, cut_or_all,
}
use orcacommon.Pool.Options.Query.{embedded_url, parse_embedded_options-embedded_url}
use orcacommon.Pool.Stop.{
  Instance, remove_path, terminate, send_postgres_sigterm, gone_by_process, gone_by_pid_file,
  is_gone, await_stop, force_kill, still_running, remove_if, close_log_file, clean_up,
  stop_with_force_kill,
}
use orcacommon.Pool.Stop.Guarded.{stop_with_force_kill-IsGuarded}
use orcacommon.Pool.Stop.Removal.{careful, IsCareful, stop_with_force_kill-IsCareful}
use orcacommon.Pool.Connect.{
  Host, instance_of, without, embedded_runtime_path, make_temp_dir, make_runtime_dir, discard,
  close_log,
}
use orcacommon.Pool.Connect.Embedded.{
  read_pid, start_server, open_log, probe_path, make_data_path, make_runtime, choose_path,
  start_embedded,
}
use orcacommon.Pool.Connect.Clean.{is_left}
use orcacommon.Pool.Connect.Open.{Conn, register_server, adopt_server, open_located}

stops : Unit {0}
unfolding runs remove_path terminate send_postgres_sigterm gone_by_process gone_by_pid_file is_gone
    await_stop force_kill still_running remove_if close_log_file clean_up stop_with_force_kill
    careful
stops = tt

abbrev server : Instance
server = record {
  pid = pos 77;
  data_path = codes "/d";
  owns_data_path = true;
  runtime_path = codes "/r";
  has_log_file = true;
}

-- The server ends by SIGTERM, and then its files are removed.
stops_server :
    (stop_with_force_kill (host false) server idle).1
    ≡ removed (codes "/d")
      ∷ removed (codes "/r")
      ∷ log_closed
      ∷ removed (codes "/d/postmaster.pid")
      ∷ alive (pos 77) false
      ∷ alive (pos 77) false
      ∷ signalled sigterm (pos 77)
      ∷ command (pos 77) (some (codes "/usr/bin/postgres"))
      ∷ []
unfolding stops
stops_server = refl

stop_with_force_kill-IsGuarded_example : IsGuarded (stop_with_force_kill (host true) server idle).1
unfolding guarded
stop_with_force_kill-IsGuarded_example = stop_with_force_kill-IsGuarded (host true) server idle refl

stop_with_force_kill-IsCareful_example :
    IsCareful server.pid (stop_with_force_kill (host false) server idle).1
unfolding careful
stop_with_force_kill-IsCareful_example =
    stop_with_force_kill-IsCareful (host false) server idle refl refl

-- A machine on which servers start or not.
abbrev machine : Bool → Host ℕ
machine starts = record {
  temp_root = codes "/tmp";
  is_shutting_down = λ s. (false, s);
  free_port = λ s. (some 5433, s);
  make_temp = λ s. (some (codes "/tmp/pg1"), s);
  make_dir = λ path s. (true, s);
  create_file = λ path s. (true, s);
  start = λ setup path runtime s. (starts, s);
  stop = λ s. s;
  new_pool = λ url s. (none, s);
  start_container = λ image s. (some 1, s);
  container_host = λ i s. (some (codes "h"), s);
  container_port = λ i s. (some (codes "5432"), s);
  terminate_container = λ i s. s;
  attach_container = λ key i s. s;
}

connects : Unit {0}
unfolding stops instance_of without embedded_runtime_path make_temp_dir make_runtime_dir discard
    close_log read_pid start_server open_log probe_path make_data_path make_runtime choose_path
    start_embedded is_left register_server adopt_server open_located
connects = tt

abbrev at_path : Text → EmbeddedOptions
at_path path = record { data_path = path; db_user = []; db_password = []; db_name = [] }

cleans_up :
    (start_embedded (host false) (machine false) (at_path []) (codes "k") idle).1.1
    ≡ removed (codes "/tmp/pg1")
      ∷ removed (codes "/tmp/orcacommon-embedded-pg/k")
      ∷ log_closed
      ∷ removed (codes "/tmp/pg1/.orcacommon-probe")
      ∷ made (codes "/tmp/orcacommon-embedded-pg/k")
      ∷ made (codes "/tmp/pg1")
      ∷ []
unfolding connects
cleans_up = refl

abbrev runtime_left : List Event
runtime_left = made (codes "/tmp/pg1") ∷ []

abbrev database : Sql ℕ
database = record {
  open_db = λ url s. (true, s);
  database_exists = λ name s. (some true, s);
  exec = λ sql s. (true, s);
  close = λ s. s;
}

abbrev registered : Conn ℕ
registered = record { instances = (codes "k", server) ∷ []; state = idle }

-- A server that is replaced under its key takes the runtime directory of the new one with it.
abbrev successor : Instance
successor = record {
  pid = pos 78;
  data_path = codes "/e";
  owns_data_path = false;
  runtime_path = codes "/r";
  has_log_file = true;
}

removes_runtime :
    is_left
      (codes "/r")
      (register_server (host false) (machine true) database (codes "k") successor (record {
        instances = (codes "k", server) ∷ [];
        state = (0, made (codes "/r") ∷ []);
      })).state.1
    ≡ false
unfolding connects
removes_runtime = refl

abbrev options : EmbeddedOptions
options = record {
  data_path = codes "/a b";
  db_user = codes "u&v";
  db_password = codes "p;=%";
  db_name = codes "n";
}

parse_embedded_options-embedded_url_example :
    parse_embedded_options (embedded_url options) ≡ options
parse_embedded_options-embedded_url_example =
    parse_embedded_options-embedded_url options
      (omega arith, (omega arith, (omega arith, (omega arith, tt))))
      (omega arith, (omega arith, (omega arith, tt)))
      (omega arith, (omega arith, (omega arith, (omega arith, tt)))) (omega arith, tt)

parse-root_conn_str_example :
    parse_settings (root_conn_str (codes "127.0.0.1") (codes "5432") (codes "a' b") (codes "c\\d"))
    ≡ some (
        (codes "host", codes "127.0.0.1")
        ∷ (codes "port", codes "5432")
        ∷ (codes "user", codes "a' b")
        ∷ (codes "password", codes "c\\d")
        ∷ (codes "dbname", codes "postgres")
        ∷ (codes "sslmode", codes "disable")
        ∷ [])
parse-root_conn_str_example =
    parse-root_conn_str b'1' (codes "27.0.0.1") b'5' (codes "432") (codes "a' b") (codes "c\\d")
      (refl, (refl, (refl, (refl, (refl, (refl, (refl, (refl, (refl, tt)))))))))
      (refl, (refl, (refl, (refl, tt))))

abbrev cloud_config : Text → DbConfig
cloud_config password = record {
  host = [];
  port = 0;
  user = codes "u";
  password = password;
  name = codes "n";
  cloud_sql_instance = codes "i";
  migration_schema = [];
  database_url_template = [];
}

parses : Unit {0}
unfolding read_settings parse_settings cloud_sql_dsn image_name before_colon cut_or_all cut
    has_prefix trim_prefix
parses = tt

-- The connection string of `openCloudSQL` with a space in the password cannot be read.
breaks_dsn :
    parse_settings (cloud_sql_dsn (cloud_config (codes "a b")))
    ≡ some (
        (codes "user", codes "u")
        ∷ (codes "password", codes "a")
        ∷ (codes "bdbname", codes "n")
        ∷ (codes "sslmode", codes "disable")
        ∷ [])
unfolding parses
breaks_dsn = refl

-- The tag of the image is lost.
loses_tag : image_name (codes "postgres:tc::16.1") ≡ codes "postgres:"
unfolding parses
loses_tag = refl

-- ===== src/Pool/Connect/Open.antt =====
-- postgres/pool.go: `Connect` as a whole, and `openCloudSQL`.
pub mod Unregistered
use orcacommon.Common.{
  ℕ, suc, ◌&&◌, ◌||◌, not, if◌then◌else◌, Bool, true, false, Option, none, some, List, [], ◌∷◌,
  ◌++◌, is_empty,
}
use orcacommon.Common.Text.{Text, codes}
use orcacommon.Common.Word.{ℤ, pos, negsuc}
use orcacommon.DbConfig.{DbConfig, resolve_url, is_embedded_postgres, is_test_container}
use orcacommon.EmbeddedPg.Decimal.{itoa}
use orcacommon.EmbeddedPg.Process.{System, State, check_pid_file, reuse_embedded_pg}
use orcacommon.Pool.Dsn.{Sql, ensure_database_exists, cloud_sql_dsn}
use orcacommon.Pool.Options.{
  EmbeddedOptions, parse_embedded_options, with_defaults, local_url, image_name,
}
use orcacommon.Pool.Stop.{Instance, stop_with_force_kill}
use orcacommon.Pool.Connect.{Host, Instances, instance_of, without, close_log}
use orcacommon.Pool.Connect.Embedded.{Started, failed, up, start_embedded}

-- `embeddedInstances`, and the rest.
pub record Conn (S : Type 0) : Type 0 where
  pub instances : Instances
  pub state : State S

-- The URL to open; the server that was started for it, and the container.
pub data Located : Type 0 where
  refused : Located
  located : Text → Option Instance → Option ℕ → Located

abbrev pub show_int : ℤ → Text
show_int (pos n) = itoa n
show_int (negsuc n) = b'-' ∷ itoa (suc n)

abbrev pub server_url : EmbeddedOptions → Text → Text
server_url o port = local_url o.db_user o.db_password (codes "localhost") port o.db_name

module _ {S : Type 0} (sys : System S) (host : Host S) (sql : Sql S) where
  abbrev pub stop_old : Option Instance → State S → State S
  stop_old none st = st
  stop_old (some i) st = stop_with_force_kill sys i st

  -- The instance is put under the key, and the one that stood there is stopped.
  unfoldable pub register_server : Text → Instance → Conn S → Conn S
  register_server key inst c = record {
    instances = (key, inst) ∷ without key c.instances;
    state = stop_old (instance_of key c.instances) c.state;
  }

  abbrev pub with_state : State S → Conn S → Conn S
  with_state st c = record { instances = c.instances; state = st }

  -- A server that runs already.
  unfoldable pub reuse_server : EmbeddedOptions → Text → ℤ → Conn S → Located × Conn S
  reuse_server o key port c =
      let (s, log) = c.state in
      let (there, t) =
        ensure_database_exists sql (codes "127.0.0.1") (show_int port) o.db_user o.db_password
          o.db_name s in
      elim there [
        | false ↦ (refused, with_state (t, log) c)
        | true ↦
            let (check, (u, log₁)) = check_pid_file sys o.data_path (t, log) in
            let (shutting_down, v) = host.is_shutting_down u in
            elim shutting_down [
              | true ↦ (refused, with_state (v, log₁) c)
              | false ↦ (
                located (server_url o (show_int port)) none none,
                register_server key
                    (record {
                      pid = check.pid;
                      data_path = o.data_path;
                      owns_data_path = false;
                      runtime_path = [];
                      has_log_file = false;
                    })
                    (with_state (v, log₁) c),
              )
            ]
      ]

  abbrev pub without_log : Instance → Instance
  without_log i = record {
    pid = i.pid;
    data_path = i.data_path;
    owns_data_path = i.owns_data_path;
    runtime_path = i.runtime_path;
    has_log_file = false;
  }

  -- A server that was started; if the shutdown has begun meanwhile, it is stopped.
  unfoldable pub adopt_server : EmbeddedOptions → Text → Instance → ℕ → Conn S → Located × Conn S
  adopt_server o key inst port c =
      let (s, log) = c.state in
      let (shutting_down, t) = host.is_shutting_down s in
      elim shutting_down [
        | true ↦ (
          refused,
          with_state (stop_with_force_kill sys (without_log inst) (close_log sys host (t, log))) c,
        )
        | false ↦ (
          located (server_url o (itoa port)) (some inst) none,
          register_server key inst (with_state (t, log) c),
        )
      ]

  unfoldable pub provision_new : EmbeddedOptions → Text → Conn S → Located × Conn S
  provision_new o key c =
      let (started, st) = start_embedded sys host o key c.state in
      elim started [
        | failed ↦ (refused, with_state st c)
        | up inst port ↦ adopt_server o key inst port (with_state st c)
      ]

  unfoldable pub provision : EmbeddedOptions → Text → Conn S → Located × Conn S
  provision o key c =
      let (running, st) = reuse_embedded_pg sys o.data_path c.state in
      elim running [
        | some port ↦ reuse_server o key port (with_state st c)
        | none ↦ provision_new o key (with_state st c)
      ]

  -- The branch of `Connect` for an embedded server.
  unfoldable pub locate_embedded : Text → Text → Conn S → Located × Conn S
  locate_embedded db_url key c =
      let (s, log) = c.state in
      let (shutting_down, t) = host.is_shutting_down s in
      elim shutting_down [
        | true ↦ (refused, with_state (t, log) c)
        | false ↦
            provision (with_defaults (parse_embedded_options db_url)) key (with_state (t, log) c)
      ]

  abbrev pub container_url : Text → Text → Text
  container_url name port = local_url (codes "test") (codes "test") name port (codes "test")

  -- The address of a container; it is terminated where it has none.
  unfoldable pub address_of : Text → ℕ → S → Located × S
  address_of key container s =
      let (name, t) = host.container_host container s in
      elim name [
        | none ↦ (refused, host.terminate_container container t)
        | some n ↦
            let (port, u) = host.container_port container t in
            elim port [
              | none ↦ (refused, host.terminate_container container u)
              | some p ↦ (
                located (container_url n p) none (some container),
                host.attach_container key container u,
              )
            ]
      ]

  -- The branch of `Connect` for a test container.
  unfoldable pub locate_container : Text → Text → Conn S → Located × Conn S
  locate_container db_url key c =
      let (s, log) = c.state in
      let (container, t) = host.start_container (image_name db_url) s in
      elim container [
        | none ↦ (refused, with_state (t, log) c)
        | some i ↦ let (l, u) = address_of key i t in (l, with_state (u, log) c)
      ]

  unfoldable pub locate : Text → Text → Conn S → Located × Conn S
  locate db_url key c =
      if is_embedded_postgres db_url
      then locate_embedded db_url key c
      else if is_test_container db_url
      then locate_container db_url key c
      else (located db_url none none, c)

  abbrev pub stop_started : Text → Option Instance → Conn S → Conn S
  stop_started key none c = c
  stop_started key (some mine) c = elim (instance_of key c.instances) [
    | some i ↦ record {
      instances = without key c.instances;
      state = stop_with_force_kill sys i c.state;
    }
    | none ↦ record { instances = c.instances; state = stop_with_force_kill sys mine c.state }
  ]

  abbrev pub terminate_started : Option ℕ → Conn S → Conn S
  terminate_started none c = c
  terminate_started (some i) c =
      with_state (let (s, log) = c.state in (host.terminate_container i s, log)) c

  -- The pool; where it cannot be opened, what was started for it is stopped.
  unfoldable pub open_located :
      Text → Text → Option Instance → Option ℕ → Conn S → Option ℕ × Conn S
  open_located key url inst container c =
      let (s, log) = c.state in
      let (pool, t) = host.new_pool url s in
      elim pool [
        | some p ↦ (some p, with_state (t, log) c)
        | none ↦ (none, terminate_started container (stop_started key inst (with_state (t, log) c)))
      ]

  -- `Connect`.
  unfoldable pub connect : Text → Text → Conn S → Option ℕ × Conn S
  connect db_url key c =
      let (l, d) = locate db_url key c in
      elim l [
        | refused ↦ (none, d)
        | located url inst container ↦ open_located key url inst container d
      ]

-- The calls of `openCloudSQL`: a dialer is a number, and `attach` makes its closing a resource of the
-- entry.
pub record Cloud (S : Type 0) : Type 0 where
  pub new_dialer : S → Option ℕ × S
  pub attach : ℕ → S → S
  pub parse_config : Text → S → Option Text × S
  pub new_pool_with : Text → ℕ → Text → S → Option ℕ × S

unfoldable pub open_cloud_pool : {S : Type 0} → Cloud S → DbConfig → ℕ → S → Option ℕ × S
open_cloud_pool cloud d dialer s =
    let (config, t) = cloud.parse_config (cloud_sql_dsn d) s in
    elim config [
      | none ↦ (none, t)
      | some parsed_config ↦ cloud.new_pool_with parsed_config dialer d.cloud_sql_instance t
    ]

-- `openCloudSQL`.
unfoldable pub open_cloud_sql : {S : Type 0} → Cloud S → DbConfig → S → Option ℕ × S
open_cloud_sql cloud d s =
    let (dialer, t) = cloud.new_dialer s in
    elim dialer [ none ↦ (none, t) | some i ↦ open_cloud_pool cloud d i (cloud.attach i t) ]

-- What `resolvePool` does to create a pool: by the Cloud SQL connector if it is configured, otherwise
-- from the URL.
unfoldable pub create_pool :
    {S : Type 0}
    → System S
    → Host S
    → Sql S
    → Cloud S
    → DbConfig
    → Text
    → Conn S
    → Option ℕ × Conn S
create_pool sys host sql cloud d key c = elim (is_empty d.cloud_sql_instance) [
  | true ↦ connect sys host sql (resolve_url d) key c
  | false ↦
      let (s, log) = c.state in
      let (pool, t) = open_cloud_sql cloud d s in
      (pool, record { instances = c.instances; state = (t, log) })
]

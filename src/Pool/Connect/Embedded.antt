-- ===== src/Pool/Connect/Embedded.antt =====
-- postgres/pool.go: starting an embedded server in `Connect`, with the clean-up of each error.
use orcacommon.Common.{ℕ, ◌||◌, not, Bool, true, false, none, some, ◌∷◌, ◌++◌, is_empty}
use orcacommon.Common.Text.{Text, codes}
use orcacommon.EmbeddedPg.Process.{made, System, State, is_pos, check_pid_file}
use orcacommon.Pool.Options.{EmbeddedOptions}
use orcacommon.Pool.Stop.{Instance, remove_path, remove_if}
use orcacommon.Pool.Connect.{
  Host, Setup, embedded_runtime_path, make_temp_dir, make_runtime_dir, discard, close_log,
}

-- `up` has the instance as it is registered, and the port.
pub data Started : Type 0 where
  failed : Started
  up : Instance → ℕ → Started

module _ {S : Type 0} (sys : System S) (host : Host S) where
  -- The PID of the server that was started.
  unfoldable pub read_pid : Setup → Bool → Text → Text → State S → Started × State S
  read_pid setup owns path runtime st =
      let (check, (t, log)) = check_pid_file sys path st in
      elim (check.has_error || not (is_pos check.pid)) [
        | true ↦
            (failed, discard sys host owns path runtime (close_log sys host (host.stop t, log)))
        | false ↦ (
          up
              (record {
                pid = check.pid;
                data_path = path;
                owns_data_path = owns;
                runtime_path = runtime;
                has_log_file = true;
              })
              setup.port,
          (t, log),
        )
      ]

  -- The start within the time limit.
  unfoldable pub start_server : Setup → Bool → Text → Text → State S → Started × State S
  start_server setup owns path runtime (s, log) =
      let (ok, t) = host.start setup path runtime s in
      elim ok [
        | false ↦ (failed, discard sys host owns path runtime (close_log sys host (t, log)))
        | true ↦ read_pid setup owns path runtime (t, log)
      ]

  -- The log file of the server.
  unfoldable pub open_log : Setup → Bool → Text → Text → State S → Started × State S
  open_log setup owns path runtime (s, log) =
      let (ok, t) = host.create_file (path ++ codes "/embedded-postgres.log") s in
      elim ok [
        | false ↦ (failed, discard sys host owns path runtime (t, log))
        | true ↦ start_server setup owns path runtime (t, log)
      ]

  -- The probe whether the data path can be written.
  unfoldable pub probe_path : Setup → Bool → Text → Text → State S → Started × State S
  probe_path setup owns path runtime (s, log) =
      let probe = path ++ codes "/.orcacommon-probe" in
      let (ok, t) = host.create_file probe s in
      elim ok [
        | false ↦ (failed, discard sys host owns path runtime (t, log))
        | true ↦ open_log setup owns path runtime (remove_path sys probe (t, log))
      ]

  -- A data path of the caller may not exist yet, and is made then.
  unfoldable pub make_data_path : Setup → Bool → Text → Text → State S → Started × State S
  make_data_path setup true path runtime st = probe_path setup true path runtime st
  make_data_path setup false path runtime (s, log) =
      let (ok, t) = host.make_dir path s in
      elim ok [
        | false ↦ (failed, remove_path sys runtime (t, log))
        | true ↦ probe_path setup false path runtime (t, made path ∷ log)
      ]

  unfoldable pub make_runtime : Setup → Bool → Text → Text → State S → Started × State S
  make_runtime setup owns path runtime st =
      let (ok, t) = make_runtime_dir sys host runtime st in
      elim ok [
        | false ↦ (failed, remove_if sys owns path t)
        | true ↦ make_data_path setup owns path runtime t
      ]

  -- Without a data path, a temporary directory is made.
  unfoldable pub choose_path : Setup → Text → Text → State S → Started × State S
  choose_path setup path runtime st = elim (is_empty path) [
    | false ↦ make_runtime setup false path runtime st
    | true ↦
        let (temp, t) = make_temp_dir sys host st in
        elim temp [ none ↦ (failed, t) | some p ↦ make_runtime setup true p runtime t ]
  ]

  -- A new server at the data path.
  unfoldable pub start_embedded : EmbeddedOptions → Text → State S → Started × State S
  start_embedded o key (s, log) =
      let (port, t) = host.free_port s in
      elim port [
        | none ↦ (failed, (t, log))
        | some p ↦
            choose_path (record { port = p; options = o }) o.data_path
              (embedded_runtime_path host.temp_root key) (t, log)
      ]
